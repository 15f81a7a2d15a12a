-- ===== src/Shop/Kitchen/Invariant/Receive.antt =====
-- What the manager does with one text of the client.
use system_related_in_c.Base.{
  ℕ, suc, ◌<◌, ◌≡◌, sym, dec_lt, ap, ◌∙◌, ◌⊎◌, inl, inr, true, false, Bool-cases, Option, none,
  some, List, [], ◌∷◌, ◌++◌, arith, length,
}
use system_related_in_c.Grades.Text.{Str, codes, same, tokens, until_nul}
use system_related_in_c.Shop.Kitchen.{Shared, Order, Status, accepted}
use system_related_in_c.Shop.Kitchen.Manager.{
  ManagerPc, manager_step, receive, fill_slot, received, filled,
}

-- The first text is DONE, or it fills the next slot.
pub receiving-cases :
    (blank : Order) (s u : Shared) (bytes : Str) (rest rest' : List Str) (c : ℕ) (m' : ManagerPc)
    → manager_step blank s (bytes ∷ rest) (ManagerPc.receiving c) ≡ some (u, rest', m')
    → ((same (until_nul bytes) (codes "DONE") ≡ true)
        × (some (record s { order_counter_global = c; cook_counter = c }) ≡ some u)
        × (rest ≡ rest')
        × (ManagerPc.collecting 0 ≡ m'))
      ⊎ ((same (until_nul bytes) (codes "DONE") ≡ false)
          × (receive blank s c (until_nul bytes) ≡ some u)
          × (rest ≡ rest')
          × (ManagerPc.receiving (suc c) ≡ m'))
unfolding manager_step
receiving-cases blank s u bytes rest rest' c m' e =
    elim (Bool-cases (same (until_nul bytes) (codes "DONE"))) [
      | inl is ↦ inl (is, ground arith, ground arith, ground arith)
      | inr is ↦
          let r = received-cases (receive blank s c (until_nul bytes)) (ground arith) in
          inr (is, r.0, r.1, r.2)
    ]
  where
    received-cases :
        (x : Option Shared)
        → received x rest c ≡ some (u, rest', m')
        → (x ≡ some u) × (rest ≡ rest') × (ManagerPc.receiving (suc c) ≡ m')
    received-cases none h = ground arith
    received-cases (some v) h = ground arith

-- The texts that are still to come are those of these orders, in messages of their own, and DONE.
pub data IsScript (blank : Order) : List Order → List Str → Type 0 where
  done :
      (bytes : Str) (rest : List Str)
      → same (until_nul bytes) (codes "DONE") ≡ true
      → IsScript blank [] (bytes ∷ rest)
  more :
      (o : Order) (os : List Order) (bytes : Str) (rest : List Str)
      → same (until_nul bytes) (codes "DONE") ≡ false
      → ((n : ℕ) → fill_slot (tokens b',' (until_nul bytes)) blank n ≡ some (o, suc n))
      → o.status ≡ Status.waiting
      → IsScript blank os rest
      → IsScript blank (o ∷ os) (bytes ∷ rest)

-- An order in a message of its own goes behind those that are there.
pub receive-order :
    (blank : Order) (s : Shared) (text : Str) (o : Order)
    → ((n : ℕ) → fill_slot (tokens b',' text) blank n ≡ some (o, suc n))
    → length s.orders < 100
    → receive blank s (length s.orders) text
      ≡ some (record s {
        orders = s.orders ++ o ∷ [];
        order_counter_global = suc s.order_counter_global;
        sent = s.sent ++ accepted ∷ [];
      })
unfolding receive
receive-order blank s text o fills room =
    ap (filled s (length s.orders)) (fills s.order_counter_global) ∙ ground arith

-- It is the only way to go on: behind MAX_ORDER the slots end.
pub receive-inv :
    (blank : Order) (s u : Shared) (c : ℕ) (text : Str) (o : Order)
    → ((n : ℕ) → fill_slot (tokens b',' text) blank n ≡ some (o, suc n))
    → c ≡ length s.orders
    → receive blank s c text ≡ some u
    → some (record s {
      orders = s.orders ++ o ∷ [];
      order_counter_global = suc s.order_counter_global;
      sent = s.sent ++ accepted ∷ [];
    })
      ≡ some u
unfolding receive
receive-inv blank s u c text o fills at e = elim (dec_lt c 100) [
  | yes room ↦
      sym (receive-order blank s text o fills (omega arith))
      ∙ ap (λ n. receive blank s n text) (sym at)
      ∙ e
  | no full ↦ absurd (ground (arith, ap (filled s c) (sym (fills s.order_counter_global)) ∙ e))
]
