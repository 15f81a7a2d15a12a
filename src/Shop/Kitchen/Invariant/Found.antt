-- ===== src/Shop/Kitchen/Invariant/Found.antt =====
-- What the searches of the manager and of the riders find.
use mathlib.Core.Option.{some-injective}
use system_related_in_c.Base.{
  ℕ, suc, ◌+◌, ◌≡◌, refl, sym, ap, ◌∙◌, inl, inr, Bool, true, ◌&&◌, Bool-cases, none, some, List,
  [], ◌∷◌, arith, get_elem?, total,
}
use system_related_in_c.Base.Int.{ℤ, eq_ℤ, eq_ℤ-sound}
use system_related_in_c.Shop.Kitchen.{Order, is_cooked, find_order, find_cooked}
use system_related_in_c.Shop.Kitchen.Invariant.Accounts.{is, cooked_w}

-- What is found has the number, and where nothing is found no cooked order has it.
pub find_order_sound :
    (d : ℤ) (j : ℕ) (os : List Order) (i : ℕ) (o : Order)
    → find_order d j os ≡ some (i, o)
    → o.order_id ≡ d
unfolding find_order
find_order_sound d j [] i o e = ground arith
find_order_sound d j (q ∷ os) i o e = elim (Bool-cases (eq_ℤ q.order_id d)) [
  | inl same ↦
      sym (ap (λ r. r.1.order_id) (some-injective _ _ (rw same at e)))
      ∙ eq_ℤ-sound q.order_id d same
  | inr other ↦ find_order_sound d (suc j) os i o (rw other at e)
]

pub find_order-none :
    (d : ℤ) (j : ℕ) (os : List Order) → find_order d j os ≡ none → total (cooked_w (is d)) os ≡ 0
unfolding find_order
find_order-none d j [] e = refl
find_order-none d j (q ∷ os) e = ground (arith, find_order-none d (suc j) os)

pub find_cooked-none :
    (d : ℤ) (j : ℕ) (os : List Order) → find_cooked d j os ≡ none → total (cooked_w (is d)) os ≡ 0
unfolding find_cooked
find_cooked-none d j [] e = refl
find_cooked-none d j (q ∷ os) e = ground (arith, find_cooked-none d (suc j) os)

&&-true : (a b : Bool) → (a && b) ≡ true → (a ≡ true) × (b ≡ true)
&&-true a b e = ground arith

pub find_cooked_sound :
    (d : ℤ) (j : ℕ) (os : List Order) (i : ℕ) (o : Order)
    → find_cooked d j os ≡ some (i, o)
    → (n : ℕ) × (i ≡ j + n)
      × (get_elem? os n ≡ some o)
      × (o.order_id ≡ d)
      × (is_cooked o.status ≡ true)
unfolding find_cooked
find_cooked_sound d j [] i o e = ground arith
find_cooked_sound d j (q ∷ os) i o e = elim (Bool-cases (eq_ℤ q.order_id d && is_cooked q.status)) [
  | inl same ↦
      let g = some-injective (j, q) (i, o) (rw same at e) in
      let both = &&-true (eq_ℤ q.order_id d) (is_cooked q.status) same in
      (
        0,
        omega (arith, ap (λ r. r.0) g),
        ap (λ r. some r.1) g,
        sym (ap (λ r. r.1.order_id) g) ∙ eq_ℤ-sound q.order_id d both.0,
        sym (ap (λ r. is_cooked r.1.status) g) ∙ both.1,
      )
  | inr other ↦
      let r = find_cooked_sound d (suc j) os i o (rw other at e) in
      (suc r.0, omega (arith, r.1), r.2, r.3, r.4)
]
