-- ===== src/Shop/Kitchen/Invariant/ManagerStep.antt =====
-- A step of the manager keeps the invariant.
use mathlib.Core.Option.{some-injective}
use system_related_in_c.Base.{
  ℕ, zero, suc, ◌≡◌, refl, sym, ap, ◌∙◌, subst, inl, inr, some, List, [], ◌∷◌, arith, take,
  Option-cases, ℕ_discrete, ==_iff, dec_lt, lt→ltb, ==_ne,
}
use system_related_in_c.Base.Int.{ℤ}
use system_related_in_c.Grades.Text.{Str, until_nul}
use system_related_in_c.Shop.Kitchen.{Shared, Order, find_order, wait}
use system_related_in_c.Shop.Kitchen.Cooks.{CookPc}
use system_related_in_c.Shop.Kitchen.Riders.{RiderPc}
use system_related_in_c.Shop.Kitchen.Manager.{
  ManagerPc, manager_step, place, poll, count_down, with_rest,
}
use system_related_in_c.Shop.Kitchen.Invariant.Receive.{
  IsScript, done, more, receiving-cases, receive-inv,
}
use system_related_in_c.Shop.Kitchen.Invariant.Found.{find_order_sound}
use system_related_in_c.Shop.Kitchen.Invariant.Manager.{Inv, sys}
use system_related_in_c.Shop.Kitchen.Invariant.ManagerMoves.{
  received-Inv, done-Inv, ended-Inv, quiet-Inv, holding-Inv, token-Inv, placed-Inv, placing-found,
}

module _ {blank : Order} {all : List Order} (sh : Shared) (cs : List CookPc)
    (rs : List RiderPc) where
  -- What follows from a step that is known.
  via :
      {r r' : Shared × List Str × ManagerPc}
      → some r ≡ some r'
      → Inv blank all (sys r.0 cs rs r.2 r.1)
      → Inv blank all (sys r'.0 cs rs r'.2 r'.1)
  via e v = subst (λ r. Inv blank all (sys r.0 cs rs r.2 r.1)) (some-injective _ _ e) v

  module _ (u : Shared) (rest' : List Str) (m' : ManagerPc) where
    receiving-Inv :
        (c : ℕ) (rest : List Str) (future : List Order)
        → IsScript blank future rest
        → manager_step blank sh rest (ManagerPc.receiving c) ≡ some (u, rest', m')
        → (v : Inv blank all (sys sh cs rs (ManagerPc.receiving c) rest)) → v.places.future ≡ future
        → Inv blank all (sys u cs rs m' rest')
    receiving-Inv c rest future (done bytes texts is) e v eq =
        elim (receiving-cases blank sh u bytes texts rest' c m' e) [
          | inl h ↦
              via (rw (h.2, h.3, some-injective _ _ h.1)) (done-Inv sh cs rs c bytes texts v eq)
          | inr h ↦ absurd (ground (arith, h.0))
        ]
    receiving-Inv c rest future (more o os bytes texts not_done fills fresh script) e v eq =
        elim (receiving-cases blank sh u bytes texts rest' c m' e) [
          | inl h ↦ absurd (ground (arith, h.0))
          | inr h ↦
              let got =
                receive-inv blank sh u c (until_nul bytes) o fills
                  (v.places.manager_fresh.0 ∙ v.slots.counter_eq) h.1 in
              via (rw (h.2, h.3, some-injective _ _ got))
                (received-Inv sh cs rs c o os bytes texts fresh v eq script)
        ]

    polling-Inv :
        (c : ℕ) (rest : List Str) (ds : List ℤ)
        → sh.ready_order_queue ≡ ds
        → manager_step blank sh rest (ManagerPc.polling c) ≡ some (u, rest', m')
        → Inv blank all (sys sh cs rs (ManagerPc.polling c) rest)
        → Inv blank all (sys u cs rs m' rest')
    unfolding manager_step
    polling-Inv c rest [] eq e v = via (ap (λ x. with_rest rest (poll sh c x)) (sym eq) ∙ e) (
        quiet-Inv sh cs rs (ManagerPc.polling c) (ManagerPc.asleep c sh.can_consume) rest
          (λ w. refl) refl refl v
          (v.places.manager_fresh.0, v.places.manager_fresh.1, omega arith, λ h. eq))
    polling-Inv c rest (d ∷ ds) eq e v =
        via (ap (λ x. with_rest rest (poll sh c x)) (sym eq) ∙ e)
          (holding-Inv sh cs rs c d ds rest eq v)

    holding-token :
        (c : ℕ) (d : ℤ) (rest : List Str) (n : ℕ)
        → sh.cook_counter ≡ n
        → manager_step blank sh rest (ManagerPc.holding c d) ≡ some (u, rest', m')
        → Inv blank all (sys sh cs rs (ManagerPc.holding c d) rest)
        → Inv blank all (sys u cs rs m' rest')
    unfolding manager_step
    holding-token c d rest zero eq e v = absurd (ground (arith, eq, e))
    holding-token c d rest (suc n) eq e v =
        via (ap (λ x. count_down sh rest c d (wait x)) (sym eq) ∙ e)
          (token-Inv sh cs rs c d n rest eq v)

    placing-Inv :
        (c : ℕ) (d : ℤ) (rest : List Str)
        → manager_step blank sh rest (ManagerPc.placing c d) ≡ some (u, rest', m')
        → Inv blank all (sys sh cs rs (ManagerPc.placing c d) rest)
        → Inv blank all (sys u cs rs m' rest')
    unfolding manager_step
    placing-Inv c d rest e v =
        elim (Option-cases (find_order d 0 (take sh.order_counter_global sh.orders))) [
          | inl missed ↦ absurd (placing-found sh cs rs c d rest v missed)
          | inr ((i, o), found) ↦
              via (ap (λ x. with_rest rest (place sh c x)) (sym found) ∙ e)
                (placed-Inv sh cs rs c d o.order_id rest (find_order_sound d 0 _ i o found) v)
        ]

    pub manager-Inv :
        (m : ManagerPc) (rest : List Str)
        → manager_step blank sh rest m ≡ some (u, rest', m')
        → Inv blank all (sys sh cs rs m rest)
        → Inv blank all (sys u cs rs m' rest')
    unfolding manager_step
    manager-Inv (ManagerPc.receiving c) rest e v =
        receiving-Inv c rest v.places.future v.places.manager_fresh.1 e v refl
    manager-Inv (ManagerPc.collecting c) rest e v = elim (ℕ_discrete c sh.order_counter_global) [
      | yes eq ↦
          let same = (==_iff c sh.order_counter_global).1 eq in
          via (rw same at e) (ended-Inv sh cs rs c rest eq v)
      | no ne ↦ via (rw (==_ne ne) at e) (
          quiet-Inv sh cs rs (ManagerPc.collecting c) (ManagerPc.polling c) rest (λ w. refl) refl
            refl v v.places.manager_fresh)
    ]
    manager-Inv (ManagerPc.polling c) rest e v = polling-Inv c rest sh.ready_order_queue refl e v
    manager-Inv (ManagerPc.asleep c k) rest e v = elim (dec_lt k sh.can_consume) [
      | yes lt ↦ via (rw (lt→ltb lt) at e) (
          quiet-Inv sh cs rs (ManagerPc.asleep c k) (ManagerPc.polling c) rest (λ w. refl) refl refl
            v (v.places.manager_fresh.0, v.places.manager_fresh.1))
      | no ge ↦ absurd (ground arith)
    ]
    manager-Inv (ManagerPc.holding c d) rest e v = holding-token c d rest sh.cook_counter refl e v
    manager-Inv (ManagerPc.placing c d) rest e v = placing-Inv c d rest e v
    manager-Inv ManagerPc.ended rest e v = absurd (ground arith)
