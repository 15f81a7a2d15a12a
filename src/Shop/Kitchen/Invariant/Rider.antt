-- ===== src/Shop/Kitchen/Invariant/Rider.antt =====
-- A step of a rider keeps the slots, the accounts, and what the manager and the riders know.
use mathlib.Core.Option.{some-injective}
use system_related_in_c.Base.{
  ℕ, ◌≡◌, refl, sym, ap, ◌∙◌, subst, inl, inr, Option, none, some, List, [], ◌∷◌, ◌++◌, arith, set,
  take, Option-cases,
}
use system_related_in_c.Base.Int.{ℤ}
use system_related_in_c.Shop.Kitchen.{Shared, Status, Order, delivered_by, find_cooked}
use system_related_in_c.Shop.Kitchen.Riders.{RiderPc, rider_step, load}
use system_related_in_c.Shop.Kitchen.Invariant.Accounts.{searching_w, carrying_w, RiderFresh}

abbrev pub search : Shared → ℤ → Option (ℕ × Order)
search s d = find_cooked d 0 (take s.order_counter_global s.orders)

pub data Effect (s u : Shared) : RiderPc → RiderPc → Type 0 where
  rests :
      {p p' : RiderPc}
      → u.orders ≡ s.orders
      → u.delivery_queue ≡ s.delivery_queue
      → u.message_queue ≡ s.message_queue
      → ((w : ℤ → ℕ) → searching_w w p' ≡ searching_w w p)
      → ((w : ℤ → ℕ) → carrying_w w p' ≡ carrying_w w p)
      → Effect s u p p'
  dequeues :
      (d : ℤ) (ds : List ℤ)
      → s.delivery_queue ≡ d ∷ ds
      → u.delivery_queue ≡ ds
      → u.orders ≡ s.orders
      → u.message_queue ≡ s.message_queue
      → Effect s u RiderPc.checking (RiderPc.searching d)
  loads :
      (d : ℤ) (i : ℕ) (o : Order)
      → search s d ≡ some (i, o)
      → u.orders ≡ set s.orders i (record o { status = Status.delivering })
      → u.delivery_queue ≡ s.delivery_queue
      → u.message_queue ≡ s.message_queue
      → Effect s u (RiderPc.searching d) (RiderPc.loaded o.order_id)
  misses :
      (d : ℤ)
      → search s d ≡ none
      → u.orders ≡ s.orders
      → u.delivery_queue ≡ s.delivery_queue
      → u.message_queue ≡ s.message_queue
      → Effect s u (RiderPc.searching d) RiderPc.checking
  announces :
      (me : ℕ) (d : ℤ)
      → u.orders ≡ s.orders
      → u.delivery_queue ≡ s.delivery_queue
      → u.message_queue ≡ s.message_queue ++ delivered_by me d ∷ []
      → Effect s u (RiderPc.driving d) RiderPc.returning

abbrev pub Same : Shared → Shared → Type 0
Same s u =
    (u.no_more_orders ≡ s.no_more_orders)
    × (u.cook_counter ≡ s.cook_counter)
    × (u.order_counter_global ≡ s.order_counter_global)
    × (u.can_deliver ≡ s.can_deliver)
    × (u.can_consume ≡ s.can_consume)
    × (u.ready_order_queue ≡ s.ready_order_queue)
    × (u.next ≡ s.next)
    × (u.sent ≡ s.sent)

via :
    {s : Shared} (p : RiderPc) {r r' : Shared × RiderPc}
    → some r ≡ some r'
    → Effect s r.0 p r.1
    → Effect s r'.0 p r'.1
via {s} p e c = subst (λ r. Effect s r.0 p r.1) (some-injective _ _ e) c

module _ (me : ℕ) (s : Shared) {u : Shared} where
  pub rider-Same : (p p' : RiderPc) → rider_step me s p ≡ some (u, p') → Same s u
  unfolding rider_step
  rider-Same RiderPc.checking p' e = ground arith
  rider-Same p p' e = ground arith

  pub rider-Effect : (p p' : RiderPc) → rider_step me s p ≡ some (u, p') → Effect s u p p'
  unfolding rider_step
  rider-Effect (RiderPc.searching d) p' e = elim (Option-cases (search s d)) [
    | inl missed ↦
        via (RiderPc.searching d) (ap (λ x. some (load s d x)) (sym missed) ∙ e)
          (misses d missed refl refl refl)
    | inr ((i, o), found) ↦
        via (RiderPc.searching d) (ap (λ x. some (load s d x)) (sym found) ∙ e)
          (loads d i o found refl refl refl)
  ]
  rider-Effect RiderPc.checking p' e = by_queue s.delivery_queue refl
    where
      by_queue : (ds : List ℤ) → s.delivery_queue ≡ ds → Effect s u RiderPc.checking p'
      by_queue [] eq =
          rests (ground arith) (ground arith) (ground arith) (λ w. ground arith) (λ w. ground arith)
      by_queue (d ∷ ds) eq = via RiderPc.checking (rw eq at e) (dequeues d ds eq refl refl refl)
  rider-Effect (RiderPc.driving d) p' e = via (RiderPc.driving d) e (announces me d refl refl refl)
  rider-Effect p p' e =
      rests (ground arith) (ground arith) (ground arith) (λ w. ground arith) (λ w. ground arith)

  -- What a rider knows at its next place.
  pub rider-fresh : (p p' : RiderPc) → rider_step me s p ≡ some (u, p') → RiderFresh u p'
  unfolding rider_step
  rider-fresh RiderPc.checking p' e = ground arith
  rider-fresh (RiderPc.searching d) p' e = ground arith
  rider-fresh p p' e = ground arith
