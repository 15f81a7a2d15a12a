-- ===== src/Shop/Kitchen/Invariant/RiderSlots.antt =====
-- A step of a rider keeps the slots.
use mathlib.Core.Option.{some-injective}
use system_related_in_c.Base.{
  ℕ, ◌≡◌, sym, ap, ◌∙◌, subst, true, some, List, arith, get_elem?, set, take, take-all, length,
  length-set, get_elem?-set_same, get_elem?-set_other, ℕ_discrete,
}
use system_related_in_c.Base.Int.{ℤ}
use system_related_in_c.Shop.Kitchen.{Shared, Status, Order, is_cooked}
use system_related_in_c.Shop.Kitchen.Cooks.{CookPc}
use system_related_in_c.Shop.Kitchen.Riders.{RiderPc, rider_step}
use system_related_in_c.Shop.Kitchen.Invariant.Slots.{Slot, Slots, Slots-keep}
use system_related_in_c.Shop.Kitchen.Invariant.Found.{find_cooked_sound}
use system_related_in_c.Shop.Kitchen.Invariant.Rider.{
  search, Effect, rests, dequeues, loads, misses, announces, Same, rider-Same, rider-Effect,
}

-- The search goes through all orders.
pub all-searched :
    (s : Shared) (cooks : List CookPc)
    → Slots s cooks
    → take s.order_counter_global s.orders ≡ s.orders
all-searched s cooks v = take-all s.order_counter_global s.orders (omega (arith, v.counter_eq))

pub search_sound :
    (s : Shared) (cooks : List CookPc) (d : ℤ) (i : ℕ) (o : Order)
    → Slots s cooks
    → search s d ≡ some (i, o)
    → (get_elem? s.orders i ≡ some o) × (o.order_id ≡ d) × (is_cooked o.status ≡ true)
search_sound s cooks d i o v e =
    let r = find_cooked_sound d 0 s.orders i o (rw (all-searched s cooks v) at e) in
    let at : i ≡ r.0 = omega (arith, r.1) in (ap (get_elem? s.orders) at ∙ r.2, r.3, r.4)

-- An order that is on its way is with no cook.
module _ (s u : Shared) (cooks : List CookPc) (v : Slots s cooks) (same : Same s u) where
  kept-Slots : u.orders ≡ s.orders → Slots u cooks
  kept-Slots eo = Slots-keep s u cooks eo same.6 same.2 v

  module _ (i : ℕ) (o : Order) (found : get_elem? s.orders i ≡ some o)
      (was : is_cooked o.status ≡ true)
      (eo : u.orders ≡ set s.orders i (record o { status = Status.delivering })) where
    cooked-Slot :
        (n : ℕ) (st : Status)
        → is_cooked st ≡ true
        → Slot s cooks n (record o { status = st })
        → Slot u cooks n (record o { status = Status.delivering })
    cooked-Slot n Status.cooked h old = record {
      unbaked = old.unbaked;
      baking = old.baking;
      untouched = λ le. absurd (ground (arith, same.6, old.untouched));
    }
    cooked-Slot n st h old = absurd (ground arith)

    loaded-Slots : Slots u cooks
    loaded-Slots = record {
      counter_eq = same.2 ∙ v.counter_eq ∙ sym (ap length eo ∙ length-set s.orders i _);
      next_le =
          rw (eo, same.6, length-set s.orders i (record o { status = Status.delivering }))
            v.next_le;
      slots = slots;
      current_lt = rw same.6 v.current_lt;
    }
      where
        slots : (j : ℕ) (q : Order) → get_elem? u.orders j ≡ some q → Slot u cooks j q
        slots j q at_j = elim (ℕ_discrete i j) [
          | yes eq ↦
              let is = some-injective _ _ (
                sym
                  (get_elem?-set_same s.orders i o (record o { status = Status.delivering }) found)
                ∙ rw (eo, sym eq) at at_j) in
              subst (λ q. Slot u cooks j q) is
                (cooked-Slot j o.status was (v.slots j o (rw eq at found)))
          | no ne ↦
              let old = v.slots j q (
                sym (get_elem?-set_other s.orders i j (record o { status = Status.delivering }) ne)
                ∙ rw eo at at_j) in
              record {
                unbaked = rw same.6 old.unbaked;
                baking = old.baking;
                untouched = λ le. old.untouched (omega (arith, same.6));
              }
        ]

  Effect-Slots : (p p' : RiderPc) → Effect s u p p' → Slots u cooks
  Effect-Slots p p' (rests eo ed em hs hc) = kept-Slots eo
  Effect-Slots p p' (dequeues d ds ed ed' eo em) = kept-Slots eo
  Effect-Slots p p' (loads d i o e eo ed em) =
      let r = search_sound s cooks d i o v e in loaded-Slots i o r.0 r.2 eo
  Effect-Slots p p' (misses d e eo ed em) = kept-Slots eo
  Effect-Slots p p' (announces me d eo ed em) = kept-Slots eo

pub rider-Slots :
    (me : ℕ) (s u : Shared) (cooks : List CookPc) (p p' : RiderPc)
    → rider_step me s p ≡ some (u, p')
    → Slots s cooks
    → Slots u cooks
rider-Slots me s u cooks p p' e v =
    Effect-Slots s u cooks v (rider-Same me s p p' e) p p' (rider-Effect me s p p' e)
