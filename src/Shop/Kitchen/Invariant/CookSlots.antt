-- ===== src/Shop/Kitchen/Invariant/CookSlots.antt =====
-- A step of a cook keeps each order with the cook that has it.
use mathlib.Core.Option.{some-injective}
use system_related_in_c.Base.{
  ℕ, suc, ◌≤◌, ◌<◌, ◌≡◌, ◌≢◌, sym, ap, ◌∙◌, subst, inl, inr, some, List, arith, get_elem?, set,
  length, length-set, total-set, le-total, get_elem?-set_cases, get_elem?-set_same,
  get_elem?-set_other, ℕ_discrete,
}
use system_related_in_c.Shop.Kitchen.{Shared, Status, Order}
use system_related_in_c.Shop.Kitchen.Cooks.{Phase, CookPc, cook_step}
use system_related_in_c.Shop.Kitchen.Invariant.Slots.{
  Slot, Slots, Effect, Below, has, is_unbaked, is_baking, moves, takes, starts, finishes,
  cook-Effect, cook-counter,
}

module _ (s u : Shared) (cooks : List CookPc) (k : ℕ) (p p' : CookPc)
    (at : get_elem? cooks k ≡ some p) (v : Slots s cooks)
    (same : u.order_counter_global ≡ s.order_counter_global) where
  abbrev now : List CookPc
  now = set cooks k p'

  Below-keep :
      s.next ≤ u.next
      → Below u.next p'
      → (j : ℕ) (q : CookPc) → get_elem? now j ≡ some q
      → Below u.next q
  Below-keep le b j q found = elim (get_elem?-set_cases cooks k j p' q found) [
    | inl e ↦ rw e b
    | inr old ↦ raise q le (v.current_lt j q old.1)
  ]
    where
      raise : (q : CookPc) → s.next ≤ u.next → Below s.next q → Below u.next q
      raise (CookPc.busy ph i) le b = omega arith
      raise CookPc.idle le b = tt
      raise CookPc.entered le b = tt
      raise CookPc.out le b = tt

  moves-Slots :
      u.orders ≡ s.orders
      → u.next ≡ s.next
      → ((i : ℕ) → has is_unbaked i p' ≡ has is_unbaked i p)
      → ((i : ℕ) → has is_baking i p' ≡ has is_baking i p)
      → ((n : ℕ) → Below n p → Below n p')
      → Slots u now
  moves-Slots eo en hu hb below = record {
    counter_eq = same ∙ v.counter_eq ∙ ap length (sym eo);
    next_le = rw (eo, en) v.next_le;
    slots = λ i o found.
        let old = v.slots i o (rw eo at found) in
        record {
          unbaked =
              rw en
                (omega (arith, total-set (has is_unbaked i) cooks k p p' at, hu i, old.unbaked));
          baking = omega (arith, total-set (has is_baking i) cooks k p p' at, hb i, old.baking);
          untouched = λ le. old.untouched (omega arith);
        };
    current_lt =
        Below-keep (omega arith)
          (subst (λ n. Below n p') (sym en) (below s.next (v.current_lt k p at)));
  }

module _ (s u : Shared) (cooks : List CookPc) (k : ℕ) (v : Slots s cooks)
    (same : u.order_counter_global ≡ s.order_counter_global) where
  module _ (at : get_elem? cooks k ≡ some CookPc.entered) (eo : u.orders ≡ s.orders)
      (en : u.next ≡ suc s.next) (lt : s.next < s.order_counter_global) where
    abbrev taking : CookPc
    taking = CookPc.busy Phase.taken s.next

    takes-Slot :
        (i : ℕ) (o : Order) → get_elem? s.orders i ≡ some o → Slot u (set cooks k taking) i o
    takes-Slot i o found =
        let old = v.slots i o found in
        record {
          unbaked = rw en (
              ground (
                arith,
                total-set (has is_unbaked i) cooks k CookPc.entered taking at,
                old.unbaked,
                old.untouched,
              ));
          baking =
              omega
                (arith, total-set (has is_baking i) cooks k CookPc.entered taking at, old.baking);
          untouched = λ le. old.untouched (omega (arith, en));
        }

    takes-Slots : Slots u (set cooks k taking)
    takes-Slots = record {
      counter_eq = same ∙ v.counter_eq ∙ ap length (sym eo);
      next_le = rw (eo, en) (omega (arith, v.counter_eq));
      slots = λ i o found. takes-Slot i o (rw eo at found);
      current_lt =
          Below-keep s u cooks k CookPc.entered taking at v same (omega (arith, en))
            (rw en (omega arith));
    }

  -- The cook gives an order another status.
  module _ (i : ℕ) (o : Order) (st : Status) (ph ph' : Phase)
      (at : get_elem? cooks k ≡ some (CookPc.busy ph i)) (found : get_elem? s.orders i ≡ some o)
      (eo : u.orders ≡ set s.orders i (record o { status = st })) (en : u.next ≡ s.next) where
    abbrev after : List CookPc
    after = set cooks k (CookPc.busy ph' i)

    -- The other orders.
    other-Slot : (j : ℕ) (q : Order) → i ≢ j → get_elem? s.orders j ≡ some q → Slot u after j q
    other-Slot j q ne at_j =
        let old = v.slots j q at_j in
        record {
          unbaked = rw en (
              ground (
                arith,
                total-set (has is_unbaked j) cooks k (CookPc.busy ph i) (CookPc.busy ph' i) at,
                old.unbaked,
              ));
          baking = ground (
            arith,
            total-set (has is_baking j) cooks k (CookPc.busy ph i) (CookPc.busy ph' i) at,
            old.baking,
          );
          untouched = λ le. old.untouched (omega (arith, en));
        }

    status-Slots : Slot u after i (record o { status = st }) → Slots u after
    status-Slots it = record {
      counter_eq = same ∙ v.counter_eq ∙ sym (ap length eo ∙ length-set s.orders i _);
      next_le = rw (eo, en, length-set s.orders i (record o { status = st })) v.next_le;
      slots = slots;
      current_lt =
          Below-keep s u cooks k (CookPc.busy ph i) (CookPc.busy ph' i) at v same (omega arith)
            (rw en (v.current_lt k (CookPc.busy ph i) at));
    }
      where
        slots : (j : ℕ) (q : Order) → get_elem? u.orders j ≡ some q → Slot u after j q
        slots j q at_j = elim (ℕ_discrete i j) [
          | yes eq ↦
              let is = some-injective _ _ (
                sym (get_elem?-set_same s.orders i o (record o { status = st }) found)
                ∙ rw (eo, sym eq) at at_j) in
              subst (λ q. Slot u after j q) is
                (subst (λ j. Slot u after j (record o { status = st })) eq it)
          | no ne ↦
              other-Slot j q ne (
                sym (get_elem?-set_other s.orders i j (record o { status = st }) ne)
                ∙ rw eo at at_j)
        ]

  starts-Slots :
      (i : ℕ) (o : Order)
      → get_elem? cooks k ≡ some (CookPc.busy Phase.at_entrance i)
      → get_elem? s.orders i ≡ some o
      → u.orders ≡ set s.orders i (record o { status = Status.cooking })
      → u.next ≡ s.next
      → Slots u (set cooks k (CookPc.busy Phase.baking i))
  starts-Slots i o at found eo en =
      let old = v.slots i o found in
      let was = CookPc.busy Phase.at_entrance i in
      let now = CookPc.busy Phase.baking i in
      let mine = le-total (has is_unbaked i) cooks k was at in
      let below = v.current_lt k was at in
      status-Slots i o Status.cooking Phase.at_entrance Phase.baking at found eo en (record {
        unbaked =
            ground (arith, mine, old.unbaked, total-set (has is_unbaked i) cooks k was now at);
        baking =
            ground (
              arith,
              mine,
              old.unbaked,
              old.baking,
              total-set (has is_baking i) cooks k was now at,
            );
        untouched = λ le. absurd (omega (arith, en, below));
      })

  finishes-Slots :
      (i : ℕ) (o : Order)
      → get_elem? cooks k ≡ some (CookPc.busy Phase.out_of_oven i)
      → get_elem? s.orders i ≡ some o
      → u.orders ≡ set s.orders i (record o { status = Status.cooked })
      → u.next ≡ s.next
      → Slots u (set cooks k (CookPc.busy Phase.ready i))
  finishes-Slots i o at found eo en =
      let old = v.slots i o found in
      let was = CookPc.busy Phase.out_of_oven i in
      let now = CookPc.busy Phase.ready i in
      let mine = le-total (has is_baking i) cooks k was at in
      let below = v.current_lt k was at in
      status-Slots i o Status.cooked Phase.out_of_oven Phase.ready at found eo en (record {
        unbaked =
            ground (
              arith,
              mine,
              old.baking,
              old.unbaked,
              total-set (has is_unbaked i) cooks k was now at,
            );
        baking = ground (arith, mine, old.baking, total-set (has is_baking i) cooks k was now at);
        untouched = λ le. absurd (omega (arith, en, below));
      })

pub cook-Slots :
    (me : ℕ) (s u : Shared) (cooks : List CookPc) (k : ℕ) (p p' : CookPc)
    → get_elem? cooks k ≡ some p
    → cook_step me s p ≡ some (u, p')
    → Slots s cooks
    → Slots u (set cooks k p')
cook-Slots me s u cooks k p p' at e v = by_effect p p' at (cook-Effect me s p p' e)
  where
    same : u.order_counter_global ≡ s.order_counter_global
    same = cook-counter me s p p' e

    by_effect :
        (p p' : CookPc) → get_elem? cooks k ≡ some p → Effect s u p p' → Slots u (set cooks k p')
    by_effect p p' at (moves eo en hu hb below) =
        moves-Slots s u cooks k p p' at v same eo en hu hb below
    by_effect p p' at (takes eo en lt) = takes-Slots s u cooks k v same at eo en lt
    by_effect p p' at (starts i o found eo en) = starts-Slots s u cooks k v same i o at found eo en
    by_effect p p' at (finishes i o found eo en) =
        finishes-Slots s u cooks k v same i o at found eo en
