-- ===== src/Shop/Kitchen/Invariant/CookPlaces.antt =====
-- A step of a cook leaves what the manager and the riders know.
use system_related_in_c.Base.{
  ℕ, suc, ◌≡◌, sym, ap, ◌∙◌, ◌⊎◌, inl, inr, some, List, arith, set, total, total-set,
}
use system_related_in_c.Base.Int.{ℤ}
use system_related_in_c.Grades.Text.{Str}
use system_related_in_c.Shop.Kitchen.{Shared, Order}
use system_related_in_c.Shop.Kitchen.Cooks.{Phase, CookPc, cook_step, cook_order}
use system_related_in_c.Shop.Kitchen.Riders.{RiderPc}
use system_related_in_c.Shop.Kitchen.Manager.{ManagerPc}
use system_related_in_c.Shop.Kitchen.System.{System}
use system_related_in_c.Shop.Kitchen.Invariant.Slots.{
  Effect, cook-Effect, moves, takes, starts, finishes,
}
use system_related_in_c.Shop.Kitchen.Invariant.Accounts.{id_w, Places, ManagerFresh, RiderFresh}

abbrev Same : Shared → Shared → Type 0
Same s u =
    (u.no_more_orders ≡ s.no_more_orders)
    × (u.cook_counter ≡ s.cook_counter)
    × (u.order_counter_global ≡ s.order_counter_global)
    × (u.can_deliver ≡ s.can_deliver)
    × (u.delivery_queue ≡ s.delivery_queue)

-- An order in ready_order_queue comes with a signal.
abbrev Signalled : Shared → Shared → Type 0
Signalled s u =
    ((u.can_consume ≡ s.can_consume) × (u.ready_order_queue ≡ s.ready_order_queue))
    ⊎ (u.can_consume ≡ suc s.can_consume)

module _ (me : ℕ) (s : Shared) {u : Shared} where
  cook-Same : (p p' : CookPc) → cook_step me s p ≡ some (u, p') → Same s u
  unfolding cook_step cook_order
  cook-Same CookPc.idle p' e = ground arith
  cook-Same (CookPc.busy Phase.taken i) p' e = ground arith
  cook-Same p p' e = ground arith

  cook-Signalled : (p p' : CookPc) → cook_step me s p ≡ some (u, p') → Signalled s u
  unfolding cook_step cook_order
  cook-Signalled (CookPc.busy Phase.ready i) p' e = inr (ground arith)
  cook-Signalled CookPc.entered p' e = inl (ground arith, ground arith)
  cook-Signalled (CookPc.busy Phase.taken i) p' e = inl (ground arith, ground arith)
  cook-Signalled p p' e = inl (ground arith, ground arith)

  cook-ids :
      (p p' : CookPc)
      → cook_step me s p ≡ some (u, p')
      → (w : ℤ → ℕ) → total (id_w w) u.orders ≡ total (id_w w) s.orders
  cook-ids p p' e w = by_effect p p' (cook-Effect me s p p' e)
    where
      by_effect :
          (p p' : CookPc) → Effect s u p p' → total (id_w w) u.orders ≡ total (id_w w) s.orders
      by_effect p p' (moves eo en hu hb below) = ap (total (id_w w)) eo
      by_effect p p' (takes eo en lt) = ap (total (id_w w)) eo
      by_effect p p' (starts i o found eo en) =
          ap (total (id_w w)) eo ∙ omega (arith, total-set (id_w w) s.orders i o _ found)
      by_effect p p' (finishes i o found eo en) =
          ap (total (id_w w)) eo ∙ omega (arith, total-set (id_w w) s.orders i o _ found)

module _ (s u : Shared) where
  manager-keep :
      (blank : Order) (rest : List Str) (future : List Order) (m : ManagerPc)
      → Same s u
      → Signalled s u
      → ManagerFresh blank s rest future m
      → ManagerFresh blank u rest future m
  manager-keep blank rest future (ManagerPc.asleep c k) same (inl sig) f = (
    f.0,
    omega (arith, same.1, same.2, f.1),
    omega (arith, sig.0, f.2),
    λ e. sig.1 ∙ f.3 (e ∙ sig.0),
  )
  manager-keep blank rest future (ManagerPc.asleep c k) same (inr sig) f = (
    f.0,
    omega (arith, same.1, same.2, f.1),
    omega (arith, sig, f.2),
    λ e. absurd (omega (arith, e, sig, f.2)),
  )
  manager-keep blank rest future (ManagerPc.receiving c) same sig f = (f.0 ∙ sym same.2, f.1)
  manager-keep blank rest future m same sig f = ground arith

  rider-keep : (q : RiderPc) → Same s u → RiderFresh s q → RiderFresh u q
  rider-keep (RiderPc.asleep k) same f = rw (same.3, same.4) f
  rider-keep RiderPc.out same f = rw (same.0, same.4) f
  rider-keep q same f = ground arith

pub cook-Places :
    {blank : Order} {all : List Order} (me : ℕ) (s : System) (u : Shared) (k : ℕ) (p p' : CookPc)
    → cook_step me s.shared p ≡ some (u, p')
    → Places blank all s
    → Places blank all (record s { shared = u; cooks = set s.cooks k p' })
cook-Places {blank} me s u k p p' e v =
    let same = cook-Same me s.shared p p' e in
    record {
      future = v.future;
      ids_eq = λ w. omega (arith, cook-ids me s.shared p p' e w, v.ids_eq w);
      manager_fresh =
          manager-keep s.shared u blank s.rest v.future s.manager same
            (cook-Signalled me s.shared p p' e) v.manager_fresh;
      closed = same.0 ∙ v.closed;
      riders_fresh = λ j q at. rider-keep s.shared u q same (v.riders_fresh j q at);
    }
