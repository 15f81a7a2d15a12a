-- ===== src/Shop/Kitchen/Invariant/RiderPlaces.antt =====
-- A step of a rider leaves what the manager and the riders know.
use system_related_in_c.Base.{
  ℕ, ◌≡◌, sym, ap, ◌∙◌, inl, inr, some, List, ◌∷◌, arith, get_elem?, set, total, total-set,
  get_elem?-set_cases,
}
use system_related_in_c.Base.Int.{ℤ}
use system_related_in_c.Grades.Text.{Str}
use system_related_in_c.Shop.Kitchen.{Shared, Status, Order}
use system_related_in_c.Shop.Kitchen.Riders.{RiderPc, rider_step}
use system_related_in_c.Shop.Kitchen.Manager.{ManagerPc}
use system_related_in_c.Shop.Kitchen.System.{System}
use system_related_in_c.Shop.Kitchen.Invariant.Slots.{Slots}
use system_related_in_c.Shop.Kitchen.Invariant.Accounts.{id_w, Places, ManagerFresh, RiderFresh}
use system_related_in_c.Shop.Kitchen.Invariant.Rider.{
  Effect, rests, dequeues, loads, misses, announces, Same, rider-Same, rider-Effect, rider-fresh,
}
use system_related_in_c.Shop.Kitchen.Invariant.RiderSlots.{search_sound}

-- An order leaves delivery_queue: who sleeps or is out knew that there was none.
Fresh-dequeue :
    (s u : Shared) (d : ℤ) (ds : List ℤ) (q : RiderPc)
    → Same s u
    → s.delivery_queue ≡ d ∷ ds
    → RiderFresh s q
    → RiderFresh u q
Fresh-dequeue s u d ds (RiderPc.asleep j) same eq f =
    (omega (arith, same.3, f.0), λ h. absurd (ground (arith, f.1 (h ∙ same.3))))
Fresh-dequeue s u d ds RiderPc.out same eq f = absurd (ground arith)
Fresh-dequeue s u d ds q same eq f = ground arith

Fresh-keep :
    (s u : Shared) (q : RiderPc)
    → Same s u
    → u.delivery_queue ≡ s.delivery_queue
    → RiderFresh s q
    → RiderFresh u q
Fresh-keep s u (RiderPc.asleep j) same ed f = rw (same.3, ed) f
Fresh-keep s u RiderPc.out same ed f = rw (same.0, ed) f
Fresh-keep s u q same ed f = ground arith

manager-keep :
    (blank : Order) (s u : Shared) (rest : List Str) (future : List Order) (m : ManagerPc)
    → Same s u
    → ManagerFresh blank s rest future m
    → ManagerFresh blank u rest future m
manager-keep blank s u rest future (ManagerPc.receiving c) same f = (f.0 ∙ sym same.2, f.1)
manager-keep blank s u rest future (ManagerPc.asleep c j) same f =
    rw (same.1, same.2, same.4, same.5) f
manager-keep blank s u rest future m same f = ground arith

pub rider-Places :
    {blank : Order} {all : List Order} (me : ℕ) (s : System) (u : Shared) (k : ℕ) (p p' : RiderPc)
    → get_elem? s.riders k ≡ some p
    → rider_step me s.shared p ≡ some (u, p')
    → Slots s.shared s.cooks
    → Places blank all s
    → Places blank all (record s { shared = u; riders = set s.riders k p' })
rider-Places {blank} {all} me s u k p p' at e v l = record {
  future = l.future;
  ids_eq = λ w. omega (arith, ids w p p' (rider-Effect me s.shared p p' e), l.ids_eq w);
  manager_fresh = manager-keep blank s.shared u s.rest l.future s.manager same l.manager_fresh;
  closed = same.0 ∙ l.closed;
  riders_fresh = λ j q found. elim (get_elem?-set_cases s.riders k j p' q found) [
    | inl eq ↦ rw eq (rider-fresh me s.shared p p' e)
    | inr old ↦ others p p' (rider-Effect me s.shared p p' e) q (l.riders_fresh j q old.1)
  ];
}
  where
    same : Same s.shared u
    same = rider-Same me s.shared p p' e

    ids :
        (w : ℤ → ℕ) (p p' : RiderPc)
        → Effect s.shared u p p'
        → total (id_w w) u.orders ≡ total (id_w w) s.shared.orders
    ids w p p' (rests eo ed em hs hc) = ap (total (id_w w)) eo
    ids w p p' (dequeues d ds ed ed' eo em) = ap (total (id_w w)) eo
    ids w p p' (loads d i o found eo ed em) =
        let r = search_sound s.shared s.cooks d i o v found in
        ap (total (id_w w)) eo
        ∙ omega (
          arith,
          total-set (id_w w) s.shared.orders i o (record o { status = Status.delivering }) r.0,
        )
    ids w p p' (misses d missed eo ed em) = ap (total (id_w w)) eo
    ids w p p' (announces by d eo ed em) = ap (total (id_w w)) eo

    others :
        (p p' : RiderPc)
        → Effect s.shared u p p'
        → (q : RiderPc) → RiderFresh s.shared q
        → RiderFresh u q
    others p p' (rests eo ed em hs hc) q f = Fresh-keep s.shared u q same ed f
    others p p' (dequeues d ds ed ed' eo em) q f = Fresh-dequeue s.shared u d ds q same ed f
    others p p' (loads d i o found eo ed em) q f = Fresh-keep s.shared u q same ed f
    others p p' (misses d missed eo ed em) q f = Fresh-keep s.shared u q same ed f
    others p p' (announces by d eo ed em) q f = Fresh-keep s.shared u q same ed f
