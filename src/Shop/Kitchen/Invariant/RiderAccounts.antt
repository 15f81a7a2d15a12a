-- ===== src/Shop/Kitchen/Invariant/RiderAccounts.antt =====
-- A step of a rider keeps the accounts.
use system_related_in_c.Base.{
  ℕ, ◌+◌, ◌≡◌, ◌≢◌, refl, ap, true, none, some, [], ◌∷◌, arith, get_elem?, set, total, total-set,
  total-append, le-total, total-ext,
}
use system_related_in_c.Base.Int.{ℤ, eq_ℤ_refl}
use system_related_in_c.Shop.Kitchen.{Shared, Status, Order, delivered_by, is_cooked}
use system_related_in_c.Shop.Kitchen.Cooks.{Phase, CookPc}
use system_related_in_c.Shop.Kitchen.Riders.{RiderPc, rider_step}
use system_related_in_c.Shop.Kitchen.Manager.{ManagerPc}
use system_related_in_c.Shop.Kitchen.System.{System}
use system_related_in_c.Shop.Kitchen.Invariant.Slots.{Slots}
use system_related_in_c.Shop.Kitchen.Invariant.Accounts.{
  one, is, cooked_w, cook_w, delivering_w, searching_w, carrying_w, delivered_w, moved, Accounts,
}
use system_related_in_c.Shop.Kitchen.Invariant.Found.{find_cooked-none}
use system_related_in_c.Shop.Kitchen.Invariant.CookAccounts.{weight_of-set}
use system_related_in_c.Shop.Kitchen.Invariant.Rider.{
  search, Effect, rests, dequeues, loads, misses, announces, Same, rider-Same, rider-Effect,
}
use system_related_in_c.Shop.Kitchen.Invariant.RiderSlots.{all-searched, search_sound}

-- Where a number is being looked for, a cooked order has it.
pub searched-found :
    (s : System) (k : ℕ) (d : ℤ)
    → get_elem? s.riders k ≡ some (RiderPc.searching d)
    → Slots s.shared s.cooks
    → Accounts s
    → search s.shared d ≢ none
searched-found s k d at v a missed =
    let nothing =
      find_cooked-none d 0 s.shared.orders (rw (all-searched s.shared s.cooks v) at missed) in
    let mine = le-total (searching_w (is d)) s.riders k (RiderPc.searching d) at in
    absurd (ground (arith, eq_ℤ_refl d, nothing, mine, a.cooked_eq (is d)))

module _ (s : System) (u : Shared) (k : ℕ) (p p' : RiderPc) (v : Slots s.shared s.cooks)
    (a : Accounts s) (same : Same s.shared u) (at : get_elem? s.riders k ≡ some p) where
  abbrev now : System
  now = record s { shared = u; riders = set s.riders k p' }

  moved-same : (m : ManagerPc) → moved u m ≡ moved s.shared m
  moved-same ManagerPc.ended = same.2
  moved-same m = ground arith

  -- The orders' statuses are the same.
  pub kept-Accounts :
      u.orders ≡ s.shared.orders
      → ((w : ℤ → ℕ)
          → total w u.delivery_queue + searching_w w p'
            ≡ total w s.shared.delivery_queue + searching_w w p)
      → ((w : ℤ → ℕ)
          → carrying_w w p' + total (delivered_w w) u.message_queue
            ≡ carrying_w w p + total (delivered_w w) s.shared.message_queue)
      → Accounts now
  kept-Accounts eo hs hc = record {
    cooked_eq = λ w.
        rw (eo, same.5)
          (omega (arith, hs w, a.cooked_eq w, total-set (searching_w w) s.riders k p p' at));
    delivering_eq = λ w.
        rw (eo, same.7)
          (omega (arith, hc w, a.delivering_eq w, total-set (carrying_w w) s.riders k p p' at));
    moved_eq = rw eo (
        omega (
          arith,
          moved-same s.manager,
          a.moved_eq,
          hs one,
          total-set (searching_w one) s.riders k p p' at,
        ));
  }

-- A rider takes a cooked order along.
module _ (s : System) (u : Shared) (k : ℕ) (d : ℤ) (i : ℕ) (o : Order) (v : Slots s.shared s.cooks)
    (a : Accounts s) (same : Same s.shared u)
    (at : get_elem? s.riders k ≡ some (RiderPc.searching d))
    (found : get_elem? s.shared.orders i ≡ some o) (num : o.order_id ≡ d)
    (was : is_cooked o.status ≡ true)
    (eo : u.orders ≡ set s.shared.orders i (record o { status = Status.delivering }))
    (ed : u.delivery_queue ≡ s.shared.delivery_queue)
    (em : u.message_queue ≡ s.shared.message_queue) where
  not-delivering :
      (w : ℤ → ℕ) (st : Status)
      → is_cooked st ≡ true
      → delivering_w w (record o { status = st }) ≡ 0
  not-delivering w Status.cooked h = refl
  not-delivering w st h = absurd (ground arith)

  cooks-same : (w : ℤ → ℕ) (c : CookPc) → cook_w w u.orders c ≡ cook_w w s.shared.orders c
  cooks-same w (CookPc.busy Phase.ready j) =
      rw eo (weight_of-set w s.shared.orders i j o Status.delivering found)
  cooks-same w c = ground arith

  cooked-change :
      (w : ℤ → ℕ) → total (cooked_w w) u.orders + w d ≡ total (cooked_w w) s.shared.orders
  cooked-change w = rw eo (
      ground (
        arith,
        was,
        ap w num,
        total-set (cooked_w w) s.shared.orders i o (record o { status = Status.delivering }) found,
      ))

  delivering-change :
      (w : ℤ → ℕ) → total (delivering_w w) u.orders ≡ total (delivering_w w) s.shared.orders + w d
  delivering-change w = rw eo (
      omega (
        arith,
        not-delivering w o.status was,
        ap w num,
        total-set (delivering_w w) s.shared.orders i o (record o { status = Status.delivering })
            found,
      ))

  loaded-Accounts :
      Accounts (record s { shared = u; riders = set s.riders k (RiderPc.loaded o.order_id) })
  loaded-Accounts = record {
    cooked_eq = λ w.
        rw (ed, same.5)
          (omega (
            arith,
            cooked-change w,
            a.cooked_eq w,
            total-ext (cook_w w u.orders) (cook_w w s.shared.orders) s.cooks
                (λ j q h. cooks-same w q),
            total-set (searching_w w) s.riders k (RiderPc.searching d) (RiderPc.loaded o.order_id)
                at,
          ));
    delivering_eq = λ w.
        rw (em, same.7)
          (omega (
            arith,
            delivering-change w,
            ap w num,
            a.delivering_eq w,
            total-set (carrying_w w) s.riders k (RiderPc.searching d) (RiderPc.loaded o.order_id)
                at,
          ));
    moved_eq = rw ed (
        omega (
          arith,
          moved-same s u k (RiderPc.searching d) (RiderPc.loaded o.order_id) v a same at s.manager,
          delivering-change one,
          a.moved_eq,
          total-set (searching_w one) s.riders k (RiderPc.searching d) (RiderPc.loaded o.order_id)
              at,
        ));
  }

pub rider-Accounts :
    (me : ℕ) (s : System) (u : Shared) (k : ℕ) (p p' : RiderPc)
    → get_elem? s.riders k ≡ some p
    → rider_step me s.shared p ≡ some (u, p')
    → Slots s.shared s.cooks
    → Accounts s
    → Accounts (record s { shared = u; riders = set s.riders k p' })
rider-Accounts me s u k p p' at e v a = by_effect p p' at (rider-Effect me s.shared p p' e)
  where
    same : Same s.shared u
    same = rider-Same me s.shared p p' e

    by_effect :
        (p p' : RiderPc)
        → get_elem? s.riders k ≡ some p
        → Effect s.shared u p p'
        → Accounts (record s { shared = u; riders = set s.riders k p' })
    by_effect p p' at (rests eo ed em hs hc) =
        kept-Accounts s u k p p' v a same at eo (λ w. omega (arith, ap (total w) ed, hs w))
          (λ w. omega (arith, ap (total (delivered_w w)) em, hc w))
    by_effect p p' at (dequeues d ds ed ed' eo em) =
        kept-Accounts s u k p p' v a same at eo
          (λ w. omega (arith, ap (total w) ed, ap (total w) ed'))
          (λ w. omega (arith, ap (total (delivered_w w)) em))
    by_effect p p' at (loads d i o found eo ed em) =
        let r = search_sound s.shared s.cooks d i o v found in
        loaded-Accounts s u k d i o v a same at r.0 r.1 r.2 eo ed em
    by_effect p p' at (misses d missed eo ed em) = absurd (searched-found s k d at v a missed)
    by_effect p p' at (announces by d eo ed em) =
        kept-Accounts s u k p p' v a same at eo (λ w. omega (arith, ap (total w) ed))
          (λ w. omega (
            arith,
            ap (total (delivered_w w)) em,
            total-append (delivered_w w) s.shared.message_queue (delivered_by by d ∷ []),
          ))
