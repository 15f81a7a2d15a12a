-- ===== src/Shop/Kitchen/Safety.antt =====
-- What the client of socket_threads_semaphores_mutex/server.c can rely on while nothing is
-- cancelled, whatever the order of the threads' steps.
use system_related_in_c.Base.{
  Bool-cases, ℕ, ◌+◌, ◌≤◌, ◌<◌, ◌≡◌, refl, sym, ap, ◌∙◌, subst, Option-cases, inl, inr, true, some,
  List, [], ◌∷◌, arith, get_elem?, length, total, All, take,
}
use system_related_in_c.Base.Int.{ℤ}
use system_related_in_c.Grades.Text.{Str}
use system_related_in_c.Shop.Kitchen.{Status, Order, is_cooked, find_cooked}
use system_related_in_c.Shop.Kitchen.Riders.{RiderPc}
use system_related_in_c.Shop.Kitchen.Manager.{ManagerPc}
use system_related_in_c.Shop.Kitchen.System.{System, Reach}
use system_related_in_c.Shop.Kitchen.Invariant.Oven.{at_door, has_paddle, has_place, Reach-Oven}
use system_related_in_c.Shop.Kitchen.Invariant.Road.{on_bike, Reach-Road}
use system_related_in_c.Shop.Kitchen.Invariant.Receive.{IsScript}
use system_related_in_c.Shop.Kitchen.Invariant.Accounts.{
  one, is, id_w, cooked_w, delivering_w, delivered_w, carrying_w, searching_w, manager_w, moved,
  is_ended, is_delivering, ManagerFresh,
}
use system_related_in_c.Shop.Kitchen.Invariant.Rider.{search}
use system_related_in_c.Shop.Kitchen.Invariant.RiderSlots.{search_sound}
use system_related_in_c.Shop.Kitchen.Invariant.RiderAccounts.{searched-found}
use system_related_in_c.Shop.Kitchen.Invariant.Manager.{Inv}
use system_related_in_c.Shop.Kitchen.Invariant.Main.{Reach-Inv}

-- How many messages say that the order `d` is delivered.
abbrev pub announced : ℤ → System → ℕ
announced d s =
    total (delivered_w (is d)) s.shared.message_queue + total (delivered_w (is d)) s.shared.sent

-- How often the client has asked for the order `d`.
abbrev pub asked : ℤ → List Order → ℕ
asked d os = total (id_w (is d)) os

delivering-le : (w : ℤ → ℕ) (os : List Order) → total (delivering_w w) os ≤ total (id_w w) os
delivering-le w [] = omega arith
delivering-le w (o ∷ os) = ground (arith, delivering-le w os)

-- No order is both.
cooked-delivering-le :
    (os : List Order) → total (cooked_w one) os + total (delivering_w one) os ≤ length os
cooked-delivering-le [] = omega arith
cooked-delivering-le (o ∷ os) = ground (arith, cooked-delivering-le os)

all-delivering :
    (os : List Order)
    → total (delivering_w one) os ≡ length os
    → (w : ℤ → ℕ) → total (delivering_w w) os ≡ total (id_w w) os
all-delivering [] e w = refl
all-delivering (o ∷ os) e w = elim (Bool-cases (is_delivering o.status)) [
  | inl on_way ↦
      let rest = all-delivering os (ground (arith, on_way, e)) w in ground (arith, on_way, rest)
  | inr not_yet ↦ absurd (ground (arith, not_yet, e, cooked-delivering-le os))
]

total-out :
    (w : RiderPc → ℕ) (rs : List RiderPc)
    → w RiderPc.out ≡ 0
    → All (λ p. p ≡ RiderPc.out) rs
    → total w rs ≡ 0
total-out w [] e outs = refl
total-out w (p ∷ rs) e outs = omega (arith, e, ap w outs.0, total-out w rs e outs.1)

first-out :
    (rs : List RiderPc)
    → 0 < length rs
    → All (λ p. p ≡ RiderPc.out) rs
    → get_elem? rs 0 ≡ some RiderPc.out
first-out [] some_riders outs = absurd (omega arith)
first-out (p ∷ rs) some_riders outs = ap (λ q. some q) outs.0

cooked-of : (st : Status) → is_cooked st ≡ true → st ≡ Status.cooked
cooked-of Status.cooked e = refl
cooked-of st e = absurd (ground arith)

ended-of : (m : ManagerPc) → true ≡ is_ended m → m ≡ ManagerPc.ended
ended-of ManagerPc.ended e = refl
ended-of m e = absurd (ground arith)

module _ {blank : Order} {ids : ℕ → ℕ} {n m : ℕ} {texts : List Str} {all : List Order} {s : System}
    (script : IsScript blank all texts) (r : Reach blank ids n m texts s) where
  abbrev v : Inv blank all s
  v = Reach-Inv script r

  -- In every state that the threads reach while a client is served that sends its orders one at a
  -- time and then DONE: an order has been announced as delivered at most as often as the client
  -- has asked for its number.
  pub delivered_at_most_once : (d : ℤ) → announced d s ≤ asked d all
  delivered_at_most_once d = omega (
    arith,
    v.accounts.delivering_eq (is d),
    delivering-le (is d) s.shared.orders,
    v.places.ids_eq (is d),
  )

  -- In every state that the threads reach while a client is served that sends its orders one at a
  -- time and then DONE: if there are delivery threads and all have ended, each order has been
  -- announced as delivered exactly as often as the client has asked for its number.
  pub all_orders_served :
      0 < length s.riders
      → All (λ p. p ≡ RiderPc.out) s.riders
      → (d : ℤ) → announced d s ≡ asked d all
  all_orders_served some_riders outs d =
      let know = v.places.riders_fresh 0 RiderPc.out (first-out s.riders some_riders outs) in
      let over = ended-of s.manager (sym know.0 ∙ v.places.closed) in
      omega (
        arith,
        v.accounts.delivering_eq (is d),
        all-delivering s.shared.orders
            (omega (
              arith,
              v.slots.counter_eq,
              v.accounts.moved_eq,
              ap (moved s.shared) over,
              ap (total one) know.1,
              total-out (searching_w one) s.riders refl outs,
            ))
            (is d),
        total-out (carrying_w (is d)) s.riders refl outs,
        v.places.ids_eq (is d),
        ap (total (id_w (is d))) (
            subst (ManagerFresh blank s.shared s.rest v.places.future) over v.places.manager_fresh),
      )

  -- In every state that the threads reach while a client is served that sends its orders one at a
  -- time and then DONE: a delivery thread that has taken a number from the queue finds an order
  -- with this number that is cooked.
  pub rider_finds_order :
      (k : ℕ) (d : ℤ)
      → get_elem? s.riders k ≡ some (RiderPc.searching d)
      → (i : ℕ) × (o : Order) × (find_cooked d 0
            (take s.shared.order_counter_global s.shared.orders)
          ≡ some (i, o))
        × (o.order_id ≡ d)
        × (o.status ≡ Status.cooked)
  rider_finds_order k d at = elim (Option-cases (search s.shared d)) [
    | inl missed ↦ absurd (searched-found s k d at v.slots v.accounts missed)
    | inr ((i, o), found) ↦
        let q = search_sound s.shared s.cooks d i o v.slots found in
        (i, o, found, q.1, cooked-of o.status q.2)
  ]

  -- In every state that the threads reach while a client is served that sends its orders one at a
  -- time and then DONE: a manager that has taken an order from the cooks does not wait at
  -- cook_counter.
  pub cook_counter_left :
      (c : ℕ) (d : ℤ) → s.manager ≡ ManagerPc.holding c d → 0 < s.shared.cook_counter
  cook_counter_left c d at =
      let fresh =
        subst (ManagerFresh blank s.shared s.rest v.places.future) at v.places.manager_fresh in
      omega (
        arith,
        fresh.1,
        ap (moved s.shared) at,
        ap (manager_w one) at,
        v.accounts.cooked_eq one,
        v.accounts.moved_eq,
        cooked-delivering-le s.shared.orders,
        v.slots.counter_eq,
      )

module _ {blank : Order} {ids : ℕ → ℕ} {n m : ℕ} {texts : List Str} {s : System}
    (r : Reach blank ids n m texts s) where
  -- In every state that the threads reach while a client is served, whatever it sends: at most
  -- one cook is between the wait for the entrance of the oven and its post, at most three hold a
  -- paddle, at most six have a place in the oven, and no more delivery threads are on the way
  -- than there are motorcycles.
  pub oven_limits :
      (total at_door s.cooks ≤ 1)
      × (total has_paddle s.cooks ≤ 3)
      × (total has_place s.cooks ≤ 6)
      × (total on_bike s.riders ≤ m)
  oven_limits =
      let v = Reach-Oven r in
      (
        omega (arith, v.entrance),
        omega (arith, v.paddles),
        omega (arith, v.places),
        omega (arith, (Reach-Road r).bikes),
      )
