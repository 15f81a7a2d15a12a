-- ===== src/Shop/Kitchen/Tests.antt =====
-- Runs of the kitchen with one cook and two riders, and the theorems at states that they reach.
use system_related_in_c.Base.{
  true, false, ℕ, ◌*◌, ◌≤◌, ◌<◌, ◌≡◌, refl, some, List, [], ◌∷◌, ◌++◌, arith, get_elem?, take,
  total, length, All,
}
use system_related_in_c.Base.Int.{pos}
use system_related_in_c.Grades.Text.{Str, codes, tokens, atoi, strcmp}
use system_related_in_c.Shop.Kitchen.{Order, Status, find_cooked, find_order, count_delivery}
use system_related_in_c.Shop.Kitchen.Cooks.{CookPc}
use system_related_in_c.Shop.Kitchen.Riders.{RiderPc}
use system_related_in_c.Shop.Kitchen.Manager.{ManagerPc, fill_slot}
use system_related_in_c.Shop.Kitchen.Invariant.Receive.{IsScript, done, more}
use system_related_in_c.Shop.Kitchen.Invariant.Oven.{at_door, has_paddle, has_place}
use system_related_in_c.Shop.Kitchen.Invariant.Road.{on_bike, deliveries}
use system_related_in_c.Shop.Kitchen.Safety.{
  announced, asked, delivered_at_most_once, all_orders_served, rider_finds_order, cook_counter_left,
  oven_limits,
}
use system_related_in_c.Shop.Kitchen.Sleep.{rider_sleeps_without_orders, never_woken, now}
use system_related_in_c.Shop.Kitchen.Cleanup.{
  Server, end_of_input, key, returned, is_allocated, total_cleanup, total_cleanup3, dummy_thread,
}
use system_related_in_c.Shop.Kitchen.Cleanup.NextClient.{Fresh, total_cleanup-Fresh}
use system_related_in_c.Shop.Kitchen.Schedule.{
  Turn, of_cook, of_rider, of_manager, of_sender, wakes_rider, Reached, run, times,
}

abbrev order : ℕ → ℕ → ℕ → Order
order i x y = record { order_id = pos i; x = pos x; y = pos y; status = Status.waiting }

abbrev blank : Order
blank = order 0 0 0

abbrev ids : ℕ → ℕ
ids k = 7 * k

abbrev texts : List Str
texts = codes "0,3,4" ∷ codes "1,0,2" ∷ codes "DONE" ∷ []

abbrev asked_for : List Order
asked_for = order 0 3 4 ∷ order 1 0 2 ∷ []

texts-IsScript : IsScript blank asked_for texts
unfolding fill_slot tokens atoi strcmp
texts-IsScript =
    more (order 0 3 4) (order 1 0 2 ∷ []) (codes "0,3,4") (codes "1,0,2" ∷ codes "DONE" ∷ []) refl
      (λ n. refl) refl
      (more (order 1 0 2) [] (codes "1,0,2") (codes "DONE" ∷ []) refl (λ n. refl) refl
        (done (codes "DONE") [] refl))

abbrev rounds : List Turn
rounds = of_manager ∷ of_cook 0 ∷ of_rider 0 ∷ of_rider 1 ∷ of_sender ∷ []

abbrev whole_run : Reached blank ids 1 2 texts
whole_run = run blank ids 1 2 texts (times 60 rounds)

whole_run_test :
    (whole_run.last.manager ≡ ManagerPc.ended)
    × (whole_run.last.riders ≡ RiderPc.out ∷ RiderPc.out ∷ [])
    × (whole_run.last.cooks ≡ CookPc.out ∷ [])
    × (deliveries whole_run.last.shared.thread_stat_arr ≡ 2)
unfolding run strcmp fill_slot tokens atoi find_order find_cooked count_delivery
whole_run_test = (refl, refl, refl, refl)

-- A rider that wakes without a broadcast finds the queue empty and sleeps again.
wakes_for_nothing :
    ((run blank ids 1 2 texts (of_rider 1 ∷ wakes_rider 1 ∷ [])).last.riders
      ≡ RiderPc.checking ∷ RiderPc.checking ∷ [])
    × ((run blank ids 1 2 texts (of_rider 1 ∷ wakes_rider 1 ∷ of_rider 1 ∷ [])).last.riders
        ≡ RiderPc.checking ∷ RiderPc.asleep 0 ∷ [])
unfolding run
wakes_for_nothing = (refl, refl)

-- The manager is about to take a number of cook_counter.
abbrev early : Reached blank ids 1 2 texts
early = run blank ids 1 2 texts (times 15 rounds)

-- A rider is about to search for an order while the other sleeps.
abbrev later : Reached blank ids 1 2 texts
later = run blank ids 1 2 texts (times 18 rounds)

-- The manager is through before a rider sleeps again.
abbrev late : Reached blank ids 1 2 texts
late = run blank ids 1 2 texts (times 31 rounds ++ of_rider 0 ∷ of_rider 1 ∷ of_manager ∷ [])

early-holding : early.last.manager ≡ ManagerPc.holding 0 (pos 0)
unfolding run strcmp fill_slot tokens atoi find_order find_cooked count_delivery
early-holding = refl

later-searching : get_elem? later.last.riders 0 ≡ some (RiderPc.searching (pos 0))
unfolding run strcmp fill_slot tokens atoi find_order find_cooked count_delivery
later-searching = refl

later-asleep : get_elem? later.last.riders 1 ≡ some (RiderPc.asleep 1)
unfolding run strcmp fill_slot tokens atoi find_order find_cooked count_delivery
later-asleep = refl

later-broadcasts : later.last.shared.can_deliver ≡ 1
unfolding run strcmp fill_slot tokens atoi find_order find_cooked count_delivery
later-broadcasts = refl

late-ended : late.last.manager ≡ ManagerPc.ended
unfolding run strcmp fill_slot tokens atoi find_order find_cooked count_delivery
late-ended = refl

late-asleep : get_elem? late.last.riders 1 ≡ some (RiderPc.asleep 2)
unfolding run strcmp fill_slot tokens atoi find_order find_cooked count_delivery
late-asleep = refl

late-broadcasts : late.last.shared.can_deliver ≡ 2
unfolding run strcmp fill_slot tokens atoi find_order find_cooked count_delivery
late-broadcasts = refl

whole_run-out :
    (0 < length whole_run.last.riders) × All (λ p. p ≡ RiderPc.out) whole_run.last.riders
unfolding run strcmp fill_slot tokens atoi find_order find_cooked count_delivery
whole_run-out = (omega arith, (refl, (refl, tt)))

delivered_at_most_once_example : announced (pos 1) later.last ≤ asked (pos 1) asked_for
delivered_at_most_once_example = delivered_at_most_once texts-IsScript later.reach (pos 1)

all_orders_served_example : announced (pos 1) whole_run.last ≡ asked (pos 1) asked_for
all_orders_served_example =
    all_orders_served texts-IsScript whole_run.reach whole_run-out.0 whole_run-out.1 (pos 1)

rider_finds_order_example :
    (i : ℕ) × (o : Order) × (find_cooked
        (pos 0)
        0
        (take later.last.shared.order_counter_global later.last.shared.orders)
      ≡ some (i, o))
    × (o.order_id ≡ pos 0)
    × (o.status ≡ Status.cooked)
rider_finds_order_example = rider_finds_order texts-IsScript later.reach 0 (pos 0) later-searching

cook_counter_left_example : 0 < early.last.shared.cook_counter
cook_counter_left_example = cook_counter_left texts-IsScript early.reach 0 (pos 0) early-holding

oven_limits_example :
    (total at_door later.last.cooks ≤ 1)
    × (total has_paddle later.last.cooks ≤ 3)
    × (total has_place later.last.cooks ≤ 6)
    × (total on_bike later.last.riders ≤ 2)
oven_limits_example = oven_limits later.reach

rider_sleeps_without_orders_example : later.last.shared.delivery_queue ≡ []
rider_sleeps_without_orders_example =
    rider_sleeps_without_orders texts-IsScript later.reach 1 1 later-asleep later-broadcasts

never_woken_example : get_elem? late.last.riders 1 ≡ some (RiderPc.asleep 2)
never_woken_example =
    never_woken {blank = blank} {ids = ids} 1 2 {s = late.last} late-ended late-asleep
      late-broadcasts now

-- After this visit, with the block 5 for the orders and 6 for the new array.
abbrev after_visit : Server
after_visit = record {
  shared = whole_run.last.shared;
  order_cancelled = false;
  allocated = 5 ∷ [];
  to_client = [];
  client_open = true;
  log = [];
}

whole_run-cooks_out : All (λ p. p ≡ CookPc.out) whole_run.last.cooks
unfolding run strcmp fill_slot tokens atoi find_order find_cooked count_delivery
whole_run-cooks_out = (refl, tt)

total_cleanup-Fresh_example : Fresh 2 (total_cleanup 2 5 6 after_visit).shared
total_cleanup-Fresh_example =
    total_cleanup-Fresh blank ids 1 2 texts after_visit whole_run.last 5 6 whole_run.reach
      whole_run-cooks_out refl

abbrev in_visit : Server
in_visit = record after_visit { shared = early.last.shared }

cancel_test :
    (dummy_thread 2 5 6 in_visit (key 97 ∷ end_of_input ∷ [])
      ≡ returned
          (total_cleanup3 2 5 6 (record in_visit { log = codes "Server cancelled orders.\n" ∷ [] }))
          (97 ∷ []))
    × (is_allocated 5 (total_cleanup3 2 5 6 in_visit).allocated ≡ true)
unfolding run strcmp fill_slot tokens atoi find_order find_cooked count_delivery dummy_thread
    total_cleanup3
cancel_test = (refl, refl)
