-- ===== src/Shop/Kitchen/Riders.antt =====
-- `delivery_thread`, one access to what is shared at a time. What it does with a mutex locked is one
-- step. Its `counter` is 1 where it has a pide, and 0 everywhere else.
use system_related_in_c.Base.{
  ℕ, ◌+◌, Option, none, some, List, [], ◌∷◌, ◌++◌, set, take, ltb, if◌then◌else◌,
}
use system_related_in_c.Base.Int.{ℤ}
use system_related_in_c.Shop.Kitchen.{
  Shared, Status, Order, delivered_by, wait, find_cooked, count_delivery,
}

pub data RiderPc : Type 0 where
  checking : RiderPc  -- before the tests of delivery_queue
  asleep : ℕ → RiderPc  -- in pthread_cond_wait, since this many broadcasts
  searching : ℤ → RiderPc  -- with a number from delivery_queue
  loaded : ℤ → RiderPc  -- before sem_wait(&available_motorcycle), with `arr[0]`
  starting : ℤ → RiderPc  -- before the statistics
  driving : ℤ → RiderPc  -- on the road
  returning : RiderPc  -- before sem_post(&available_motorcycle)
  out : RiderPc

-- `isEmptyQueue` and `dequeue` of delivery_queue
abbrev pub take_order : Shared → List ℤ → Shared × RiderPc
take_order s [] = if s.no_more_orders then (s, out) else (s, asleep s.can_deliver)
take_order s (d ∷ ds) = (record s { delivery_queue = ds }, searching d)

-- The search for the order, in the slots below order_counter_global.
abbrev pub load : Shared → ℤ → Option (ℕ × Order) → Shared × RiderPc
load s d none = (s, checking)
load s d (some (i, o)) = (
  record s { orders = set s.orders i (record o { status = Status.delivering }) },
  loaded o.order_id,
)

abbrev pub start : Shared → ℤ → Option ℕ → Option (Shared × RiderPc)
start s d none = none
start s d (some v) = some (record s { available_motorcycle = v }, starting d)

-- A step of the rider `me`, if it does not wait.
unfoldable pub rider_step : ℕ → Shared → RiderPc → Option (Shared × RiderPc)
rider_step me s checking = some (take_order s s.delivery_queue)
rider_step me s (asleep k) = if ltb k s.can_deliver then some (s, checking) else none
rider_step me s (searching d) =
    some (load s d (find_cooked d 0 (take s.order_counter_global s.orders)))
rider_step me s (loaded d) = start s d (wait s.available_motorcycle)
rider_step me s (starting d) =
    some (record s { thread_stat_arr = count_delivery me s.thread_stat_arr }, driving d)
rider_step me s (driving d) =
    some (record s { message_queue = s.message_queue ++ delivered_by me d ∷ [] }, returning)
rider_step me s returning =
    some (record s { available_motorcycle = s.available_motorcycle + 1 }, checking)
rider_step me s out = none
