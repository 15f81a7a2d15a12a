-- ===== src/Shop/Kitchen.antt =====
-- The data that the threads of socket_threads_semaphores_mutex/server.c share while one client is
-- served. The queues hold what Shop.Queue and Shop.MessageQueue show them to hold: a list, first in
-- first out. A condition variable is the number of times that it was signalled.
pub mod Cooks
pub mod Riders
pub mod Manager
pub mod System
pub mod Invariant
pub mod Safety
pub mod Sleep
pub mod Cleanup
pub mod Schedule
mod Tests
use system_related_in_c.Base.{
  ℕ, zero, suc, ◌+◌, Bool, true, false, ◌&&◌, ◌||◌, Option, none, some, List, [], ◌∷◌, ◌++◌, map,
  get_elem?, set, ltb, if◌then◌else◌, ◌==◌,
}
use system_related_in_c.Base.Int.{ℤ, eq_ℤ}

pub data Status : Type 0 where
  waiting preparing cooking cooked delivering delivered finished : Status

pub record Order : Type 0 where
  pub order_id : ℤ
  pub x : ℤ
  pub y : ℤ
  pub status : Status

-- What the client is told: of an order that was received, and by the cooks and the motorcycles, with
-- `pthread_self() % 100`.
pub data Message : Type 0 where
  accepted : Message
  cooked_by : ℕ → ℤ → Message
  delivered_by : ℕ → ℤ → Message

pub record ThreadStat : Type 0 where
  pub thread_id : ℕ
  pub p_count : ℕ

pub record Shared : Type 0 where
  pub orders : List Order  -- the slots that the manager has filled
  pub order_counter_global : ℕ
  pub next : ℕ
  pub no_more_orders : Bool
  pub exit_from_dummy : Bool
  pub ready_order_queue : List ℤ
  pub delivery_queue : List ℤ
  pub message_queue : List Message
  pub sent : List Message  -- on the socket
  pub sem_kurek : ℕ
  pub oven_cap : ℕ
  pub oven_access_entrance : ℕ
  pub oven_access_exit : ℕ
  pub cook_counter : ℕ
  pub available_motorcycle : ℕ
  pub can_consume : ℕ
  pub can_deliver : ℕ
  pub thread_stat_arr : List ThreadStat

abbrev pub max_order : ℕ
max_order = 100

abbrev pub is_empty_queue : List ℤ → Bool
is_empty_queue [] = true
is_empty_queue (d ∷ ds) = false

-- `sem_wait` on a value, which waits at 0.
abbrev pub wait : ℕ → Option ℕ
wait zero = none
wait (suc n) = some n

abbrev put_status : ℕ → Status → List Order → Option Order → Option (List Order)
put_status i st os none = none
put_status i st os (some o) = some (set os i (record o { status = st }))

-- `orders[i].status = st`
abbrev pub set_status : ℕ → Status → List Order → Option (List Order)
set_status i st os = put_status i st os (get_elem? os i)

abbrev pub is_cooked : Status → Bool
is_cooked Status.cooked = true
is_cooked _ = false

-- The first order with this number, `i` being where the search has got to.
unfoldable pub find_order : ℤ → ℕ → List Order → Option (ℕ × Order)
find_order d i [] = none
find_order d i (o ∷ os) =
    let rest = find_order d (suc i) os in if eq_ℤ o.order_id d then some (i, o) else rest

-- The first order with this number that is cooked.
unfoldable pub find_cooked : ℤ → ℕ → List Order → Option (ℕ × Order)
find_cooked d i [] = none
find_cooked d i (o ∷ os) =
    let rest = find_cooked d (suc i) os in
    if eq_ℤ o.order_id d && is_cooked o.status then some (i, o) else rest

-- One more delivery of the first thread with this number.
unfoldable pub count_delivery : ℕ → List ThreadStat → List ThreadStat
count_delivery me [] = []
count_delivery me (t ∷ ts) =
    let rest = count_delivery me ts in
    if me == t.thread_id then record t { p_count = t.p_count + 1 } ∷ ts else t ∷ rest

abbrev pub is_open : Status → Bool
is_open Status.waiting = true
is_open Status.preparing = true
is_open Status.cooking = true
is_open Status.cooked = true
is_open _ = false

-- `check_for_others`: an order is not on its way yet.
unfoldable pub check_for_others : List Order → Bool
check_for_others [] = false
check_for_others (o ∷ os) =
    let rest = check_for_others os in if is_open o.status then true else rest
