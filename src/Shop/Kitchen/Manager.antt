-- ===== src/Shop/Kitchen/Manager.antt =====
-- `manager_thread`, one access to what is shared at a time, and `sender_thread`. What the manager
-- does with a mutex locked is one step, where it does not wait in between.
use system_related_in_c.Base.{
  ℕ, suc, ◌+◌, true, Option, none, some, List, [], ◌∷◌, ◌++◌, set, take, ltb, ◌==◌, if◌then◌else◌,
  length,
}
use system_related_in_c.Base.Options.{◌>>=◌}
use system_related_in_c.Base.Int.{ℤ}
use system_related_in_c.Grades.Text.{Str, codes, same, tokens, until_nul, atoi}
use system_related_in_c.Shop.Kitchen.{
  Shared, Status, Order, Message, accepted, max_order, wait, find_order,
}

-- Three calls of `atoi`.
abbrev pub three_ints : Str → Str → Str → Option (ℤ × ℤ × ℤ)
three_ints t u v = do d ← atoi t; x ← atoi u; y ← atoi v; some (d, x, y)

-- The loop over the tokens of one text: what it makes of the slot, and how many orders it counts.
-- It is undefined where a number does not fit in an int.
unfoldable pub fill_slot : List Str → Order → ℕ → Option (Order × ℕ)
fill_slot [] o n = some (o, n)
fill_slot (t ∷ []) o n = do d ← atoi t; some (record o { order_id = d }, n)
fill_slot (t ∷ u ∷ []) o n = do d ← atoi t; x ← atoi u; some (record o { order_id = d; x = x }, n)
fill_slot (t ∷ u ∷ v ∷ ts) o n = elim (three_ints t u v) [
  | none ↦ none
  | some (d, x, y) ↦
      fill_slot ts (record { order_id = d; x = x; y = y; status = Status.waiting }) (suc n)
]

-- `orders[i] = o`, in the slots up to MAX_ORDER; it is undefined behind them.
abbrev pub store_order : ℕ → Order → List Order → Option (List Order)
store_order i o os =
    if ltb i max_order then some (if i == length os then os ++ o ∷ [] else set os i o) else none

pub data ManagerPc : Type 0 where
  receiving : ℕ → ManagerPc  -- with `order_counter`
  collecting : ℕ → ManagerPc  -- before `counter == order_counter_global`
  polling : ℕ → ManagerPc  -- before the test of ready_order_queue
  asleep : ℕ → ℕ → ManagerPc  -- in pthread_cond_wait, since this many signals
  holding : ℕ → ℤ → ManagerPc  -- before sem_wait(&cook_counter), with `data`
  placing : ℕ → ℤ → ManagerPc  -- before the loop over the orders
  ended : ManagerPc

abbrev pub filled : Shared → ℕ → Option (Order × ℕ) → Option Shared
filled s c none = none
filled s c (some (o, n)) = do
  os ← store_order c o s.orders
  some (record s { orders = os; order_counter_global = n; sent = s.sent ++ accepted ∷ [] })

-- One text of the client, in the slot `order_counter`, and the answer to it.
unfoldable pub receive : Order → Shared → ℕ → Str → Option Shared
receive blank s c text = filled s c (fill_slot (tokens b',' text) blank s.order_counter_global)

abbrev pub received : Option Shared → List Str → ℕ → Option (Shared × List Str × ManagerPc)
received none rest c = none
received (some s) rest c = some (s, rest, receiving (suc c))

abbrev pub poll : Shared → ℕ → List ℤ → Shared × ManagerPc
poll s c [] = (s, asleep c s.can_consume)
poll s c (d ∷ ds) = (record s { ready_order_queue = ds }, holding c d)

abbrev pub place : Shared → ℕ → Option (ℕ × Order) → Shared × ManagerPc
place s c none = (s, collecting c)
place s c (some (i, o)) = (
  record s {
    delivery_queue = s.delivery_queue ++ o.order_id ∷ [];
    can_deliver = s.can_deliver + 1;
  },
  collecting (suc c),
)

abbrev pub with_rest : List Str → Shared × ManagerPc → Option (Shared × List Str × ManagerPc)
with_rest rest (s, m) = some (s, rest, m)

abbrev pub count_down :
    Shared → List Str → ℕ → ℤ → Option ℕ → Option (Shared × List Str × ManagerPc)
count_down s rest c d none = none
count_down s rest c d (some v) = some (record s { cook_counter = v }, rest, placing c d)

-- A step of the manager, if it does not wait. `rest` is what its calls of `read` are going to give,
-- and `blank` what the next slot held before.
unfoldable pub manager_step :
    Order → Shared → List Str → ManagerPc → Option (Shared × List Str × ManagerPc)
unfolding receive
manager_step blank s [] (receiving c) = some (s, [], collecting 0)
manager_step blank s (bytes ∷ rest) (receiving c) =
    if same (until_nul bytes) (codes "DONE")
    then some (record s { order_counter_global = c; cook_counter = c }, rest, collecting 0)
    else received (receive blank s c (until_nul bytes)) rest c
manager_step blank s rest (collecting c) =
    if c == s.order_counter_global
    then some (record s { no_more_orders = true; exit_from_dummy = true }, rest, ended)
    else some (s, rest, polling c)
manager_step blank s rest (polling c) = with_rest rest (poll s c s.ready_order_queue)
manager_step blank s rest (asleep c k) =
    if ltb k s.can_consume then some (s, rest, polling c) else none
manager_step blank s rest (holding c d) = count_down s rest c d (wait s.cook_counter)
manager_step blank s rest (placing c d) =
    with_rest rest (place s c (find_order d 0 (take s.order_counter_global s.orders)))
manager_step blank s rest ended = none

-- `sender_thread`: the oldest message goes to the client. While the queue is empty it sleeps.
abbrev pub send_next : Shared → List Message → Option Shared
send_next s [] = none
send_next s (m ∷ ms) = some (record s { message_queue = ms; sent = s.sent ++ m ∷ [] })

unfoldable pub sender_step : Shared → Option Shared
sender_step s = send_next s s.message_queue
