-- ===== src/Shop/Kitchen/Cooks.antt =====
-- `cook_thread`, one access to what is shared at a time. What it does with a mutex locked is one
-- step.
use system_related_in_c.Base.{
  ℕ, suc, ◌+◌, Option, none, some, [], ◌∷◌, ◌++◌, get_elem?, ltb, if◌then◌else◌,
}
use system_related_in_c.Shop.Kitchen.{Shared, Status, cooked_by, wait, set_status}

-- How far a cook is with an order.
pub data Phase : Type 0 where
  taken : Phase  -- before sem_wait(&sem_kurek)
  paddled : Phase  -- before sem_wait(&oven_cap)
  in_oven : Phase  -- before sem_wait(&oven_access_entrance)
  at_entrance : Phase  -- before the status COOKING
  baking : Phase  -- before sem_post(&oven_access_entrance)
  opened : Phase  -- before sem_post(&oven_cap)
  left_oven : Phase  -- before sem_post(&sem_kurek)
  put_back : Phase  -- before sem_wait(&oven_access_exit)
  at_exit : Phase  -- before sem_post(&oven_access_exit)
  out_of_oven : Phase  -- before the status COOKED
  ready : Phase  -- before the enqueue
  queued : Phase  -- before the message

pub data CookPc : Type 0 where
  idle : CookPc  -- at the head of the loop
  entered : CookPc  -- with _order_full_mutex
  busy : Phase → ℕ → CookPc  -- with the order `current`
  out : CookPc

abbrev pub go : {A : Type 0} → Option A → (A → Shared) → CookPc → Option (Shared × CookPc)
go none f p = none
go (some a) f p = some (f a, p)

-- The order `i` in the hands of the cook `me`.
unfoldable pub cook_order : ℕ → Shared → Phase → ℕ → Option (Shared × CookPc)
cook_order me s taken i = go (wait s.sem_kurek) (λ v. record s { sem_kurek = v }) (busy paddled i)
cook_order me s paddled i = go (wait s.oven_cap) (λ v. record s { oven_cap = v }) (busy in_oven i)
cook_order me s in_oven i =
    go (wait s.oven_access_entrance) (λ v. record s { oven_access_entrance = v })
      (busy at_entrance i)
cook_order me s at_entrance i =
    go (set_status i Status.cooking s.orders) (λ os. record s { orders = os }) (busy baking i)
cook_order me s baking i =
    some (record s { oven_access_entrance = s.oven_access_entrance + 1 }, busy opened i)
cook_order me s opened i = some (record s { oven_cap = s.oven_cap + 1 }, busy left_oven i)
cook_order me s left_oven i = some (record s { sem_kurek = s.sem_kurek + 1 }, busy put_back i)
cook_order me s put_back i =
    go (wait s.oven_access_exit) (λ v. record s { oven_access_exit = v }) (busy at_exit i)
cook_order me s at_exit i =
    some (record s { oven_access_exit = s.oven_access_exit + 1 }, busy out_of_oven i)
cook_order me s out_of_oven i =
    go (set_status i Status.cooked s.orders) (λ os. record s { orders = os }) (busy ready i)
cook_order me s ready i =
    go (get_elem? s.orders i)
      (λ o. record s {
        ready_order_queue = s.ready_order_queue ++ o.order_id ∷ [];
        can_consume = s.can_consume + 1;
      })
      (busy queued i)
cook_order me s queued i =
    go (get_elem? s.orders i)
      (λ o. record s { message_queue = s.message_queue ++ cooked_by me o.order_id ∷ [] }) idle

-- A step of the cook `me`, if it does not wait. A cook that has entered spins until there is an
-- order, or none is to come.
unfoldable pub cook_step : ℕ → Shared → CookPc → Option (Shared × CookPc)
unfolding cook_order
cook_step me s idle = some (s, (if s.no_more_orders then out else entered))
cook_step me s entered =
    if ltb s.next s.order_counter_global
    then some (record s { next = suc s.next }, busy taken s.next)
    else if s.no_more_orders
    then some (s, idle)
    else none
cook_step me s (busy ph i) = cook_order me s ph i
cook_step me s out = none
