-- ===== src/Shop/Kitchen/Invariant/Accounts.antt =====
-- Where each order is, in numbers: a weight of order numbers has the same total over the orders with
-- a status as over the places where such orders are.
use system_related_in_c.Base.{
  ℕ, ◌+◌, ◌≤◌, ◌≡◌, Bool, true, false, Option, none, some, List, [], get_elem?, total,
  if◌then◌else◌,
}
use system_related_in_c.Base.Int.{ℤ, eq_ℤ}
use system_related_in_c.Grades.Text.{Str}
use system_related_in_c.Shop.Kitchen.{
  Shared, Status, Order, Message, cooked_by, delivered_by, accepted, is_cooked,
}
use system_related_in_c.Shop.Kitchen.Cooks.{Phase, CookPc}
use system_related_in_c.Shop.Kitchen.Riders.{RiderPc}
use system_related_in_c.Shop.Kitchen.Manager.{ManagerPc}
use system_related_in_c.Shop.Kitchen.System.{System}
use system_related_in_c.Shop.Kitchen.Invariant.Receive.{IsScript}

abbrev pub one : ℤ → ℕ
one d = 1

-- 1 for this number.
abbrev pub is : ℤ → ℤ → ℕ
is d a = if eq_ℤ a d then 1 else 0

abbrev pub is_delivering : Status → Bool
is_delivering Status.delivering = true
is_delivering _ = false

module _ (w : ℤ → ℕ) where
  abbrev pub id_w : Order → ℕ
  id_w o = w o.order_id

  abbrev pub cooked_w : Order → ℕ
  cooked_w o = if is_cooked o.status then w o.order_id else 0

  abbrev pub delivering_w : Order → ℕ
  delivering_w o = if is_delivering o.status then w o.order_id else 0

  abbrev pub weight_of : Option Order → ℕ
  weight_of none = 0
  weight_of (some o) = w o.order_id

  -- The order that a cook is about to put into ready_order_queue.
  abbrev pub cook_w : List Order → CookPc → ℕ
  cook_w os (CookPc.busy Phase.ready i) = weight_of (get_elem? os i)
  cook_w os _ = 0

  abbrev pub manager_w : ManagerPc → ℕ
  manager_w (ManagerPc.holding c d) = w d
  manager_w (ManagerPc.placing c d) = w d
  manager_w _ = 0

  abbrev pub searching_w : RiderPc → ℕ
  searching_w (RiderPc.searching d) = w d
  searching_w _ = 0

  -- The order with a rider that has not announced it yet.
  abbrev pub carrying_w : RiderPc → ℕ
  carrying_w (RiderPc.loaded d) = w d
  carrying_w (RiderPc.starting d) = w d
  carrying_w (RiderPc.driving d) = w d
  carrying_w _ = 0

  abbrev pub delivered_w : Message → ℕ
  delivered_w accepted = 0
  delivered_w (cooked_by me d) = 0
  delivered_w (delivered_by me d) = w d

-- How many orders the manager has put into delivery_queue.
abbrev pub moved : Shared → ManagerPc → ℕ
moved s (ManagerPc.receiving c) = 0
moved s (ManagerPc.collecting c) = c
moved s (ManagerPc.polling c) = c
moved s (ManagerPc.asleep c k) = c
moved s (ManagerPc.holding c d) = c
moved s (ManagerPc.placing c d) = c
moved s ManagerPc.ended = s.order_counter_global

pub record Accounts (s : System) : Type 0 where
  pub cooked_eq :
      (w : ℤ → ℕ)
      → total (cooked_w w) s.shared.orders
        ≡ total (cook_w w s.shared.orders) s.cooks
          + total w s.shared.ready_order_queue
          + manager_w w s.manager
          + total w s.shared.delivery_queue
          + total (searching_w w) s.riders
  pub delivering_eq :
      (w : ℤ → ℕ)
      → total (delivering_w w) s.shared.orders
        ≡ total (carrying_w w) s.riders
          + total (delivered_w w) s.shared.message_queue
          + total (delivered_w w) s.shared.sent
  pub moved_eq :
      moved s.shared s.manager
      ≡ total one s.shared.delivery_queue
        + total (searching_w one) s.riders
        + total (delivering_w one) s.shared.orders

abbrev pub is_ended : ManagerPc → Bool
is_ended ManagerPc.ended = true
is_ended _ = false

-- What a place of the manager says, `future` being the orders that are still to come.
abbrev pub ManagerFresh : Order → Shared → List Str → List Order → ManagerPc → Type 0
ManagerFresh blank s rest future (ManagerPc.receiving c) =
    (c ≡ s.order_counter_global) × IsScript blank future rest
ManagerFresh blank s rest future (ManagerPc.collecting c) =
    (future ≡ []) × (s.cook_counter + c ≡ s.order_counter_global)
ManagerFresh blank s rest future (ManagerPc.polling c) =
    (future ≡ []) × (s.cook_counter + c ≡ s.order_counter_global)
ManagerFresh blank s rest future (ManagerPc.asleep c k) =
    (future ≡ [])
    × (s.cook_counter + c ≡ s.order_counter_global)
    × (k ≤ s.can_consume)
    × (k ≡ s.can_consume → s.ready_order_queue ≡ [])
ManagerFresh blank s rest future (ManagerPc.holding c d) =
    (future ≡ []) × (s.cook_counter + c ≡ s.order_counter_global)
ManagerFresh blank s rest future (ManagerPc.placing c d) =
    (future ≡ []) × (s.cook_counter + c + 1 ≡ s.order_counter_global)
ManagerFresh blank s rest future ManagerPc.ended = future ≡ []

abbrev pub RiderFresh : Shared → RiderPc → Type 0
RiderFresh s (RiderPc.asleep k) = (k ≤ s.can_deliver) × (k ≡ s.can_deliver → s.delivery_queue ≡ [])
RiderFresh s RiderPc.out = (s.no_more_orders ≡ true) × (s.delivery_queue ≡ [])
RiderFresh s _ = Unit

pub record Places (blank : Order) (all : List Order) (s : System) : Type 0 where
  pub future : List Order
  pub ids_eq :
      (w : ℤ → ℕ) → total (id_w w) s.shared.orders + total (id_w w) future ≡ total (id_w w) all
  pub manager_fresh : ManagerFresh blank s.shared s.rest future s.manager
  pub closed : s.shared.no_more_orders ≡ is_ended s.manager
  pub riders_fresh : (k : ℕ) (p : RiderPc) → get_elem? s.riders k ≡ some p → RiderFresh s.shared p
