-- ===== src/Shop/Kitchen/Invariant.antt =====
-- What holds of the kitchen whatever the order of the threads' steps.
pub mod Receive
pub mod Oven
pub mod Slots
pub mod Accounts
pub mod Found
pub mod CookSlots
pub mod CookAccounts
pub mod CookPlaces
pub mod Rider
pub mod RiderSlots
pub mod RiderAccounts
pub mod RiderPlaces
pub mod Manager
pub mod ManagerMoves
pub mod ManagerStep
pub mod Sender
pub mod Wake
pub mod Main
pub mod Road
