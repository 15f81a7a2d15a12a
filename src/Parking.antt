-- ===== src/Parking.antt =====
-- The car park of shared_mem_and_threads/main.c: owners bring cars and pickups to a temporary lot,
-- and two attendants take them from there to the parking area.
pub mod Lot
pub mod Threads
pub mod System
pub mod Invariant
pub mod Safety
pub mod Progress
mod Schedule
mod Tests
