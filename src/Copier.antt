-- ===== src/Copier.antt =====
-- The file copier of threads_mutex_semaphore_barrier/210104004243_main.c: a manager walks through
-- directories and puts the files into a buffer, and workers take them out and copy them.
pub mod Buffer
pub mod Walk
pub mod FileCopy
pub mod Statistics
pub mod Threads
pub mod System
pub mod Invariant
pub mod Delivery
pub mod Tree
mod Schedule
mod Tests
