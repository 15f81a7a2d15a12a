-- ===== src/Shop.antt =====
-- The pide shop of socket_threads_semaphores_mutex/: the order queue of queue.h, the message queue
-- of messageQueue.h, and what the two have in common.
pub mod Memory
pub mod Chain
pub mod Fifo
pub mod Queue
pub mod MessageQueue
pub mod Kitchen
pub mod Client
mod Tests
