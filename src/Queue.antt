-- ===== src/Queue.antt =====
-- Package internal/queue: the queue items, the queues, the channel registry and the worker.
pub mod Item
pub mod Memory
pub mod Redis
pub mod Creating
pub mod Registry
pub mod Worker
