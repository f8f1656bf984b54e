-- ===== src/Gpool.antt =====
-- gpool: the ring of idle connections, the queue of waiters, the pool over them, and the calls that
-- borrow from it.
pub mod IdleQueue
pub mod WaiterQueue
pub mod Pool
pub mod Retry
pub mod Selector
