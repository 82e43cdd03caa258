-- ===== src/Threads.antt =====
-- What threads share: the player cache, the queue of statistics, and the periodic tasks.
pub mod PlayerCache
pub mod Queue
pub mod Task
