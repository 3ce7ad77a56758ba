-- ===== src/Server/Locks.antt =====
-- The mutexes of server/ and lib/cds.c, and the waits for a thread: what each function locks, unlocks
-- and joins, in its order, and what the threads together can do then.
pub mod Programs
pub mod Run
pub mod Order
pub mod Invariant
pub mod Progress
pub mod Finish
pub mod Lost
mod Tests
