-- ===== src/Sessions.antt =====
-- sessions/: the session of one client identifier, and its message queue.
pub mod State
pub mod Machine
pub mod Invariant
pub mod Once
pub mod Queue
pub mod Lifecycle
pub mod Publishing
pub mod Subscribing
pub mod Loading
pub mod Worker
pub mod Table
pub mod Sql
