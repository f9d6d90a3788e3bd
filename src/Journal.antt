-- ===== src/Journal.antt =====
-- internal/journalstore: the durable journal of Telegram updates.
pub mod Rows
pub mod Labels
pub mod Attempts
pub mod Maintenance
pub mod Effects
pub mod Invariant
pub mod Fencing
pub mod Poison
pub mod Runs
pub mod Finality
pub mod Settled
pub mod Pruning
pub mod Retention
mod Tests
