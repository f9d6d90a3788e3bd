-- ===== src/Journal/Poison.antt =====
-- FailUpdateAttempt: failures are counted, and an update that fails too often is given up.
mod Outcomes
mod Rounds
pub use Outcomes.*
pub use Rounds.*
