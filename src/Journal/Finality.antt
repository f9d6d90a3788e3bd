-- ===== src/Journal/Finality.antt =====
-- A finished update stays finished: no operation on attempts writes the row of a terminal attempt.
mod Statements
mod Operations
pub use Statements.{Persists, advance-attempts}
pub use Operations.{begin-Persists, complete-Persists, abort-Persists, fail-Persists}
