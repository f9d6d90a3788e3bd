-- ===== src/Journal/Invariant.antt =====
-- What holds of the journal between two operations, and that each operation keeps it.
mod Defs
mod Steps
mod RowChanges
mod Attempts
mod Begin
mod Upkeep
pub use Defs.*
pub use Steps.{Kept, Returns-bind, Returns-check, Returns-if, Returns-map}
pub use RowChanges.*
pub use Attempts.*
pub use Begin.*
pub use Upkeep.*
