-- ===== src/Journal/Fencing.antt =====
-- Who may finish an update: the owner tokens and the leases of the journal.
mod Completion
mod Leases
mod Exclusive
pub use Completion.*
pub use Leases.*
pub use Exclusive.*
