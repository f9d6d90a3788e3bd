-- ===== src/Liveness.antt =====
-- internal/liveness/liveness.go: the progress of the service's fixed set of mandatory workers.
pub mod Worker
pub mod Invariant
pub mod Progress
pub mod Scopes
pub mod Registry
pub mod Frames
mod Tests
