-- ===== src/Library.antt =====
-- internal/library: the media library's periods of the day.
pub mod Period
pub mod State
pub mod Selection
mod Tests
mod StateTests
mod SelectionTests
