-- ===== src/Library/State.antt =====
-- internal/library/state.go: the state that survives a restart, as SQLite tables.
-- A time is its nanoseconds; dates are texts, ordered byte by byte as SQLite orders them. The errors
-- of the database driver are left out, so that a transaction always commits.
mod Rows
mod Store
mod Overrides
mod Restoring
mod Pruning
unfoldable pub use Rows.*
unfoldable pub use Store.*
pub use Restoring.*
pub use Pruning.*
