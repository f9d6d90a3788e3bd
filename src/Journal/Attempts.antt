-- ===== src/Journal/Attempts.antt =====
-- internal/journalstore/journal.go: the operations on one update attempt.
-- An operation takes the time that `nowUTC` returns. A statement is its effect on the rows; a
-- transaction that fails leaves the tables as they were. Counters are unbounded.
mod Statements
mod Begin
mod Finish
unfoldable pub use Statements.*
unfoldable pub use Begin.*
unfoldable pub use Finish.*
