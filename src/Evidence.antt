-- ===== src/Evidence.antt =====
-- internal/obsevidence: the trace of what OBS played, and its verification.
pub mod Records
pub mod Search
pub mod Checks
pub mod Verify
pub mod Correlation
pub mod Sound
pub mod Ends
pub mod Found
pub mod Reading
pub mod Accepted
pub mod Writer
pub mod Bookkeeping
pub mod Closing
mod Tests
