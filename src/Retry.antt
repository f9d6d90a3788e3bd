-- ===== src/Retry.antt =====
-- internal/retry/retry.go: retry timing and repeated-failure sampling.
pub mod Backoff
pub mod Sampler
mod Tests
