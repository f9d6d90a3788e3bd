-- ===== src/AsyncLog.antt =====
-- internal/asynclog/asynclog.go: the queue between application goroutines and a log sink.
pub mod Core
pub mod Accounting
pub mod Draining
mod Tests
