-- ===== src/Telegram.antt =====
-- internal/telegram: how the service polls for updates and settles each in its journal.
pub mod Handling
pub mod Poller
pub mod Metadata
pub mod Requests
pub mod Contract
pub mod Settling
pub mod World
pub mod Effects
pub mod Unhandled
pub mod Durable
pub mod Restarts
mod Tests
