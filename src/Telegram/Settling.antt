-- ===== src/Telegram/Settling.antt =====
-- What polling promises over any journal that keeps the contract.
mod Turns
mod Polls
mod Lives
pub use Turns.*
pub use Polls.*
unfoldable pub use Lives.*
