-- ===== src/Channel.antt =====
-- internal/channel: the Telegram channel.
pub mod Split
pub mod Telegram
mod Tests
