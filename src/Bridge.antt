-- ===== src/Bridge.antt =====
-- pyttch-bridge/src: the bridge to Telegram.
pub mod Status
pub mod Bots
pub mod Turns
pub mod Urls
pub mod Updater
pub mod Stream
pub mod Replies
pub mod Prompts
