-- ===== src/ReplyDispatcher.antt =====
-- bridge/src/reply-dispatcher.mjs: what becomes of a reply that Telegram sent.
pub mod Apply
pub mod Process
pub mod Readable
pub mod Handle
pub mod Admitted
pub mod Routing
pub mod Admission
pub mod Once
mod Tests
