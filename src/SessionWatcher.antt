-- ===== src/SessionWatcher.antt =====
-- bridge/src/session-watcher.mjs: rollout files are read from checkpoint to checkpoint, and their
-- messages are published once.
pub mod State
pub mod Frames
pub mod Digits
pub mod Recovery
pub mod Deliver
pub mod Walk
pub mod Offsets
pub mod OnlyOnce
mod Tests
