-- ===== src/NotificationGate.antt =====
-- bridge/src/notification-gate.mjs: when a stored message may leave for the Queue.
pub mod Gate
pub mod Flush
mod Tests
