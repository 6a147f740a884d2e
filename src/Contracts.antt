-- ===== src/Contracts.antt =====
-- bridge/src/contracts.mjs: the shapes of the Queue's event and reply records.
pub mod Timestamp
pub mod Shape
pub mod Calendar
pub mod Accepted
pub mod Answered
pub mod Tests
