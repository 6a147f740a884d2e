-- ===== src/UiActionStore.antt =====
-- bridge/src/ui-action-store.mjs: replies that wait for a router to type them into a task.
pub mod Files
pub mod Checks
pub mod Load
pub mod Task
pub mod Methods
pub mod Queue
pub mod Kept
pub mod WriteOnce
pub mod Leases
pub mod WrongLease
pub mod Exclusive
mod Tests
mod LeaseTests
