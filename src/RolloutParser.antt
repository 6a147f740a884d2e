-- ===== src/RolloutParser.antt =====
-- bridge/src/rollout-parser.mjs: the messages that the records of a rollout file tell of.
pub mod Final
pub mod Records
pub mod Stream
pub mod Lines
pub mod Chunks
pub mod Quiet
pub mod Subagent
pub mod Keys
mod Tests
