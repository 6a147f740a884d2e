-- ===== src/Ledger.antt =====
-- bridge/src/ledger.mjs: which messages were delivered, one claim file for each.
pub mod Lines
pub mod Legacy
pub mod Claims
pub mod Open
pub mod Kept
pub mod Once
pub mod Ready
pub mod Migrated
mod Tests
