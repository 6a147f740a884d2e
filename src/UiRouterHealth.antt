-- ===== src/UiRouterHealth.antt =====
-- bridge/src/ui-router-health.mjs: warnings about a router that leaves replies waiting.
pub mod Health
pub mod Warnings
mod Tests
