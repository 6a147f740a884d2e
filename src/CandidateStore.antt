-- ===== src/CandidateStore.antt =====
-- bridge/src/candidate-store.mjs: the durable records of messages that wait to be published.
pub mod Record
pub mod Normal
pub mod Files
pub mod RoundTrip
pub mod Lookup
pub mod Patch
pub mod Store
pub mod Laws
pub mod Transition
pub mod History
pub mod Tests
