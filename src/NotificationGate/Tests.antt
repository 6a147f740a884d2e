-- ===== src/NotificationGate/Tests.antt =====
-- The theorem on flushes of bridge/src/notification-gate.mjs, applied to a store with one pending
-- final response, a user who is away, and a publisher that acknowledges.
use hermes_codex_bridge.Base.{ℕ, String, ◌≡◌, ◌⊎◌, Bool, false, Option, some, List, [], ok}
use hermes_codex_bridge.Base.Json.{Json}
use hermes_codex_bridge.CandidateStore.Record.{Candidate}
use hermes_codex_bridge.CandidateStore.Store.{list_candidates}
use hermes_codex_bridge.CandidateStore.Tests.{small, works, any_order, stored}
use hermes_codex_bridge.NotificationGate.Gate.{World, Limits, away, flush, active_states}
use hermes_codex_bridge.NotificationGate.Flush.{Grown, flush_only_due}

abbrev limits : Limits
limits = record { local_grace_ms = 1000; goal_settle_ms = 500 }

abbrev pending : World Json
pending = record { candidates = stored; clock_reads = 0; outbox = [] }

abbrev clock : ℕ → Option ℕ
clock _ = some 1500

abbrev acknowledge : ℕ → Option (Option String)
acknowledge _ = some (some "evt_00000000-0000-5000-8000-000000000001")

abbrev running : ℕ → Bool
running _ = false

flush_only_due_example :
    let w' = (flush small any_order works limits clock acknowledge running (some away) pending).1 in
    (w'.outbox ≡ [])
    ⊎ ((listed : List Candidate) × ((list_candidates small any_order (some active_states) stored).0
          ≡ ok listed)
        × Grown small any_order works limits clock acknowledge running away listed pending w')
flush_only_due_example =
    flush_only_due small any_order works limits clock acknowledge running (some away) pending
