-- ===== src/UiRouterHealth/Tests.antt =====
-- The theorems on bridge/src/ui-router-health.mjs, applied to a reply that waits.
use hermes_codex_bridge.Base.{ℕ, String, ◌≡◌, refl, Option, none, some, [], ◌∷◌}
use hermes_codex_bridge.Base.Json.{Json, end, field, null, str, obj, get, at}
use hermes_codex_bridge.UiRouterHealth.Health.{
  quiet, warn, recovered, is_old, is_fresh, timestamp, observe, observe_all,
}
use hermes_codex_bridge.UiRouterHealth.Warnings.{
  IsAlternating, IsStale, observe-IsStale, observe_all-IsAlternating,
}

abbrev waiting : Json
waiting = obj (field "oldestReadyAt" (str "2026-01-01T00:00:00Z") (field "heartbeatAt" null end))

abbrev empty_queue : Json
empty_queue = obj (field "oldestReadyAt" null (field "heartbeatAt" null end))

abbrev at_1000 : String → Option ℕ
at_1000 _ = some 1000

warned :
    (observe at_1000 waiting (some 200000) none).0 ≡ warn "ui-router-stale:2026-01-01T00:00:00Z"
unfolding observe is_old is_fresh timestamp at get
warned = refl

observe-IsStale_example : IsStale at_1000 waiting 200000
observe-IsStale_example =
    observe-IsStale at_1000 waiting 200000 none "ui-router-stale:2026-01-01T00:00:00Z" warned

run :
    observe_all at_1000
      ((waiting, some 200000) ∷ (waiting, some 260000) ∷ (empty_queue, some 320000) ∷ [])
      none
    ≡ warn "ui-router-stale:2026-01-01T00:00:00Z" ∷ quiet ∷ recovered ∷ []
unfolding observe_all observe is_old is_fresh timestamp at get
run = refl

observe_all-IsAlternating_example : IsAlternating none (
    observe_all at_1000
      ((waiting, some 200000) ∷ (waiting, some 260000) ∷ (empty_queue, some 320000) ∷ [])
      none)
observe_all-IsAlternating_example =
    observe_all-IsAlternating at_1000
      ((waiting, some 200000) ∷ (waiting, some 260000) ∷ (empty_queue, some 320000) ∷ []) none
