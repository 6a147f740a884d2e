-- ===== src/FinalIdentity/Tests.antt =====
-- The theorem on bridge/src/final-identity.mjs, applied to one identity.
use hermes_codex_bridge.Base.{◌≡◌, refl, true}
use hermes_codex_bridge.Base.Text.{is_sha256, is_event_id}
use hermes_codex_bridge.Runtime.Sample.{zeros}
use hermes_codex_bridge.FinalIdentity.{create_deterministic_event_id}
use hermes_codex_bridge.FinalIdentity.Shape.{create_deterministic_event_id-valid}

zeros-valid : is_sha256 zeros ≡ true
unfolding is_sha256
zeros-valid = refl

create_deterministic_event_id-valid_example :
    is_event_id (create_deterministic_event_id (λ _. zeros) "codex:thread:turn:item:FINAL_RESPONSE")
    ≡ true
create_deterministic_event_id-valid_example =
    create_deterministic_event_id-valid (λ _. zeros) "codex:thread:turn:item:FINAL_RESPONSE"
      zeros-valid

-- the version and the variant
version_and_variant :
    create_deterministic_event_id (λ _. zeros) "x" ≡ "evt_00000000-0000-5000-8000-000000000000"
unfolding create_deterministic_event_id
version_and_variant = refl
