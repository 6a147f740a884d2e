-- ===== src/UiActionStore/Tests.antt =====
-- The theorems on bridge/src/ui-action-store.mjs, applied to a reply that waits for a router.
use Prim.Native.String
use hermes_codex_bridge.Base.{
  ◌≡◌, refl, asserts, ok, err, String, true, false, none, some, List, [], ◌∷◌, str_eq,
}
use hermes_codex_bridge.Base.Assoc.{lookup, insert}
use hermes_codex_bridge.Base.Json.{
  has_own_fields, string_is, at, text_at, get, Json, end, field, str, obj,
}
use hermes_codex_bridge.Base.Text.{is_event_id, is_sha256, is_safe_identifier, is_blank}
use hermes_codex_bridge.Runtime.Sample.{sample, zeros}
use hermes_codex_bridge.Contracts.Shape.{
  decode_event, decode_reply, validate_event, validate_reply, is_reply_mode, is_message, is_thread,
  has_allowed_actions, event_of, reply_of,
}
use hermes_codex_bridge.Contracts.Timestamp.{is_rfc3339, exec_rfc3339, in_range, days_in_month}
use hermes_codex_bridge.Contracts.Tests as Contracts
use hermes_codex_bridge.ReplyDispatcher.Process.{Leaf}
use hermes_codex_bridge.UiActionStore.Files.{
  World, lease, interaction_directory, leaves_of, set_leaves, safe_file_bytes, safe_json,
  optional_json, write_json_once, written,
}
use hermes_codex_bridge.UiActionStore.Checks.{
  exact_fields, test_item, test_json, valid_timestamp, validate_action, validate_claim, is_past,
}
use hermes_codex_bridge.UiActionStore.Load.{
  Context, checked_action, checked_reply, load, valid_claim, read_claim, terminal_exists, receipt,
}
use hermes_codex_bridge.UiActionStore.Methods.{
  not_terminal, not_expired, take_over, clear_claim, random, write_claim, claim_in_time, claim_open,
  claim_context, claim, mark_applied,
}
use hermes_codex_bridge.UiActionStore.WriteOnce.{
  claim_call, applied_call, heartbeat_call, perform_all, perform_all-Keeps,
}
use hermes_codex_bridge.UiActionStore.Leases.{IsFree, claim-IsFree}
use hermes_codex_bridge.UiActionStore.WrongLease.{mark_applied_wrong_lease}

abbrev pub event_id : String
event_id = "evt_00000000-0000-5000-8000-000000000001"

abbrev answer : Json
answer = obj (
    field "schema" (str "hermes-codex-interaction-reply/v3") (
      field "event_id" (str event_id) (
        field "created_at" (str "2026-01-01T01:00:00Z") (
          field "action" (str "REPLY") (
            field "text" (str "yes") (
              field "telegram"
                (obj
                  (field "delivery_ref" (str "ref") (field "sender_fingerprint" (str zeros) end)))
                end))))))

abbrev action : Json
action = obj (
    field "schema" (str "hermes-codex-ui-action/v3") (
      field "event_id" (str event_id) (
        field "thread_id" (str "thread") (
          field "source_turn_id" (str "turn") (
            field "reply_sha256" (str zeros)
              (field "created_at" (str "2026-01-01T01:00:01Z") end))))))

abbrev other_claim : Json
other_claim = obj (
    field "schema" (str "hermes-codex-ui-claim/v3") (
      field "event_id" (str event_id) (
        field "reply_sha256" (str zeros) (
          field "lease_id" (str "other") (
            field "claimed_at" (str "2026-01-01T01:00:02Z")
              (field "expires_at" (str "2026-01-01T01:02:02Z") end))))))

abbrev leaf : Json → Leaf Json
leaf v = record {
  is_file = true;
  is_symbolic_link = false;
  nlink = 1;
  size = 500;
  inside = true;
  text = v;
}

abbrev open_leaves : List (String × Leaf Json)
open_leaves =
    ("event.json", leaf Contracts.question)
    ∷ ("reply.json", leaf answer)
    ∷ ("ui-action.json", leaf action)
    ∷ []

abbrev queue : List (String × Leaf Json) → World Json
queue leaves = record {
  root = ok tt;
  folders = (event_id, record { safe = true; leaves = leaves }) ∷ [];
  registry = [];
  writes = 0;
  clock_reads = 0;
  ids = 0;
}

abbrev pub waiting : World Json
waiting = queue open_leaves

abbrev held : World Json
held = queue (("ui-claim.json", leaf other_claim) ∷ open_leaves)

abbrev context : Context
context = record {
  event = event_of Contracts.question;
  text = "yes";
  reply_hash = zeros;
  created_at = "2026-01-01T01:00:01Z";
}

action_there : lookup "ui-action.json" (leaves_of event_id waiting) ≡ some (leaf action)
unfolding leaves_of lookup
action_there = refl

perform_all-Keeps_example :
    lookup "ui-action.json" (
      leaves_of event_id (
        perform_all
          (sample 500)
          str
          (λ _. some 1000)
          (λ _. false)
          (λ _. "now")
          (λ _. 900)
          (λ _. "lease")
          (λ _ _. false)
          (claim_call event_id
            ∷ applied_call event_id "lease" "next"
            ∷ heartbeat_call "router"
            ∷ [])
          waiting))
    ≡ some (leaf action)
perform_all-Keeps_example =
    perform_all-Keeps (sample 500) str (λ _. some 1000) (λ _. false) (λ _. "now") (λ _. 900)
      (λ _. "lease") (λ _ _. false)
      (claim_call event_id ∷ applied_call event_id "lease" "next" ∷ heartbeat_call "router" ∷ [])
      waiting event_id "ui-action.json" (leaf action) refl action_there

loads : load (sample 500) str (λ _. some 1000) event_id waiting ≡ ok context
unfolding load interaction_directory safe_json safe_file_bytes decode_event decode_reply
    validate_event validate_reply asserts has_own_fields string_is is_event_id is_rfc3339
    exec_rfc3339 in_range days_in_month at text_at is_sha256 get is_reply_mode is_message is_thread
    has_allowed_actions event_of reply_of is_blank checked_reply checked_action validate_action
    exact_fields test_json test_item valid_timestamp lookup
loads = refl

loads_held : load (sample 500) str (λ _. some 1000) event_id held ≡ ok context
unfolding load interaction_directory safe_json safe_file_bytes decode_event decode_reply
    validate_event validate_reply asserts has_own_fields string_is is_event_id is_rfc3339
    exec_rfc3339 in_range days_in_month at text_at is_sha256 get is_reply_mode is_message is_thread
    has_allowed_actions event_of reply_of is_blank checked_reply checked_action validate_action
    exact_fields test_json test_item valid_timestamp lookup
loads_held = refl

claims :
    (claim
      (sample 500)
      str
      (λ _. some 1000)
      (λ _. false)
      (λ _. "now")
      (λ _. 900)
      (λ _. "lease")
      event_id
      waiting).0
    ≡ ok (record {
      thread_id = "thread";
      source_turn_id = "turn";
      action_created_at = "2026-01-01T01:00:01Z";
      lease_id = "lease";
      marker = String.◌++◌ "<!-- HC3_UI_EVENT:" (String.◌++◌ event_id " -->");
      text = "yes";
      prompt = String.◌++◌ (String.◌++◌ "<!-- HC3_UI_EVENT:" (String.◌++◌ event_id " -->")) "\nyes";
    })
unfolding claim claim_context claim_open claim_in_time write_claim clear_claim take_over
    not_terminal not_expired random terminal_exists optional_json write_json_once leaves_of
    set_leaves is_past is_safe_identifier lookup insert load interaction_directory safe_json
    safe_file_bytes decode_event decode_reply validate_event validate_reply asserts has_own_fields
    string_is is_event_id is_rfc3339 exec_rfc3339 in_range days_in_month at text_at is_sha256 get
    is_reply_mode is_message is_thread has_allowed_actions event_of reply_of is_blank checked_reply
    checked_action validate_action exact_fields test_json test_item valid_timestamp
claims = refl

claim-IsFree_example :
    (c : Context) × IsFree
      (sample 500)
      str
      (λ _. some 1000)
      (λ _. false)
      (λ _. "now")
      (λ _. 900)
      (λ _. "lease")
      event_id
      c
      waiting
claim-IsFree_example =
    claim-IsFree (sample 500) str (λ _. some 1000) (λ _. false) (λ _. "now") (λ _. 900)
      (λ _. "lease") event_id waiting
      (record {
        thread_id = "thread";
        source_turn_id = "turn";
        action_created_at = "2026-01-01T01:00:01Z";
        lease_id = "lease";
        marker = String.◌++◌ "<!-- HC3_UI_EVENT:" (String.◌++◌ event_id " -->");
        text = "yes";
        prompt =
            String.◌++◌ (String.◌++◌ "<!-- HC3_UI_EVENT:" (String.◌++◌ event_id " -->")) "\nyes";
      })
      claims

reads_claim :
    read_claim (sample 500) str (λ _. some 1000) event_id context held
    ≡ ok (record {
      lease_id = some (str "other");
      expires_at = "2026-01-01T01:02:02Z";
      bytes = other_claim;
    })
unfolding read_claim valid_claim validate_claim leaves_of lookup safe_json safe_file_bytes event_of
    text_at get exact_fields test_json test_item valid_timestamp string_is is_safe_identifier
reads_claim = refl

no_leaf :
    (lookup "receipt.json" (leaves_of event_id held) ≡ none)
    × (lookup "ui-applied.json" (leaves_of event_id held) ≡ none)
unfolding leaves_of lookup
no_leaf = (refl, refl)

safe_turn : is_safe_identifier "next" ≡ true
unfolding is_safe_identifier
safe_turn = refl

not_mine : string_is (λ t. str_eq t "mine") (some (str "other")) ≡ false
unfolding string_is
not_mine = refl

mark_applied_wrong_lease_example :
    let (out, w') =
      mark_applied
        (sample 500)
        str
        (λ _. some 1000)
        (λ _. false)
        (λ _. "now")
        (λ _. 900)
        (λ _. "lease")
        event_id
        "mine"
        "next"
        held in
    (out ≡ err lease)
    × (lookup "receipt.json" (leaves_of event_id w')
        ≡ some (
            written (sample 500) (
              receipt
                (sample 500)
                (λ _. false)
                (λ _. "now")
                (λ _. 900)
                event_id
                "now"
                "APPLIED"
                end)))
mark_applied_wrong_lease_example =
    mark_applied_wrong_lease (sample 500) str (λ _. some 1000) (λ _. false) (λ _. "now") (λ _. 900)
      (λ _. "lease") event_id "mine" "next" held context
      (record {
        lease_id = some (str "other");
        expires_at = "2026-01-01T01:02:02Z";
        bytes = other_claim;
      })
      safe_turn loads_held no_leaf.0 no_leaf.1 reads_claim not_mine refl
