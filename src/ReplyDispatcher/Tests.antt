-- ===== src/ReplyDispatcher/Tests.antt =====
-- The theorems on bridge/src/reply-dispatcher.mjs, applied to a question and its answer.
use hermes_codex_bridge.Base.{◌≡◌, refl, asserts, ok, String, true, false, none, some, [], ◌∷◌}
use hermes_codex_bridge.Base.Json.{
  has_own_fields, string_is, at, text_at, get, Json, end, field, null, str, obj,
}
use hermes_codex_bridge.Runtime.Sample.{sample, zeros}
use hermes_codex_bridge.Contracts.Shape.{
  decode_event, decode_reply, validate_event, validate_reply, is_reply_mode, is_message, is_thread,
  has_allowed_actions, event_of, reply_of, Event, Reply, question, reply, live_request,
}
use hermes_codex_bridge.Base.Text.{is_event_id, is_sha256, has_part, has_suffix, is_blank}
use hermes_codex_bridge.Contracts.Timestamp.{is_rfc3339, exec_rfc3339, in_range, days_in_month}
use hermes_codex_bridge.Contracts.Tests as Contracts
use hermes_codex_bridge.ReplyDispatcher.Apply.{dispatch, Sinks, returned, apply}
use hermes_codex_bridge.ReplyDispatcher.Process.{
  json, safe_file, find_text, claim_once_or_same, terminal, write_once_or_same, Leaf, World, Counts,
}
use hermes_codex_bridge.ReplyDispatcher.Handle
use hermes_codex_bridge.ReplyDispatcher.Once.{process_body-once}
use hermes_codex_bridge.ReplyDispatcher.Handle.{
  applied, process_body, open_pair, read_pair, payload, is_expired, finish, process_directory,
}
use hermes_codex_bridge.ReplyDispatcher.Admission.{HasOneCall, process_directory-calls}

abbrev event_id : String
event_id = "evt_00000000-0000-5000-8000-000000000001"

abbrev live_question : Event
live_question = record {
  id = event_id;
  kind = question;
  created_at = "2026-01-01T00:00:00Z";
  expires_at = "2026-01-02T00:00:00Z";
  thread_id = "thread";
  turn_id = "turn";
  summary = "Go on?";
  markdown_path = null;
  reply_mode = some live_request;
  allowed_actions = reply ∷ [];
  content_sha256 = zeros;
}

abbrev yes_reply : Reply
yes_reply = record {
  event_id = event_id;
  created_at = "2026-01-01T01:00:00Z";
  action = reply;
  text = some "yes";
}

-- every sink is there, and every call is acknowledged
abbrev all_sinks : Sinks
all_sinks = record {
  has_ui_action_store = true;
  has_reply_guard = true;
  is_reply_current = λ _. true;
  hook_has = λ _. false;
  has_resolver = true;
  has_reply = true;
  answer = λ _. returned false false none none;
}

abbrev answer : Json
answer = obj (
    field "schema" (str "hermes-codex-interaction-reply/v3") (
      field "event_id" (str event_id) (
        field "created_at" (str "2026-01-01T01:00:00Z") (
          field "action" (str "REPLY") (
            field "text" (str "yes") (
              field "telegram"
                (obj
                  (field "delivery_ref" (str "ref") (field "sender_fingerprint" (str zeros) end)))
                end))))))

abbrev leaf : Json → Leaf Json
leaf v = record {
  is_file = true;
  is_symbolic_link = false;
  nlink = 1;
  size = 500;
  inside = true;
  text = v;
}

abbrev waiting : World Json
waiting = record {
  folder = record {
    safe = true;
    leaves = ("event.json", leaf Contracts.question) ∷ ("reply.json", leaf answer) ∷ [];
  };
  claims = [];
  writes = 0;
  clock_reads = 0;
  calls = [];
}

abbrev no_counts : Counts
no_counts = record {
  applied = 0;
  routed = 0;
  expired = 0;
  declined = 0;
  rejected = 0;
  failed = 0;
  deferred = 0;
}

process_directory-calls_example :
    HasOneCall
      (sample 500)
      (λ _. 1000)
      (λ _. "now")
      str
      (λ _. 1000)
      (λ _. false)
      all_sinks
      event_id
      waiting
      (process_directory
        (sample 500)
        (λ _. 1000)
        (λ _. "now")
        str
        (λ _. 1000)
        (λ _. false)
        all_sinks
        event_id
        waiting
        no_counts).0
process_directory-calls_example =
    process_directory-calls (sample 500) (λ _. 1000) (λ _. "now") str (λ _. 1000) (λ _. false)
      all_sinks event_id waiting no_counts

ends_applied :
    (process_body
      (sample 500)
      (λ _. 1000)
      (λ _. "now")
      str
      (λ _. 1000)
      (λ _. false)
      all_sinks
      event_id
      waiting).0
    ≡ ok applied
unfolding process_body open_pair read_pair json safe_file find_text payload decode_event
    decode_reply validate_event validate_reply asserts has_own_fields string_is is_event_id
    is_rfc3339 exec_rfc3339 in_range days_in_month at text_at is_sha256 get is_reply_mode is_message
    is_thread has_allowed_actions event_of reply_of Handle.answer is_expired claim_once_or_same
    apply dispatch finish terminal write_once_or_same has_part has_suffix is_blank
ends_applied = refl

-- The second scan runs later, and could deliver the answer in other ways.
process_body-once_example :
    let w' =
      (process_body
        (sample 500)
        (λ _. 1000)
        (λ _. "now")
        str
        (λ _. 1000)
        (λ _. false)
        all_sinks
        event_id
        waiting).1 in
    (process_body
      (sample 500)
      (λ _. 1000)
      (λ _. "now")
      str
      (λ _. 999)
      (λ _. false)
      all_sinks
      event_id
      w').1.calls
    ≡ w'.calls
process_body-once_example =
    process_body-once (sample 500) (λ _. 1000) (λ _. "now") str (λ _. 1000) (λ _. false) all_sinks
      event_id applied waiting (λ _. 999) (λ _. false) all_sinks ends_applied refl
