-- ===== src/SessionWatcher/Tests.antt =====
-- The theorems on bridge/src/session-watcher.mjs, applied to a state file whose second frame was cut
-- off in its hash, and to a message that is delivered twice.
use hermes_codex_bridge.Base.{
  ℕ, ◌≡◌, refl, true, false, none, some, List, [], ◌∷◌, ◌++◌, length, ok,
}
use hermes_codex_bridge.Base.Text.{codes}
use hermes_codex_bridge.Base.Json.{Json, get, at, string_is, end, field, bool, natural, str, obj}
use hermes_codex_bridge.Runtime.Sample.{zeros}
use hermes_codex_bridge.SessionWatcher.State.{Code, State, validate_state_record, has_exactly_keys}
use hermes_codex_bridge.SessionWatcher.Frames.{parse_state, frame_state_record, decimal}
use hermes_codex_bridge.Ledger.Claims.{
  contents, canonical_claim_exists, claim_text, commit_claim, create_canonical_claim, entry_text,
  link_all, link_claim, validate_canonical_claim,
}
use hermes_codex_bridge.Ledger.Open.{has, hash_key, append_legacy, mark, mark_hash}
use hermes_codex_bridge.FinalIdentity.{create_deterministic_event_id}
use hermes_codex_bridge.Base.Assoc.{lookup, insert}
use hermes_codex_bridge.RolloutParser.Final.{Message, control, turn_started}
use hermes_codex_bridge.SessionWatcher.Deliver.{
  knows, deliver_unless, deliver_new, check_abort, publish_call, call_publish, acknowledge, accept,
  publication_id, mark_and_report, mark_key, report, Answer, returned, Watch, effective_dedupe_key,
  deliver_observation,
}
use hermes_codex_bridge.SessionWatcher.OnlyOnce.{count_calls, deliver_all, deliver_all-once}
use hermes_codex_bridge.Base.Actions.{Action}
use hermes_codex_bridge.RolloutParser.Stream.{split_line}
use hermes_codex_bridge.RolloutParser.Lines.{lines_of, concat}
use hermes_codex_bridge.SessionWatcher.Walk.{
  Walked, add_segment, walk_split, walk_buffer, walk_buffers, walk_complete_records,
}
use hermes_codex_bridge.SessionWatcher.Offsets.{Agrees, walk_lines, walk_complete_records-Agrees}
use hermes_codex_bridge.SessionWatcher.Recovery.{IsHash, replay, frames, parse_state-cut}

abbrev bootstrap : Json
bootstrap = obj (
    field "schema" (natural 1)
      (field "type" (str "bootstrap") (field "bootstrapped" (bool true) end)))

abbrev sample_hash : List ℕ → List ℕ
sample_hash bytes = codes zeros

sample-IsHash : IsHash sample_hash
sample-IsHash = record { hex = λ bs. refl; count = λ bs. refl }

abbrev sample_bytes : Json → List ℕ
sample_bytes v = codes "{}"

abbrev bootstrapped : State
bootstrapped = record { checkpoints = []; bootstrapped = true }

replays :
    replay sample_hash
      (λ _. some bootstrap)
      sample_bytes
      sample-IsHash
      (λ _. false)
      (bootstrap ∷ [])
      (record { checkpoints = []; bootstrapped = false })
    ≡ ok bootstrapped
unfolding replay validate_state_record has_exactly_keys get at string_is
replays = refl

cut_in_hash :
    frame_state_record sample_hash sample_bytes bootstrap
    ≡ codes "2:0000"
      ++ (b'0' ∷ codes "00000000000000000000000000000000000000000000000000000000000:{}\n")
unfolding frame_state_record decimal
cut_in_hash = refl

parse_state-cut_example :
    parse_state sample_hash
      (λ _. some bootstrap)
      (λ _. false)
      (frames sample_hash
          (λ _. some bootstrap)
          sample_bytes
          sample-IsHash
          (λ _. false)
          (bootstrap ∷ [])
        ++ codes "2:0000")
    ≡ ok (record {
      state = bootstrapped;
      valid_bytes = length (
          frames sample_hash
            (λ _. some bootstrap)
            sample_bytes
            sample-IsHash
            (λ _. false)
            (bootstrap ∷ []));
    })
parse_state-cut_example =
    parse_state-cut sample_hash (λ _. some bootstrap) sample_bytes sample-IsHash (λ _. false)
      (bootstrap ∷ []) bootstrap (codes "2:0000") b'0'
      (codes "00000000000000000000000000000000000000000000000000000000000:{}\n") bootstrapped
      ((refl, refl), tt) refl replays cut_in_hash

abbrev empty_watch : Watch
empty_watch = record {
  ledger = record {
    disk = record {
      legacy = contents "";
      claims = [];
      ready = contents "hermes-codex-ledger-ready/v1\n";
      operations = 0;
    };
    is_closed = false;
  };
  calls = [];
  diagnostics = [];
  looks = 0;
}

abbrev turn_started_message : Message
turn_started_message =
    control
      (record {
        thread_id = none;
        cwd = none;
        turn_id = none;
        timestamp = none;
        dedupe_key = "control:unknown:unknown:TURN_STARTED:";
        event_id = "evt_00000000-0000-5000-8000-000000000000";
      })
      turn_started

abbrev acknowledged : Answer
acknowledged =
    returned (obj (field "idempotencyKey" (str "evt_00000000-0000-5000-8000-000000000000") end))

delivers :
    (deliver_observation
      (λ _. zeros)
      (λ _. false)
      (λ _. acknowledged)
      (λ _. false)
      (λ _. [])
      (λ _. zeros)
      (λ _. none)
      turn_started_message
      "a.jsonl"
      empty_watch).0
    ≡ ok true
unfolding deliver_observation knows has hash_key effective_dedupe_key canonical_claim_exists lookup
    deliver_unless deliver_new check_abort publish_call call_publish acknowledge accept string_is
    get publication_id create_deterministic_event_id insert claim_text commit_claim
    create_canonical_claim entry_text link_all link_claim validate_canonical_claim append_legacy
    mark mark_hash mark_and_report mark_key report
delivers = refl

deliver_all-once_example :
    let w' =
      (deliver_observation
        (λ _. zeros)
        (λ _. false)
        (λ _. acknowledged)
        (λ _. false)
        (λ _. [])
        (λ _. zeros)
        (λ _. none)
        turn_started_message
        "a.jsonl"
        empty_watch).1 in
    count_calls
      (effective_dedupe_key turn_started_message "a.jsonl")
      (deliver_all
        (λ _. zeros)
        (λ _. false)
        (λ _. acknowledged)
        (λ _. false)
        (λ _. [])
        (λ _. zeros)
        (λ _. none)
        ((turn_started_message, "a.jsonl") ∷ [])
        w').calls
    ≡ count_calls (effective_dedupe_key turn_started_message "a.jsonl") w'.calls
deliver_all-once_example =
    deliver_all-once (λ _. zeros) (λ _. false) (λ _. acknowledged) (λ _. false) (λ _. [])
      (λ _. zeros) (λ _. none) turn_started_message "a.jsonl"
      ((turn_started_message, "a.jsonl") ∷ []) empty_watch true delivers

-- every record is kept, the last one first
abbrev keep : Action (List Walked) Code (Unit {0})
keep s = (ok tt, s)

abbrev collect : Walked → Action (List Walked) Code (Unit {0})
collect c s = (ok tt, c ∷ s)

walk_complete_records-Agrees_example :
    Agrees 3 keep collect
      (lines_of (concat (codes "ab\nlo" ∷ codes "ng\nc" ∷ []))).1
      (walk_complete_records 3 keep collect 7 [] (codes "ab\nlo" ∷ codes "ng\nc" ∷ []) [])
      (walk_lines 3 keep collect (lines_of (concat (codes "ab\nlo" ∷ codes "ng\nc" ∷ []))).0 7 [])
walk_complete_records-Agrees_example =
    walk_complete_records-Agrees 3 keep collect 7 [] (codes "ab\nlo" ∷ codes "ng\nc" ∷ []) []
      (λ t. refl)

-- the second line is too long
walks :
    (walk_complete_records 3 keep collect 7 [] (codes "ab\nlo" ∷ codes "ng\nc" ∷ []) []).1
    ≡ (record { record_bytes = none; record_end = 15 })
      ∷ (record { record_bytes = some (codes "ab"); record_end = 10 })
      ∷ []
unfolding walk_complete_records walk_buffers walk_buffer walk_split split_line add_segment
walks = refl
