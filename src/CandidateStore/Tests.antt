-- ===== src/CandidateStore/Tests.antt =====
-- The theorems on bridge/src/candidate-store.mjs, applied to a final response.
use hermes_codex_bridge.Base.{
  ℕ, String, ◌≡◌, refl, Bool, true, false, none, some, [], ◌∷◌, ok, err, arith,
}
use hermes_codex_bridge.Base.Json.{Json, end, field, str, obj, get}
use hermes_codex_bridge.Runtime.{Runtime}
use hermes_codex_bridge.Runtime.Sample.{sample, sample-IsFaithful, zeros}
use hermes_codex_bridge.CandidateStore.Record.{
  Candidate, State, pending_presence, ready, applied, corrupt, parse_state, valid_event_id,
  valid_state, is_plain, normalize_candidate, to_json, may_follow,
}
use hermes_codex_bridge.CandidateStore.Normal.{IsWellFormed, normalize_candidate-IsWellFormed}
use hermes_codex_bridge.CandidateStore.Files.{find_leaf, read_record}
use hermes_codex_bridge.CandidateStore.Store.{
  next_record, check_patch, patched, Store, put, get_candidate, transition,
}
use hermes_codex_bridge.CandidateStore.Laws.{
  read_record-replaced, Fits, written, put_repeatable, put_too_large,
}
use hermes_codex_bridge.CandidateStore.RoundTrip.{normalize_candidate-to_json}
use hermes_codex_bridge.CandidateStore.Patch.{SameMessage}
use hermes_codex_bridge.CandidateStore.Transition.{transition-next, transition_moves}
use hermes_codex_bridge.CandidateStore.History.{
  put_op, move_op, perform_all, sight, IsTerminal, IsNamed, written-IsNamed, perform_all-terminal,
}
use hermes_codex_bridge.Base.Text.{is_event_id}

abbrev event_id : String
event_id = "evt_00000000-0000-5000-8000-000000000001"

abbrev message : Json
message = obj (field "text" (str "done") end)

abbrev response : State → Candidate
response q = record {
  event_id = event_id;
  thread_id = "thread";
  turn_id = "turn";
  content_hash = zeros;
  kind = "FINAL_RESPONSE";
  state = q;
  message = message;
  observed_at_ms = 1000;
  local_deadline_ms = 2000;
  stabilize_until_ms = 1500;
  reason = none;
}

abbrev final_response : Candidate
final_response = response pending_presence

abbrev empty_store : Store Json
empty_store = record { disk = record { leaves = []; writes = 0 }; is_closed = false }

abbrev pub small : Runtime
small = sample 500

abbrev large : Runtime
large = sample 4000000

response-IsWellFormed : (n : ℕ) (q : State) → IsWellFormed (sample n) (response q)
unfolding is_event_id is_plain get
response-IsWellFormed n q = record {
  id = refl;
  thread = refl;
  turn = refl;
  kind = refl;
  message = (field "text" (str "done") end, refl);
  fits = omega arith;
  hash = refl;
  observed = omega arith;
  deadline = omega arith;
  stabilize = omega arith;
  reason = tt;
}

abbrev pub works : ℕ → Bool
works _ = false

abbrev pub any_order : String → String → Bool
any_order _ _ = true

absent : (n : ℕ) → read_record (sample n) [] event_id true ≡ ok none
unfolding read_record valid_event_id is_event_id find_leaf
absent n = refl

normal : (n : ℕ) → normalize_candidate (sample n) (to_json final_response) ≡ ok final_response
normal n =
    normalize_candidate-to_json (sample n) (sample-IsFaithful n) final_response
      (response-IsWellFormed n pending_presence)

normalize_candidate-to_json_example :
    normalize_candidate small (to_json final_response) ≡ ok final_response
normalize_candidate-to_json_example =
    normalize_candidate-to_json small (sample-IsFaithful 500) final_response
      (response-IsWellFormed 500 pending_presence)

normalize_candidate-IsWellFormed_example : IsWellFormed small final_response
normalize_candidate-IsWellFormed_example =
    normalize_candidate-IsWellFormed small (sample-IsFaithful 500) (to_json final_response)
      final_response (normal 500)

put_repeatable_example :
    let (result, s') = put small works (to_json final_response) empty_store in
    (result ≡ ok final_response)
    × (get_candidate small any_order event_id s' ≡ (ok (some final_response), s'))
    × (put small works (to_json final_response) s' ≡ (ok final_response, s'))
unfolding get to_json
put_repeatable_example =
    put_repeatable small (sample-IsFaithful 500) works any_order (to_json final_response)
      final_response empty_store (normal 500) (omega arith) refl (absent 500) refl

put_too_large_example :
    let (result, s') = put large works (to_json final_response) empty_store in
    (result ≡ ok final_response)
    × (get_candidate large any_order event_id s' ≡ (err corrupt, s'))
    × (put large works (to_json final_response) s' ≡ (err corrupt, s'))
unfolding get to_json
put_too_large_example =
    put_too_large large (sample-IsFaithful 4000000) works any_order (to_json final_response)
      final_response empty_store (normal 4000000) (omega arith) refl (absent 4000000) refl

abbrev ready_response : Candidate
ready_response = response ready

abbrev pub stored : Store Json
stored = written small (sample-IsFaithful 500) works final_response empty_store

abbrev moved : Store Json
moved = written small (sample-IsFaithful 500) works ready_response stored

fits : (q : State) → Fits small (response q)
unfolding get to_json
fits q = omega arith

ready_normal : normalize_candidate small (to_json ready_response) ≡ ok ready_response
ready_normal =
    normalize_candidate-to_json small (sample-IsFaithful 500) ready_response
      (response-IsWellFormed 500 ready)

there : read_record small stored.disk.leaves event_id false ≡ ok (some final_response)
there =
    read_record-replaced small (sample-IsFaithful 500) final_response [] false
      (response-IsWellFormed 500 pending_presence) (fits pending_presence)

patched-ready : normalize_candidate small (patched final_response end ready) ≡ ok ready_response
unfolding patched to_json
patched-ready = ready_normal

next : next_record small stored.disk.leaves event_id "READY" (obj end) ≡ ok ready_response
unfolding next_record valid_event_id is_event_id valid_state parse_state check_patch may_follow
next = rw there patched-ready

moves : transition small works event_id "READY" (obj end) stored ≡ (ok ready_response, moved)
moves =
    transition-next small (sample-IsFaithful 500) works event_id "READY" (obj end) ready_response
      stored next refl refl

transition_moves_example :
    (c : Candidate) × IsWellFormed small ready_response
    × (read_record small stored.disk.leaves event_id false ≡ ok (some c))
    × (may_follow c.state ready ≡ true)
    × (valid_state (some (str "READY")) ≡ ok ready)
    × SameMessage c ready_response
    × (moved ≡ moved)
transition_moves_example =
    transition_moves small (sample-IsFaithful 500) works event_id "READY" (obj end) ready_response
      stored moved moves

abbrev applied_store : Store Json
applied_store = written small (sample-IsFaithful 500) works (response applied) empty_store

empty_store-IsNamed : IsNamed small (sample-IsFaithful 500) works empty_store
unfolding read_record find_leaf
empty_store-IsNamed id c h = absurd (ground arith)

applied-IsTerminal : IsTerminal small (sample-IsFaithful 500) works applied
unfolding may_follow
applied-IsTerminal next = ground arith

-- The message is observed again, and a flush tries to publish it once more.
perform_all-terminal_example :
    sight small (sample-IsFaithful 500) works event_id (
      perform_all small
        (sample-IsFaithful 500)
        works
        (put_op (to_json final_response) ∷ move_op event_id "PUBLISHED" (obj end) ∷ [])
        applied_store)
    ≡ ok (some (response applied))
perform_all-terminal_example =
    perform_all-terminal small (sample-IsFaithful 500) works
      (put_op (to_json final_response) ∷ move_op event_id "PUBLISHED" (obj end) ∷ []) applied_store
      event_id (response applied)
      (written-IsNamed small (sample-IsFaithful 500) works (response applied) empty_store
        (response-IsWellFormed 500 applied) empty_store-IsNamed)
      (read_record-replaced small (sample-IsFaithful 500) (response applied) [] true
        (response-IsWellFormed 500 applied) (fits applied))
      applied-IsTerminal
