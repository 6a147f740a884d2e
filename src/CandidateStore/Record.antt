-- ===== src/CandidateStore/Record.antt =====
-- The states, `TRANSITIONS` and `normalizeCandidate` of bridge/src/candidate-store.mjs.
use hermes_codex_bridge.Base.{
  ℕ, String, Bool, true, false, not, ◌&&◌, Option, none, some, List, [], ◌∷◌, leb, ◌==◌,
  if◌then◌else◌, str_eq, Result, ok, err, ◌>>=◌, ◌>>◌, any,
}
use hermes_codex_bridge.Base.Text.{is_event_id, length16, codes}
use hermes_codex_bridge.Base.Json.{
  Json, Fields, null, natural, str, obj, end, field, get, is_object, safe_natural, max_safe_integer,
}
use hermes_codex_bridge.Runtime.{Runtime}

pub data State : Type 0 where
  pending_presence ready published cancelled_auto_continuation : State
  cancelled_local_reply stale_local_reply applied expired failed : State

-- the texts of `STATES`
abbrev pub state_name : State → String
state_name pending_presence = "PENDING_PRESENCE"
state_name ready = "READY"
state_name published = "PUBLISHED"
state_name cancelled_auto_continuation = "CANCELLED_AUTO_CONTINUATION"
state_name cancelled_local_reply = "CANCELLED_LOCAL_REPLY"
state_name stale_local_reply = "STALE_LOCAL_REPLY"
state_name applied = "APPLIED"
state_name expired = "EXPIRED"
state_name failed = "FAILED"

abbrev pub find_state : List State → String → Option State
find_state [] s = none
find_state (q ∷ qs) s = if str_eq (state_name q) s then some q else find_state qs s

abbrev pub states : List State
states =
    pending_presence ∷ ready ∷ published ∷ cancelled_auto_continuation ∷ cancelled_local_reply
    ∷ stale_local_reply ∷ applied ∷ expired ∷ failed ∷ []

-- `STATES.has(value)`, with the state that the text names
unfoldable pub parse_state : String → Option State
parse_state s = find_state states s

-- `TRANSITIONS[from].has(to)`
unfoldable pub may_follow : State → State → Bool
may_follow pending_presence cancelled_auto_continuation = true
may_follow pending_presence cancelled_local_reply = true
may_follow pending_presence ready = true
may_follow ready cancelled_auto_continuation = true
may_follow ready cancelled_local_reply = true
may_follow ready published = true
may_follow published stale_local_reply = true
may_follow published applied = true
may_follow published expired = true
may_follow published failed = true
may_follow _ _ = false

-- the `CANDIDATE_…` codes; `uncoded` is an error that carries none
pub data Code : Type 0 where
  bad_schema bad_event_id bad_thread bad_turn bad_state bad_kind bad_message bad_hash : Code
  bad_time bad_reason corrupt conflict write bad_patch bad_transition closed uncoded : Code

abbrev pub record_keys : List String
record_keys =
    "schema" ∷ "eventId" ∷ "threadId" ∷ "turnId" ∷ "contentHash" ∷ "kind" ∷ "state" ∷ "message"
    ∷ "observedAtMs" ∷ "localDeadlineMs" ∷ "stabilizeUntilMs" ∷ "reason" ∷ []

pub record Candidate : Type 0 where
  pub event_id : String
  pub thread_id : String
  pub turn_id : String
  pub content_hash : String
  pub kind : String
  pub state : State
  pub message : Json
  pub observed_at_ms : ℕ
  pub local_deadline_ms : ℕ
  pub stabilize_until_ms : ℕ
  pub reason : Option String

unfoldable pub valid_event_id : Option Json → Result Code String
valid_event_id (some (str s)) = if is_event_id s then ok s else err bad_event_id
valid_event_id _ = err bad_event_id

-- not empty, at most `limit` UTF-16 units, and no NUL
unfoldable pub is_plain : ℕ → String → Bool
is_plain limit s = leb 1 (length16 s) && leb (length16 s) limit && not (any (λ c. c == 0) (codes s))

unfoldable pub valid_string : Option Json → Code → ℕ → Result Code String
unfolding is_plain
valid_string (some (str s)) code limit = if is_plain limit s then ok s else err code
valid_string _ code limit = err code

-- `value ?? fallback`
abbrev pub coalesce : Option Json → Json → Json
coalesce none d = d
coalesce (some null) d = d
coalesce (some v) d = v

abbrev pub ok_or : {A : Type 0} → Option A → Code → Result Code A
ok_or none e = err e
ok_or (some a) e = ok a

unfoldable pub valid_time : Option Json → ℕ → Result Code ℕ
valid_time value fallback = ok_or (safe_natural (coalesce value (natural fallback))) bad_time

unfoldable pub valid_state : Option Json → Result Code State
unfolding parse_state
valid_state (some (str s)) = ok_or (parse_state s) bad_state
valid_state _ = err bad_state

unfoldable pub valid_reason : Option Json → Result Code (Option String)
unfolding valid_string
valid_reason none = ok none
valid_reason (some v) = do s ← valid_string (some v) bad_reason 80; ok (some s)

-- `input.contentHash !== undefined && input.contentHash !== contentHash`
unfoldable pub check_hash : Option Json → String → Result Code (Unit {0})
check_hash none h = ok tt
check_hash (some (str s)) h = if str_eq s h then ok tt else err bad_hash
check_hash (some _) h = err bad_hash

module _ (r : Runtime) where
  open r use {Document, stringify, parse, byte_length, sha256}

  unfoldable pub serialized_message : Option Json → Result Code Document
  serialized_message (some (obj fs)) =
      let text = stringify (obj fs) in
      if leb (byte_length text) 2097152 then ok text else err bad_message
  serialized_message _ = err bad_message

  unfoldable pub is_schema_1 : Option Json → Bool
  is_schema_1 (some (natural n)) = n == 1
  is_schema_1 _ = false

  unfoldable pub normalize_candidate : Json → Result Code Candidate
  unfolding is_schema_1
  normalize_candidate input = do
    (if is_object input && is_schema_1 (get "schema" input) then ok tt else err bad_schema)
    event_id ← valid_event_id (get "eventId" input)
    thread_id ← valid_string (get "threadId" input) bad_thread 512
    turn_id ← valid_string (get "turnId" input) bad_turn 512
    state ← valid_state (get "state" input)
    kind ← valid_string (some (coalesce (get "kind" input) (str "FINAL_RESPONSE"))) bad_kind 64
    message_json ← serialized_message (get "message" input)
    let content_hash = sha256 message_json
    check_hash (get "contentHash" input) content_hash
    observed_at_ms ← valid_time (get "observedAtMs" input) 0
    local_deadline_ms ← valid_time (get "localDeadlineMs" input) max_safe_integer
    stabilize_until_ms ← valid_time (get "stabilizeUntilMs" input) 0
    reason ← valid_reason (get "reason" input)
    message ← ok_or (parse message_json) uncoded
    ok (record {
      event_id = event_id;
      thread_id = thread_id;
      turn_id = turn_id;
      content_hash = content_hash;
      kind = kind;
      state = state;
      message = message;
      observed_at_ms = observed_at_ms;
      local_deadline_ms = local_deadline_ms;
      stabilize_until_ms = stabilize_until_ms;
      reason = reason;
    })

-- the object that `normalizeCandidate` returns, in the order of its keys
abbrev pub reason_field : Option String → Fields
reason_field none = end
reason_field (some s) = field "reason" (str s) end

unfoldable pub to_json : Candidate → Json
to_json c = obj (
    field "schema" (natural 1) (
      field "eventId" (str c.event_id) (
        field "threadId" (str c.thread_id) (
          field "turnId" (str c.turn_id) (
            field "contentHash" (str c.content_hash) (
              field "kind" (str c.kind) (
                field "state" (str (state_name c.state)) (
                  field "message" c.message (
                    field "observedAtMs" (natural c.observed_at_ms) (
                      field "localDeadlineMs" (natural c.local_deadline_ms) (
                        field "stabilizeUntilMs" (natural c.stabilize_until_ms)
                          (reason_field c.reason))))))))))))
