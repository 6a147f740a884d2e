-- ===== src/CandidateStore/RoundTrip.antt =====
-- A well-formed candidate is the normal form of its own object, and is read back as itself.
use hermes_codex_bridge.Base.{
  ℕ, ◌≤◌, String, ◌≡◌, refl, true, Option, none, some, arith, ok, err, leb_iff, Option-cases, inl,
  inr, eq_iff, ◌&&◌, ◌<◌, ◌∷◌, all,
}
use hermes_codex_bridge.Base.Text.{is_event_id}
use hermes_codex_bridge.Base.Json.{
  Json, natural, str, get, is_object, is_member, is_text, string_is, keys, max_safe_integer,
  find_field,
}
use hermes_codex_bridge.Runtime.{Runtime, IsFaithful}
use hermes_codex_bridge.CandidateStore.Record.{
  State, Code, Candidate, valid_event_id, valid_string, is_plain, valid_time, valid_state,
  valid_reason, bad_reason, state_name, parse_state, check_hash, bad_thread, bad_turn, bad_kind,
  serialized_message, normalize_candidate, to_json, reason_field, record_keys, corrupt, is_schema_1,
}
use hermes_codex_bridge.CandidateStore.Normal.{
  normalize_candidate-IsWellFormed, IsWellFormed, ReasonFits,
}
use hermes_codex_bridge.CandidateStore.Files.{
  validate_stored_record, read_leaf, leaf_of, Leaf, has_only_keys,
}

parse_state-state_name : (q : State) → parse_state (state_name q) ≡ some q
unfolding parse_state
parse_state-state_name State.pending_presence = refl
parse_state-state_name _ = refl

check_hash_self : (s : String) → check_hash (some (str s)) s ≡ ok tt
unfolding check_hash
check_hash_self s = rw ((eq_iff s s).1 refl)

pub message-serialized :
    (r : Runtime) (c : Candidate)
    → IsWellFormed r c
    → serialized_message r (some c.message) ≡ ok (r.stringify c.message)
unfolding serialized_message
message-serialized r c w = let (fs, e) = w.message in rw e (rw ((leb_iff _ _).1 (rw e at w.fits)))

time-valid : (n d : ℕ) → n ≤ max_safe_integer → valid_time (some (natural n)) d ≡ ok n
unfolding valid_time
time-valid n d h = rw ((leb_iff n max_safe_integer).1 h)

text-valid :
    (s : String) (e : Code) (n : ℕ) → is_plain n s ≡ true → valid_string (some (str s)) e n ≡ ok s
unfolding valid_string
text-valid s e n h = rw h

-- The reads of a candidate's own object.
pub record Reads (c : Candidate) : Type 0 where
  pub id : get "eventId" (to_json c) ≡ some (str c.event_id)
  pub thread : get "threadId" (to_json c) ≡ some (str c.thread_id)
  pub turn : get "turnId" (to_json c) ≡ some (str c.turn_id)
  pub hash : get "contentHash" (to_json c) ≡ some (str c.content_hash)
  pub kind : get "kind" (to_json c) ≡ some (str c.kind)
  pub state : get "state" (to_json c) ≡ some (str (state_name c.state))
  pub message : get "message" (to_json c) ≡ some c.message
  pub observed : get "observedAtMs" (to_json c) ≡ some (natural c.observed_at_ms)
  pub deadline : get "localDeadlineMs" (to_json c) ≡ some (natural c.local_deadline_ms)
  pub stabilize : get "stabilizeUntilMs" (to_json c) ≡ some (natural c.stabilize_until_ms)

pub to_json-Reads : (c : Candidate) → Reads c
unfolding get to_json
to_json-Reads c = record {
  id = refl;
  thread = refl;
  turn = refl;
  hash = refl;
  kind = refl;
  state = refl;
  message = refl;
  observed = refl;
  deadline = refl;
  stabilize = refl;
}

schema-to_json :
    (r : Runtime) (c : Candidate)
    → (is_object (to_json c) && is_schema_1 r (get "schema" (to_json c))) ≡ true
unfolding get to_json is_schema_1
schema-to_json r c = refl

pub state-valid : (q : State) → valid_state (some (str (state_name q))) ≡ ok q
unfolding valid_state
state-valid q = rw (parse_state-state_name q)

pub id-valid : (s : String) → is_event_id s ≡ true → valid_event_id (some (str s)) ≡ ok s
unfolding valid_event_id
id-valid s h = rw h

reason-get :
    (c : Candidate) → get "reason" (to_json c) ≡ find_field "reason" (reason_field c.reason)
unfolding get to_json
reason-get c = refl

reason-valid :
    (o : Option String) → ReasonFits o → valid_reason (find_field "reason" (reason_field o)) ≡ ok o
unfolding valid_reason
reason-valid none h = refl
reason-valid (some s) h = rw (text-valid s bad_reason 80 h)

module _ (r : Runtime) (faithful : IsFaithful r) where
  pub normalize_candidate-to_json :
      (c : Candidate) → IsWellFormed r c → normalize_candidate r (to_json c) ≡ ok c
  unfolding normalize_candidate
  normalize_candidate-to_json c w =
      let g = to_json-Reads c in
      rw (
        schema-to_json r c,
        g.id,
        id-valid _ w.id,
        g.thread,
        text-valid _ bad_thread 512 w.thread,
        g.turn,
        text-valid _ bad_turn 512 w.turn,
        g.state,
        state-valid c.state,
        g.kind,
        text-valid _ bad_kind 64 w.kind,
        g.message,
        message-serialized r c w,
        g.hash,
        ← w.hash,
        check_hash_self c.content_hash,
        g.observed,
        time-valid _ 0 w.observed,
        g.deadline,
        time-valid _ max_safe_integer w.deadline,
        g.stabilize,
        time-valid _ 0 w.stabilize,
        reason-get c,
        reason-valid c.reason w.reason,
        faithful.parse-stringify c.message,
      )

  stored_keys : (c : Candidate) → has_only_keys (to_json c) ≡ true
  unfolding to_json
  stored_keys c = go c.reason
    where
      go :
          (o : Option String)
          → all (is_member record_keys) (
              "schema"
              ∷ "eventId"
              ∷ "threadId"
              ∷ "turnId"
              ∷ "contentHash"
              ∷ "kind"
              ∷ "state"
              ∷ "message"
              ∷ "observedAtMs"
              ∷ "localDeadlineMs"
              ∷ "stabilizeUntilMs"
              ∷ keys (reason_field o))
            ≡ true
      go none = refl
      go (some s) = refl

  hash-stored :
      (c : Candidate) → string_is (is_text c.content_hash) (get "contentHash" (to_json c)) ≡ true
  unfolding string_is
  hash-stored c = rw ((to_json-Reads c).hash) ((eq_iff _ _).1 refl)

  validate_stored_record-to_json :
      (c : Candidate) → IsWellFormed r c → validate_stored_record r (to_json c) ≡ ok c
  unfolding validate_stored_record
  validate_stored_record-to_json c w = rw (
    stored_keys c,
    normalize_candidate-to_json c w,
    hash-stored c,
    (faithful.same_iff _ _).1 refl,
  )

  -- A written record of at most 3 MiB is read back as the candidate that it was written for.
  pub read_leaf-leaf_of :
      (c : Candidate)
      → IsWellFormed r c
      → r.byte_length (r.pretty (to_json c)) ≤ 3145728
      → read_leaf r (leaf_of r c) ≡ ok c
  unfolding read_leaf
  read_leaf-leaf_of c w h =
      rw ((leb_iff _ _).1 h, faithful.parse-pretty (to_json c)) (validate_stored_record-to_json c w)

  pub read_leaf-too_large :
      (c : Candidate)
      → 3145728 < r.byte_length (r.pretty (to_json c))
      → read_leaf r (leaf_of r c) ≡ err corrupt
  unfolding read_leaf
  read_leaf-too_large c h = ground arith

  validated-normal :
      (v : Json) (c : Candidate)
      → validate_stored_record r v ≡ ok c
      → normalize_candidate r v ≡ ok c
  unfolding validate_stored_record
  validated-normal v c h = ground arith

  -- Whatever is read from a record file is well-formed.
  pub read_leaf-IsWellFormed :
      (l : Leaf r.Document) (c : Candidate) → read_leaf r l ≡ ok c → IsWellFormed r c
  unfolding read_leaf
  read_leaf-IsWellFormed l c h = elim (Option-cases (r.parse l.text)) [
    | inl e ↦ absurd (ground arith)
    | inr (v, e) ↦
        normalize_candidate-IsWellFormed r faithful v c (validated-normal v c (ground arith))
  ]
