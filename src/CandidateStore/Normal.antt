-- ===== src/CandidateStore/Normal.antt =====
-- The invariant of a candidate: what `normalizeCandidate` guarantees, and that it is idempotent.
use hermes_codex_bridge.Base.{
  ℕ, ◌≤◌, String, ◌≡◌, ap, sym, ◌∙◌, true, Option, none, some, arith, ok, bind-eq-ok, ok-injective,
  subst,
}
use hermes_codex_bridge.Base.Text.{is_event_id}
use hermes_codex_bridge.Base.Json.{
  Json, Fields, null, bool, natural, other_number, str, arr, obj, get, max_safe_integer,
}
use hermes_codex_bridge.Runtime.{Runtime, IsFaithful}
use hermes_codex_bridge.CandidateStore.Record.{
  Code, Candidate, valid_event_id, valid_string, is_plain, valid_time, valid_state, valid_reason,
  ok_or, bad_reason, coalesce, bad_thread, bad_turn, bad_kind, serialized_message,
  normalize_candidate,
}

abbrev pub ReasonFits : Option String → Type 0
ReasonFits none = Unit
ReasonFits (some s) = is_plain 80 s ≡ true

pub record IsWellFormed (r : Runtime) (c : Candidate) : Type 0 where
  pub id : is_event_id c.event_id ≡ true
  pub thread : is_plain 512 c.thread_id ≡ true
  pub turn : is_plain 512 c.turn_id ≡ true
  pub kind : is_plain 64 c.kind ≡ true
  pub message : (fs : Fields) × (c.message ≡ obj fs)
  pub fits : r.byte_length (r.stringify c.message) ≤ 2097152
  pub hash : c.content_hash ≡ r.sha256 (r.stringify c.message)
  pub observed : c.observed_at_ms ≤ max_safe_integer
  pub deadline : c.local_deadline_ms ≤ max_safe_integer
  pub stabilize : c.stabilize_until_ms ≤ max_safe_integer
  pub reason : ReasonFits c.reason

id-of_ok : (o : Option Json) {s : String} → valid_event_id o ≡ ok s → is_event_id s ≡ true
unfolding valid_event_id
id-of_ok o h = ground arith

plain-of_ok :
    (o : Option Json) (e : Code) (n : ℕ) {s : String}
    → valid_string o e n ≡ ok s
    → is_plain n s ≡ true
unfolding valid_string
plain-of_ok none e n h = cc
plain-of_ok (some (str t)) e n h = ground arith
plain-of_ok (some null) e n h = cc
plain-of_ok (some (bool b)) e n h = cc
plain-of_ok (some (natural b)) e n h = cc
plain-of_ok (some (other_number b)) e n h = cc
plain-of_ok (some (arr b)) e n h = cc
plain-of_ok (some (obj b)) e n h = cc

time-of_ok : (o : Option Json) (d : ℕ) {t : ℕ} → valid_time o d ≡ ok t → t ≤ max_safe_integer
unfolding valid_time
time-of_ok o d h = ground arith

some-of_ok_or : {A : Type 0} (o : Option A) (e : Code) {a : A} → ok_or o e ≡ ok a → o ≡ some a
some-of_ok_or none e h = cc
some-of_ok_or (some a) e h = cc

reason-of_ok : (o : Option Json) {t : Option String} → valid_reason o ≡ ok t → ReasonFits t
unfolding valid_reason
reason-of_ok none h = subst ReasonFits (ok-injective h) tt
reason-of_ok (some v) h =
    let (s, e, f) = bind-eq-ok _ _ h in
    subst ReasonFits (ok-injective f) (plain-of_ok (some v) bad_reason 80 e)

module _ (r : Runtime) (faithful : IsFaithful r) where
  message-of_ok :
      (o : Option Json) {d : r.Document} {m : Json}
      → serialized_message r o ≡ ok d
      → r.parse d ≡ some m
      → ((fs : Fields) × (m ≡ obj fs))
        × (r.byte_length (r.stringify m) ≤ 2097152)
        × (d ≡ r.stringify m)
  unfolding serialized_message
  message-of_ok (some (obj fs)) {d} {m} h p =
      let e : d ≡ r.stringify (obj fs) = ground arith in
      let same : m ≡ obj fs = cc (e, p, faithful.parse-stringify (obj fs)) in
      ((fs, same), rw same (ground arith), e ∙ ap r.stringify (sym same))
  message-of_ok none h p = cc
  message-of_ok (some (str t)) h p = cc
  message-of_ok (some null) h p = cc
  message-of_ok (some (bool b)) h p = cc
  message-of_ok (some (natural b)) h p = cc
  message-of_ok (some (other_number b)) h p = cc
  message-of_ok (some (arr b)) h p = cc

-- What each field of a normalized candidate was made from.
pub record ComesFrom (r : Runtime) (input : Json) (c : Candidate) : Type 0 where
  pub id : valid_event_id (get "eventId" input) ≡ ok c.event_id
  pub thread : valid_string (get "threadId" input) bad_thread 512 ≡ ok c.thread_id
  pub turn : valid_string (get "turnId" input) bad_turn 512 ≡ ok c.turn_id
  pub state : valid_state (get "state" input) ≡ ok c.state
  pub kind :
      valid_string (some (coalesce (get "kind" input) (str "FINAL_RESPONSE"))) bad_kind 64
      ≡ ok c.kind
  pub message :
      (d : r.Document) × (serialized_message r (get "message" input) ≡ ok d)
      × (r.parse d ≡ some c.message)
      × (c.content_hash ≡ r.sha256 d)
  pub observed : valid_time (get "observedAtMs" input) 0 ≡ ok c.observed_at_ms
  pub deadline : valid_time (get "localDeadlineMs" input) max_safe_integer ≡ ok c.local_deadline_ms
  pub stabilize : valid_time (get "stabilizeUntilMs" input) 0 ≡ ok c.stabilize_until_ms
  pub reason : valid_reason (get "reason" input) ≡ ok c.reason

pub normalize_candidate-ComesFrom :
    (r : Runtime) (input : Json) (c : Candidate)
    → normalize_candidate r input ≡ ok c
    → ComesFrom r input c
unfolding normalize_candidate
normalize_candidate-ComesFrom r input c h = ground arith

-- What a candidate's normal form is read back as.
module _ (r : Runtime) (faithful : IsFaithful r) where
  pub normalize_candidate-IsWellFormed :
      (input : Json) (c : Candidate) → normalize_candidate r input ≡ ok c → IsWellFormed r c
  normalize_candidate-IsWellFormed input c h =
      let f = normalize_candidate-ComesFrom r input c h in
      let (d, serialized, parsed, hashed) = f.message in
      let (object, fits, same) = message-of_ok r faithful _ serialized parsed in
      record {
        id = id-of_ok _ f.id;
        thread = plain-of_ok _ _ _ f.thread;
        turn = plain-of_ok _ _ _ f.turn;
        kind = plain-of_ok _ _ _ f.kind;
        message = object;
        fits = fits;
        hash = hashed ∙ ap r.sha256 same;
        observed = time-of_ok _ _ f.observed;
        deadline = time-of_ok _ _ f.deadline;
        stabilize = time-of_ok _ _ f.stabilize;
        reason = reason-of_ok _ f.reason;
      }
