-- ===== src/CandidateStore/Patch.antt =====
-- What `{ ...current, ...patch, state: nextState }` changes of a candidate: its state, and its
-- reason.
use hermes_codex_bridge.Base.{
  ℕ, String, ◌≡◌, refl, ap, sym, ◌∙◌, true, false, some, arith, str_eq, eq_iff, ok-injective,
  if◌then◌else◌, ok, all, and_true,
}
use hermes_codex_bridge.Base.Json.{Json, Fields, end, field, natural, str, get, find_field, keys}
use hermes_codex_bridge.Runtime.{Runtime, IsFaithful}
use hermes_codex_bridge.CandidateStore.Record.{
  State, Candidate, state_name, normalize_candidate, to_json, valid_event_id, valid_string, Code,
  valid_time,
}
use hermes_codex_bridge.CandidateStore.Normal.{IsWellFormed, normalize_candidate-ComesFrom}
use hermes_codex_bridge.CandidateStore.RoundTrip.{to_json-Reads, message-serialized, state-valid}
use hermes_codex_bridge.CandidateStore.Store.{fields_of, with_field, spread, patched}

find_field-with_field :
    (k j : String) (v : Json) (fs : Fields)
    → find_field j (with_field k v fs) ≡ (if str_eq k j then some v else find_field j fs)
find_field-with_field k j v end = refl
find_field-with_field k j v (field i w fs) =
    ground (arith, eq_iff i k, eq_iff i j, eq_iff k j, find_field-with_field k j v fs)

find_field-spread :
    (j : String) (fs gs : Fields)
    → all (str_eq "reason") (keys gs) ≡ true
    → str_eq "reason" j ≡ false
    → find_field j (spread fs gs) ≡ find_field j fs
find_field-spread j fs end h n = refl
find_field-spread j fs (field k v gs) h n =
    let (here, later) = and_true _ _ h in
    let e : "reason" ≡ k = (eq_iff "reason" k).0 here in
    find_field-spread j (with_field k v fs) gs later n
    ∙ find_field-with_field k j v fs
    ∙ rw (← e, n)

find_field-overwritten :
    (j : String) (v : Json) (fs gs : Fields)
    → all (str_eq "reason") (keys gs) ≡ true
    → str_eq "reason" j ≡ false
    → str_eq "state" j ≡ false
    → find_field j (with_field "state" v (spread fs gs)) ≡ find_field j fs
find_field-overwritten j v fs gs h n m =
    find_field-with_field "state" j v (spread fs gs) ∙ rw m (find_field-spread j fs gs h n)

pub get-patched :
    (j : String) (c : Candidate) (gs : Fields) (next : State)
    → all (str_eq "reason") (keys gs) ≡ true
    → str_eq "reason" j ≡ false
    → str_eq "state" j ≡ false
    → get j (patched c gs next) ≡ get j (to_json c)
unfolding get patched
get-patched j c gs next h n m =
    find_field-overwritten j (str (state_name next)) (fields_of (to_json c)) gs h n m

state-patched :
    (c : Candidate) (gs : Fields) (next : State)
    → get "state" (patched c gs next) ≡ some (str (state_name next))
unfolding get patched
state-patched c gs next =
    find_field-with_field "state" "state" (str (state_name next))
      (spread (fields_of (to_json c)) gs)

-- The two records are one message, in whatever state.
pub record SameMessage (c d : Candidate) : Type 0 where
  pub event_id : d.event_id ≡ c.event_id
  pub thread_id : d.thread_id ≡ c.thread_id
  pub turn_id : d.turn_id ≡ c.turn_id
  pub kind : d.kind ≡ c.kind
  pub message : d.message ≡ c.message
  pub content_hash : d.content_hash ≡ c.content_hash
  pub observed : d.observed_at_ms ≡ c.observed_at_ms
  pub deadline : d.local_deadline_ms ≡ c.local_deadline_ms
  pub stabilize : d.stabilize_until_ms ≡ c.stabilize_until_ms

id-again : (s : String) {t : String} → valid_event_id (some (str s)) ≡ ok t → t ≡ s
unfolding valid_event_id
id-again s h = ground arith

string-again :
    (s : String) (e : Code) (n : ℕ) {t : String} → valid_string (some (str s)) e n ≡ ok t → t ≡ s
unfolding valid_string
string-again s e n h = ground arith

time-again : (n d : ℕ) {t : ℕ} → valid_time (some (natural n)) d ≡ ok t → t ≡ n
unfolding valid_time
time-again n d h = ground arith

-- A record that is normalized from a patched candidate is the same message, in the next state.
module _ (r : Runtime) (faithful : IsFaithful r) (c d : Candidate) (gs : Fields)
    (next : State) where
  pub normalize_candidate-patched :
      IsWellFormed r c
      → all (str_eq "reason") (keys gs) ≡ true
      → normalize_candidate r (patched c gs next) ≡ ok d
      → SameMessage c d × (d.state ≡ next)
  normalize_candidate-patched w h e =
      let f = normalize_candidate-ComesFrom r (patched c gs next) d e in
      let g = to_json-Reads c in
      let kept = λ (j : String) (n : str_eq "reason" j ≡ false) (m : str_eq "state" j ≡ false).
        get-patched j c gs next h n m in
      let (t, serialized, parsed, hashed) = f.message in
      let same_text : t ≡ r.stringify c.message =
        ok-injective (
          sym (rw (kept "message" refl refl, g.message) at serialized)
          ∙ message-serialized r c w) in
      (
        record {
          event_id = id-again c.event_id (rw (kept "eventId" refl refl, g.id) at f.id);
          thread_id =
              string-again c.thread_id _ _ (rw (kept "threadId" refl refl, g.thread) at f.thread);
          turn_id = string-again c.turn_id _ _ (rw (kept "turnId" refl refl, g.turn) at f.turn);
          kind = string-again c.kind _ _ (rw (kept "kind" refl refl, g.kind) at f.kind);
          message = cc (parsed, same_text, faithful.parse-stringify c.message);
          content_hash = hashed ∙ ap r.sha256 same_text ∙ sym w.hash;
          observed =
              time-again c.observed_at_ms _
                (rw (kept "observedAtMs" refl refl, g.observed) at f.observed);
          deadline =
              time-again c.local_deadline_ms _
                (rw (kept "localDeadlineMs" refl refl, g.deadline) at f.deadline);
          stabilize =
              time-again c.stabilize_until_ms _
                (rw (kept "stabilizeUntilMs" refl refl, g.stabilize) at f.stabilize);
        },
        ok-injective (sym (rw (state-patched c gs next) at f.state) ∙ state-valid next),
      )
