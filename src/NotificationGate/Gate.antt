-- ===== src/NotificationGate/Gate.antt =====
-- `createNotificationGate` of bridge/src/notification-gate.mjs over the candidate store. The n-th
-- call of `now()` gives `clock n`, `none` where the time is no safe natural number. The n-th call
-- of `publish` is answered by `publish n`: an acknowledgment with or without a key, or a throw.
-- `aborted n` is the state of the signal at the n-th round of a flush.
use hermes_codex_bridge.Base.{
  ℕ, suc, ◌+◌, String, Bool, true, false, not, ◌&&◌, ◌||◌, Option, none, some, List, [], ◌∷◌, leb,
  if◌then◌else◌, length, str_eq, Result, ok, err,
}
use hermes_codex_bridge.Base.Json.{
  Json, end, field, natural, str, obj, get, as_string, text_at, or_else, is_object, is_string,
  string_is, is_text,
}
use hermes_codex_bridge.Runtime.{Runtime}
use hermes_codex_bridge.CandidateStore.Record.{
  Candidate, State, state_name, pending_presence, ready, published, cancelled_auto_continuation,
  cancelled_local_reply, stale_local_reply,
}
use hermes_codex_bridge.CandidateStore.Record as Record
use hermes_codex_bridge.CandidateStore.Store.{
  Store, put, get_candidate, list_candidates, transition,
}

pub data GateError : Type 0 where
  gate_clock gate_observation gate_control gate_publish_ack publish_failed : GateError
  store : Record.Code → GateError

pub data Presence : Type 0 where
  desk away unknown : Presence

pub record World (D : Type 0) : Type 0 where
  pub candidates : Store D
  pub clock_reads : ℕ
  -- the calls of `publish`, the latest first: the key and the message
  pub outbox : List (String × Json)

pub record Limits : Type 0 where
  pub local_grace_ms : ℕ
  pub goal_settle_ms : ℕ

abbrev pub Action : Type 0 → Type 0 → Type 0
Action D A = World D → Result GateError A × World D

infixl 5 ◌>>=◌
abbrev pub ◌>>=◌ : {D A B : Type 0} → Action D A → (A → Action D B) → Action D B
◌>>=◌ m f w = let (a, w') = m w in elim a [ ok x ↦ f x w' | err e ↦ (err e, w') ]

abbrev pub pure : {D A : Type 0} → A → Action D A
pure a w = (ok a, w)

abbrev pub throw : {D A : Type 0} → GateError → Action D A
throw e w = (err e, w)

-- a call of a method of the store
abbrev pub on_store : {D A : Type 0} → (Store D → Result Record.Code A × Store D) → Action D A
on_store m w =
    let (a, s) = m w.candidates in
    (elim a [ ok x ↦ ok x | err e ↦ err (store e) ], record w { candidates = s })

-- `typeof value === "string" && value ? value : fallback`
abbrev text_or : String → String → Json → String
text_or k fallback v = if str_eq (text_at k v) "" then fallback else text_at k v

abbrev pub active_states : List String
active_states = state_name pending_presence ∷ state_name ready ∷ []

abbrev pub is_away : Presence → Bool
is_away away = true
is_away _ = false

abbrev is_pending : State → Bool
is_pending pending_presence = true
is_pending _ = false

abbrev is_published : State → Bool
is_published published = true
is_published _ = false

-- `{ reason }`
abbrev reason_patch : State → Json
reason_patch q = obj (field "reason" (str (state_name q)) end)

module _ (r : Runtime) (locale_le : String → String → Bool) (faults : ℕ → Bool) (limits : Limits)
    (clock : ℕ → Option ℕ) where
  open r use {Document}

  unfoldable pub finite_date_ms : Action Document ℕ
  finite_date_ms w = (
    elim (clock w.clock_reads) [ none ↦ err gate_clock | some t ↦ ok t ],
    record w { clock_reads = suc w.clock_reads },
  )

  unfoldable pub move : String → State → Json → Action Document Candidate
  move event_id target patch = on_store (transition r faults event_id (state_name target) patch)

  -- the loop of `cancelThread` over the listed candidates
  unfoldable pub cancel_listed : String → State → List Candidate → ℕ → Action Document ℕ
  cancel_listed thread_id target [] changed = pure changed
  cancel_listed thread_id target (c ∷ cs) changed =
      let skipped = cancel_listed thread_id target cs changed in
      let cancelled = cancel_listed thread_id target cs (changed + 1) in
      if str_eq c.thread_id thread_id
      then (move c.event_id target (reason_patch target) >>= λ _. cancelled)
      else skipped

  unfoldable pub cancel_thread : Option String → State → List String → Action Document ℕ
  cancel_thread none target states = pure 0
  cancel_thread (some thread_id) target states = if str_eq thread_id "" then pure 0 else do
    listed ← on_store (list_candidates r locale_le (some states))
    cancel_listed thread_id target listed 0

  -- the object that `observeFinal` puts
  abbrev draft : Json → ℕ → Json
  draft observation now = obj (
      field "schema" (natural 1) (
        field "eventId" (str (text_at "eventId" observation)) (
          field "threadId" (str (text_or "threadId" "unknown-thread" observation)) (
            field "turnId" (str (text_or "turnId" "unknown-turn" observation)) (
              field "kind" (str (text_at "kind" observation)) (
                field "state" (str (state_name pending_presence)) (
                  field "message" observation (
                    field "observedAtMs" (natural now) (
                      field "localDeadlineMs" (natural (now + limits.local_grace_ms)) (
                        field "stabilizeUntilMs"
                          (natural (
                            if str_eq (text_at "kind" observation) "FINAL_RESPONSE"
                            then now + limits.goal_settle_ms
                            else now))
                          end))))))))))

  unfoldable pub observe_final : Json → Action Document Candidate
  observe_final observation = do
    now ← finite_date_ms
    on_store (put r faults (draft observation now))

  unfoldable pub observe_control : Json → Action Document ℕ
  observe_control observation =
      let thread_id = as_string (get "threadId" observation) in
      let kind = text_at "kind" observation in
      if str_eq kind "AUTO_GOAL_CONTINUATION"
      then cancel_thread thread_id cancelled_auto_continuation active_states
      else if str_eq kind "USER_INPUT"
      then (do
        pending ← cancel_thread thread_id cancelled_local_reply active_states
        stale ← cancel_thread thread_id stale_local_reply (state_name published ∷ [])
        pure (pending + stale))
      else if str_eq kind "TURN_STARTED"
      then pure 0
      else throw gate_control

  -- `exactObservation`, and the method `observe`
  abbrev is_exact : Json → String → Bool
  is_exact observation key =
      is_object observation
      && (string_is (is_text "final") (get "channel" observation)
          || string_is (is_text "control") (get "channel" observation))
      && is_string (get "kind" observation)
      && string_is (is_text key) (get "eventId" observation)

  unfoldable pub observe : Json → String → Action Document String
  unfolding observe_final observe_control
  observe observation key =
      if not (is_exact observation key)
      then throw gate_observation
      else if string_is (is_text "final") (get "channel" observation)
      then (observe_final observation >>= λ _. pure key)
      else (observe_control observation >>= λ _. pure key)

  module _ (publish : ℕ → Option (Option String)) (aborted : ℕ → Bool) where
    -- `currentMs >= …`: the message has settled, and the user is away or the grace is over
    abbrev pub is_due : Presence → Candidate → ℕ → Bool
    is_due sample c current =
        (not (str_eq c.kind "FINAL_RESPONSE") || leb c.stabilize_until_ms current)
        && (is_away sample || leb c.local_deadline_ms current)

    -- `await publish(…)` and the check of its acknowledgment
    unfoldable pub send : Candidate → Action Document (Unit {0})
    send c w = (
      elim (publish (length w.outbox)) [
        | none ↦ err publish_failed
        | some none ↦ err gate_publish_ack
        | some (some key) ↦ if str_eq key c.event_id then ok tt else err gate_publish_ack
      ],
      record w { outbox = (c.event_id, c.message) ∷ w.outbox },
    )

    -- `if (candidate.state === "PENDING_PRESENCE") await store.transition(…, "READY")`
    unfoldable pub make_ready : Candidate → Action Document (Unit {0})
    make_ready c =
        if is_pending c.state then (move c.event_id ready (obj end) >>= λ _. pure tt) else pure tt

    -- the part of a round behind `if (!due) continue`
    unfoldable pub deliver : Candidate → Action Document (Unit {0})
    deliver c = do _ ← make_ready c; _ ← send c; _ ← move c.event_id published (obj end); pure tt

    -- one round of the loop, with the clock read; the result tells whether it published
    unfoldable pub flush_one : Presence → Candidate → Action Document Bool
    flush_one sample c = do
      current ← finite_date_ms
      (if is_due sample c current then (deliver c >>= λ _. pure true) else pure false)

    unfoldable pub flush_listed : Presence → List Candidate → ℕ → ℕ → Action Document ℕ
    flush_listed sample [] round count = pure count
    flush_listed sample (c ∷ cs) round count = if aborted round then pure count else do
      sent ← flush_one sample c
      flush_listed sample cs (suc round) (if sent then suc count else count)

    -- `flush`; a sample that throws or is malformed counts as unknown
    unfoldable pub flush : Option Presence → Action Document ℕ
    unfolding flush_listed
    flush observed = do
      listed ← on_store (list_candidates r locale_le (some active_states))
      flush_listed (or_else observed unknown) listed 0 0

  -- `isReplyCurrent`: any error of `get` reads as not current
  unfoldable pub is_reply_current : Option String → World Document → Bool × World Document
  is_reply_current none w = (false, w)
  is_reply_current (some event_id) w =
      let (found, s) = get_candidate r locale_le event_id w.candidates in
      (
        elim found [ err e ↦ false | ok none ↦ false | ok (some c) ↦ is_published c.state ],
        record w { candidates = s },
      )
