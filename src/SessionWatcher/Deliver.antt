-- ===== src/SessionWatcher/Deliver.antt =====
-- `deliverObservation` of bridge/src/session-watcher.mjs over the ledger: a message is published,
-- and then its key is marked. `aborted n` is what the n-th look at the signal shows, and
-- `answers n` how the n-th call of `publish` ends.
use hermes_codex_bridge.Base.{
  ℕ, suc, String, Bool, true, false, Option, none, some, List, [], ◌∷◌, if◌then◌else◌, Result, ok,
  err,
}
use hermes_codex_bridge.Base.Actions.{Action, ◌>>=◌, pure, reads}
use hermes_codex_bridge.Base.Strings.{join}
use hermes_codex_bridge.Base.Json.{Json, get, is_text, string_is}
use hermes_codex_bridge.Ledger.Open.{Marked, Ledger, mark, has}
use hermes_codex_bridge.FinalIdentity.{create_deterministic_event_id}
use hermes_codex_bridge.RolloutParser.Final.{Message, final, control, origin}
use hermes_codex_bridge.SessionWatcher.State.{Code, aborted, dedupe, publish, publish_contract}

-- how a call of `publish` ends, or the signal before it
pub data Answer : Type 0 where
  returned : Json → Answer
  threw : Answer
  interrupted : Answer

pub data Diagnostic : Type 0 where
  dedupe_derived dedupe_cleanup : String → Diagnostic

-- a call of `publish`, with the key that the ledger knows the message by; the message goes out with
-- `event_id` in place of its own
pub record Call : Type 0 where
  pub dedupe_key : String
  pub event_id : String
  pub message : Message

-- the calls and the diagnostics, the last ones first
pub record Watch : Type 0 where
  pub ledger : Ledger
  pub calls : List Call
  pub diagnostics : List Diagnostic
  pub looks : ℕ

abbrev canonical : Message → Option String
canonical (final f) = f.canonical_identity
canonical (control o k) = none

-- `effectiveDedupeKey`
unfoldable pub effective_dedupe_key : Message → String → String
effective_dedupe_key m path = elim (canonical m) [
  | some identity ↦ identity
  | none ↦ join ":" ("rollout" ∷ path ∷ (origin m).dedupe_key ∷ [])
]

-- `eventId`
unfoldable pub publication_id : (String → String) → Message → String → String
publication_id sha256 m path = elim (canonical m) [
  | some identity ↦ (origin m).event_id
  | none ↦ create_deterministic_event_id sha256 (effective_dedupe_key m path)
]

abbrev pub length_of : List Call → ℕ
length_of [] = 0
length_of (c ∷ cs) = suc (length_of cs)

module _ (sha256 : String → String) (signal : ℕ → Bool) (answers : ℕ → Answer) (fails : ℕ → Bool)
    (others : ℕ → List String) (hash_of : String → String) (appended : ℕ → Option String) where
  -- `checkAbort`
  unfoldable pub check_abort : Action Watch Code (Unit {0})
  check_abort w = (if signal w.looks then err aborted else ok tt, record w { looks = suc w.looks })

  -- the call of `publish`, and its end; the signal is looked at beside it, and after an error
  unfoldable pub call_publish : Call → Action Watch Code Json
  call_publish call w = (
    elim (answers (length_of w.calls)) [
      | returned v ↦ ok v
      | interrupted ↦ err aborted
      | threw ↦ err (if signal (suc w.looks) then aborted else publish)
    ],
    record w { calls = call ∷ w.calls; looks = suc (suc w.looks) },
  )

  -- `dedupeLedger.has` and `dedupeLedger.mark`
  unfoldable pub knows : String → Watch → Result Code Bool
  knows key w = elim (has fails others hash_of appended key w.ledger) [
    | ok b ↦ ok b
    | err _ ↦ err dedupe
  ]

  unfoldable pub mark_key : String → Action Watch Code Marked
  mark_key key w =
      let marked = mark fails others hash_of appended key w.ledger in
      (elim marked.0 [ ok m ↦ ok m | err _ ↦ err dedupe ], record w { ledger = marked.1 })

  abbrev derived : Bool → String → List Diagnostic → List Diagnostic
  derived b path ds = if b then dedupe_derived path ∷ ds else ds

  abbrev cleanup : Bool → String → List Diagnostic → List Diagnostic
  cleanup b path ds = if b then dedupe_cleanup path ∷ ds else ds

  unfoldable pub report : Marked → String → Action Watch Code Bool
  report m path w = (
    ok m.marked,
    record w {
      diagnostics = cleanup m.cleanup_failed path (derived m.ledger_failed path w.diagnostics);
    },
  )

  -- the parts of a new message's delivery, from the last one on
  unfoldable pub mark_and_report : Call → String → Action Watch Code Bool
  mark_and_report call path = do marked ← mark_key call.dedupe_key; report marked path

  abbrev pub is_acknowledged : Call → Json → Result Code (Unit {0})
  is_acknowledged call acknowledgment =
      if string_is (is_text call.event_id) (get "idempotencyKey" acknowledgment)
      then ok tt
      else err publish_contract

  unfoldable pub accept : Call → String → Json → Action Watch Code Bool
  accept call path acknowledgment = do
    _ ← reads (λ _. is_acknowledged call acknowledgment)
    mark_and_report call path

  unfoldable pub acknowledge : Call → String → Json → Action Watch Code Bool
  acknowledge call path acknowledgment = do _ ← check_abort; accept call path acknowledgment

  unfoldable pub publish_call : Call → String → Action Watch Code Bool
  publish_call call path = do
    acknowledgment ← call_publish call
    acknowledge call path acknowledgment

  -- a message that the ledger does not know
  unfoldable pub deliver_new : Call → String → Action Watch Code Bool
  deliver_new call path = do _ ← check_abort; publish_call call path

  abbrev pub call_of : Message → String → Call
  call_of m path = record {
    dedupe_key = effective_dedupe_key m path;
    event_id = publication_id sha256 m path;
    message = m;
  }

  -- behind the look into the ledger
  unfoldable pub deliver_unless : Bool → Message → String → Action Watch Code Bool
  deliver_unless true m path = pure false
  deliver_unless false m path = deliver_new (call_of m path) path

  -- `deliverObservation`
  unfoldable pub deliver_observation : Message → String → Action Watch Code Bool
  deliver_observation m path = do
    known ← reads (knows (effective_dedupe_key m path))
    deliver_unless known m path
