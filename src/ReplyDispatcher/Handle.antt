-- ===== src/ReplyDispatcher/Handle.antt =====
-- `processDirectory` and `scanInternal` of bridge/src/reply-dispatcher.mjs. The body of the former
-- ends in an `Ending`, or throws; the counters and the failure record follow from that.
use Prim.Native.String
use hermes_codex_bridge.Base.{
  ℕ, suc, ◌+◌, min, String, Bool, not, ◌||◌, Option, none, some, List, [], ◌∷◌, ltb, if◌then◌else◌,
  str_eq, Result, ok, err, any,
}
use hermes_codex_bridge.Base.Json.{Json, null, str, obj, field, end, is_member}
use hermes_codex_bridge.Base.Text.{is_event_id}
use hermes_codex_bridge.Runtime.{Runtime}
use hermes_codex_bridge.Contracts.Shape.{Event, Reply, decode_event, decode_reply}
use hermes_codex_bridge.ReplyDispatcher.Apply.{Sinks, Outcome, apply}
use hermes_codex_bridge.ReplyDispatcher.Process.{
  Code, dispatch_path, dispatch_conflict, dispatch_event_id, dispatch_hash, dispatch_invalid,
  Folder, Counts, World, Action, ◌>>=◌, pure, names, is_conflict, same_action, ttl, error_code,
  safe_file, json, now, terminal, claim_once_or_same, record_failure,
}

pub data Ending : Type 0 where
  skipped declined expired deferred rejected routed applied : Ending

-- `counts.declined += 1` and its like
unfoldable pub count : Ending → Counts → Counts
count skipped c = c
count declined c = record c { declined = suc c.declined }
count expired c = record c { expired = suc c.expired }
count deferred c = record c { deferred = suc c.deferred }
count rejected c = record c { rejected = suc c.rejected }
count routed c = record c { routed = suc c.routed }
count applied c = record c { applied = suc c.applied }

module _ (r : Runtime) (plain : String → r.Document) where
  open r use {Document, sha256}

  -- `event.message.markdown_path === null ? Buffer.from(summary) : await safeFile(…)`
  unfoldable pub payload : Event → Folder Document → Result Code Document
  payload e f = elim e.markdown_path [
    | null ↦ ok (plain e.summary)
    | str path ↦ safe_file path 16777216 f
    | _ ↦ err dispatch_invalid
  ]

  -- the two files, validated, of this directory, and with the hash of the content
  unfoldable pub read_pair : String → Folder Document → Result Code (Event × Reply)
  read_pair name f = elim (json r "event.json" f) [
    | err c ↦ err c
    | ok v ↦ elim (decode_event v) [
      | err c ↦ err dispatch_invalid
      | ok e ↦ elim (json r "reply.json" f) [
        | err c ↦ err c
        | ok u ↦ elim (decode_reply u) [
          | err c ↦ err dispatch_invalid
          | ok a ↦
              if not (str_eq e.id name) || not (str_eq a.event_id name)
              then err dispatch_event_id
              else elim (payload e f) [
                | err c ↦ err c
                | ok content ↦
                    if not (str_eq (sha256 content) e.content_sha256)
                    then err dispatch_hash
                    else ok (e, a)
              ]
        ]
      ]
    ]
  ]

  -- what comes before the answer; `none` is a return with nothing to do
  unfoldable pub open_pair : String → Folder Document → Result Code (Option (Event × Reply))
  open_pair name f =
      if not f.safe
      then err dispatch_path
      else if any is_conflict (names f)
      then err dispatch_conflict
      else if is_member (names f) "receipt.json"
      then ok none
      else if not (is_member (names f) "event.json") || not (is_member (names f) "reply.json")
      then ok none
      else elim (read_pair name f) [ err c ↦ err c | ok p ↦ ok (some p) ]

module _ (date_parse : String → ℕ) where
  abbrev pub deadline : Event → ℕ
  deadline e = min (date_parse e.expires_at) (date_parse e.created_at + ttl e.kind)

  unfoldable pub is_expired : Event → Reply → ℕ → Bool
  is_expired e a t =
      ltb (deadline e) t
      || ltb (deadline e) (date_parse a.created_at)
      || ltb (date_parse a.created_at) (date_parse e.created_at)

abbrev pub claim_of : String → Json
claim_of name = obj (
    field "schema" (str "hermes-codex-dispatch-claim/v3")
      (field "event_id" (str name) (field "idempotency_key" (str name) end)))

abbrev pub claim_name : String → String
claim_name name = String.◌++◌ name ".json"

module _ (r : Runtime) (date_parse : String → ℕ) (iso : ℕ → String) (plain : String → r.Document)
    (clock : ℕ → ℕ) (faults : ℕ → Bool) (sinks : Sinks) where
  open r use {Document}

  abbrev pub call_apply : Event → Reply → Bool → Action Document Outcome
  call_apply e a already w =
      let (out, calls') = apply sinks e a already w.calls in (ok out, record w { calls = calls' })

  abbrev pub close_with : String → String → Option String → Ending → Action Document Ending
  close_with name status code e = (terminal r faults iso clock name status code >>= λ _. pure e)

  -- what follows `apply`
  unfoldable pub finish : String → Outcome → Action Document Ending
  finish name Outcome.failed = pure deferred
  finish name (Outcome.rejected code) = close_with name "REJECTED" (some (error_code code)) rejected
  finish name Outcome.routed = pure routed
  finish name Outcome.applied = close_with name "APPLIED" none applied

  -- what follows the checks of the two files
  unfoldable pub answer : String → Event → Reply → Bool → Action Document Ending
  answer name e a already =
      if not (any (same_action a.action) e.allowed_actions)
      then close_with name "DECLINED" none declined
      else (now clock >>= λ t.
          if is_expired date_parse e a t then close_with name "EXPIRED" none expired else do
            _ ← claim_once_or_same r faults (claim_name name) (claim_of name)
            out ← call_apply e a already
            finish name out)

  unfoldable pub process_body : String → Action Document Ending
  process_body name w = elim (open_pair r plain name w.folder) [
    | err c ↦ (err c, w)
    | ok none ↦ (ok skipped, w)
    | ok (some p) ↦ answer name p.0 p.1 (is_member (names w.folder) "ui-action.json") w
  ]

  -- the counters, and what the `catch` records
  abbrev pub settle :
      String → Counts → Result Code Ending × World Document → World Document × Counts
  settle name counts (ok e, w) = (w, count e counts)
  settle name counts (err c, w) =
      (record_failure r faults iso clock name c w, record counts { failed = suc counts.failed })

  unfoldable pub process_directory : String → World Document → Counts → World Document × Counts
  process_directory name w counts = settle name counts (process_body name w)

  -- the loop of `scanInternal` over the entries of `interactions`
  unfoldable pub scan :
      List (String × Folder Document)
      → World Document
      → Counts
      → List (String × Folder Document) × (World Document × Counts)
  scan [] w counts = ([], (w, counts))
  scan ((name, f) ∷ rest) w counts =
      let (w', counts') = process_directory name (record w { folder = f }) counts in
      let (others, done) = scan rest w' counts' in
      let (others', done') = scan rest w counts in
      if is_event_id name then ((name, w'.folder) ∷ others, done) else ((name, f) ∷ others', done')

  unfoldable pub scan_internal :
      Bool
      → List (String × Folder Document)
      → World Document
      → Option (List (String × Folder Document) × (World Document × Counts))
  scan_internal closed entries w =
      if closed
      then none
      else some (
          scan entries w (record {
            applied = 0;
            routed = 0;
            expired = 0;
            declined = 0;
            rejected = 0;
            failed = 0;
            deferred = 0;
          }))
