-- ===== src/UiActionStore/Load.antt =====
-- `load`, `readClaim`, `terminal` and `removeExactClaim` of bridge/src/ui-action-store.mjs.
use hermes_codex_bridge.Base.{
  ℕ, suc, String, Bool, true, false, not, ◌||◌, Option, none, some, if◌then◌else◌, str_eq, Result,
  ok, err,
}
use hermes_codex_bridge.Base.Actions.{Action, ◌>>=◌, pure, throw, reads}
use hermes_codex_bridge.Base.Assoc.{lookup}
use hermes_codex_bridge.Base.Json.{
  Json, Fields, field, str, obj, get, text_at, is_some, is_text, string_is,
}
use hermes_codex_bridge.Runtime.{Runtime}
use hermes_codex_bridge.Contracts.Shape.{
  Event, Reply, ReplyAction, reply, decode_event, decode_reply,
}
use hermes_codex_bridge.UiActionStore.Files.{
  Code, event_id, hash, lease, claim_changed, contract, World, interaction_directory, leaves_of,
  safe_file_bytes, safe_json, optional_json, write_once_or_same, remove_leaf,
}
use hermes_codex_bridge.UiActionStore.Checks.{validate_action, validate_claim, later_by, earlier}

-- what `load` returns, less the paths
pub record Context : Type 0 where
  pub event : Event
  pub text : String
  pub reply_hash : String
  pub created_at : String

abbrev is_reply : ReplyAction → Bool
is_reply reply = true
is_reply _ = false

-- what the methods read of a claim
pub record Claim (D : Type 0) : Type 0 where
  pub lease_id : Option Json
  pub expires_at : String
  pub bytes : D

module _ (r : Runtime) (plain : String → r.Document) (date_parse : String → Option ℕ) where
  open r use {Document, sha256}

  -- the checks of the action against the event and the reply
  unfoldable pub checked_action : Event → String → Json → Result Code Context
  checked_action e text v = elim (validate_action date_parse v e) [
    | err c ↦ err c
    | ok _ ↦
        if string_is (is_text (sha256 (plain text))) (get "reply_sha256" v)
        then ok (record {
          event = e;
          text = text;
          reply_hash = sha256 (plain text);
          created_at = text_at "created_at" v;
        })
        else err hash
  ]

  -- the reply of the event, with its text
  unfoldable pub checked_reply : String → Event → Reply → Result Code String
  checked_reply id e a =
      if not (str_eq e.id id) || not (str_eq a.event_id id) || not (is_reply a.action)
      then err event_id
      else elim a.text [ none ↦ err event_id | some text ↦ ok text ]

  unfoldable pub load : String → World Document → Result Code Context
  load id w = elim (interaction_directory id w) [
    | err c ↦ err c
    | ok leaves ↦ elim (safe_json r (lookup "event.json" leaves)) [
      | err c ↦ err c
      | ok v ↦ elim (decode_event v.0) [
        | err c ↦ err contract
        | ok e ↦ elim (safe_json r (lookup "reply.json" leaves)) [
          | err c ↦ err c
          | ok u ↦ elim (decode_reply u.0) [
            | err c ↦ err contract
            | ok a ↦ elim (checked_reply id e a) [
              | err c ↦ err c
              | ok text ↦ elim (safe_json r (lookup "ui-action.json" leaves)) [
                | err c ↦ err c
                | ok x ↦ checked_action e text x.0
              ]
            ]
          ]
        ]
      ]
    ]
  ]

  abbrev claim_of : Json × Document → Claim Document
  claim_of (v, bytes) = record {
    lease_id = get "lease_id" v;
    expires_at = text_at "expires_at" v;
    bytes = bytes;
  }

  -- `validateClaim` on a claim that was read
  unfoldable pub valid_claim : String → String → Json × Document → Result Code (Claim Document)
  valid_claim id reply_hash c = elim (validate_claim date_parse c.0 id reply_hash) [
    | err e ↦ err e
    | ok _ ↦ ok (claim_of c)
  ]

  -- `readClaim`
  unfoldable pub read_claim : String → Context → World Document → Result Code (Claim Document)
  read_claim id c w = elim (safe_json r (lookup "ui-claim.json" (leaves_of id w))) [
    | err e ↦ err e
    | ok v ↦ valid_claim c.event.id c.reply_hash v
  ]

  unfoldable pub terminal_exists : String → World Document → Result Code Bool
  terminal_exists id w = elim (optional_json r (lookup "receipt.json" (leaves_of id w))) [
    | err e ↦ err e
    | ok v ↦ ok (is_some v)
  ]

  abbrev pub holds_lease : String → Claim Document → Bool
  holds_lease lease_id c = string_is (is_text lease_id) c.lease_id

  -- the second read of the claim, in `removeExactClaim`
  abbrev unchanged : Document → Result Code Document → Result Code (Unit {0})
  unchanged bytes (err e) = err e
  unchanged bytes (ok text) = if r.same text bytes then ok tt else err claim_changed

  unfoldable pub remove_exact_claim :
      String → Context → String → Action (World Document) Code (Unit {0})
  remove_exact_claim id c lease_id = do
    first ← reads (read_claim id c)
    _ ← (if holds_lease lease_id first then pure tt else throw lease)
    _ ←
        reads
          (λ w. unchanged first.bytes (safe_file_bytes (lookup "ui-claim.json" (leaves_of id w))))
    remove_leaf r id "ui-claim.json"

  -- `Math.min(Date.parse(expires_at), Date.parse(created_at) + REPLY_TTL_MS)`
  abbrev pub deadline_of : Event → Option ℕ
  deadline_of e = earlier (date_parse e.expires_at) (later_by 604800000 (date_parse e.created_at))

abbrev pub now : {D : Type 0} → (ℕ → ℕ) → Action (World D) Code ℕ
now clock w = (ok (clock w.clock_reads), record w { clock_reads = suc w.clock_reads })

module _ (r : Runtime) (faults : ℕ → Bool) (iso : ℕ → String) (clock : ℕ → ℕ) where
  abbrev pub receipt : String → String → String → Fields → Json
  receipt id at_time status details = obj (
      field "schema" (str "hermes-codex-interaction-receipt/v3") (
        field "event_id" (str id)
          (field "processed_at" (str at_time) (field "status" (str status) details))))

  unfoldable pub terminal : String → String → Fields → Action (World r.Document) Code (Unit {0})
  terminal id status details = do
    t ← now clock
    write_once_or_same r faults id "receipt.json" (receipt id (iso t) status details)
