-- ===== src/UiActionStore/Methods.antt =====
-- The methods of `createUiActionStore` in bridge/src/ui-action-store.mjs that act on one reply.
-- `random_id n` is the n-th value of `randomId()`, `clock n` that of `now()`.
use Prim.Native.String
use hermes_codex_bridge.Base.{
  ℕ, suc, ◌+◌, String, Bool, true, false, not, ◌&&◌, ◌||◌, Option, none, some, List, [], ◌∷◌,
  if◌then◌else◌, str_eq, Result, ok, err,
}
use hermes_codex_bridge.Base.Actions.{Action, ◌>>=◌, pure, throw, reads}
use hermes_codex_bridge.Base.Assoc.{lookup}
use hermes_codex_bridge.Base.Json.{
  Json, Fields, end, field, str, obj, get, is_some, is_text, string_is,
}
use hermes_codex_bridge.Base.Text.{is_safe_identifier}
use hermes_codex_bridge.Runtime.{Runtime}
use hermes_codex_bridge.Contracts.Shape.{validate_event, validate_reply, event_of, reply_of}
use hermes_codex_bridge.UiActionStore.Files.{
  Code, claim_changed, lease, terminal, expired, claimed, code, turn, applied, reply_action,
  event_id, contract, World, interaction_directory, leaves_of, safe_file_bytes, optional_json,
  write_json_once, write_once_or_same, remove_leaf,
}
use hermes_codex_bridge.UiActionStore.Checks.{
  exact_fields, valid_timestamp, is_str, is_past, is_safe_code,
}
use hermes_codex_bridge.UiActionStore.Load.{
  Context, Claim, checked_reply, load, valid_claim, read_claim, terminal_exists, holds_lease,
  remove_exact_claim, deadline_of, now,
}
use hermes_codex_bridge.UiActionStore.Load as Load

abbrev applied_fields : List String
applied_fields = "schema" ∷ "event_id" ∷ "reply_sha256" ∷ "lease_id" ∷ "turn_id" ∷ "applied_at" ∷ []

-- what `claim` returns
pub record Claimed : Type 0 where
  pub thread_id : String
  pub source_turn_id : String
  pub action_created_at : String
  pub lease_id : String
  pub marker : String
  pub text : String
  pub prompt : String

abbrev marker_of : String → String
marker_of id = String.◌++◌ "<!-- HC3_UI_EVENT:" (String.◌++◌ id " -->")

abbrev pub require : {S : Type 0} → Bool → Code → Action S Code (Unit {0})
require true e = pure tt
require false e = throw e

module _ (r : Runtime) (plain : String → r.Document) (date_parse : String → Option ℕ)
    (faults : ℕ → Bool) (iso : ℕ → String) (clock : ℕ → ℕ) (random_id : ℕ → String) where
  open r use {Document, pretty, same, sha256}

  abbrev Method : Type 0 → Type 0
  Method A = Action (World Document) Code A

  -- the file of this name in the folder of this reply, if there is one
  abbrev pub optional : String → String → World Document → Result Code (Option (Json × Document))
  optional id name w = optional_json r (lookup name (leaves_of id w))

  unfoldable pub enqueue : Json → Json → Method (Unit {0})
  enqueue v u = do
    _ ← reads (λ _. elim (validate_event v) [ ok _ ↦ ok tt | err _ ↦ err contract ])
    _ ← reads (λ _. elim (validate_reply u) [ ok _ ↦ ok tt | err _ ↦ err contract ])
    let e = event_of v
    let a = reply_of u
    _ ← require (str_eq e.id a.event_id) event_id
    text ← reads (λ _. elim (checked_reply r plain date_parse e.id e a) [
      | ok t ↦ ok t
      | err _ ↦ err reply_action
    ])
    _ ← reads (interaction_directory e.id)
    t ← now clock
    write_once_or_same r faults e.id "ui-action.json" (
        obj (
          field "schema" (str "hermes-codex-ui-action/v3") (
            field "event_id" (str e.id) (
              field "thread_id" (str e.thread_id) (
                field "source_turn_id" (str e.turn_id) (
                  field "reply_sha256" (str (sha256 (plain text)))
                    (field "created_at" (str (iso t)) end)))))))

  unfoldable pub random : Method String
  random w = (ok (random_id w.ids), record w { ids = suc w.ids })

  -- the claim that `claim` writes
  abbrev pub new_claim : String → Context → String → ℕ → Json
  new_claim id c lease_id t = obj (
      field "schema" (str "hermes-codex-ui-claim/v3") (
        field "event_id" (str id) (
          field "reply_sha256" (str c.reply_hash) (
            field "lease_id" (str lease_id) (
              field "claimed_at" (str (iso t))
                (field "expires_at" (str (iso (t + 120000))) end))))))

  -- nobody has finished with the reply
  unfoldable pub not_terminal : String → Method (Unit {0})
  not_terminal id = do
    there ← reads (terminal_exists r plain date_parse id)
    _ ← require (not there) terminal
    proof ← reads (optional id "ui-applied.json")
    require (not (is_some proof)) terminal

  -- the deadline of `claim`, which leaves a receipt where it is past
  unfoldable pub not_expired : String → Context → Method (Unit {0})
  not_expired id c = do
    t ← now clock
    (if is_past (deadline_of r plain date_parse c.event) t
        then (Load.terminal r faults iso clock id "EXPIRED" end >>= λ _. throw expired)
        else pure tt)

  -- the removal of a claim whose lease is over
  unfoldable pub take_over : String → Context → Json × Document → Method (Unit {0})
  take_over id c existing = do
    valid ← reads (λ _. valid_claim r plain date_parse id c.reply_hash existing)
    t ← now clock
    _ ← require (is_past (date_parse valid.expires_at) t) claimed
    there ← reads (terminal_exists r plain date_parse id)
    _ ← require (not there) terminal
    bytes ← reads (λ w. safe_file_bytes (lookup "ui-claim.json" (leaves_of id w)))
    _ ← require (same bytes existing.1) claim_changed
    remove_leaf r id "ui-claim.json"

  unfoldable pub clear_claim : String → Context → Option (Json × Document) → Method (Unit {0})
  clear_claim id c none = pure tt
  clear_claim id c (some v) = take_over id c v

  -- the rest of `claim`: a new lease, and its file
  unfoldable pub write_claim : String → Context → Method Claimed
  write_claim id c = do
    lease_id ← random
    _ ← require (is_safe_identifier lease_id) lease
    t ← now clock
    published ← write_json_once r faults id "ui-claim.json" (new_claim id c lease_id t)
    _ ← require published claimed
    pure (record {
      thread_id = c.event.thread_id;
      source_turn_id = c.event.turn_id;
      action_created_at = c.created_at;
      lease_id = lease_id;
      marker = marker_of id;
      text = c.text;
      prompt = String.◌++◌ (marker_of id) (String.◌++◌ "\n" c.text);
    })

  -- the parts of `claim` behind the check of the deadline, and behind that for an end
  unfoldable pub claim_in_time : String → Context → Method Claimed
  claim_in_time id c = do
    existing ← reads (optional id "ui-claim.json")
    _ ← clear_claim id c existing
    write_claim id c

  unfoldable pub claim_open : String → Context → Method Claimed
  claim_open id c = do _ ← not_expired id c; claim_in_time id c

  unfoldable pub claim_context : String → Context → Method Claimed
  claim_context id c = do _ ← not_terminal id; claim_open id c

  unfoldable pub claim : String → Method Claimed
  claim id = do c ← reads (load r plain date_parse id); claim_context id c

  unfoldable pub release : String → String → String → Method (Unit {0})
  release id lease_id why = do
    _ ← require (is_safe_code why && not (str_eq why "STALE") && not (str_eq why "EXPIRED")) code
    c ← reads (load r plain date_parse id)
    there ← reads (terminal_exists r plain date_parse id)
    _ ← require (not there) terminal
    remove_exact_claim r plain date_parse id c lease_id

  -- the receipt of `applied`: written, or there with this status
  unfoldable pub applied_receipt : String → Option (Json × Document) → Method (Unit {0})
  applied_receipt id none = Load.terminal r faults iso clock id "APPLIED" end
  applied_receipt id (some v) = require (string_is (is_text "APPLIED") (get "status" v.0)) terminal

  -- the proof of `applied`: there with these fields, or written under the claim's lease
  unfoldable pub applied_proof :
      String → String → String → Context → Option (Json × Document) → Method (Unit {0})
  applied_proof id lease_id turn_id c (some v) =
      require
        (exact_fields applied_fields v.0
          && is_str "hermes-codex-ui-applied/v3" (get "schema" v.0)
          && is_str id (get "event_id" v.0)
          && is_str c.reply_hash (get "reply_sha256" v.0)
          && is_str lease_id (get "lease_id" v.0)
          && is_str turn_id (get "turn_id" v.0)
          && valid_timestamp date_parse (get "applied_at" v.0))
        applied
  applied_proof id lease_id turn_id c none = do
    found ← reads (read_claim r plain date_parse id c)
    _ ← require (holds_lease r plain date_parse lease_id found) lease
    t ← now clock
    write_once_or_same r faults id "ui-applied.json" (
        obj (
          field "schema" (str "hermes-codex-ui-applied/v3") (
            field "event_id" (str id) (
              field "reply_sha256" (str c.reply_hash) (
                field "lease_id" (str lease_id)
                  (field "turn_id" (str turn_id) (field "applied_at" (str (iso t)) end)))))))

  -- the parts of `applied` behind the receipt, and behind `load`
  unfoldable pub applied_received : String → String → String → Context → Method (Unit {0})
  applied_received id lease_id turn_id c = do
    existing ← reads (optional id "ui-applied.json")
    applied_proof id lease_id turn_id c existing

  unfoldable pub applied_context : String → String → String → Context → Method (Unit {0})
  applied_context id lease_id turn_id c = do
    receipt ← reads (optional id "receipt.json")
    _ ← applied_receipt id receipt
    applied_received id lease_id turn_id c

  unfoldable pub mark_applied : String → String → String → Method (Unit {0})
  mark_applied id lease_id turn_id = do
    _ ← require (is_safe_identifier turn_id) turn
    c ← reads (load r plain date_parse id)
    applied_context id lease_id turn_id c

  abbrev reject_details : String → Fields
  reject_details why =
      if str_eq why "EXPIRED" then end else field "error" (obj (field "code" (str why) end)) end

  unfoldable pub reject : String → String → String → Method (Unit {0})
  reject id lease_id why = do
    _ ← require (str_eq why "STALE" || str_eq why "EXPIRED") code
    c ← reads (load r plain date_parse id)
    found ← reads (read_claim r plain date_parse id c)
    _ ← require (holds_lease r plain date_parse lease_id found) lease
    Load.terminal r faults iso clock id (if str_eq why "EXPIRED" then "EXPIRED" else "REJECTED")
        (reject_details why)
