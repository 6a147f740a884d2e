-- ===== src/UiActionStore/Queue.antt =====
-- `listReady`, the router's registry and its heartbeat in bridge/src/ui-action-store.mjs.
-- `locale_lt` is `left.localeCompare(right) < 0`; `sort` is stable, as an insertion sort is.
use hermes_codex_bridge.Base.{
  ℕ, String, Bool, true, false, not, ◌&&◌, ◌||◌, Option, none, some, List, [], ◌∷◌, map, length,
  take, if◌then◌else◌, str_eq, leb, Result, ok, err,
}
use hermes_codex_bridge.Base.Actions.{Action, ◌>>=◌, pure, throw, reads}
use hermes_codex_bridge.Base.Assoc.{lookup}
use hermes_codex_bridge.Base.Json.{Json, end, field, str, obj, get, is_some, is_member, as_string}
use hermes_codex_bridge.Base.Text.{is_event_id, is_safe_identifier}
use hermes_codex_bridge.Runtime.{Runtime}
use hermes_codex_bridge.CandidateStore.Store.{with_field, fields_of}
use hermes_codex_bridge.UiActionStore.Files.{
  Code, missing, path, registry, heartbeat, limit, World, leaves_of, optional_json, register_once,
  atomic_replace,
}
use hermes_codex_bridge.UiActionStore.Checks.{exact_fields, valid_timestamp, is_str, is_past}
use hermes_codex_bridge.UiActionStore.Load.{
  Context, load, valid_claim, terminal_exists, deadline_of, now,
}
use hermes_codex_bridge.UiActionStore.Load as Load
use hermes_codex_bridge.UiActionStore.Methods.{require}

-- an entry of the list
pub record Ready : Type 0 where
  pub event_id : String
  pub thread_id : String
  pub source_turn_id : String
  pub created_at : String

pub record Health : Type 0 where
  pub ready_count : ℕ
  pub oldest_ready_at : Option String
  pub heartbeat_at : Option String

module _ (locale_lt : String → String → Bool) where
  abbrev not_after : Ready → Ready → Bool
  not_after a b =
      locale_lt a.created_at b.created_at
      || (not (locale_lt b.created_at a.created_at) && not (locale_lt b.event_id a.event_id))

  unfoldable pub insert_ready : Ready → List Ready → List Ready
  insert_ready a [] = a ∷ []
  insert_ready a (b ∷ bs) = if not_after a b then a ∷ b ∷ bs else b ∷ insert_ready a bs

  unfoldable pub sort_ready : List Ready → List Ready
  unfolding insert_ready
  sort_ready [] = []
  sort_ready (a ∷ as') = insert_ready a (sort_ready as')

module _ (r : Runtime) (plain : String → r.Document) (date_parse : String → Option ℕ)
    (faults : ℕ → Bool) (iso : ℕ → String) (clock : ℕ → ℕ)
    (locale_lt : String → String → Bool) where
  open r use {Document}

  abbrev Method : Type 0 → Type 0
  Method A = Action (World Document) Code A

  abbrev optional : String → String → World Document → Result Code (Option (Json × Document))
  optional id name w = optional_json r (lookup name (leaves_of id w))

  abbrev ready_of : String → Context → Ready
  ready_of id c = record {
    event_id = id;
    thread_id = c.event.thread_id;
    source_turn_id = c.event.turn_id;
    created_at = c.created_at;
  }

  -- whether a claim that is there is over
  unfoldable pub is_free : String → Context → Option (Json × Document) → Method Bool
  is_free id c none = pure true
  is_free id c (some v) = do
    valid ← reads (λ _. valid_claim r plain date_parse id c.reply_hash v)
    t ← now clock
    pure (is_past (date_parse valid.expires_at) t)

  abbrev listed : String → Context → Bool → Option Ready
  listed id c free = if free then some (ready_of id c) else none

  -- the reply is open: listed, expired with a receipt, or claimed
  unfoldable pub open_entry : String → Context → Method (Option Ready)
  open_entry id c = do
    t ← now clock
    (if is_past (deadline_of r plain date_parse c.event) t
        then (Load.terminal r faults iso clock id "EXPIRED" end >>= λ _. pure none)
        else do
          claim ← reads (optional id "ui-claim.json")
          free ← is_free id c claim
          pure (listed id c free))

  -- one round of the loop, behind the test for `ui-action.json`
  unfoldable pub list_entry : String → Method (Option Ready)
  list_entry id = do
    c ← reads (load r plain date_parse id)
    there ← reads (terminal_exists r plain date_parse id)
    proof ← (if there then pure none else reads (optional id "ui-applied.json"))
    (if there || is_some proof then pure none else open_entry id c)

  abbrev pub push : Option Ready → List Ready → List Ready
  push none rs = rs
  push (some r) rs = r ∷ rs

  abbrev pub safe_names : String → World Document → Result Code (List String)
  safe_names id w = elim (lookup id w.folders) [
    | none ↦ err missing
    | some f ↦ if f.safe then ok (map (λ l. l.0) f.leaves) else err path
  ]

  -- one entry of the directory, before the others
  unfoldable pub list_before : String → Method (List Ready) → Method (List Ready)
  list_before id others = if not (is_event_id id) then others else do
    names ← reads (safe_names id)
    entry ← (if is_member names "ui-action.json" then list_entry id else pure none)
    rest ← others
    pure (push entry rest)

  unfoldable pub list_entries : List String → Method (List Ready)
  list_entries [] = pure []
  list_entries (id ∷ ids) = list_before id (list_entries ids)

  abbrev no_entries : Code → Result Code (List String)
  no_entries missing = ok []
  no_entries e = err e

  unfoldable pub list_ready : ℕ → Method (List Ready)
  list_ready n = do
    _ ← require (leb 1 n && leb n 10) limit
    ids ← reads (λ w. elim w.root [ ok _ ↦ ok (map (λ f. f.0) w.folders) | err e ↦ no_entries e ])
    ready ← list_entries ids
    pure (take n (sort_ready locale_lt ready))

  abbrev registry_fields : List String
  registry_fields = "schema" ∷ "thread_id" ∷ "automation_id" ∷ "created_at" ∷ []

  -- the file of this name in the root, where any error of its reading is an error of the registry
  abbrev registered : World Document → Result Code (Option (Json × Document))
  registered w = elim (optional_json r (lookup "ui-router.json" w.registry)) [
    | ok v ↦ ok v
    | err _ ↦ err registry
  ]

  -- the automation of a router that is registered
  unfoldable pub change_router : String → String → Json × Document → Method (Unit {0})
  change_router thread_id automation_id (v, bytes) = do
    _ ←
        require
          (exact_fields registry_fields v
            && is_str "hermes-codex-ui-router-registry/v3" (get "schema" v)
            && is_str thread_id (get "thread_id" v)
            && valid_timestamp date_parse (get "created_at" v))
          registry
    (if is_str automation_id (get "automation_id" v)
        then pure tt
        else if not (is_str "pending" (get "automation_id" v)) || str_eq automation_id "pending"
        then throw registry
        else atomic_replace r faults "ui-router.json"
            (obj (with_field "automation_id" (str automation_id) (fields_of v))) (some bytes))

  unfoldable pub new_router : String → String → Method (Unit {0})
  new_router thread_id automation_id = do
    _ ← require (str_eq automation_id "pending") registry
    t ← now clock
    register_once r faults "ui-router.json" (
        obj (
          field "schema" (str "hermes-codex-ui-router-registry/v3") (
            field "thread_id" (str thread_id)
              (field "automation_id" (str automation_id) (field "created_at" (str (iso t)) end)))))

  unfoldable pub registered_router : String → String → Option (Json × Document) → Method (Unit {0})
  registered_router thread_id automation_id none = new_router thread_id automation_id
  registered_router thread_id automation_id (some v) = change_router thread_id automation_id v

  unfoldable pub register_router : String → String → Method (Unit {0})
  register_router thread_id automation_id = do
    _ ← require (is_safe_identifier thread_id && is_safe_identifier automation_id) registry
    _ ← reads (λ w. w.root)
    current ← reads registered
    registered_router thread_id automation_id current

  abbrev is_router : String → Option (Json × Document) → Bool
  is_router thread_id none = false
  is_router thread_id (some v) =
      is_str "hermes-codex-ui-router-registry/v3" (get "schema" v.0)
      && is_str thread_id (get "thread_id" v.0)
      && not (is_str "pending" (get "automation_id" v.0))

  unfoldable pub beat : String → Method String
  beat router_thread_id = do
    _ ← require (is_safe_identifier router_thread_id) registry
    _ ← reads (λ w. w.root)
    current ← reads (λ w. optional_json r (lookup "ui-router.json" w.registry))
    _ ← require (is_router router_thread_id current) registry
    t ← now clock
    _ ←
        atomic_replace r faults "ui-router-heartbeat.json"
          (obj (
            field "schema" (str "hermes-codex-ui-router-heartbeat/v3")
              (field "thread_id" (str router_thread_id) (field "observed_at" (str (iso t)) end))))
          none
    pure (iso t)

  abbrev is_beat : Option (Json × Document) → Bool
  is_beat none = true
  is_beat (some v) =
      exact_fields ("schema" ∷ "thread_id" ∷ "observed_at" ∷ []) v.0
      && is_str "hermes-codex-ui-router-heartbeat/v3" (get "schema" v.0)
      && valid_timestamp date_parse (get "observed_at" v.0)

  abbrev first_created : List Ready → Option String
  first_created [] = none
  first_created (a ∷ _) = some a.created_at

  abbrev observed_at : Option (Json × Document) → Option String
  observed_at none = none
  observed_at (some v) = as_string (get "observed_at" v.0)

  unfoldable pub health_snapshot : Method Health
  health_snapshot = do
    ready ← list_ready 10
    _ ← reads (λ w. w.root)
    found ← reads (λ w. optional_json r (lookup "ui-router-heartbeat.json" w.registry))
    _ ← require (is_beat found) heartbeat
    pure (record {
      ready_count = length ready;
      oldest_ready_at = first_created ready;
      heartbeat_at = observed_at found;
    })
