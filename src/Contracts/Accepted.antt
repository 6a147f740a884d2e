-- ===== src/Contracts/Accepted.antt =====
-- What a caller may rely on of a record that the validators accept.
use hermes_codex_bridge.Base.{
  String, ◌≡◌, ◌≢◌, ◌≤◌, ◌⊎◌, ◌∙◌, ap, inl, inr, refl, true, not, ◌||◌, Option, none, some, List,
  [], ◌∷◌, arith, ok, eq_iff, asserts-eq-ok, and_true, leb, leb_iff, Option-cases, false≢true, all,
}
use hermes_codex_bridge.Base.Text.{is_event_id, is_sha256, points}
use hermes_codex_bridge.Base.Json.{
  string_is, string_is-true, text_at, at, or_else, is_some, Json, Items, null, bool, natural,
  other_number, str, arr, obj, items, get, has_own, has_own_fields,
}
use hermes_codex_bridge.Contracts.Timestamp.{is_rfc3339}
use hermes_codex_bridge.Contracts.Shape.{
  ReplyAction, ReplyMode, error, decline, is_kind, is_action, is_mode, parse_kind, parse_action,
  parse_mode, is_markdown_path, non_empty, validate_event, Event, event_of, has_allowed_actions,
  is_message, list_of, read_actions, read_mode, is_thread, is_reply_mode, message_fields,
}

-- Every text of the list names a reply action.
abbrev NamesActions : List Json → List ReplyAction → Type 0
NamesActions [] [] = Unit
NamesActions (str s ∷ vs) (a ∷ as') = (parse_action s ≡ some a) × NamesActions vs as'
NamesActions _ _ = ⊥

abbrev ModeOf : Option Json → Option ReplyMode → Type 0
ModeOf none m = m ≡ none
ModeOf (some (str s)) m = (parse_mode s ≡ m) × (m ≢ none)
ModeOf (some _) m = ⊥

-- `e` is what the record `v` says, field by field, and its texts have the forms of the protocol.
pub record IsEventOf (v : Json) (e : Event) : Type 0 where
  pub schema : get "schema" v ≡ some (str "hermes-codex-interaction-event/v3")
  pub id : (get "event_id" v ≡ some (str e.id)) × (is_event_id e.id ≡ true)
  pub kind : (s : String) × (get "kind" v ≡ some (str s)) × (parse_kind s ≡ some e.kind)
  pub created_at : (get "created_at" v ≡ some (str e.created_at)) × (is_rfc3339 e.created_at ≡ true)
  pub expires_at : (get "expires_at" v ≡ some (str e.expires_at)) × (is_rfc3339 e.expires_at ≡ true)
  pub thread_id : (get "id" (at "thread" v) ≡ some (str e.thread_id)) × (e.thread_id ≢ "")
  pub turn_id : (get "turn_id" (at "thread" v) ≡ some (str e.turn_id)) × (e.turn_id ≢ "")
  pub summary : (get "summary" (at "message" v) ≡ some (str e.summary)) × (points e.summary ≤ 3500)
  pub markdown_path :
      (get "markdown_path" (at "message" v) ≡ some e.markdown_path)
      × ((e.markdown_path ≡ null) ⊎ (e.markdown_path ≡ str "message.md"))
  pub allowed_actions :
      (vs : Items) × (get "allowed_actions" v ≡ some (arr vs))
      × NamesActions (items vs) e.allowed_actions
  pub reply_mode : ModeOf (get "reply_mode" (at "message" v)) e.reply_mode
  pub content_sha256 :
      (get "content_sha256" (at "integrity" v) ≡ some (str e.content_sha256))
      × (is_sha256 e.content_sha256 ≡ true)

non_empty-ne : (s : String) → non_empty s ≡ true → s ≢ ""
non_empty-ne s h = ground (arith, eq_iff s "")

has_text-texts :
    (k : String) (v : Json)
    → string_is non_empty (get k v) ≡ true
    → (get k v ≡ some (str (text_at k v))) × (text_at k v ≢ "")
has_text-texts k v h =
    let (e, t) = string_is-true non_empty k v h in (e, non_empty-ne (text_at k v) t)

thread-texts :
    (t : Json)
    → is_thread t ≡ true
    → (string_is non_empty (get "id" t) ≡ true) × (string_is non_empty (get "turn_id" t) ≡ true)
unfolding is_thread
thread-texts t h = ground arith

markdown_path-cases : (j : Json) → is_markdown_path j ≡ true → (j ≡ null) ⊎ (j ≡ str "message.md")
markdown_path-cases null h = inl refl
markdown_path-cases (str s) h = inr (ap str ((eq_iff s "message.md").0 h))
markdown_path-cases (bool b) h = cc
markdown_path-cases (natural n) h = cc
markdown_path-cases (other_number n) h = cc
markdown_path-cases (arr vs) h = cc
markdown_path-cases (obj fs) h = cc

-- a field that is there is read as itself
pub has_own-at : (k : String) (v : Json) → has_own k v ≡ true → get k v ≡ some (at k v)
unfolding at
has_own-at k v h = elim (Option-cases (get k v)) [
  | inl e ↦ absurd (false≢true (rw e at h))
  | inr (x, e) ↦ rw e
]

has_path :
    (m : Json)
    → has_own_fields message_fields m ≡ true
    → get "markdown_path" m ≡ some (at "markdown_path" m)
unfolding has_own_fields
has_path m h = has_own-at "markdown_path" m (ground arith)

message-parts :
    (m : Json)
    → is_message m ≡ true
    → (string_is (λ s. leb (points s) 3500) (get "summary" m) ≡ true)
      × (is_markdown_path (at "markdown_path" m) ≡ true)
unfolding is_message
message-parts m h = and_true _ _ (and_true _ _ h).0

kind-names : (s : String) → is_kind s ≡ true → parse_kind s ≡ some (or_else (parse_kind s) error)
kind-names s h = elim (Option-cases (parse_kind s)) [
  | inl e ↦ absurd (false≢true (rw e at h))
  | inr (k, e) ↦ rw e
]

pub action-names :
    (s : String) → is_action s ≡ true → parse_action s ≡ some (or_else (parse_action s) decline)
action-names s h = elim (Option-cases (parse_action s)) [
  | inl e ↦ absurd (false≢true (rw e at h))
  | inr (k, e) ↦ rw e
]

actions-names :
    (vs : List Json)
    → all (λ v. string_is is_action (some v)) vs ≡ true
    → NamesActions vs (read_actions vs)
unfolding string_is
actions-names [] h = tt
actions-names (str s ∷ vs) h = let (a, b) = and_true _ _ h in (action-names s a, actions-names vs b)
actions-names (null ∷ vs) h = cc
actions-names (bool b ∷ vs) h = cc
actions-names (natural n ∷ vs) h = cc
actions-names (other_number n ∷ vs) h = cc
actions-names (arr x ∷ vs) h = cc
actions-names (obj x ∷ vs) h = cc

allowed-names :
    (v : Json)
    → has_allowed_actions (at "allowed_actions" v) ≡ true
    → (vs : Items) × (get "allowed_actions" v ≡ some (arr vs))
      × NamesActions (items vs) (read_actions (list_of (at "allowed_actions" v)))
unfolding has_allowed_actions at
allowed-names v h = go (get "allowed_actions" v) refl h
  where
    go :
        (o : Option Json)
        → get "allowed_actions" v ≡ o
        → has_allowed_actions (or_else o null) ≡ true
        → (vs : Items) × (get "allowed_actions" v ≡ some (arr vs))
          × NamesActions
              (items vs)
              (read_actions (list_of (or_else (get "allowed_actions" v) null)))
    go (some (arr vs)) e k = (vs, e, rw e (actions-names (items vs) k))
    go none e k = cc
    go (some (str s)) e k = cc
    go (some null) e k = cc
    go (some (bool b)) e k = cc
    go (some (natural n)) e k = cc
    go (some (other_number n)) e k = cc
    go (some (obj fs)) e k = cc

mode-names :
    (o : Option Json) → (not (is_some o) || string_is is_mode o) ≡ true → ModeOf o (read_mode o)
unfolding string_is
mode-names none h = refl
mode-names (some (str s)) h = (refl, λ e. false≢true (rw e at h))
mode-names (some null) h = cc
mode-names (some (bool b)) h = cc
mode-names (some (natural n)) h = cc
mode-names (some (other_number n)) h = cc
mode-names (some (arr vs)) h = cc
mode-names (some (obj fs)) h = cc

-- The fields that the bridge reads of an accepted event are the record's own: its identifiers, path,
-- times and hash are texts of the protocol's form (the path may be null), the thread and the turn are
-- named, the summary has at most 3,500 characters, and kind, mode and actions are members of their
-- sets.
pub accepted_event : (v : Json) → validate_event v ≡ ok tt → IsEventOf v (event_of v)
unfolding validate_event event_of is_reply_mode
accepted_event v h =
    let p = asserts-eq-ok _ h in
    let times = and_true _ _ p.1.1.1.1.0 in
    let texts = thread-texts (at "thread" v) p.1.1.1.1.1.1.0 in
    let parts = message-parts (at "message" v) p.1.1.1.1.1.1.1.1.0 in
    let (schema, named) = string_is-true _ "schema" v p.1.0 in
    let (kind, member) = string_is-true _ "kind" v p.1.1.1.0 in
    let (summary, short) = string_is-true _ "summary" (at "message" v) parts.0 in
    record {
      schema = schema ∙ ap (λ s. some (str s)) ((eq_iff _ _).0 named);
      id = string_is-true is_event_id "event_id" v p.1.1.0;
      kind = (text_at "kind" v, kind, kind-names (text_at "kind" v) member);
      created_at = string_is-true is_rfc3339 "created_at" v times.0;
      expires_at = string_is-true is_rfc3339 "expires_at" v times.1;
      thread_id = has_text-texts "id" (at "thread" v) texts.0;
      turn_id = has_text-texts "turn_id" (at "thread" v) texts.1;
      summary = (summary, (leb_iff _ _).0 short);
      markdown_path = (
        has_path (at "message" v) p.1.1.1.1.1.1.1.0,
        markdown_path-cases (at "markdown_path" (at "message" v)) parts.1,
      );
      allowed_actions = allowed-names v p.1.1.1.1.1.1.1.1.1.1.0;
      reply_mode = mode-names (get "reply_mode" (at "message" v)) p.1.1.1.1.1.1.1.1.1.0;
      content_sha256 =
          string_is-true is_sha256 "content_sha256" (at "integrity" v)
            p.1.1.1.1.1.1.1.1.1.1.1.1.1.0;
    }
