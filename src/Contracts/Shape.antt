-- ===== src/Contracts/Shape.antt =====
-- `validateEvent` and `validateReply` of bridge/src/contracts.mjs. A thrown `Error(code)` is an
-- `err`. A validator returns its argument; the readers below it take the fields that the callers
-- use, and return a default that no valid record shows.
use hermes_codex_bridge.Base.{
  String, Bool, true, false, not, ◌&&◌, ◌||◌, Option, none, some, List, [], ◌∷◌, leb, if◌then◌else◌,
  str_eq, Result, ok, asserts, ◌>>◌, all,
}
use hermes_codex_bridge.Base.Text.{is_event_id, is_sha256, is_blank, points}
use hermes_codex_bridge.Base.Json.{
  Json, null, bool, str, arr, items, get, has_own, has_own_fields, string_is, is_string, as_string,
  text_at, at, or_else, is_text, is_some,
}
use hermes_codex_bridge.Contracts.Timestamp.{is_rfc3339}

pub data EventKind : Type 0 where
  final_response question approval_request error task_completed : EventKind

pub data ReplyAction : Type 0 where
  reply approve_once decline : ReplyAction

pub data ReplyMode : Type 0 where
  live_request next_turn no_reply : ReplyMode

pub data Code : Type 0 where
  event_shape event_schema event_id event_kind event_time event_thread event_message : Code
  event_actions event_integrity event_hash : Code
  reply_shape reply_schema reply_event_id reply_time reply_action reply_text reply_telegram : Code
  reply_delivery reply_sender : Code

-- `EVENT_KINDS`, `REPLY_ACTIONS`, `REPLY_MODES`: the member of the set that a text names
abbrev pub parse_kind : String → Option EventKind
parse_kind s =
    if str_eq s "FINAL_RESPONSE"
    then some final_response
    else if str_eq s "QUESTION"
    then some question
    else if str_eq s "APPROVAL_REQUEST"
    then some approval_request
    else if str_eq s "ERROR"
    then some error
    else if str_eq s "TASK_COMPLETED"
    then some task_completed
    else none

abbrev pub parse_action : String → Option ReplyAction
parse_action s =
    if str_eq s "REPLY"
    then some reply
    else if str_eq s "APPROVE_ONCE"
    then some approve_once
    else if str_eq s "DECLINE"
    then some decline
    else none

abbrev pub parse_mode : String → Option ReplyMode
parse_mode s =
    if str_eq s "LIVE_REQUEST"
    then some live_request
    else if str_eq s "NEXT_TURN"
    then some next_turn
    else if str_eq s "NONE"
    then some no_reply
    else none

abbrev pub is_kind : String → Bool
is_kind s = is_some (parse_kind s)

abbrev pub is_action : String → Bool
is_action s = is_some (parse_action s)

abbrev pub is_mode : String → Bool
is_mode s = is_some (parse_mode s)

abbrev pub event_fields : List String
event_fields =
    "schema" ∷ "event_id" ∷ "kind" ∷ "created_at" ∷ "expires_at" ∷ "thread" ∷ "message"
    ∷ "allowed_actions" ∷ "integrity" ∷ []

abbrev pub thread_fields : List String
thread_fields = "id" ∷ "turn_id" ∷ "title" ∷ "project_label" ∷ "cwd_label" ∷ []

abbrev pub message_fields : List String
message_fields = "summary" ∷ "markdown_path" ∷ "is_replyable" ∷ []

abbrev pub integrity_fields : List String
integrity_fields = "producer" ∷ "content_sha256" ∷ []

abbrev pub reply_fields : List String
reply_fields = "schema" ∷ "event_id" ∷ "created_at" ∷ "action" ∷ "text" ∷ "telegram" ∷ []

abbrev pub telegram_fields : List String
telegram_fields = "delivery_ref" ∷ "sender_fingerprint" ∷ []

abbrev pub non_empty : String → Bool
non_empty s = not (str_eq s "")

-- `isNonEmptyString(value[key])`
abbrev has_text : String → Json → Bool
has_text k v = string_is non_empty (get k v)

unfoldable pub has_allowed_actions : Json → Bool
has_allowed_actions (arr vs) = all (λ v. string_is is_action (some v)) (items vs)
has_allowed_actions _ = false

unfoldable pub is_thread : Json → Bool
is_thread t =
    has_text "id" t
    && has_text "turn_id" t
    && has_text "title" t
    && has_text "project_label" t
    && is_string (get "cwd_label" t)

abbrev pub is_markdown_path : Json → Bool
is_markdown_path null = true
is_markdown_path (str s) = str_eq s "message.md"
is_markdown_path _ = false

abbrev is_boolean : Json → Bool
is_boolean (bool b) = true
is_boolean _ = false

unfoldable pub is_message : Json → Bool
is_message m =
    string_is (λ s. leb (points s) 3500) (get "summary" m)
    && is_markdown_path (at "markdown_path" m)
    && is_boolean (at "is_replyable" m)

unfoldable pub is_reply_mode : Json → Bool
is_reply_mode m = not (has_own "reply_mode" m) || string_is is_mode (get "reply_mode" m)

unfoldable pub validate_event : Json → Result Code (Unit {0})
unfolding has_allowed_actions is_thread is_message is_reply_mode
validate_event v = asserts (
    (has_own_fields event_fields v, event_shape)
    ∷ (string_is (is_text "hermes-codex-interaction-event/v3") (get "schema" v), event_schema)
    ∷ (string_is is_event_id (get "event_id" v), event_id)
    ∷ (string_is is_kind (get "kind" v), event_kind)
    ∷ (
      string_is is_rfc3339 (get "created_at" v) && string_is is_rfc3339 (get "expires_at" v),
      event_time,
    )
    ∷ (has_own_fields thread_fields (at "thread" v), event_thread)
    ∷ (is_thread (at "thread" v), event_thread)
    ∷ (has_own_fields message_fields (at "message" v), event_message)
    ∷ (is_message (at "message" v), event_message)
    ∷ (is_reply_mode (at "message" v), event_message)
    ∷ (has_allowed_actions (at "allowed_actions" v), event_actions)
    ∷ (has_own_fields integrity_fields (at "integrity" v), event_integrity)
    ∷ (has_text "producer" (at "integrity" v), event_integrity)
    ∷ (string_is is_sha256 (get "content_sha256" (at "integrity" v)), event_hash)
    ∷ [])

abbrev pub is_null_or_string : Json → Bool
is_null_or_string null = true
is_null_or_string (str s) = true
is_null_or_string _ = false

unfoldable pub validate_reply : Json → Result Code (Unit {0})
validate_reply v = asserts (
    (has_own_fields reply_fields v, reply_shape)
    ∷ (string_is (is_text "hermes-codex-interaction-reply/v3") (get "schema" v), reply_schema)
    ∷ (string_is is_event_id (get "event_id" v), reply_event_id)
    ∷ (string_is is_rfc3339 (get "created_at" v), reply_time)
    ∷ (string_is is_action (get "action" v), reply_action)
    ∷ (is_null_or_string (at "text" v), reply_text)
    ∷ (
      not (string_is (is_text "REPLY") (get "action" v))
          || string_is (λ s. not (is_blank s)) (get "text" v),
      reply_text,
    )
    ∷ (has_own_fields telegram_fields (at "telegram" v), reply_telegram)
    ∷ (has_text "delivery_ref" (at "telegram" v), reply_delivery)
    ∷ (string_is is_sha256 (get "sender_fingerprint" (at "telegram" v)), reply_sender)
    ∷ [])

-- The fields of an event and of a reply that the callers read.
pub record Event : Type 0 where
  pub id : String
  pub kind : EventKind
  pub created_at : String
  pub expires_at : String
  pub thread_id : String
  pub turn_id : String
  pub summary : String
  pub markdown_path : Json
  pub reply_mode : Option ReplyMode
  pub allowed_actions : List ReplyAction
  pub content_sha256 : String

pub record Reply : Type 0 where
  pub event_id : String
  pub created_at : String
  pub action : ReplyAction
  pub text : Option String

abbrev pub read_mode : Option Json → Option ReplyMode
read_mode (some (str s)) = parse_mode s
read_mode _ = none

abbrev pub read_actions : List Json → List ReplyAction
read_actions [] = []
read_actions (str s ∷ vs) = or_else (parse_action s) decline ∷ read_actions vs
read_actions (_ ∷ vs) = decline ∷ read_actions vs

abbrev pub list_of : Json → List Json
list_of (arr vs) = items vs
list_of _ = []

unfoldable pub event_of : Json → Event
event_of v = record {
  id = text_at "event_id" v;
  kind = or_else (parse_kind (text_at "kind" v)) error;
  created_at = text_at "created_at" v;
  expires_at = text_at "expires_at" v;
  thread_id = text_at "id" (at "thread" v);
  turn_id = text_at "turn_id" (at "thread" v);
  summary = text_at "summary" (at "message" v);
  markdown_path = at "markdown_path" (at "message" v);
  reply_mode = read_mode (get "reply_mode" (at "message" v));
  allowed_actions = read_actions (list_of (at "allowed_actions" v));
  content_sha256 = text_at "content_sha256" (at "integrity" v);
}

unfoldable pub reply_of : Json → Reply
reply_of v = record {
  event_id = text_at "event_id" v;
  created_at = text_at "created_at" v;
  action = or_else (parse_action (text_at "action" v)) decline;
  text = as_string (get "text" v);
}

unfoldable pub decode_event : Json → Result Code Event
decode_event v = do validate_event v; ok (event_of v)

unfoldable pub decode_reply : Json → Result Code Reply
decode_reply v = do validate_reply v; ok (reply_of v)
