-- ===== src/RolloutParser/Records.antt =====
-- One record of a rollout file: `parse` of `createRolloutRecordParser` in
-- bridge/src/rollout-parser.mjs. `json_parse s` is `JSON.parse(s)`, and `decode bytes` what a strict
-- UTF-8 decoder makes of bytes.
use hermes_codex_bridge.Base.{
  ℕ, String, Bool, false, not, ◌&&◌, ◌||◌, Option, none, some, List, [], ◌∷◌, any, all, leb, length,
  if◌then◌else◌, str_eq, Result, ok, err,
}
use hermes_codex_bridge.Base.Text.{includes}
use hermes_codex_bridge.Base.Strings.{is_empty, join}
use hermes_codex_bridge.Base.Json.{
  Json, Items, nil, cons, arr, get, at, as_string, is_object, is_some, is_text, string_is, has_own,
}
use hermes_codex_bridge.RolloutParser.Final.{
  Code, record_too_large, utf8, turn_started, auto_goal_continuation, user_input, Message, Context,
  explicit_string, ◌<|>◌, payload_field, is_final_phase, normalized_final, make_control,
}

-- `recordInput`: a text, or bytes
pub data Input : Type 0 where
  text : String → Input
  bytes : List ℕ → Input

abbrev pub field_is : String → String → Json → Bool
field_is k s v = string_is (is_text s) (get k v)

abbrev pub has_payload : Json → Bool
has_payload v = is_object (at "payload" v)

-- the texts of the parts of this type
abbrev pub part_texts : String → Items → List String
part_texts kind nil = []
part_texts kind (cons part parts) =
    let rest = part_texts kind parts in
    if field_is "type" kind part
    then elim (as_string (get "text" part)) [ none ↦ rest | some s ↦ s ∷ rest ]
    else rest

-- the parts, where `value` is a list of them
abbrev texts_of : String → Option Json → Option (List String)
texts_of kind (some (arr parts)) = some (part_texts kind parts)
texts_of kind _ = none

-- `userTextParts`
unfoldable pub user_text_parts : Json → Option (List String)
user_text_parts v =
    let payload = at "payload" v in
    if not (field_is "type" "response_item" v)
      || not (has_payload v)
      || not (field_is "type" "message" payload)
      || not (field_is "role" "user" payload)
    then none
    else texts_of "input_text" (get "content" payload)

-- `text.slice(0, -1)` where the text ends in a carriage return
abbrev pub without_return : String → String
without_return String.[] = String.[]
without_return (String.◌∷◌ c String.[]) =
    if str_eq (String.◌∷◌ c String.[]) "\r" then String.[] else String.◌∷◌ c String.[]
without_return (String.◌∷◌ c (String.◌∷◌ d s)) = String.◌∷◌ c (without_return (String.◌∷◌ d s))

-- the context of a new parser
abbrev pub initial_context : Context
initial_context = record {
  thread_id = none;
  cwd = none;
  turn_id = none;
  is_subagent = false;
  is_suppressed = false;
}

module _ (byte_length : String → ℕ) (sha256 : String → String) where
  -- `parseResponseItem`, behind its checks
  abbrev response_text : Json → String → Context → List String → Result Code (List Message)
  response_text v record_text context parts =
      if all is_empty parts
      then ok []
      else let payload = at "payload" v in
        normalized_final byte_length sha256 v record_text context
          (explicit_string (get "turn_id" v)
            <|> explicit_string (get "turn_id" payload)
            <|> context.turn_id)
          (explicit_string (get "id" payload) <|> explicit_string (get "item_id" v))
          (join "\n" parts)

  unfoldable pub parse_response_item : Json → String → Context → Result Code (List Message)
  parse_response_item v record_text context =
      let payload = at "payload" v in
      if not (field_is "type" "response_item" v)
      then ok []
      else if not (is_object payload)
      then ok []
      else if not (field_is "type" "message" payload)
          || not (field_is "role" "assistant" payload)
          || not (is_final_phase (get "phase" payload))
      then ok []
      else elim (texts_of "output_text" (get "content" payload)) [
        | none ↦ ok []
        | some parts ↦ response_text v record_text context parts
      ]

  -- the item of a turn item's payload, which may be the payload itself
  abbrev turn_item : Json → Json
  turn_item payload = if is_object (at "item" payload) then at "item" payload else payload

  -- `parseV2TurnItem`
  unfoldable pub parse_v2_turn_item : Json → String → Context → Result Code (List Message)
  parse_v2_turn_item v record_text context =
      let payload = at "payload" v in
      let item = turn_item payload in
      if not (field_is "type" "turn_item" v) || not (has_payload v)
      then ok []
      else if not (field_is "type" "agentMessage" item) || not (is_final_phase (get "phase" item))
      then ok []
      else elim (as_string (get "text" item)) [
        | none ↦ ok []
        | some s ↦
            normalized_final byte_length sha256 v record_text context
              (explicit_string (get "turn_id" v)
                <|> explicit_string (get "turn_id" payload)
                <|> explicit_string (get "turn_id" item)
                <|> context.turn_id)
              (explicit_string (get "id" item)
                <|> explicit_string (get "item_id" payload)
                <|> explicit_string (get "item_id" v))
              s
      ]

  module _ (suppressed : String → Bool) where
    abbrev is_suppressed_thread : Option String → Bool
    is_suppressed_thread none = false
    is_suppressed_thread (some id) = suppressed id

    -- a `session_meta` record
    unfoldable pub session_context : Json → Context → Context
    session_context v context =
        let id =
          explicit_string (payload_field "id" v)
          <|> explicit_string (payload_field "thread_id" v) in
        record {
          thread_id = id;
          cwd = explicit_string (payload_field "cwd" v);
          turn_id = none;
          is_subagent =
              context.is_subagent
              || is_some (explicit_string (payload_field "parent_thread_id" v))
              || is_some (explicit_string (payload_field "agent_role" v))
              || has_own "subagent" (at "source" (at "payload" v));
          is_suppressed = is_suppressed_thread id;
        }

    abbrev start_turn : Option String → Context → Context
    start_turn id context = record context { turn_id = id }

    -- the records behind the context's: of tasks, of users, and of answers
    unfoldable pub parse_message : Json → String → Context → Result Code (List Message) × Context
    parse_message v record_text context =
        if field_is "type" "event_msg" v
          && has_payload v
          && field_is "type" "task_started" (at "payload" v)
        then (let context' =
              start_turn
                (explicit_string (payload_field "turn_id" v)
                  <|> explicit_string (get "turn_id" v)
                  <|> context.turn_id)
                context in
            (ok (make_control byte_length sha256 turn_started context' v), context'))
        else elim (user_text_parts v) [
          | some parts ↦
              let kind =
                if any (includes "<codex_internal_context source=\"goal\">") parts
                then auto_goal_continuation
                else user_input in
              (ok (make_control byte_length sha256 kind context v), context)
          | none ↦ elim (parse_response_item v record_text context) [
            | err e ↦ (err e, context)
            | ok [] ↦ (parse_v2_turn_item v record_text context, context)
            | ok (m ∷ ms) ↦ (ok (m ∷ ms), context)
          ]
        ]

    -- a record that is an object
    unfoldable pub parse_object : Json → String → Context → Result Code (List Message) × Context
    parse_object v record_text context =
        if field_is "type" "session_meta" v && has_payload v
        then (ok [], session_context v context)
        else if field_is "type" "turn_context" v && has_payload v
        then (
          ok [],
          start_turn
              (explicit_string (payload_field "turn_id" v) <|> explicit_string (get "turn_id" v))
              context,
        )
        else if context.is_subagent
            || context.is_suppressed
            || is_suppressed_thread context.thread_id
        then (ok [], context)
        else parse_message v record_text context

    module _ (json_parse : String → Option Json) (decode : List ℕ → Option String) where
      -- a record's text, without its carriage return
      unfoldable pub parse_text : String → Context → Result Code (List Message) × Context
      parse_text raw context =
          let record_text = without_return raw in
          if is_empty record_text then (ok [], context) else elim (json_parse record_text) [
            | none ↦ (ok [], context)
            | some v ↦ if is_object v then parse_object v record_text context else (ok [], context)
          ]

      -- `parse`
      unfoldable pub parse : Input → Context → Result Code (List Message) × Context
      parse (text s) context =
          if not (leb (byte_length s) 2097152)
          then (err record_too_large, context)
          else parse_text s context
      parse (bytes bs) context =
          if not (leb (length bs) 2097152)
          then (err record_too_large, context)
          else elim (decode bs) [ none ↦ (err utf8, context) | some s ↦ parse_text s context ]
