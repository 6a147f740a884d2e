-- ===== src/RolloutParser/Tests.antt =====
-- The theorems on bridge/src/rollout-parser.mjs, applied to a task's records.
use hermes_codex_bridge.Base.{
  ◌≡◌, refl, inl, String, Option, str_eq, eq_iff, false≢true, if◌then◌else◌, arith, some, List, [],
  ◌∷◌, ok,
}
use hermes_codex_bridge.Base.Json.{
  Json, Fields, get, at, string_is, end, field, str, obj, arr, nil, cons,
}
use hermes_codex_bridge.Base.Strings.{remove_all}
use hermes_codex_bridge.Base.Text.{has_part, has_prefix}
use hermes_codex_bridge.Runtime.Sample.{zeros}
use hermes_codex_bridge.FinalIdentity.{explicit, create_deterministic_event_id}
use hermes_codex_bridge.RolloutParser.Final.{user_input, classify_final, make_control, Message}
use hermes_codex_bridge.RolloutParser.Records.{
  text, initial_context, user_text_parts, parse_message, parse_object, parse_text, parse,
}
use hermes_codex_bridge.RolloutParser.Stream.{
  append_unique, Progress, take_record, take_records, parse_complete_record_iterable,
  parse_chunk_stream,
}
use hermes_codex_bridge.RolloutParser.Lines.{records_of, concat}
use hermes_codex_bridge.RolloutParser.Chunks.{parse_chunk_stream-concat}
use hermes_codex_bridge.RolloutParser.Quiet.{AddsNothing}
use hermes_codex_bridge.RolloutParser.Subagent.{take_records-subagent}
use hermes_codex_bridge.RolloutParser.Keys.{AreDistinct, parse_complete_record_iterable-AreDistinct}

-- every record is a user's message
abbrev user_record : Json
user_record = obj (
    field "type" (str "response_item") (
      field "payload"
        (obj (
          field "type" (str "message") (
            field "role" (str "user") (
              field "content"
                (arr
                  (cons (obj (field "type" (str "input_text") (field "text" (str "go") end))) nil))
                end))))
        end))

parse_chunk_stream-concat_example :
    parse_chunk_stream
      (λ _. 2)
      (λ _. zeros)
      (λ _. some user_record)
      (λ _. some "{}")
      ((b'{' ∷ []) ∷ (b'}' ∷ b'\n' ∷ b'{' ∷ []) ∷ [] ∷ (b'}' ∷ []) ∷ [])
    ≡ parse_complete_record_iterable
        (λ _. 2)
        (λ _. zeros)
        (λ _. some user_record)
        (λ _. some "{}")
        (records_of (concat ((b'{' ∷ []) ∷ (b'}' ∷ b'\n' ∷ b'{' ∷ []) ∷ [] ∷ (b'}' ∷ []) ∷ [])))
parse_chunk_stream-concat_example =
    parse_chunk_stream-concat (λ _. 2) (λ _. zeros) (λ _. some user_record) (λ _. some "{}")
      ((b'{' ∷ []) ∷ (b'}' ∷ b'\n' ∷ b'{' ∷ []) ∷ [] ∷ (b'}' ∷ []) ∷ [])

-- a subagent's session, by the thread that it belongs to
abbrev session_fields : Fields
session_fields = field "id" (str "child") (field "parent_thread_id" (str "parent") end)

abbrev session_record : Json
session_record = obj (field "type" (str "session_meta") (field "payload" (obj session_fields) end))

abbrev parse_either : String → Option Json
parse_either s = if str_eq s "{session}" then some session_record else some user_record

abbrev fresh : Progress
fresh = record { context = initial_context; messages = [] }

take_records-subagent_example : AddsNothing fresh (
    take_records
      (λ _. 2)
      (λ _. zeros)
      parse_either
      (λ _. some "{}")
      (text "{session}" ∷ text "{}" ∷ text "{}" ∷ [])
      fresh)
unfolding get at
take_records-subagent_example =
    take_records-subagent (λ _. 2) (λ _. zeros) parse_either (λ _. some "{}") (text "{session}")
      "{session}" session_record (text "{}" ∷ text "{}" ∷ []) fresh (refl, omega arith)
      (λ e. false≢true ((eq_iff "{session}" "").1 e)) refl
      (record {
        is_session = refl;
        fields = session_fields;
        has_payload = refl;
        shows = inl ("parent", refl, λ e. false≢true ((eq_iff "parent" "").1 e));
      })

-- the same record twice is one message
abbrev one_message : List Message
one_message = make_control (λ _. 2) (λ _. zeros) user_input initial_context user_record

once :
    parse_complete_record_iterable
      (λ _. 2)
      (λ _. zeros)
      (λ _. some user_record)
      (λ _. some "{}")
      (text "{}" ∷ text "{}" ∷ [])
    ≡ ok one_message
unfolding parse_complete_record_iterable take_records take_record append_unique parse parse_text
    parse_object parse_message user_text_parts make_control create_deterministic_event_id explicit
    get at string_is has_part has_prefix
once = refl

parse_complete_record_iterable-AreDistinct_example : AreDistinct one_message
parse_complete_record_iterable-AreDistinct_example =
    parse_complete_record_iterable-AreDistinct (λ _. 2) (λ _. zeros) (λ _. some user_record)
      (λ _. some "{}") (text "{}" ∷ text "{}" ∷ []) one_message once

-- a marker is taken out, and the text is trimmed
classified : (classify_final "Which one? <!-- HC3:WAITING_FOR_INPUT -->").text ≡ "Which one?"
unfolding classify_final remove_all has_part has_prefix
classified = refl
