-- ===== src/RolloutParser/Stream.antt =====
-- `parseChunkStream` and `parseCompleteRecordIterable` of bridge/src/rollout-parser.mjs: a stream
-- of chunks of bytes, and a sequence of records. A stream that fails, or chunks of another type,
-- are not modelled.
use hermes_codex_bridge.Base.{
  ℕ, String, Bool, false, Option, none, some, List, [], ◌∷◌, ◌++◌, any, leb, ◌==◌, length,
  if◌then◌else◌, str_eq, Result, ok, err, ◌>>=◌, zero, suc,
}
use hermes_codex_bridge.Base.Json.{Json}
use hermes_codex_bridge.RolloutParser.Final.{Code, record_too_large, Message, origin, Context}
use hermes_codex_bridge.RolloutParser.Records.{Input, bytes, initial_context, parse}

-- the messages so far; `seen` holds their keys
abbrev pub has_key : String → List Message → Bool
has_key key messages = any (λ m. str_eq (origin m).dedupe_key key) messages

-- `appendUnique`
unfoldable pub append_unique : List Message → List Message → List Message
append_unique messages [] = messages
append_unique messages (m ∷ parsed) =
    append_unique
      (if has_key (origin m).dedupe_key messages then messages else messages ++ (m ∷ [])) parsed

-- the bytes before the first newline and those behind it
unfoldable pub split_line : List ℕ → Option (List ℕ × List ℕ)
split_line [] = none
split_line (b ∷ bs) =
    let rest = split_line bs in
    if b == b'\n'
    then some ([], bs)
    else elim rest [ none ↦ none | some (line, more) ↦ some (b ∷ line, more) ]

-- the variables of the two loops
pub record Progress : Type 0 where
  pub context : Context
  pub messages : List Message

abbrev pub start : Progress
start = record { context = initial_context; messages = [] }

module _ (byte_length : String → ℕ) (sha256 : String → String) (json_parse : String → Option Json)
    (decode : List ℕ → Option String) where
  -- a record, with its messages appended
  unfoldable pub take_record : Input → Progress → Result Code Progress
  take_record input p =
      let (out, context) =
        parse byte_length sha256 (λ _. false) json_parse decode input p.context in
      elim out [
        | err e ↦ err e
        | ok parsed ↦ ok (record { context = context; messages = append_unique p.messages parsed })
      ]

  unfoldable pub take_records : List Input → Progress → Result Code Progress
  take_records [] p = ok p
  take_records (input ∷ inputs) p = take_record input p >>= take_records inputs

  -- `parseCompleteRecordIterable`
  unfoldable pub parse_complete_record_iterable : List Input → Result Code (List Message)
  parse_complete_record_iterable inputs = take_records inputs start >>= λ p. ok p.messages

  -- the inner loop, which takes a byte or more at each turn
  unfoldable pub take_lines : ℕ → List ℕ → Progress → Result Code (List ℕ × Progress)
  take_lines zero pending p = ok (pending, p)
  take_lines (suc n) pending p = elim (split_line pending) [
    | none ↦ ok (pending, p)
    | some (line, more) ↦ take_record (bytes line) p >>= take_lines n more
  ]

  unfoldable pub take_chunk : List ℕ → List ℕ × Progress → Result Code (List ℕ × Progress)
  take_chunk chunk (pending, p) =
      take_lines (length (pending ++ chunk)) (pending ++ chunk) p >>= λ (rest, p').
      if leb (length rest) 2097152 then ok (rest, p') else err record_too_large

  unfoldable pub take_chunks : List (List ℕ) → List ℕ × Progress → Result Code (List ℕ × Progress)
  take_chunks [] s = ok s
  take_chunks (chunk ∷ chunks) s = take_chunk chunk s >>= take_chunks chunks

  -- the bytes behind the last newline
  unfoldable pub take_rest : List ℕ → Progress → Result Code Progress
  take_rest [] p = ok p
  take_rest (b ∷ bs) p = take_record (bytes (b ∷ bs)) p

  -- `parseChunkStream`
  unfoldable pub parse_chunk_stream : List (List ℕ) → Result Code (List Message)
  parse_chunk_stream chunks =
      take_chunks chunks ([], start) >>= λ (rest, p). take_rest rest p >>= λ p'. ok p'.messages
