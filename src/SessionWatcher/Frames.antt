-- ===== src/SessionWatcher/Frames.antt =====
-- `parseState` and `frameStateRecord` of bridge/src/session-watcher.mjs: a state file is a row of
-- frames `length:sha256:payload` with a newline behind each. `sha256 bytes` is a hash's hexadecimal
-- digits, `json_of bytes` what a strict UTF-8 decoder and `JSON.parse` make of bytes, and
-- `bytes_of v` the bytes of `JSON.stringify(v)`.
use hermes_codex_bridge.Base.{
  ℕ, zero, suc, ◌+◌, ◌-◌, ◌*◌, ◌/◌, ◌%◌, String, Bool, true, false, not, ◌&&◌, ◌||◌, Option, none,
  some, List, [], ◌∷◌, ◌++◌, map, all, length, take, drop, leb, ltb, ◌==◌, if◌then◌else◌, Result,
  ok, err, ◌>>=◌,
}
use hermes_codex_bridge.Base.Text.{is_digit, is_hex}
use hermes_codex_bridge.Base.Json.{Json}
use hermes_codex_bridge.SessionWatcher.State.{Code, state_corrupt, State, validate_state_record}

-- `contents.indexOf(0x3a)`: what is before the first colon, and behind it
unfoldable pub split_colon : List ℕ → Option (List ℕ × List ℕ)
split_colon [] = none
split_colon (b ∷ bs) =
    let rest = split_colon bs in
    if b == b':'
    then some ([], bs)
    else elim rest [ none ↦ none | some (before, behind) ↦ some (b ∷ before, behind) ]

-- `toString("ascii")`
abbrev pub ascii : List ℕ → List ℕ
ascii bytes = map (λ b. b % 128) bytes

-- `/^\d+$/u`, and `/^(?:0|[1-9]\d*)$/u`
abbrev pub is_digits : List ℕ → Bool
is_digits [] = false
is_digits (c ∷ cs) = all is_digit (c ∷ cs)

abbrev pub is_length : List ℕ → Bool
is_length [] = false
is_length (c ∷ []) = is_digit c
is_length (c ∷ d ∷ cs) = is_digit c && not (c == b'0') && all is_digit (d ∷ cs)

-- `Number(text)`, of digits, behind those that count `n`
unfoldable pub number_from : ℕ → List ℕ → ℕ
number_from n [] = n
number_from n (c ∷ cs) = number_from (n * 10 + (c - b'0')) cs

-- `${n}`, in front of a text: with `fuel` above `n` it is all the digits
unfoldable pub decimal : ℕ → ℕ → List ℕ → List ℕ
decimal zero n text = text
decimal (suc fuel) n text =
    let digit = n % 10 + b'0' in
    let rest = decimal fuel (n / 10) (digit ∷ text) in if ltb n 10 then digit ∷ text else rest

unfoldable pub same_codes : List ℕ → List ℕ → Bool
same_codes [] [] = true
same_codes [] (d ∷ ds) = false
same_codes (c ∷ cs) [] = false
same_codes (c ∷ cs) (d ∷ ds) = c == d && same_codes cs ds

-- what `parseState` returns
pub record Parsed : Type 0 where
  pub state : State
  pub valid_bytes : ℕ

module _ (sha256 : List ℕ → List ℕ) (json_of : List ℕ → Option Json) where
  -- behind the newline of a frame, whose payload and hash are these
  unfoldable pub read_payload : List ℕ → List ℕ → List ℕ → Result Code (Option (Json × List ℕ))
  read_payload hash payload more =
      if not (same_codes (sha256 payload) hash)
      then err state_corrupt
      else elim (json_of payload) [ none ↦ err state_corrupt | some v ↦ ok (some (v, more)) ]

  -- behind the second colon: `none` is a frame that is cut off
  unfoldable pub read_sized : ℕ → List ℕ → List ℕ → Result Code (Option (Json × List ℕ))
  read_sized size hash bytes = elim (drop size bytes) [
    | [] ↦ ok none
    | b ∷ more ↦ if b == b'\n' then read_payload hash (take size bytes) more else err state_corrupt
  ]

  -- behind the first colon
  unfoldable pub read_hash : ℕ → List ℕ → Result Code (Option (Json × List ℕ))
  read_hash size bytes = elim (split_colon bytes) [
    | none ↦
        if all is_hex (ascii bytes) && leb (length bytes) 64 then ok none else err state_corrupt
    | some (hash, behind) ↦
        if all is_hex (ascii hash) && length hash == 64
        then read_sized size (ascii hash) behind
        else err state_corrupt
  ]

  -- one turn of the loop: a record with the bytes behind it, or a frame that is cut off
  unfoldable pub read_frame : List ℕ → Result Code (Option (Json × List ℕ))
  read_frame bytes = elim (split_colon bytes) [
    | none ↦ if is_digits (ascii bytes) then ok none else err state_corrupt
    | some (size, behind) ↦
        if not (is_length (ascii size)) || not (leb (number_from 0 (ascii size)) 1048576)
        then err state_corrupt
        else read_hash (number_from 0 (ascii size)) behind
  ]

  module _ (is_absolute : String → Bool) where
    -- `parseState` from an offset on, of the file of this length; each turn but the last takes a
    -- byte or more
    unfoldable pub parse_frames : ℕ → ℕ → List ℕ → State → Result Code Parsed
    parse_frames fuel total [] s = ok (record { state = s; valid_bytes = total })
    parse_frames zero total (b ∷ bs) s =
        ok (record { state = s; valid_bytes = total - length (b ∷ bs) })
    parse_frames (suc fuel) total (b ∷ bs) s = read_frame (b ∷ bs) >>= λ frame. elim frame [
      | none ↦ ok (record { state = s; valid_bytes = total - length (b ∷ bs) })
      | some (v, more) ↦ validate_state_record is_absolute v s >>= parse_frames fuel total more
    ]

    unfoldable pub parse_state : List ℕ → Result Code Parsed
    parse_state contents =
        parse_frames (length contents) (length contents) contents
          (record { checkpoints = []; bootstrapped = false })

-- `frameStateRecord`
module _ (sha256 : List ℕ → List ℕ) (bytes_of : Json → List ℕ) where
  unfoldable pub frame_state_record : Json → List ℕ
  frame_state_record v =
      let payload = bytes_of v in
      decimal (suc (length payload)) (length payload)
        (b':' ∷ (sha256 payload ++ (b':' ∷ (payload ++ (b'\n' ∷ [])))))
