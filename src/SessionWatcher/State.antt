-- ===== src/SessionWatcher/State.antt =====
-- The records of the state file of bridge/src/session-watcher.mjs. `is_absolute` is Node's.
use hermes_codex_bridge.Base.{
  ℕ, String, Bool, true, false, not, ◌&&◌, ◌||◌, Option, none, some, List, [], ◌∷◌, map, all,
  length, leb, ◌==◌, if◌then◌else◌, Result, ok, err,
}
use hermes_codex_bridge.Base.Assoc.{insert}
use hermes_codex_bridge.Base.Text.{
  codes, includes, has_prefix, has_suffix, is_digit, is_sha256, lower,
}
use hermes_codex_bridge.Base.Strings.{is_empty}
use hermes_codex_bridge.Base.Json.{
  Json, bool, natural, other_number, obj, keys, get, has_own, is_object, is_text, string_is,
  text_at, at, safe_natural,
}

-- the `WATCHER_…` codes
pub data Code : Type 0 where
  state_corrupt aborted dedupe publish publish_contract : Code

pub record Checkpoint : Type 0 where
  pub byte_offset : ℕ
  pub observed_size : ℕ
  pub last_mtime_ms : Json
  pub last_ctime_ms : Json
  pub file_id : String
  pub prefix_sha256 : String

pub record State : Type 0 where
  pub checkpoints : List (String × Checkpoint)
  pub bootstrapped : Bool

-- `hasExactlyKeys`: both lists name a key once
unfoldable pub has_exactly_keys : List String → Json → Bool
has_exactly_keys expected (obj fs) =
    length (keys fs) == length expected && all (λ k. has_own k (obj fs)) expected
has_exactly_keys expected _ = false

-- `path.split("/")`
abbrev add_code : ℕ → List (List ℕ) → List (List ℕ)
add_code c [] = (c ∷ []) ∷ []
add_code c (part ∷ parts) = (c ∷ part) ∷ parts

unfoldable pub split_path : List ℕ → List (List ℕ)
split_path [] = [] ∷ []
split_path (c ∷ cs) = let rest = split_path cs in if c == b'/' then [] ∷ rest else add_code c rest

abbrev is_name : List ℕ → Bool
is_name [] = false
is_name (c ∷ []) = not (c == b'.')
is_name (c ∷ d ∷ []) = not (c == b'.' && d == b'.')
is_name (c ∷ d ∷ e ∷ cs) = true

-- `/^\d+:\d+$/u`
abbrev some_digits : List ℕ → Bool
some_digits [] = false
some_digits (c ∷ cs) = all is_digit (c ∷ cs)

abbrev after_colon : List ℕ → Bool
after_colon [] = false
after_colon (c ∷ cs) = if c == b':' then some_digits cs else is_digit c && after_colon cs

abbrev digits_colon : List ℕ → Bool
digits_colon [] = false
digits_colon (c ∷ cs) = is_digit c && after_colon cs

unfoldable pub is_file_id : String → Bool
is_file_id s = digits_colon (codes s)

-- `typeof value === "number" && Number.isFinite(value) && value >= 0`
unfoldable pub is_time : Json → Bool
is_time (natural n) = true
is_time (other_number s) = not (has_prefix (codes "-") (codes s))
is_time _ = false

abbrev natural_at : String → Json → Option ℕ
natural_at k v = safe_natural (at k v)

module _ (is_absolute : String → Bool) where
  -- `validRelativePath`
  unfoldable pub valid_relative_path : String → Bool
  unfolding split_path
  valid_relative_path path =
      not (is_empty path)
      && not (includes "\\" path)
      && not (is_absolute path)
      && not (has_prefix (codes "/") (codes path))
      && all is_name (split_path (codes path))

  -- the offset and the size of a checkpoint's record
  abbrev range_of : Json → Option (ℕ × ℕ)
  range_of v = elim (natural_at "byteOffset" v) [
    | none ↦ none
    | some offset ↦ elim (natural_at "observedSize" v) [
      | none ↦ none
      | some size ↦ if leb offset size then some (offset, size) else none
    ]
  ]

  abbrev checkpoint_fields : List String
  checkpoint_fields =
      "schema" ∷ "type" ∷ "path" ∷ "byteOffset" ∷ "observedSize" ∷ "lastMtimeMs" ∷ "lastCtimeMs"
      ∷ "fileId" ∷ "prefixSha256" ∷ []

  abbrev is_jsonl : String → Bool
  is_jsonl path = has_suffix (codes ".jsonl") (map lower (codes path))

  unfoldable pub is_checkpoint : Json → Bool
  is_checkpoint v =
      has_exactly_keys checkpoint_fields v
      && string_is (λ path. valid_relative_path path && is_jsonl path) (get "path" v)
      && is_time (at "lastMtimeMs" v)
      && is_time (at "lastCtimeMs" v)
      && string_is is_file_id (get "fileId" v)
      && string_is is_sha256 (get "prefixSha256" v)

  abbrev checkpoint_of : Json → ℕ × ℕ → Checkpoint
  checkpoint_of v (offset, size) = record {
    byte_offset = offset;
    observed_size = size;
    last_mtime_ms = at "lastMtimeMs" v;
    last_ctime_ms = at "lastCtimeMs" v;
    file_id = text_at "fileId" v;
    prefix_sha256 = text_at "prefixSha256" v;
  }

  abbrev add_checkpoint : Json → Option (ℕ × ℕ) → State → Result Code State
  add_checkpoint v none s = err state_corrupt
  add_checkpoint v (some range) s =
      if is_checkpoint v
      then ok (record s {
        checkpoints = insert (text_at "path" v) (checkpoint_of v range) s.checkpoints;
      })
      else err state_corrupt

  abbrev is_one : Json → Bool
  is_one (natural n) = n == 1
  is_one _ = false

  abbrev is_true : Json → Bool
  is_true (bool b) = b
  is_true _ = false

  -- `validateStateRecord`, with what the caller makes of its result
  unfoldable pub validate_state_record : Json → State → Result Code State
  validate_state_record v s =
      if not (is_object v) || not (is_one (at "schema" v))
      then err state_corrupt
      else if string_is (is_text "checkpoint") (get "type" v)
      then add_checkpoint v (range_of v) s
      else if string_is (is_text "bootstrap") (get "type" v)
          && has_exactly_keys ("schema" ∷ "type" ∷ "bootstrapped" ∷ []) v
          && is_true (at "bootstrapped" v)
      then ok (record s { bootstrapped = true })
      else err state_corrupt
