-- ===== src/CandidateStore/Files.antt =====
-- Reading and replacing one record file of bridge/src/candidate-store.mjs. The directory is an
-- association list from file names to leaves. A replacement renames a finished partial file over
-- the record, so it happens whole or not at all; whether the n-th one fails is told by `faults`.
use Prim.Native.String
use hermes_codex_bridge.Base.{
  ℕ, suc, String, Bool, true, false, not, ◌&&◌, ◌||◌, Option, none, some, List, [], ◌∷◌, leb, ◌==◌,
  if◌then◌else◌, str_eq, Result, ok, err, ◌>>=◌, ◌>>◌, all, rethrow,
}
use hermes_codex_bridge.Base.Json.{Json, str, obj, keys, get, string_is, is_text, is_member}
use hermes_codex_bridge.Runtime.{Runtime}
use hermes_codex_bridge.CandidateStore.Record.{
  Code, corrupt, write, Candidate, record_keys, valid_event_id, normalize_candidate, to_json,
}

-- what `lstat` and `readFile` tell of a name
pub record Leaf {ℓ} (D : Type ℓ) : Type ℓ where
  pub is_file : Bool
  pub is_symbolic_link : Bool
  pub nlink : ℕ
  pub size : ℕ
  pub text : D

abbrev pub Directory {ℓ} : Type ℓ → Type ℓ
Directory D = List (String × Leaf D)

module _ {ℓ} {D : Type ℓ} where
  unfoldable pub find_leaf : String → Directory D → Option (Leaf D)
  find_leaf name [] = none
  find_leaf name ((n, l) ∷ rest) = if str_eq n name then some l else find_leaf name rest

  unfoldable pub replace_leaf : String → Leaf D → Directory D → Directory D
  replace_leaf name l [] = (name, l) ∷ []
  replace_leaf name l ((n, k) ∷ rest) =
      if str_eq n name then (name, l) ∷ rest else (n, k) ∷ replace_leaf name l rest

pub record Disk (D : Type 0) : Type 0 where
  pub leaves : Directory D
  pub writes : ℕ

-- `${eventId}.json`
unfoldable pub file_name : String → String
file_name id = String.◌++◌ id ".json"

-- `!Object.keys(value).some((key) => !RECORD_KEYS.has(key))` on an object
abbrev pub has_only_keys : Json → Bool
has_only_keys (obj fs) = all (is_member record_keys) (keys fs)
has_only_keys _ = false

module _ (r : Runtime) where
  open r use {Document, stringify, pretty, parse, same, byte_length}

  unfoldable pub validate_stored_record : Json → Result Code Candidate
  validate_stored_record value = do
    (if has_only_keys value then ok tt else err corrupt)
    normalized ← rethrow (normalize_candidate r value) corrupt
    (if string_is (is_text normalized.content_hash) (get "contentHash" value)
          && same (stringify value) (stringify (to_json normalized))
        then ok normalized
        else err corrupt)

  -- the reads of `readRecord` on a name that is there
  unfoldable pub read_leaf : Leaf Document → Result Code Candidate
  read_leaf l =
      if not l.is_file || l.is_symbolic_link || not (l.nlink == 1)
      then err corrupt
      else if not (leb l.size 3145728)
      then err corrupt
      else elim (parse l.text) [ none ↦ err corrupt | some v ↦ validate_stored_record v ]

  unfoldable pub read_record : Directory Document → String → Bool → Result Code (Option Candidate)
  read_record root event_id missing = do
    _ ← valid_event_id (some (str event_id))
    elim (find_leaf (file_name event_id) root) [
      | none ↦ if missing then ok none else err corrupt
      | some l ↦ (do c ← read_leaf l; ok (some c))
    ]

  abbrev pub leaf_of : Candidate → Leaf Document
  leaf_of c = record {
    is_file = true;
    is_symbolic_link = false;
    nlink = 1;
    size = byte_length (pretty (to_json c));
    text = pretty (to_json c);
  }

  unfoldable pub replace_record :
      (ℕ → Bool) → Disk Document → Candidate → Result Code Candidate × Disk Document
  replace_record faults d c =
      if faults d.writes then (err write, record d { writes = suc d.writes }) else (
        ok c,
        record {
          leaves = replace_leaf (file_name c.event_id) (leaf_of c) d.leaves;
          writes = suc d.writes;
        },
      )
