-- ===== src/Ledger/Lines.antt =====
-- The legacy file of bridge/src/ledger.mjs: one hash to a line.
use Prim.Native.Char.{code}
use hermes_codex_bridge.Base.{
  ℕ, String, Bool, false, not, ◌&&◌, List, [], ◌∷◌, ◌++◌, ◌==◌, if◌then◌else◌, str_eq, Result, ok,
  err,
}
use hermes_codex_bridge.Base.Json.{is_member}
use hermes_codex_bridge.Base.Text.{is_sha256}

-- the `LEDGER_…` codes; `io` is an error of the file system
pub data Code : Type 0 where
  key corrupt closed io : Code

abbrev newline : ℕ
newline = 10

-- a character before the first line
abbrev pub on_first : (String → String) → List String → List String
on_first f [] = f "" ∷ []
on_first f (l ∷ ls) = f l ∷ ls

-- `contents.split("\n")`
unfoldable pub split_lines : String → List String
split_lines String.[] = "" ∷ []
split_lines (String.◌∷◌ c s) =
    if code c == newline then "" ∷ split_lines s else on_first (String.◌∷◌ c) (split_lines s)

-- `contents.endsWith("\n")`
unfoldable pub ends_in_newline : String → Bool
ends_in_newline String.[] = false
ends_in_newline (String.◌∷◌ c String.[]) = code c == newline
ends_in_newline (String.◌∷◌ c (String.◌∷◌ d s)) = ends_in_newline (String.◌∷◌ d s)

-- `hashes.add(line)`
unfoldable pub add_hash : List String → String → List String
add_hash hashes line = if is_member hashes line then hashes else hashes ++ line ∷ []

-- the loop over the lines
unfoldable pub read_lines : List String → List String → Result Code (List String)
read_lines [] hashes = ok hashes
read_lines (line ∷ lines) hashes =
    let skipped = read_lines lines hashes in
    let added = read_lines lines (add_hash hashes line) in
    if str_eq line "" then skipped else if not (is_sha256 line) then err corrupt else added

unfoldable pub parse_ledger : String → Result Code (List String)
parse_ledger contents =
    if not (str_eq contents "") && not (ends_in_newline contents)
    then err corrupt
    else read_lines (split_lines contents) []
