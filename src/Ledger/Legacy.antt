-- ===== src/Ledger/Legacy.antt =====
-- The lines of the legacy file of bridge/src/ledger.mjs.
use Prim.Native.Char.{code}
use hermes_codex_bridge.Base.{
  String, ◌≡◌, ◌≢◌, ◌⊎◌, ◌∙◌, refl, ap, subst, inl, inr, true, List, [], ◌∷◌, ◌++◌, ok, All, arith,
  eq_iff, str_eq, Bool-cases,
}
use hermes_codex_bridge.Base.Json.{is_member}
use hermes_codex_bridge.Ledger.Lines.{split_lines, add_hash, read_lines, parse_ledger}

-- lines as a text, each with a newline at its end
abbrev before : String → String → String
before String.[] rest = String.◌∷◌ "\n" rest
before (String.◌∷◌ c s) rest = String.◌∷◌ c (before s rest)

abbrev pub lines_text : List String → String
lines_text [] = ""
lines_text (line ∷ lines) = before line (lines_text lines)

-- a line has no newline in it
abbrev pub IsLine : String → Type 0
IsLine String.[] = Unit
IsLine (String.◌∷◌ c s) = (code c ≢ 10) × IsLine s

split_lines-line :
    (line rest : String) → IsLine line → split_lines (before line rest) ≡ line ∷ split_lines rest
unfolding split_lines
split_lines-line String.[] rest h = refl
split_lines-line (String.◌∷◌ c s) rest (other, h) =
    let later = split_lines-line s rest h in ground arith

split_lines-lines_text :
    (lines : List String) → All IsLine lines → split_lines (lines_text lines) ≡ lines ++ "" ∷ []
unfolding split_lines
split_lines-lines_text [] h = refl
split_lines-lines_text (line ∷ lines) (h, hs) =
    split_lines-line line (lines_text lines) h
    ∙ ap (λ ls. line ∷ ls) (split_lines-lines_text lines hs)

any-append :
    (hashes : List String) (s x : String)
    → is_member hashes x ≡ true
    → is_member (hashes ++ s ∷ []) x ≡ true
any-append [] s x h = cc
any-append (y ∷ ys) s x h = let later = any-append ys s x in ground arith

is_member-last : (hashes : List String) (x : String) → is_member (hashes ++ x ∷ []) x ≡ true
is_member-last [] x = ground (arith, eq_iff x x)
is_member-last (y ∷ ys) x = let later = is_member-last ys x in ground arith

add_hash-keeps :
    (hashes : List String) (line x : String)
    → is_member hashes x ≡ true
    → is_member (add_hash hashes line) x ≡ true
unfolding add_hash
add_hash-keeps hashes line x h = ground (arith, any-append hashes line x h)

add_hash-adds :
    (hashes : List String) (line : String) → is_member (add_hash hashes line) line ≡ true
unfolding add_hash
add_hash-adds hashes line = ground (arith, is_member-last hashes line)

read_lines-keeps :
    (lines hashes out : List String) (x : String)
    → read_lines lines hashes ≡ ok out
    → is_member hashes x ≡ true
    → is_member out x ≡ true
unfolding read_lines
read_lines-keeps [] hashes out x h k = ground arith
read_lines-keeps (line ∷ lines) hashes out x h k = ground (
  arith,
  read_lines-keeps lines hashes out x,
  read_lines-keeps lines (add_hash hashes line) out x,
  add_hash-keeps hashes line x k,
)

-- an empty line, or a hash of the list
abbrev pub IsReadInto : List String → String → Type 0
IsReadInto hashes line = (line ≡ "") ⊎ (is_member hashes line ≡ true)

read_lines-All :
    (lines hashes out : List String) → read_lines lines hashes ≡ ok out → All (IsReadInto out) lines
unfolding read_lines
read_lines-All [] hashes out h = tt
read_lines-All (line ∷ lines) hashes out h = elim (Bool-cases (str_eq line "")) [
  | inl e ↦ (inl ((eq_iff line "").0 e), read_lines-All lines hashes out (ground arith))
  | inr e ↦
      let added : read_lines lines (add_hash hashes line) ≡ ok out = ground arith in
      (
        inr (
            read_lines-keeps lines (add_hash hashes line) out line added
              (add_hash-adds hashes line)),
        read_lines-All lines (add_hash hashes line) out added,
      )
]

All-prefix : (P : String → Type 0) (xs : List String) (y : String) → All P (xs ++ y ∷ []) → All P xs
All-prefix P [] y h = tt
All-prefix P (x ∷ xs) y (h, hs) = (h, All-prefix P xs y hs)

pub parse_ledger-All :
    (lines out : List String)
    → All IsLine lines
    → parse_ledger (lines_text lines) ≡ ok out
    → All (IsReadInto out) lines
unfolding parse_ledger
parse_ledger-All lines out h k =
    let same = split_lines-lines_text lines h in
    All-prefix (IsReadInto out) lines "" (read_lines-All (lines ++ "" ∷ []) [] out (ground arith))

pub member-All :
    (P : String → Type 0) (hashes : List String) (x : String)
    → is_member hashes x ≡ true
    → All P hashes
    → P x
member-All P [] x h k = absurd (ground arith)
member-All P (y ∷ ys) x h (p, k) = elim (Bool-cases (str_eq y x)) [
  | inl e ↦ subst P ((eq_iff y x).0 e) p
  | inr e ↦ member-All P ys x (ground arith) k
]
