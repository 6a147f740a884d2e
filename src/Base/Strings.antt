-- ===== src/Base/Strings.antt =====
-- JavaScript's operations on texts that make texts. They count characters.
use Prim.Native.Nat.{ℕ, zero, suc, ◌-◌}
use Prim.Native.Char.{Char, code}
use Prim.Native.String
use Prim.Native.String.{String}
use Prim.Native.String.append
use mathlib.Core.Path.{◌≡◌, refl, ap}
use mathlib.Core.Bool.{Bool, true, false, ◌&&◌}
use mathlib.Core.List.{List, [], ◌∷◌, ◌++◌}
use hermes_codex_bridge.Base.Lists.{length}
use hermes_codex_bridge.Base.Text.{codes, is_space, has_prefix}

abbrev pub is_empty : String → Bool
is_empty String.[] = true
is_empty (String.◌∷◌ c s) = false

-- `text.slice(0, n)` and `text.slice(n)`
abbrev pub take_chars : ℕ → String → String
take_chars zero s = String.[]
take_chars (suc n) String.[] = String.[]
take_chars (suc n) (String.◌∷◌ c s) = String.◌∷◌ c (take_chars n s)

abbrev pub drop_chars : ℕ → String → String
drop_chars zero s = s
drop_chars (suc n) String.[] = String.[]
drop_chars (suc n) (String.◌∷◌ c s) = drop_chars n s

-- the text with its n-th character changed
abbrev pub change_char : (Char → Char) → ℕ → String → String
change_char f n String.[] = String.[]
change_char f zero (String.◌∷◌ c s) = String.◌∷◌ (f c) s
change_char f (suc n) (String.◌∷◌ c s) = String.◌∷◌ c (change_char f n s)

-- `text.replaceAll(part, "")`, behind `skip` characters of an occurrence
unfoldable pub remove_all : List ℕ → ℕ → String → String
remove_all part skip String.[] = String.[]
remove_all part (suc skip) (String.◌∷◌ c s) = remove_all part skip s
remove_all part zero (String.◌∷◌ c s) = elim (has_prefix part (codes (String.◌∷◌ c s))) [
  | true ↦ remove_all part (length part - 1) s
  | false ↦ String.◌∷◌ c (remove_all part zero s)
]

-- `text.trim()`
abbrev trim_start : String → String
trim_start String.[] = String.[]
trim_start (String.◌∷◌ c s) = elim (is_space (code c)) [
  | true ↦ trim_start s
  | false ↦ String.◌∷◌ c s
]

abbrev trim_end : String → String
trim_end String.[] = String.[]
trim_end (String.◌∷◌ c s) =
    let rest = trim_end s in
    elim (is_empty rest && is_space (code c)) [ true ↦ String.[] | false ↦ String.◌∷◌ c rest ]

abbrev pub trim : String → String
trim s = trim_end (trim_start s)

-- `parts.join(between)`
abbrev pub join : String → List String → String
join between [] = String.[]
join between (s ∷ []) = s
join between (s ∷ t ∷ ts) = String.◌++◌ s (String.◌++◌ between (join between (t ∷ ts)))

pub codes-append : (s t : String) → codes (String.◌++◌ s t) ≡ codes s ++ codes t
codes-append String.[] t = ap codes (append.nil t)
codes-append (String.◌∷◌ c s) t = rw (append.cons c s t, codes-append s t) refl
