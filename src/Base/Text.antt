-- ===== src/Base/Text.antt =====
-- JavaScript strings as native texts. A text is a list of code points, so a lone surrogate, which
-- a JavaScript string may hold, has no counterpart. `length16` is `.length`, in UTF-16 units;
-- `length` of the code points is `[...value].length`. A regular expression without alternatives
-- is a list of character classes.
use Prim.Native.Nat.{ℕ, zero, suc, ◌+◌}
use Prim.Native.Char.{code}
use Prim.Native.String.{String}
use mathlib.Core.Path.{◌≡◌}
use mathlib.Core.Bool.{Bool, true, false, ◌&&◌, ◌||◌}
use mathlib.Core.List.{List, [], ◌∷◌}
use native.Mathlib.Omega.{arith}
use hermes_codex_bridge.Base.Tests.{leb, ◌==◌, if◌then◌else◌}
use hermes_codex_bridge.Base.Lists.{length, any, all}

abbrev pub codes : String → List ℕ
codes String.[] = []
codes (String.◌∷◌ c s) = code c ∷ codes s

abbrev pub units : List ℕ → ℕ
units [] = 0
units (c ∷ cs) = (if leb 0x10000 c then 2 else 1) + units cs

abbrev pub length16 : String → ℕ
length16 s = units (codes s)

abbrev pub points : String → ℕ
points s = length (codes s)

abbrev pub is_digit : ℕ → Bool
is_digit c = leb b'0' c && leb c b'9'

-- `[0-9a-f]`
abbrev pub is_hex : ℕ → Bool
is_hex c = is_digit c || (leb b'a' c && leb c b'f')

-- `[A-Za-z0-9]`
abbrev pub is_alnum : ℕ → Bool
is_alnum c = is_digit c || ((leb b'a' c && leb c b'z') || (leb b'A' c && leb c b'Z'))

pub data Class : Type 0 where
  lit : ℕ → Class
  hex : Class
  digit : Class

abbrev pub in_class : Class → ℕ → Bool
in_class (lit k) c = k == c
in_class hex c = is_hex c
in_class digit c = is_digit c

-- `^…$` over a sequence of classes
unfoldable pub matches : List Class → List ℕ → Bool
matches [] [] = true
matches [] (c ∷ cs) = false
matches (p ∷ ps) [] = false
matches (p ∷ ps) (c ∷ cs) = in_class p c && matches ps cs

abbrev pub run : ℕ → Class → List Class → List Class
run zero p rest = rest
run (suc n) p rest = p ∷ run n p rest

-- `/^[0-9a-f]{64}$/u`
abbrev pub sha256_pattern : List Class
sha256_pattern = run 64 hex []

-- `/^evt_[0-9a-f]{8}-[0-9a-f]{4}-[0-9a-f]{4}-[0-9a-f]{4}-[0-9a-f]{12}$/u`
abbrev pub event_id_pattern : List Class
event_id_pattern =
    lit b'e'
    ∷ lit b'v'
    ∷ lit b't'
    ∷ lit b'_'
    ∷ run 8 hex (
        lit b'-'
        ∷ run 4 hex (lit b'-' ∷ run 4 hex (lit b'-' ∷ run 4 hex (lit b'-' ∷ run 12 hex []))))

unfoldable pub is_event_id : String → Bool
unfolding matches
is_event_id s = matches event_id_pattern (codes s)

unfoldable pub is_sha256 : String → Bool
unfolding matches
is_sha256 s = matches sha256_pattern (codes s)

-- `/^[A-Za-z0-9][A-Za-z0-9._:-]{0,255}$/u`
abbrev is_identifier_rest : ℕ → Bool
is_identifier_rest c = is_alnum c || any (λ k. k == c) (b'.' ∷ b'_' ∷ b':' ∷ b'-' ∷ [])

abbrev safe_identifier_codes : List ℕ → Bool
safe_identifier_codes [] = false
safe_identifier_codes (c ∷ cs) = is_alnum c && (leb (length cs) 255 && all is_identifier_rest cs)

unfoldable pub is_safe_identifier : String → Bool
is_safe_identifier s = safe_identifier_codes (codes s)

-- `/\s/`, the white space that `trim` removes
abbrev pub is_space : ℕ → Bool
is_space c =
    (leb 9 c && leb c 13)
    || any (λ k. k == c)
        (32 ∷ 0xa0 ∷ 0x1680 ∷ 0x2028 ∷ 0x2029 ∷ 0x202f ∷ 0x205f ∷ 0x3000 ∷ 0xfeff ∷ [])
    || (leb 0x2000 c && leb c 0x200a)

-- `value.trim().length > 0`
unfoldable pub is_blank : String → Bool
is_blank s = all is_space (codes s)

-- `text.startsWith(part)`, `text.includes(part)` and `text.endsWith(part)`
unfoldable pub has_prefix : List ℕ → List ℕ → Bool
has_prefix [] cs = true
has_prefix (p ∷ ps) [] = false
has_prefix (p ∷ ps) (c ∷ cs) = p == c && has_prefix ps cs

unfoldable pub has_part : List ℕ → List ℕ → Bool
unfolding has_prefix
has_part ps [] = has_prefix ps []
has_part ps (c ∷ cs) = has_prefix ps (c ∷ cs) || has_part ps cs

unfoldable pub has_suffix : List ℕ → List ℕ → Bool
has_suffix ps [] = has_prefix ps []
has_suffix ps (c ∷ cs) =
    (length ps == length (c ∷ cs) && has_prefix ps (c ∷ cs)) || has_suffix ps cs

abbrev pub includes : String → String → Bool
includes part s = has_part (codes part) (codes s)

-- `toLowerCase()` on the letters `[A-Z]`
abbrev pub lower : ℕ → ℕ
lower c = if leb b'A' c && leb c b'Z' then c + 32 else c

-- A text that matches has as many characters as the pattern has classes.
pub length-matches : (ps : List Class) (cs : List ℕ) → matches ps cs ≡ true → length cs ≡ length ps
unfolding matches
length-matches [] [] h = omega arith
length-matches [] (c ∷ cs) h = ground arith
length-matches (p ∷ ps) [] h = ground arith
length-matches (p ∷ ps) (c ∷ cs) h = ground (arith, length-matches ps cs)
