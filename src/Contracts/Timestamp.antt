-- ===== src/Contracts/Timestamp.antt =====
-- `isRfc3339Timestamp` of bridge/src/contracts.mjs.
use hermes_codex_bridge.Base.{
  ℕ, zero, suc, ◌+◌, ◌*◌, ◌-◌, ◌%◌, String, Bool, true, false, not, ◌&&◌, ◌||◌, Option, none, some,
  List, [], ◌∷◌, ltb, ◌==◌, if◌then◌else◌, take, drop,
}
use hermes_codex_bridge.Base.Text.{codes, Class, lit, digit, run, matches, is_digit}

pub record Stamp : Type 0 where
  pub year : ℕ
  pub month : ℕ
  pub day : ℕ
  pub hour : ℕ
  pub minute : ℕ
  pub second : ℕ
  pub offset : Option (ℕ × ℕ)

-- `Number(text)` of a run of digits
abbrev pub decimal : ℕ → List ℕ → ℕ
decimal n [] = n
decimal n (c ∷ cs) = decimal (n * 10 + (c - 48)) cs

-- `(\d{4})-(\d{2})-(\d{2})T(\d{2}):(\d{2}):(\d{2})`
abbrev date_pattern : List Class
date_pattern = run 4 digit (
    lit b'-'
    ∷ run 2 digit (
        lit b'-'
        ∷ run 2 digit
            (lit b'T' ∷ run 2 digit (lit b':' ∷ run 2 digit (lit b':' ∷ run 2 digit [])))))

-- `\d*`
skip_digits : List ℕ → List ℕ
skip_digits [] = []
skip_digits (c ∷ cs) = let rest = skip_digits cs in if is_digit c then rest else c ∷ cs

-- `(?:\.\d+)?`: a point that no digit follows is left where it is, and fails on the offset
skip_fraction : List ℕ → List ℕ
unfolding skip_digits
skip_fraction (c ∷ d ∷ cs) = if c == b'.' && is_digit d then skip_digits cs else c ∷ d ∷ cs
skip_fraction cs = cs

-- `(?:Z|[+-](\d{2}):(\d{2}))$`, with the groups if they take part in the match
match_offset : List ℕ → Option (Option (ℕ × ℕ))
unfolding matches
match_offset [] = none
match_offset (c ∷ cs) =
    if c == b'Z' && matches [] cs
    then some none
    else if (c == b'+' || c == b'-') && matches (run 2 digit (lit b':' ∷ run 2 digit [])) cs
    then some (some (decimal 0 (take 2 cs), decimal 0 (drop 3 cs)))
    else none

abbrev stamp_of : List ℕ → Option (ℕ × ℕ) → Stamp
stamp_of cs o = record {
  year = decimal 0 (take 4 cs);
  month = decimal 0 (take 2 (drop 5 cs));
  day = decimal 0 (take 2 (drop 8 cs));
  hour = decimal 0 (take 2 (drop 11 cs));
  minute = decimal 0 (take 2 (drop 14 cs));
  second = decimal 0 (take 2 (drop 17 cs));
  offset = o;
}

-- `RFC3339_PATTERN.exec(value)`
unfoldable pub exec_rfc3339 : List ℕ → Option Stamp
unfolding matches skip_fraction match_offset
exec_rfc3339 cs =
    if matches date_pattern (take 19 cs)
    then elim (match_offset (skip_fraction (drop 19 cs))) [
      | none ↦ none
      | some o ↦ some (stamp_of cs o)
    ]
    else none

unfoldable pub is_leap_year : ℕ → Bool
is_leap_year year = year % 4 == 0 && (not (year % 100 == 0) || year % 400 == 0)

abbrev nth : List ℕ → ℕ → ℕ
nth [] i = 0
nth (x ∷ xs) zero = x
nth (x ∷ xs) (suc i) = nth xs i

unfoldable pub days_in_month : ℕ → ℕ → ℕ
unfolding is_leap_year
days_in_month year month =
    nth
      (31
        ∷ (if is_leap_year year then 29 else 28)
        ∷ 31
        ∷ 30
        ∷ 31
        ∷ 30
        ∷ 31
        ∷ 31
        ∷ 30
        ∷ 31
        ∷ 30
        ∷ 31
        ∷ [])
      (month - 1)

abbrev offset_out : Option (ℕ × ℕ) → Bool
offset_out none = false
offset_out (some (h, m)) = ltb 23 h || ltb 59 m

-- the three range checks after the match
unfoldable pub in_range : Stamp → Bool
in_range s =
    if ltb s.month 1
      || (ltb 12 s.month || (ltb s.day 1 || ltb (days_in_month s.year s.month) s.day))
    then false
    else if ltb 23 s.hour || (ltb 59 s.minute || ltb 59 s.second)
    then false
    else if offset_out s.offset
    then false
    else true

unfoldable pub is_rfc3339 : String → Bool
is_rfc3339 value = elim (exec_rfc3339 (codes value)) [ none ↦ false | some s ↦ in_range s ]
