-- ===== src/Contracts/Calendar.antt =====
-- What an accepted time stamp denotes, by the Gregorian calendar.
use hermes_codex_bridge.Base.{
  ℕ, zero, suc, ◌%◌, ◌≤◌, String, ◌≡◌, ◌≢◌, ◌↔◌, ◌⊎◌, true, Option, none, some, arith, refl,
  false≢true, Bool-cases, Option-cases, inl, inr,
}
use hermes_codex_bridge.Base.Text.{codes}
use hermes_codex_bridge.Contracts.Timestamp.{
  Stamp, exec_rfc3339, is_leap_year, days_in_month, in_range, is_rfc3339,
}

abbrev pub IsLeap : ℕ → Type 0
IsLeap y = ((y % 4 ≡ 0) × (y % 100 ≢ 0)) ⊎ (y % 400 ≡ 0)

is_leap_year_iff : (y : ℕ) → (is_leap_year y ≡ true) ↔ IsLeap y
unfolding is_leap_year
is_leap_year_iff y = ground arith

abbrev pub IsLong : ℕ → Type 0
IsLong m = (m ≡ 1) ⊎ ((m ≡ 3) ⊎ ((m ≡ 5) ⊎ ((m ≡ 7) ⊎ ((m ≡ 8) ⊎ ((m ≡ 10) ⊎ (m ≡ 12))))))

abbrev pub IsShort : ℕ → Type 0
IsShort m = (m ≡ 4) ⊎ ((m ≡ 6) ⊎ ((m ≡ 9) ⊎ (m ≡ 11)))

-- `LastDay year month d`: the month is one of the calendar, and `d` is its last day.
pub data LastDay (year m d : ℕ) : Type 0 where
  long : IsLong m → d ≡ 31 → LastDay year m d
  short : IsShort m → d ≡ 30 → LastDay year m d
  leap : m ≡ 2 → IsLeap year → d ≡ 29 → LastDay year m d
  common : m ≡ 2 → ¬ IsLeap year → d ≡ 28 → LastDay year m d

abbrev OffsetOk : Option (ℕ × ℕ) → Type 0
OffsetOk none = Unit
OffsetOk (some (h, m)) = (h ≤ 23) × (m ≤ 59)

pub record IsCalendarTime (s : Stamp) : Type 0 where
  pub last : ℕ
  pub month_ends : LastDay s.year s.month last
  pub from_first : 1 ≤ s.day
  pub to_last : s.day ≤ last
  pub hour : s.hour ≤ 23
  pub minute : s.minute ≤ 59
  pub second : s.second ≤ 59
  pub offset : OffsetOk s.offset

february : (y : ℕ) → LastDay y 2 (days_in_month y 2)
unfolding days_in_month
february y = elim (Bool-cases (is_leap_year y)) [
  | inl e ↦ leap refl ((is_leap_year_iff y).0 e) (rw (e, days_in_month))
  | inr e ↦ common refl (λ l. cc (e, (is_leap_year_iff y).1 l)) (rw (e, days_in_month))
]

days_in_month-LastDay : (y m : ℕ) → 1 ≤ m → m ≤ 12 → LastDay y m (days_in_month y m)
days_in_month-LastDay y zero h k = elim h [ ]
days_in_month-LastDay y (suc zero) h k = unfold days_in_month in long (omega arith) refl
days_in_month-LastDay y (suc (suc zero)) h k = february y
days_in_month-LastDay y (suc (suc (suc zero))) h k = unfold days_in_month in long (omega arith) refl
days_in_month-LastDay y (suc (suc (suc (suc zero)))) h k =
    unfold days_in_month in short (omega arith) refl
days_in_month-LastDay y (suc (suc (suc (suc (suc zero))))) h k =
    unfold days_in_month in long (omega arith) refl
days_in_month-LastDay y (suc (suc (suc (suc (suc (suc zero)))))) h k =
    unfold days_in_month in short (omega arith) refl
days_in_month-LastDay y (suc (suc (suc (suc (suc (suc (suc zero))))))) h k =
    unfold days_in_month in long (omega arith) refl
days_in_month-LastDay y (suc (suc (suc (suc (suc (suc (suc (suc zero)))))))) h k =
    unfold days_in_month in long (omega arith) refl
days_in_month-LastDay y (suc (suc (suc (suc (suc (suc (suc (suc (suc zero))))))))) h k =
    unfold days_in_month in short (omega arith) refl
days_in_month-LastDay y (suc (suc (suc (suc (suc (suc (suc (suc (suc (suc zero)))))))))) h k =
    unfold days_in_month in long (omega arith) refl
days_in_month-LastDay y (suc (suc (suc (suc (suc (suc (suc (suc (suc (suc (suc zero))))))))))) h k =
    unfold days_in_month in short (omega arith) refl
days_in_month-LastDay y (suc (suc (suc (suc (suc (suc (suc (suc (suc (suc (suc (suc zero))))))))))))
      h k =
    unfold days_in_month in long (omega arith) refl
days_in_month-LastDay y
      (suc (suc (suc (suc (suc (suc (suc (suc (suc (suc (suc (suc (suc m))))))))))))) h k =
    absurd (omega arith)

LastDay-days_in_month : (y m d : ℕ) → LastDay y m d → (1 ≤ m) × (m ≤ 12) × (d ≡ days_in_month y m)
unfolding days_in_month
LastDay-days_in_month y m d (long h e) = ground arith
LastDay-days_in_month y m d (short h e) = ground arith
LastDay-days_in_month y m d (leap h l e) = ground (arith, is_leap_year_iff y)
LastDay-days_in_month y m d (common h l e) = ground (arith, is_leap_year_iff y)

-- The range checks accept exactly the calendar's times: a month has its Gregorian length, the
-- clock runs to 23:59:59, and an offset stays below 24:00.
pub in_range_iff : (s : Stamp) → (in_range s ≡ true) ↔ IsCalendarTime s
unfolding in_range
in_range_iff s = (
  λ h. record {
    last = days_in_month s.year s.month;
    month_ends = days_in_month-LastDay s.year s.month (ground arith) (ground arith);
    from_first = ground arith;
    to_last = ground arith;
    hour = ground arith;
    minute = ground arith;
    second = ground arith;
    offset = ground arith;
  },
  λ c. ground (arith, LastDay-days_in_month s.year s.month c.last c.month_ends),
)

-- A text is accepted as a time stamp exactly if it has the form of one and denotes a time of the
-- calendar.
pub is_rfc3339_iff :
    (value : String)
    → (is_rfc3339 value ≡ true)
      ↔ ((s : Stamp) × (exec_rfc3339 (codes value) ≡ some s) × IsCalendarTime s)
unfolding is_rfc3339
is_rfc3339_iff value = (
  λ h. elim (Option-cases (exec_rfc3339 (codes value))) [
    | inl e ↦ absurd (false≢true (rw (e, is_rfc3339) at h))
    | inr (s, e) ↦ (s, e, (in_range_iff s).0 (rw (e, is_rfc3339) at h))
  ],
  λ (s, e, c). rw (e, is_rfc3339) ((in_range_iff s).1 c),
)
