-- ===== src/UiRouterHealth/Warnings.antt =====
-- When bridge/src/ui-router-health.mjs warns, and that it does not repeat itself.
use hermes_codex_bridge.Base.{
  ℕ, ◌+◌, ◌<◌, String, ◌≡◌, ◌≢◌, ◌⊎◌, inl, inr, true, false, not, ◌&&◌, ◌||◌, if◌then◌else◌, str_eq,
  Bool-cases, either_branch, Option, none, some, List, [], ◌∷◌, refl, eq_iff, arith,
}
use hermes_codex_bridge.Base.Json.{Json, at, is_object}
use hermes_codex_bridge.UiRouterHealth.Health.{
  Time, absent, malformed, time, Notice, quiet, warn, recovered, is_old, is_fresh, is_malformed,
  is_warned, key_of, text_of, calm, timestamp, observe, observe_all,
}

-- Notices that follow on a last warning, if one is open: no warning repeats the open one, and a
-- recovery closes a warning that is open.
abbrev pub IsAlternating : Option String → List Notice → Type 0
IsAlternating open_key [] = Unit
IsAlternating open_key (quiet ∷ ns) = IsAlternating open_key ns
IsAlternating open_key (warn key ∷ ns) = (open_key ≢ some key) × IsAlternating (some key) ns
IsAlternating open_key (recovered ∷ ns) = (open_key ≢ none) × IsAlternating none ns

-- A reply has waited for more than three minutes, and no heartbeat is known, or the last one is
-- more than two and a half minutes old.
abbrev pub IsStale : (String → Option ℕ) → Json → ℕ → Type 0
IsStale date_parse snapshot now =
    ((t : ℕ) × (timestamp date_parse (at "oldestReadyAt" snapshot) now ≡ time t)
      × (t + 180000 < now))
    × ((timestamp date_parse (at "heartbeatAt" snapshot) now ≡ absent)
        ⊎ ((t : ℕ) × (timestamp date_parse (at "heartbeatAt" snapshot) now ≡ time t)
            × (t + 150000 < now)))

module _ (date_parse : String → Option ℕ) where
  old-time :
      (o : Time) (now : ℕ) → is_old o now ≡ true → (t : ℕ) × (o ≡ time t) × (t + 180000 < now)
  unfolding is_old
  old-time absent now h = absurd (ground arith)
  old-time malformed now h = absurd (ground arith)
  old-time (time t) now h = (t, refl, ground arith)

  lost-time :
      (o : Time) (now : ℕ)
      → o ≢ malformed
      → is_fresh o now ≡ false
      → (o ≡ absent) ⊎ ((t : ℕ) × (o ≡ time t) × (t + 150000 < now))
  unfolding is_fresh
  lost-time absent now n h = inl refl
  lost-time malformed now n h = absurd (n refl)
  lost-time (time t) now n h = inr (t, refl, ground arith)

  warn-parts :
      (snapshot : Json) (now : ℕ) (warned_key : Option String) (key : String)
      → (observe date_parse snapshot (some now) warned_key).0 ≡ warn key
      → (is_old (timestamp date_parse (at "oldestReadyAt" snapshot) now) now ≡ true)
        × (is_fresh (timestamp date_parse (at "heartbeatAt" snapshot) now) now ≡ false)
        × (timestamp date_parse (at "heartbeatAt" snapshot) now ≢ malformed)
  unfolding observe
  warn-parts snapshot now warned_key key h = ground arith

  -- A warning is given only if a ready reply has waited for more than 180 seconds, and no heartbeat
  -- is known or the last one is more than 150 seconds old.
  pub observe-IsStale :
      (snapshot : Json) (now : ℕ) (warned_key : Option String) (key : String)
      → (observe date_parse snapshot (some now) warned_key).0 ≡ warn key
      → IsStale date_parse snapshot now
  observe-IsStale snapshot now warned_key key h =
      let (old, stale, known) = warn-parts snapshot now warned_key key h in
      (old-time _ now old, lost-time _ now known stale)

  -- One notice may stand before the notices that follow the new state.
  abbrev MayPrecede : Option String → List Notice → Notice × Option String → Type 0
  MayPrecede warned_key rest (notice, next) =
      IsAlternating next rest → IsAlternating warned_key (notice ∷ rest)

  calm-step :
      (warned_key : Option String) (rest : List Notice)
      → MayPrecede warned_key rest (calm warned_key)
  calm-step none rest h = h
  calm-step (some k) rest h = ((λ e. cc), h)

  warn-step :
      (warned_key : Option String) (key : String) (rest : List Notice)
      → MayPrecede warned_key rest
          (if is_warned warned_key key then (quiet, warned_key) else (warn key, some key))
  warn-step none key rest = λ h. ((λ e. cc), h)
  warn-step (some k) key rest = elim (Bool-cases (str_eq k key)) [
    | inl same ↦ rw same (λ h. h)
    | inr other ↦ rw other (λ h. ((λ e. ground (arith, eq_iff k key)), h))
  ]

  observe-step :
      (snapshot : Json) (now : Option ℕ) (warned_key : Option String) (rest : List Notice)
      → MayPrecede warned_key rest (observe date_parse snapshot now warned_key)
  unfolding observe
  observe-step snapshot none warned_key rest = λ h. h
  observe-step snapshot (some current) warned_key rest =
      let oldest = timestamp date_parse (at "oldestReadyAt" snapshot) current in
      let heartbeat = timestamp date_parse (at "heartbeatAt" snapshot) current in
      let key = key_of (text_of (at "oldestReadyAt" snapshot)) in
      either_branch (MayPrecede warned_key rest)
        (not (is_object snapshot) || (is_malformed oldest || is_malformed heartbeat))
        {x = (quiet, warned_key)} (λ h. h)
        (either_branch (MayPrecede warned_key rest)
          (is_old oldest current && not (is_fresh heartbeat current))
          {x = if is_warned warned_key key then (quiet, warned_key) else (warn key, some key)}
          {y = calm warned_key} (warn-step warned_key key rest) (calm-step warned_key rest))

  -- Over any run of observations, no warning repeats the one that is open, and every recovery
  -- closes a warning.
  pub observe_all-IsAlternating :
      (seen : List (Json × Option ℕ)) (warned_key : Option String)
      → IsAlternating warned_key (observe_all date_parse seen warned_key)
  unfolding observe_all
  observe_all-IsAlternating [] warned_key = tt
  observe_all-IsAlternating ((snapshot, now) ∷ rest) warned_key =
      observe-step snapshot now warned_key _ (observe_all-IsAlternating rest _)
