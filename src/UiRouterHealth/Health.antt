-- ===== src/UiRouterHealth/Health.antt =====
-- `createUiRouterHealth` of bridge/src/ui-router-health.mjs. `date_parse` is `Date.parse`, `none`
-- where that is NaN; it and the clock count milliseconds from the earliest time of a `Date`.
use Prim.Native.String
use hermes_codex_bridge.Base.{
  ℕ, ◌-◌, String, Bool, true, false, not, ◌&&◌, ◌||◌, Option, none, some, List, [], ◌∷◌, leb, ltb,
  if◌then◌else◌, str_eq,
}
use hermes_codex_bridge.Base.Json.{Json, str, at, is_object}

-- `null`, `NaN`, or a time
pub data Time : Type 0 where
  absent : Time
  malformed : Time
  time : ℕ → Time

-- what `observe` returns
pub data Notice : Type 0 where
  quiet : Notice
  warn : (key : String) → Notice
  recovered : Notice

abbrev pub is_malformed : Time → Bool
is_malformed malformed = true
is_malformed _ = false

-- `oldest !== null && current - oldest > PENDING_THRESHOLD_MS`
unfoldable pub is_old : Time → ℕ → Bool
is_old (time t) current = ltb 180000 (current - t)
is_old _ current = false

-- `heartbeat !== null && current - heartbeat <= HEARTBEAT_FRESH_MS`
unfoldable pub is_fresh : Time → ℕ → Bool
is_fresh (time t) current = leb (current - t) 150000
is_fresh _ current = false

abbrev pub key_of : String → String
key_of oldest_ready_at = String.◌++◌ "ui-router-stale:" oldest_ready_at

abbrev pub text_of : Json → String
text_of (str s) = s
text_of _ = ""

abbrev pub is_warned : Option String → String → Bool
is_warned none key = false
is_warned (some k) key = str_eq k key

abbrev pub calm : Option String → Notice × Option String
calm none = (quiet, none)
calm (some k) = (recovered, none)

module _ (date_parse : String → Option ℕ) where
  abbrev dated : Option ℕ → ℕ → Time
  dated none current = malformed
  dated (some t) current = if leb t current then time t else malformed

  -- `timestamp(value, current)`
  unfoldable pub timestamp : Json → ℕ → Time
  timestamp (str s) current = dated (date_parse s) current
  timestamp _ current = absent

  -- The notice, and the next `warnedKey`. The clock is `none` where it is not finite.
  unfoldable pub observe : Json → Option ℕ → Option String → Notice × Option String
  observe snapshot none warned_key = (quiet, warned_key)
  observe snapshot (some current) warned_key =
      let oldest = timestamp (at "oldestReadyAt" snapshot) current in
      let heartbeat = timestamp (at "heartbeatAt" snapshot) current in
      let key = key_of (text_of (at "oldestReadyAt" snapshot)) in
      if not (is_object snapshot) || (is_malformed oldest || is_malformed heartbeat)
      then (quiet, warned_key)
      else if is_old oldest current && not (is_fresh heartbeat current)
      then (if is_warned warned_key key then (quiet, warned_key) else (warn key, some key))
      else calm warned_key

  unfoldable pub observe_all : List (Json × Option ℕ) → Option String → List Notice
  observe_all [] warned_key = []
  observe_all ((snapshot, now) ∷ rest) warned_key =
      let (notice, next) = observe snapshot now warned_key in notice ∷ observe_all rest next
