-- ===== src/UiActionStore/Checks.antt =====
-- The validators of bridge/src/ui-action-store.mjs. `RegExp.test` turns its argument into a text
-- first, so `null`, a number or a list of one item may pass for an identifier. `date_parse` is
-- `Date.parse`, `none` where it is NaN; times count from the earliest time of a `Date`.
use hermes_codex_bridge.Base.{
  ℕ, ◌+◌, ◌^◌, min, String, Bool, false, ◌&&◌, ◌||◌, Option, none, some, List, [], ◌∷◌, all, length,
  ltb, ◌==◌, if◌then◌else◌, str_eq, Result, ok, err,
}
use hermes_codex_bridge.Base.Json.{
  Json, null, bool, natural, other_number, str, arr, obj, nil, cons, keys, get, has_own, is_text,
  string_is, is_some,
}
use hermes_codex_bridge.Base.Text.{is_safe_identifier, is_sha256}
use hermes_codex_bridge.Contracts.Shape.{Event}
use hermes_codex_bridge.UiActionStore.Files.{Code, action, claim}

-- `exactFields`
unfoldable pub exact_fields : List String → Json → Bool
exact_fields fields (obj fs) =
    length (keys fs) == length fields && all (λ k. has_own k (obj fs)) fields
exact_fields fields _ = false

-- `pattern.test(value)` for a pattern that no text with a comma, a blank or a bracket matches; an
-- item of a list counts as empty where it is `null`, and a natural number below 10 ^ 21 is digits, of
-- which the patterns take as many
unfoldable pub test_item : (String → Bool) → Json → Bool
test_item pattern null = false
test_item pattern (bool b) = pattern (if b then "true" else "false")
test_item pattern (natural n) = ltb n (10 ^ 21) && pattern "0"
test_item pattern (other_number s) = pattern s
test_item pattern (str s) = pattern s
test_item pattern (arr (cons v nil)) = test_item pattern v
test_item pattern (arr _) = false
test_item pattern (obj fs) = false

unfoldable pub test_json : (String → Bool) → Option Json → Bool
unfolding test_item
test_json pattern none = pattern "undefined"
test_json pattern (some null) = pattern "null"
test_json pattern (some v) = test_item pattern v

abbrev pub is_str : String → Option Json → Bool
is_str s v = string_is (is_text s) v

module _ (date_parse : String → Option ℕ) where
  -- `validTimestamp`
  unfoldable pub valid_timestamp : Option Json → Bool
  valid_timestamp v = string_is (λ s. is_some (date_parse s)) v

  unfoldable pub validate_action : Json → Event → Result Code (Unit {0})
  validate_action v e =
      if exact_fields
          ("schema" ∷ "event_id" ∷ "thread_id" ∷ "source_turn_id" ∷ "reply_sha256" ∷ "created_at"
            ∷ [])
          v
        && is_str "hermes-codex-ui-action/v3" (get "schema" v)
        && is_str e.id (get "event_id" v)
        && is_str e.thread_id (get "thread_id" v)
        && is_str e.turn_id (get "source_turn_id" v)
        && test_json is_sha256 (get "reply_sha256" v)
        && valid_timestamp (get "created_at" v)
      then ok tt
      else err action

  unfoldable pub validate_claim : Json → String → String → Result Code (Unit {0})
  validate_claim v id reply_hash =
      if exact_fields
          ("schema" ∷ "event_id" ∷ "reply_sha256" ∷ "lease_id" ∷ "claimed_at" ∷ "expires_at" ∷ []) v
        && is_str "hermes-codex-ui-claim/v3" (get "schema" v)
        && is_str id (get "event_id" v)
        && is_str reply_hash (get "reply_sha256" v)
        && test_json is_safe_identifier (get "lease_id" v)
        && valid_timestamp (get "claimed_at" v)
        && valid_timestamp (get "expires_at" v)
      then ok tt
      else err claim

-- `now > deadline`, where the deadline may be NaN
unfoldable pub is_past : Option ℕ → ℕ → Bool
is_past none t = false
is_past (some d) t = ltb d t

abbrev pub later_by : ℕ → Option ℕ → Option ℕ
later_by n none = none
later_by n (some t) = some (t + n)

abbrev pub earlier : Option ℕ → Option ℕ → Option ℕ
earlier (some a) (some b) = some (min a b)
earlier _ _ = none

-- `SAFE_CODE`
unfoldable pub is_safe_code : String → Bool
is_safe_code s =
    str_eq s "BUSY"
    || str_eq s "SEND_FAILED"
    || str_eq s "VERIFY_PENDING"
    || str_eq s "STALE"
    || str_eq s "EXPIRED"
