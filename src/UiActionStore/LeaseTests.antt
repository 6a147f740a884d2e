-- ===== src/UiActionStore/LeaseTests.antt =====
-- The theorem on leases in bridge/src/ui-action-store.mjs, applied to a second router that comes late.
use Prim.Native.Char.{code}
use Prim.Native.String
use hermes_codex_bridge.Base.{
  ℕ, zero, suc, ◌+◌, ◌-◌, ◌*◌, ◌/◌, ◌%◌, ◌≤◌, ◌<◌, ◌==◌, String, ◌≡◌, refl, ap, inl, inr, Bool,
  true, false, Bool-cases, Option, some, ok, asserts, ◌∙◌, arith,
}
use hermes_codex_bridge.Runtime.Sample.{sample, sample-IsFaithful, Json-discrete}
use hermes_codex_bridge.Base.Assoc.{lookup, insert, remove}
use hermes_codex_bridge.Base.Json.{has_own_fields, string_is, at, text_at, get, Json, str}
use hermes_codex_bridge.Base.Text.{is_event_id, is_sha256, is_safe_identifier, is_blank}
use hermes_codex_bridge.Contracts.Shape.{
  decode_event, decode_reply, validate_event, validate_reply, is_reply_mode, is_message, is_thread,
  has_allowed_actions, event_of, reply_of,
}
use hermes_codex_bridge.Contracts.Timestamp.{is_rfc3339, exec_rfc3339, in_range, days_in_month}
use hermes_codex_bridge.UiActionStore.Files.{
  World, remove_leaf, interaction_directory, leaves_of, set_leaves, safe_file_bytes, safe_json,
  optional_json, write_json_once,
}
use hermes_codex_bridge.UiActionStore.Checks.{
  exact_fields, test_item, test_json, valid_timestamp, validate_action, validate_claim, is_past,
}
use hermes_codex_bridge.UiActionStore.Load.{
  checked_action, checked_reply, load, valid_claim, terminal_exists,
}
use hermes_codex_bridge.UiActionStore.Methods.{
  Claimed, not_terminal, not_expired, take_over, clear_claim, random, write_claim, claim_in_time,
  claim_open, claim_context, claim,
}
use hermes_codex_bridge.UiActionStore.Exclusive.{IsLeased, claim-exclusive}
use hermes_codex_bridge.UiActionStore.Tests.{waiting, event_id}

-- times as texts of bits, the lowest one first
add_bit : Bool → String → String
add_bit true s = String.◌∷◌ "0" s
add_bit false s = String.◌∷◌ "1" s

-- a number's bits are needed while it is not zero
to_bits : ℕ → ℕ → String
to_bits zero n = ""
to_bits (suc fuel) zero = ""
to_bits (suc fuel) (suc n) = add_bit (suc n % 2 == 0) (to_bits fuel (suc n / 2))

from_bits : String → ℕ
from_bits String.[] = 0
from_bits (String.◌∷◌ c s) = (code c - 48) + 2 * from_bits s

from_bits-add_bit :
    (b : Bool) (s : String)
    → from_bits (add_bit b s) ≡ (elim b [ true ↦ 0 | false ↦ 1 ]) + 2 * from_bits s
unfolding from_bits add_bit
from_bits-add_bit true s = refl
from_bits-add_bit false s = refl

from_bits-to_bits : (fuel n : ℕ) → n ≤ fuel → from_bits (to_bits fuel n) ≡ n
unfolding to_bits from_bits
from_bits-to_bits zero zero h = refl
from_bits-to_bits zero (suc n) h = absurd (omega (arith, h))
from_bits-to_bits (suc fuel) zero h = refl
from_bits-to_bits (suc fuel) (suc n) h =
    from_bits-add_bit (suc n % 2 == 0) (to_bits fuel (suc n / 2))
    ∙ half n (from_bits (to_bits fuel (suc n / 2)))
        (from_bits-to_bits fuel (suc n / 2) (omega (arith, h)))
  where
    half :
        (n k : ℕ) → k ≡ suc n / 2 → (elim (suc n % 2 == 0) [ true ↦ 0 | false ↦ 1 ]) + 2 * k ≡ suc n
    half n k e = elim (Bool-cases (suc n % 2 == 0)) [
      | inl b ↦ rw b (ground (arith, b, e))
      | inr b ↦ rw b (ground (arith, b, e))
    ]

abbrev iso : ℕ → String
iso n = to_bits (suc n) n

abbrev date_parse : String → Option ℕ
date_parse s = some (from_bits s)

abbrev granted : String → Claimed
granted lease_id = record {
  thread_id = "thread";
  source_turn_id = "turn";
  action_created_at = "2026-01-01T01:00:01Z";
  lease_id = lease_id;
  marker = String.◌++◌ "<!-- HC3_UI_EVENT:" (String.◌++◌ event_id " -->");
  text = "yes";
  prompt = String.◌++◌ (String.◌++◌ "<!-- HC3_UI_EVENT:" (String.◌++◌ event_id " -->")) "\nyes";
}

abbrev first : World Json
first =
    (claim (sample 500) str date_parse (λ _. false) iso (λ _. 900) (λ _. "first") event_id
      waiting).1

claims_first :
    (claim
      (sample 500)
      str
      date_parse
      (λ _. false)
      iso
      (λ _. 900)
      (λ _. "first")
      event_id
      waiting).0
    ≡ ok (granted "first")
unfolding claim claim_context claim_open claim_in_time write_claim clear_claim take_over
    not_terminal not_expired random terminal_exists optional_json write_json_once leaves_of
    set_leaves is_past is_safe_identifier lookup insert load interaction_directory safe_json
    safe_file_bytes decode_event decode_reply validate_event validate_reply asserts has_own_fields
    string_is is_event_id is_rfc3339 exec_rfc3339 in_range days_in_month at text_at is_sha256 get
    is_reply_mode is_message is_thread has_allowed_actions event_of reply_of is_blank checked_reply
    checked_action validate_action exact_fields test_json test_item valid_timestamp valid_claim
    validate_claim remove_leaf remove to_bits from_bits add_bit
claims_first = refl

claims_later :
    (claim
      (sample 500)
      str
      date_parse
      (λ _. false)
      iso
      (λ _. 200000)
      (λ _. "later")
      event_id
      first).0
    ≡ ok (granted "later")
unfolding claim claim_context claim_open claim_in_time write_claim clear_claim take_over
    not_terminal not_expired random terminal_exists optional_json write_json_once leaves_of
    set_leaves is_past is_safe_identifier lookup insert load interaction_directory safe_json
    safe_file_bytes decode_event decode_reply validate_event validate_reply asserts has_own_fields
    string_is is_event_id is_rfc3339 exec_rfc3339 in_range days_in_month at text_at is_sha256 get
    is_reply_mode is_message is_thread has_allowed_actions event_of reply_of is_blank checked_reply
    checked_action validate_action exact_fields test_json test_item valid_timestamp valid_claim
    validate_claim remove_leaf remove to_bits from_bits add_bit Json-discrete Bool-cases
claims_later = refl

claim-exclusive_example :
    (n : ℕ) × (m : ℕ) × IsLeased
      (sample 500)
      str
      date_parse
      (λ _. false)
      iso
      (λ _. 900)
      (λ _. "first")
      event_id
      waiting
      (granted "first")
      n
    × IsLeased
        (sample 500)
        str
        date_parse
        (λ _. false)
        iso
        (λ _. 200000)
        (λ _. "later")
        event_id
        first
        (granted "later")
        m
    × (900 + 120000 < 200000)
claim-exclusive_example =
    claim-exclusive (sample 500) (sample-IsFaithful 500) str date_parse (λ _. false) (λ _. false)
      iso (λ _. 900) (λ _. 200000) (λ _. "first") (λ _. "later") event_id waiting (granted "first")
      (granted "later") (λ n. ap (λ k. some k) (from_bits-to_bits (suc n) n (omega arith)))
      claims_first claims_later
