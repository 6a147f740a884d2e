-- ===== src/FinalIdentity.antt =====
-- bridge/src/final-identity.mjs: the names of a final message and of an event.
use Prim.Native.Char.{Char, code}
use Prim.Native.String
use hermes_codex_bridge.Base.{
  ℕ, ◌+◌, ◌-◌, ◌%◌, ◌==◌, String, Bool, true, false, Option, none, some, List, [], ◌∷◌,
  if◌then◌else◌,
}
use hermes_codex_bridge.Base.Text.{is_digit, is_hex}
use hermes_codex_bridge.Base.Strings.{is_empty, take_chars, drop_chars, change_char, join}
pub mod Shape
mod Tests

-- `explicit`, also `explicitString` of bridge/src/rollout-parser.mjs on a text
unfoldable pub explicit : Option String → Option String
explicit none = none
explicit (some s) = if is_empty s then none else some s

abbrev identity_of : Option String → Option String → Option String → Option String
identity_of (some thread) (some turn) (some item) =
    some (join "" ("codex:" ∷ thread ∷ ":" ∷ turn ∷ ":" ∷ item ∷ ":FINAL_RESPONSE" ∷ []))
identity_of _ _ _ = none

unfoldable pub canonical_final_identity :
    Option String → Option String → Option String → Option String
unfolding explicit
canonical_final_identity thread_id turn_id item_id =
    identity_of (explicit thread_id) (explicit turn_id) (explicit item_id)

-- `Number.parseInt(digit, 16)`; no digit is NaN, which `&` takes for 0
abbrev pub parse_hex : ℕ → ℕ
parse_hex c = if is_digit c then c - b'0' else if is_hex c then c - b'a' + 10 else 0

-- `(8 + (Number.parseInt(digit, 16) & 3)).toString(16)`
abbrev pub hex_digit : Bool → Bool → Bool → Char
hex_digit true _ _ = "8"
hex_digit false true _ = "9"
hex_digit false false true = "a"
hex_digit false false false = "b"

abbrev pub variant : Char → Char
variant c = let n = parse_hex (code c) % 4 in hex_digit (n == 0) (n == 1) (n == 2)

-- the 32 digits, with the version and the variant set
abbrev pub uuid_digits : String → String
uuid_digits digest = change_char variant 16 (change_char (λ _. "5") 12 (take_chars 32 digest))

module _ (sha256 : String → String) where
  unfoldable pub create_deterministic_event_id : String → String
  create_deterministic_event_id identity =
      let uuid = uuid_digits (sha256 identity) in
      String.◌++◌ "evt_" (
        String.◌++◌ (take_chars 8 uuid) (
          String.◌++◌ "-" (
            String.◌++◌ (take_chars 4 (drop_chars 8 uuid)) (
              String.◌++◌ "-" (
                String.◌++◌ (take_chars 4 (drop_chars 12 uuid)) (
                  String.◌++◌ "-" (
                    String.◌++◌ (take_chars 4 (drop_chars 16 uuid))
                      (String.◌++◌ "-" (drop_chars 20 uuid)))))))))
