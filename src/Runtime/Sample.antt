-- ===== src/Runtime/Sample.antt =====
-- A runtime to run the code with: a document is the value itself, and every hash is the same.
use native.Mathlib.Decide.{ℕ_discrete}
use hermes_codex_bridge.Base.{
  ℕ, String, ◌≡◌, ◌↔◌, inl, inr, Bool, true, false, false≢true, some, refl, str_eq, eq_iff,
  Bool-cases, if◌then◌else◌, ◌∙◌, sym,
}
use hermes_codex_bridge.Base.Json.{Json, has_own}
use hermes_codex_bridge.Runtime.{Runtime, IsFaithful}

abbrev String-discrete : Discrete String
String-discrete s t = elim (Bool-cases (str_eq s t)) [
  | inl h ↦ yes ((eq_iff s t).0 h)
  | inr h ↦ no λ e. false≢true (sym h ∙ (eq_iff s t).1 e)
]

unfoldable pub Json-discrete : Discrete Json
Json-discrete = hlevel (ℕ_discrete, String-discrete)

abbrev pub same_json : Json → Json → Bool
same_json a b = elim (Json-discrete a b) [ yes _ ↦ true | no _ ↦ false ]

same_json_iff : (a b : Json) → (same_json a b ≡ true) ↔ (a ≡ b)
same_json_iff a b =
    elim (Json-discrete a b) as (λ d. (elim d [ yes _ ↦ true | no _ ↦ false ] ≡ true) ↔ (a ≡ b)) [
      | yes e ↦ (λ _. e, λ _. refl)
      | no n ↦ (λ h. absurd (false≢true h), λ e. absurd (n e))
    ]

-- sixty-four zeros
abbrev pub zeros : String
zeros = "0000000000000000000000000000000000000000000000000000000000000000"

-- A stored record counts for `record_bytes` bytes, and any other value for ten.
abbrev pub sample : ℕ → Runtime
sample record_bytes = record {
  Document = Json;
  stringify = λ v. v;
  pretty = λ v. v;
  parse = λ d. some d;
  same = same_json;
  byte_length = λ d. if has_own "contentHash" d then record_bytes else 10;
  sha256 = λ _. zeros;
}

pub sample-IsFaithful : (record_bytes : ℕ) → IsFaithful (sample record_bytes)
sample-IsFaithful n = record {
  same_iff = same_json_iff;
  parse-stringify = λ v. refl;
  parse-pretty = λ v. refl;
}
