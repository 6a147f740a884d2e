-- ===== src/RolloutParser/Keys.antt =====
-- The keys of the messages that bridge/src/rollout-parser.mjs returns.
use hermes_codex_bridge.Base.{
  ℕ, String, ◌≡◌, refl, sym, subst, inl, inr, false, Bool-cases, Option, List, [], ◌∷◌, ◌++◌,
  str_eq, eq_iff, Result, ok, err, bind-eq-ok, ok-injective, arith,
}
use hermes_codex_bridge.Base.Json.{Json}
use hermes_codex_bridge.RolloutParser.Final.{Code, Message, origin, Context}
use hermes_codex_bridge.RolloutParser.Records.{Input, parse}
use hermes_codex_bridge.RolloutParser.Stream.{
  has_key, append_unique, Progress, start, take_record, take_records,
  parse_complete_record_iterable,
}

-- no two messages have the same key
abbrev pub AreDistinct : List Message → Type 0
AreDistinct [] = Unit
AreDistinct (m ∷ ms) = (has_key (origin m).dedupe_key ms ≡ false) × AreDistinct ms

str_eq_sym : (s t : String) → str_eq s t ≡ false → str_eq t s ≡ false
str_eq_sym s t h = elim (Bool-cases (str_eq t s)) [
  | inr e ↦ e
  | inl e ↦ absurd (ground (arith, h, (eq_iff s t).1 (sym ((eq_iff t s).0 e))))
]

has_key-append :
    (key : String) (ms : List Message) (m : Message)
    → has_key key ms ≡ false
    → str_eq (origin m).dedupe_key key ≡ false
    → has_key key (ms ++ (m ∷ [])) ≡ false
has_key-append key [] m h k = rw k refl
has_key-append key (x ∷ ms) m h k = elim (Bool-cases (str_eq (origin x).dedupe_key key)) [
  | inl e ↦ absurd (ground arith)
  | inr e ↦ rw e (has_key-append key ms m (ground arith) k)
]

AreDistinct-append :
    (ms : List Message) (m : Message)
    → AreDistinct ms
    → has_key (origin m).dedupe_key ms ≡ false
    → AreDistinct (ms ++ (m ∷ []))
AreDistinct-append [] m h k = (refl, tt)
AreDistinct-append (x ∷ ms) m (hx, h) k =
    elim (Bool-cases (str_eq (origin x).dedupe_key (origin m).dedupe_key)) [
      | inl e ↦ absurd (ground arith)
      | inr e ↦ (
        has_key-append (origin x).dedupe_key ms m hx (str_eq_sym _ _ e),
        AreDistinct-append ms m h (ground arith),
      )
    ]

append_unique-AreDistinct :
    (ms parsed : List Message) → AreDistinct ms → AreDistinct (append_unique ms parsed)
unfolding append_unique
append_unique-AreDistinct ms [] h = h
append_unique-AreDistinct ms (m ∷ parsed) h = elim (Bool-cases (has_key (origin m).dedupe_key ms)) [
  | inl e ↦ rw e (append_unique-AreDistinct ms parsed h)
  | inr e ↦ rw e (append_unique-AreDistinct (ms ++ (m ∷ [])) parsed (AreDistinct-append ms m h e))
]

module _ (byte_length : String → ℕ) (sha256 : String → String) (json_parse : String → Option Json)
    (decode : List ℕ → Option String) where
  take_record-AreDistinct :
      (input : Input) (p q : Progress)
      → AreDistinct p.messages
      → take_record byte_length sha256 json_parse decode input p ≡ ok q
      → AreDistinct q.messages
  unfolding take_record
  take_record-AreDistinct input p q h =
      go (parse byte_length sha256 (λ _. false) json_parse decode input p.context)
    where
      go :
          (out : Result Code (List Message) × Context)
          → (elim out.0 as (λ _. Result Code Progress) [
            | err e ↦ err e
            | ok parsed ↦
                ok (record { context = out.1; messages = append_unique p.messages parsed })
          ])
            ≡ ok q
          → AreDistinct q.messages
      go (err e, c) k = absurd (ground arith)
      go (ok parsed, c) k =
          subst (λ r. AreDistinct r.messages) (ok-injective k)
            (append_unique-AreDistinct p.messages parsed h)

  take_records-AreDistinct :
      (inputs : List Input) (p q : Progress)
      → AreDistinct p.messages
      → take_records byte_length sha256 json_parse decode inputs p ≡ ok q
      → AreDistinct q.messages
  unfolding take_records
  take_records-AreDistinct [] p q h k = subst (λ r. AreDistinct r.messages) (ok-injective k) h
  take_records-AreDistinct (input ∷ inputs) p q h k =
      let (p', e, l) =
        bind-eq-ok (take_record byte_length sha256 json_parse decode input p)
          (take_records byte_length sha256 json_parse decode inputs) k in
      take_records-AreDistinct inputs p' q (take_record-AreDistinct input p p' h e) l

  -- The messages of a sequence of records have pairwise different keys.
  pub parse_complete_record_iterable-AreDistinct :
      (inputs : List Input) (messages : List Message)
      → parse_complete_record_iterable byte_length sha256 json_parse decode inputs ≡ ok messages
      → AreDistinct messages
  unfolding parse_complete_record_iterable
  parse_complete_record_iterable-AreDistinct inputs messages h =
      let (q, e, k) =
        bind-eq-ok (take_records byte_length sha256 json_parse decode inputs start)
          (λ p. ok p.messages) h in
      subst AreDistinct (ok-injective k) (take_records-AreDistinct inputs start q tt e)
