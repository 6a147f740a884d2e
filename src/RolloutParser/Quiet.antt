-- ===== src/RolloutParser/Quiet.antt =====
-- Whose messages bridge/src/rollout-parser.mjs leaves out.
use hermes_codex_bridge.Base.{
  ℕ, String, ◌≡◌, ◌⊎◌, refl, ap, inl, inr, Bool, true, false, ◌&&◌, Bool-cases, Option, none, some,
  List, [], ◌∷◌, if◌then◌else◌, Result, ok, err, ◌>>=◌, ◌∙◌, leb, length, arith,
}
use hermes_codex_bridge.Base.Json.{Json, is_object}
use hermes_codex_bridge.Base.Strings.{is_empty}
use hermes_codex_bridge.RolloutParser.Stream.{Progress, append_unique, take_record, take_records}
use hermes_codex_bridge.RolloutParser.Final.{Code, record_too_large, utf8, Message, Context}
use hermes_codex_bridge.RolloutParser.Records.{
  Input, text, bytes, without_return, field_is, has_payload, session_context, parse_object,
  parse_text, parse,
}

-- no message, from a subagent's session that goes on as one
IsQuiet : Result Code (List Message) × Context → Type 0
IsQuiet (out, context) =
    (context.is_subagent ≡ true) × ((out ≡ ok []) ⊎ ((e : Code) × (out ≡ err e)))

module _ (byte_length : String → ℕ) (sha256 : String → String) (suppressed : String → Bool)
    (json_parse : String → Option Json) (decode : List ℕ → Option String) where
  parse_object-IsQuiet :
      (v : Json) (record_text : String) (c : Context)
      → c.is_subagent ≡ true
      → IsQuiet (parse_object byte_length sha256 suppressed v record_text c)
  unfolding parse_object session_context IsQuiet
  parse_object-IsQuiet v record_text c h =
      elim (Bool-cases (field_is "type" "session_meta" v && has_payload v)) [
        | inl e ↦ rw (e, h) (refl, inl refl)
        | inr e ↦ elim (Bool-cases (field_is "type" "turn_context" v && has_payload v)) [
          | inl k ↦ rw (e, k, h) (refl, inl refl)
          | inr k ↦ rw (e, k, h) (refl, inl refl)
        ]
      ]

  parse_text-IsQuiet :
      (raw : String) (c : Context)
      → c.is_subagent ≡ true
      → IsQuiet (parse_text byte_length sha256 suppressed json_parse decode raw c)
  unfolding parse_text IsQuiet
  parse_text-IsQuiet raw c h = elim (Bool-cases (is_empty (without_return raw))) [
    | inl e ↦ rw e (h, inl refl)
    | inr e ↦ rw e (go (json_parse (without_return raw)))
  ]
    where
      go :
          (o : Option Json)
          → IsQuiet (elim o [
            | none ↦ (ok [], c)
            | some v ↦
                if is_object v
                then parse_object byte_length sha256 suppressed v (without_return raw) c
                else (ok [], c)
          ])
      go none = (h, inl refl)
      go (some v) = elim (Bool-cases (is_object v)) [
        | inl e ↦ rw e (parse_object-IsQuiet v (without_return raw) c h)
        | inr e ↦ rw e (h, inl refl)
      ]

  parse-IsQuiet :
      (input : Input) (c : Context)
      → c.is_subagent ≡ true
      → IsQuiet (parse byte_length sha256 suppressed json_parse decode input c)
  unfolding parse IsQuiet
  parse-IsQuiet (text s) c h = elim (Bool-cases (leb (byte_length s) 2097152)) [
    | inl e ↦ rw e (parse_text-IsQuiet s c h)
    | inr e ↦ rw e (h, inr (record_too_large, refl))
  ]
  parse-IsQuiet (bytes bs) c h = elim (Bool-cases (leb (length bs) 2097152)) [
    | inl e ↦ rw e (go (decode bs))
    | inr e ↦ rw e (h, inr (record_too_large, refl))
  ]
    where
      go :
          (o : Option String)
          → IsQuiet (elim o [
            | none ↦ (err utf8, c)
            | some s ↦ parse_text byte_length sha256 suppressed json_parse decode s c
          ])
      go none = (h, inr (utf8, refl))
      go (some s) = parse_text-IsQuiet s c h

-- an error, or a subagent's session still, and nothing new
abbrev pub AddsNothing : Progress → Result Code Progress → Type 0
AddsNothing p out =
    ((q : Progress) × (out ≡ ok q) × (q.messages ≡ p.messages) × (q.context.is_subagent ≡ true))
    ⊎ ((e : Code) × (out ≡ err e))

module _ (byte_length : String → ℕ) (sha256 : String → String) (json_parse : String → Option Json)
    (decode : List ℕ → Option String) where
  take_record-quiet :
      (input : Input) (p : Progress)
      → p.context.is_subagent ≡ true
      → AddsNothing p (take_record byte_length sha256 json_parse decode input p)
  unfolding take_record append_unique IsQuiet
  take_record-quiet input p h =
      go (parse byte_length sha256 (λ _. false) json_parse decode input p.context)
        (parse-IsQuiet byte_length sha256 (λ _. false) json_parse decode input p.context h)
    where
      go :
          (out : Result Code (List Message) × Context)
          → IsQuiet out
          → AddsNothing p (elim out.0 [
            | err e ↦ err e
            | ok parsed ↦
                ok (record { context = out.1; messages = append_unique p.messages parsed })
          ])
      go (ok [], c) (sub, k) = inl (record { context = c; messages = p.messages }, refl, refl, sub)
      go (ok (m ∷ ms), c) (sub, k) = absurd (ground arith)
      go (err e, c) (sub, k) = inr (e, refl)

  -- in a subagent's session, records add no message
  pub take_records-quiet :
      (inputs : List Input) (p : Progress)
      → p.context.is_subagent ≡ true
      → AddsNothing p (take_records byte_length sha256 json_parse decode inputs p)
  unfolding take_records
  take_records-quiet [] p h = inl (p, refl, refl, h)
  take_records-quiet (input ∷ inputs) p h = elim (take_record-quiet input p h) [
    | inr (e, k) ↦
        inr (e, ap (λ m. m >>= take_records byte_length sha256 json_parse decode inputs) k)
    | inl (q, k, same, sub) ↦ elim (take_records-quiet inputs q sub) [
      | inr (e, l) ↦
          inr (e, ap (λ m. m >>= take_records byte_length sha256 json_parse decode inputs) k ∙ l)
      | inl (q', l, same', sub') ↦ inl (
        q',
        ap (λ m. m >>= take_records byte_length sha256 json_parse decode inputs) k ∙ l,
        same' ∙ same,
        sub',
      )
    ]
  ]
