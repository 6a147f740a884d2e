-- ===== src/RolloutParser/Subagent.antt =====
-- Which records tell bridge/src/rollout-parser.mjs that a rollout is a subagent's.
use hermes_codex_bridge.Base.{
  ℕ, String, ◌≡◌, ◌≢◌, ◌≤◌, ◌⊎◌, refl, inl, inr, Bool, true, false, Option, some, List, [], ◌∷◌, ok,
  arith, leb_iff, length, eq_iff,
}
use hermes_codex_bridge.Base.Json.{Json, Fields, str, obj, get, at, string_is, is_some, is_object}
use hermes_codex_bridge.Base.Strings.{is_empty}
use hermes_codex_bridge.FinalIdentity.{explicit}
use hermes_codex_bridge.RolloutParser.Final.{Context, explicit_string}
use hermes_codex_bridge.RolloutParser.Stream.{Progress, append_unique, take_record, take_records}
use hermes_codex_bridge.RolloutParser.Records.{
  Input, text, bytes, without_return, session_context, parse_object, parse_text, parse,
}
use hermes_codex_bridge.RolloutParser.Quiet.{AddsNothing, take_records-quiet}

-- a text of this key that is not empty
abbrev HasText : String → Json → Type 0
HasText k v = (s : String) × (get k v ≡ some (str s)) × (s ≢ "")

-- A session record whose payload names a parent thread or the role of an agent, or whose source has
-- a field for a subagent.
pub record ShowsSubagent (v : Json) : Type 0 where
  pub is_session : get "type" v ≡ some (str "session_meta")
  pub fields : Fields
  pub has_payload : get "payload" v ≡ some (obj fields)
  pub shows :
      HasText "parent_thread_id" (obj fields)
      ⊎ HasText "agent_role" (obj fields)
      ⊎ ((source x : Json) × (get "source" (obj fields) ≡ some source)
          × (get "subagent" source ≡ some x))

explicit_string-some :
    (k : String) (v : Json) → HasText k v → is_some (explicit_string (get k v)) ≡ true
unfolding explicit
explicit_string-some k v (s, e, filled) = ground (arith, eq_iff s "")

filled-is_empty : (s : String) → s ≢ "" → is_empty s ≡ false
filled-is_empty s h = ground arith

field-is_object : (k : String) (v x : Json) → get k v ≡ some x → is_object v ≡ true
unfolding get
field-is_object k v x h = ground arith

module _ (byte_length : String → ℕ) (sha256 : String → String) (suppressed : String → Bool) where
  session_context-subagent :
      (v : Json) (c : Context)
      → ShowsSubagent v
      → (session_context byte_length sha256 suppressed v c).is_subagent ≡ true
  unfolding session_context at
  session_context-subagent v c h =
      let payload = h.has_payload in
      elim h.shows [
        | inl parent ↦
            let found = explicit_string-some "parent_thread_id" (obj h.fields) parent in
            ground arith
        | inr (inl role) ↦
            let found = explicit_string-some "agent_role" (obj h.fields) role in ground arith
        | inr (inr (source, x, e, k)) ↦ ground arith
      ]

  parse_object-session :
      (v : Json) (record_text : String) (c : Context)
      → ShowsSubagent v
      → parse_object byte_length sha256 suppressed v record_text c
        ≡ (ok [], session_context byte_length sha256 suppressed v c)
  unfolding parse_object at string_is
  parse_object-session v record_text c h =
      let payload = h.has_payload in let kind = h.is_session in rw (kind, payload) refl

  module _ (json_parse : String → Option Json) (decode : List ℕ → Option String) where
    -- the input is within the limit, and its text is `s`
    abbrev pub IsText : Input → String → Type 0
    IsText (text t) s = (t ≡ s) × (byte_length t ≤ 2097152)
    IsText (bytes bs) s = (decode bs ≡ some s) × (length bs ≤ 2097152)

    parse_text-session :
        (s : String) (v : Json) (c : Context)
        → without_return s ≢ ""
        → json_parse (without_return s) ≡ some v
        → ShowsSubagent v
        → parse_text byte_length sha256 suppressed json_parse decode s c
          ≡ (ok [], session_context byte_length sha256 suppressed v c)
    unfolding parse_text
    parse_text-session s v c filled e h =
        rw
          (
            filled-is_empty (without_return s) filled,
            e,
            field-is_object "payload" v (obj h.fields) h.has_payload,
          )
          (parse_object-session v (without_return s) c h)

    parse-session :
        (input : Input) (s : String) (v : Json) (c : Context)
        → IsText input s
        → without_return s ≢ ""
        → json_parse (without_return s) ≡ some v
        → ShowsSubagent v
        → parse byte_length sha256 suppressed json_parse decode input c
          ≡ (ok [], session_context byte_length sha256 suppressed v c)
    unfolding parse
    parse-session (text t) s v c (same, short) filled e h =
        let inner = parse_text-session s v c filled e h in
        ground (arith, leb_iff (byte_length t) 2097152)
    parse-session (bytes bs) s v c (same, short) filled e h =
        let inner = parse_text-session s v c filled e h in
        ground (arith, leb_iff (length bs) 2097152)

module _ (byte_length : String → ℕ) (sha256 : String → String) (json_parse : String → Option Json)
    (decode : List ℕ → Option String) where
  take_record-session :
      (input : Input) (s : String) (v : Json) (p : Progress)
      → IsText byte_length sha256 (λ _. false) json_parse decode input s
      → without_return s ≢ ""
      → json_parse (without_return s) ≡ some v
      → ShowsSubagent v
      → take_record byte_length sha256 json_parse decode input p
        ≡ ok (record {
          context = session_context byte_length sha256 (λ _. false) v p.context;
          messages = p.messages;
        })
  unfolding take_record append_unique
  take_record-session input s v p same filled e h =
      let parsed =
        parse-session byte_length sha256 (λ _. false) json_parse decode input s v p.context same
          filled e h in
      ground arith

  -- A record within the size limit whose text is the JSON of a session's metadata that name a parent
  -- thread, the role of an agent or a subagent as the source ends the messages of the file: neither
  -- this record nor any behind it adds one, whatever was read before. Each is passed over, or ends
  -- the reading with an error.
  pub take_records-subagent :
      (input : Input) (s : String) (v : Json) (inputs : List Input) (p : Progress)
      → IsText byte_length sha256 (λ _. false) json_parse decode input s
      → without_return s ≢ ""
      → json_parse (without_return s) ≡ some v
      → ShowsSubagent v
      → AddsNothing p (take_records byte_length sha256 json_parse decode (input ∷ inputs) p)
  unfolding take_records
  take_records-subagent input s v inputs p same filled e h =
      rw (take_record-session input s v p same filled e h) (
        take_records-quiet byte_length sha256 json_parse decode inputs
          (record {
            context = session_context byte_length sha256 (λ _. false) v p.context;
            messages = p.messages;
          })
          (session_context-subagent byte_length sha256 (λ _. false) v p.context h))
