-- ===== src/Contracts/Answered.antt =====
-- What a caller may rely on of a reply that `validateReply` of bridge/src/contracts.mjs accepts.
use hermes_codex_bridge.Base.{
  String, ◌≡◌, ◌⊎◌, ◌∙◌, ap, inl, inr, refl, true, Option, none, some, ok, eq_iff, asserts-eq-ok,
  subst, bind-eq-ok, ok-injective, arith,
}
use hermes_codex_bridge.Base.Text.{is_event_id}
use hermes_codex_bridge.Base.Json.{
  Json, null, bool, natural, other_number, str, arr, obj, get, at, as_string, has_own_fields,
  string_is-true, text_at,
}
use hermes_codex_bridge.Contracts.Timestamp.{is_rfc3339}
use hermes_codex_bridge.Contracts.Shape.{
  Event, Reply, parse_action, is_null_or_string, reply_fields, validate_event, validate_reply,
  event_of, reply_of, decode_event, decode_reply,
}
use hermes_codex_bridge.Contracts.Accepted.{IsEventOf, accepted_event, action-names, has_own-at}

-- `null` is no text, and a string is the text
abbrev IsTextOf : Json → Option String → Type 0
IsTextOf v text = ((v ≡ null) × (text ≡ none)) ⊎ ((s : String) × (v ≡ str s) × (text ≡ some s))

-- `a` is what the record `v` says, field by field.
pub record IsReplyOf (v : Json) (a : Reply) : Type 0 where
  pub schema : get "schema" v ≡ some (str "hermes-codex-interaction-reply/v3")
  pub event_id : (get "event_id" v ≡ some (str a.event_id)) × (is_event_id a.event_id ≡ true)
  pub created_at : (get "created_at" v ≡ some (str a.created_at)) × (is_rfc3339 a.created_at ≡ true)
  pub action : (s : String) × (get "action" v ≡ some (str s)) × (parse_action s ≡ some a.action)
  pub text : (t : Json) × (get "text" v ≡ some t) × IsTextOf t a.text

null_or_string-IsTextOf : (v : Json) → is_null_or_string v ≡ true → IsTextOf v (as_string (some v))
null_or_string-IsTextOf null h = inl (refl, refl)
null_or_string-IsTextOf (str s) h = inr (s, refl, refl)
null_or_string-IsTextOf (bool b) h = cc
null_or_string-IsTextOf (natural n) h = cc
null_or_string-IsTextOf (other_number n) h = cc
null_or_string-IsTextOf (arr vs) h = cc
null_or_string-IsTextOf (obj fs) h = cc

has_text : (v : Json) → has_own_fields reply_fields v ≡ true → get "text" v ≡ some (at "text" v)
unfolding has_own_fields
has_text v h = has_own-at "text" v (ground arith)

pub accepted_reply : (v : Json) → validate_reply v ≡ ok tt → IsReplyOf v (reply_of v)
unfolding validate_reply reply_of
accepted_reply v h =
    let p = asserts-eq-ok _ h in
    let (schema, named) = string_is-true _ "schema" v p.1.0 in
    let (action, member) = string_is-true _ "action" v p.1.1.1.1.0 in
    let text = has_text v p.0 in
    record {
      schema = schema ∙ ap (λ s. some (str s)) ((eq_iff _ _).0 named);
      event_id = string_is-true is_event_id "event_id" v p.1.1.0;
      created_at = string_is-true is_rfc3339 "created_at" v p.1.1.1.0;
      action = (text_at "action" v, action, action-names (text_at "action" v) member);
      text = (at "text" v, text, rw text (null_or_string-IsTextOf (at "text" v) p.1.1.1.1.1.0));
    }

pub decode_event-IsEventOf : (v : Json) (e : Event) → decode_event v ≡ ok e → IsEventOf v e
unfolding decode_event
decode_event-IsEventOf v e h =
    let (_, valid, same) = bind-eq-ok (validate_event v) (λ _. ok (event_of v)) h in
    subst (IsEventOf v) (ok-injective same) (accepted_event v valid)

pub decode_reply-IsReplyOf : (v : Json) (a : Reply) → decode_reply v ≡ ok a → IsReplyOf v a
unfolding decode_reply
decode_reply-IsReplyOf v a h =
    let (_, valid, same) = bind-eq-ok (validate_reply v) (λ _. ok (reply_of v)) h in
    subst (IsReplyOf v) (ok-injective same) (accepted_reply v valid)

pub decode_event_valid : (v : Json) (e : Event) → decode_event v ≡ ok e → validate_event v ≡ ok tt
unfolding decode_event
decode_event_valid v e h = (bind-eq-ok (validate_event v) (λ _. ok (event_of v)) h).1

pub decode_reply_valid : (v : Json) (a : Reply) → decode_reply v ≡ ok a → validate_reply v ≡ ok tt
unfolding decode_reply
decode_reply_valid v a h = (bind-eq-ok (validate_reply v) (λ _. ok (reply_of v)) h).1
