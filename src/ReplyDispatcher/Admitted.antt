-- ===== src/ReplyDispatcher/Admitted.antt =====
-- When `processDirectory` of bridge/src/reply-dispatcher.mjs may hand a reply over, said without its
-- code.
use mathlib.Core.List.{Mem, Memᴰ}
use mathlib.Core.Logic.{∥∥₁_map}
use hermes_codex_bridge.Base.{
  ℕ, ◌+◌, String, ◌≡◌, ◌≢◌, ◌≤◌, ◌⊎◌, inl, inr, refl, true, false, List, [], ◌∷◌, any, ok, arith,
  eq_iff, Result-cases, Bool-cases,
}
use hermes_codex_bridge.Base.Json.{Json, null, bool, natural, other_number, str, arr, obj}
use hermes_codex_bridge.Runtime.{Runtime}
use hermes_codex_bridge.Contracts.Shape.{
  Event, Reply, EventKind, question, error, final_response, task_completed, approval_request,
  ReplyAction, reply, approve_once, decline, decode_event, decode_reply, validate_event,
  validate_reply,
}
use hermes_codex_bridge.Contracts.Accepted.{IsEventOf}
use hermes_codex_bridge.Contracts.Answered.{
  IsReplyOf, decode_event-IsEventOf, decode_reply-IsReplyOf, decode_event_valid, decode_reply_valid,
}
use hermes_codex_bridge.ReplyDispatcher.Process.{Folder, json, same_action, ttl}
use hermes_codex_bridge.ReplyDispatcher.Readable.{HasFile, HasJson, safe_file-HasFile, json-HasJson}
use hermes_codex_bridge.ReplyDispatcher.Handle.{payload, read_pair, is_expired}

-- twelve hours for an approval request, and seven days for anything else
abbrev IsTtl : EventKind → ℕ → Type 0
IsTtl kind n =
    ((kind ≡ approval_request) × (n ≡ 43200000)) ⊎ ((kind ≢ approval_request) × (n ≡ 604800000))

-- Neither the clock `t` nor the time of the reply is past the event's declared end or its time to
-- live, and the reply is not older than the event.
pub record IsInTime (date_parse : String → ℕ) (e : Event) (a : Reply) (t : ℕ) : Type 0 where
  pub lifetime : ℕ
  pub is_ttl : IsTtl e.kind lifetime
  pub clock_declared : t ≤ date_parse e.expires_at
  pub clock_lived : t ≤ date_parse e.created_at + lifetime
  pub reply_declared : date_parse a.created_at ≤ date_parse e.expires_at
  pub reply_lived : date_parse a.created_at ≤ date_parse e.created_at + lifetime
  pub reply_later : date_parse e.created_at ≤ date_parse a.created_at

ttl-IsTtl : (kind : EventKind) → IsTtl kind (ttl kind)
ttl-IsTtl approval_request = inl (refl, refl)
ttl-IsTtl question = inr (λ h. absurd (ground arith), refl)
ttl-IsTtl error = inr (λ h. absurd (ground arith), refl)
ttl-IsTtl final_response = inr (λ h. absurd (ground arith), refl)
ttl-IsTtl task_completed = inr (λ h. absurd (ground arith), refl)

pub is_expired-IsInTime :
    (date_parse : String → ℕ) (e : Event) (a : Reply) (t : ℕ)
    → is_expired date_parse e a t ≡ false
    → IsInTime date_parse e a t
unfolding is_expired
is_expired-IsInTime date_parse e a t h = record {
  lifetime = ttl e.kind;
  is_ttl = ttl-IsTtl e.kind;
  clock_declared = ground arith;
  clock_lived = ground arith;
  reply_declared = ground arith;
  reply_lived = ground arith;
  reply_later = ground arith;
}

same_action-eq : (a b : ReplyAction) → same_action a b ≡ true → a ≡ b
same_action-eq reply reply h = refl
same_action-eq approve_once approve_once h = refl
same_action-eq decline decline h = refl
same_action-eq reply approve_once h = cc
same_action-eq reply decline h = cc
same_action-eq approve_once reply h = cc
same_action-eq approve_once decline h = cc
same_action-eq decline reply h = cc
same_action-eq decline approve_once h = cc

pub any-Mem :
    (a : ReplyAction) (as' : List ReplyAction) → any (same_action a) as' ≡ true → Mem a as'
any-Mem a [] h = cc
any-Mem a (b ∷ bs) h = elim (Bool-cases (same_action a b)) [
  | inl e ↦ ∣ Memᴰ.head (same_action-eq a b e) ∣₁
  | inr e ↦ ∥∥₁_map (any-Mem a bs (ground arith)) (λ d. Memᴰ.tail d)
]

module _ (r : Runtime) (plain : String → r.Document) where
  open r use {Document, sha256}

  -- the content of an event: its summary, or the file that it names, of at most 16 mebibytes
  abbrev HasContent : Event → Folder Document → Document → Type 0
  HasContent e f content =
      ((e.markdown_path ≡ null) × (content ≡ plain e.summary))
      ⊎ ((path : String) × (e.markdown_path ≡ str path) × HasFile path 16777216 f content)

  -- The directory `name` holds an event and a reply of this name, `e` and `a` are what they say, and
  -- the event's hash is the content's.
  pub record IsPair (name : String) (f : Folder Document) (e : Event) (a : Reply) : Type 0 where
    pub event_record : Json
    pub event_file : HasJson r "event.json" f event_record
    pub event_valid : validate_event event_record ≡ ok tt
    pub event_fields : IsEventOf event_record e
    pub event_name : e.id ≡ name
    pub reply_record : Json
    pub reply_file : HasJson r "reply.json" f reply_record
    pub reply_valid : validate_reply reply_record ≡ ok tt
    pub reply_fields : IsReplyOf reply_record a
    pub reply_name : a.event_id ≡ name
    pub content : Document
    pub has_content : HasContent e f content
    pub has_hash : sha256 content ≡ e.content_sha256

  payload-HasContent :
      (e : Event) (f : Folder Document) (content : Document)
      → payload r plain e f ≡ ok content
      → HasContent e f content
  unfolding payload
  payload-HasContent e f content h = go e.markdown_path refl (h)
    where
      go :
          (path : Json)
          → e.markdown_path ≡ path
          → payload r plain e f ≡ ok content
          → HasContent e f content
      go null k h = inl (k, ground arith)
      go (str path) k h = inr (path, k, safe_file-HasFile path 16777216 f content (ground arith))
      go (bool b) k h = absurd (ground arith)
      go (natural n) k h = absurd (ground arith)
      go (other_number n) k h = absurd (ground arith)
      go (arr vs) k h = absurd (ground arith)
      go (obj fs) k h = absurd (ground arith)

  -- the values that a pair is read from
  record Reads (name : String) (f : Folder Document) (e : Event) (a : Reply) : Type 0 where
    v : Json
    u : Json
    content : Document
    event_read : json r "event.json" f ≡ ok v
    event_decoded : decode_event v ≡ ok e
    reply_read : json r "reply.json" f ≡ ok u
    reply_decoded : decode_reply u ≡ ok a
    event_name : e.id ≡ name
    reply_name : a.event_id ≡ name
    paid : payload r plain e f ≡ ok content
    hashed : sha256 content ≡ e.content_sha256

  read_values :
      (name : String) (f : Folder Document) (e : Event) (a : Reply)
      → read_pair r plain name f ≡ ok (e, a)
      → (v : Json) × (e' : Event) × (u : Json) × (a' : Reply) × (json r "event.json" f ≡ ok v)
        × (decode_event v ≡ ok e')
        × (json r "reply.json" f ≡ ok u)
        × (decode_reply u ≡ ok a')
  unfolding read_pair
  read_values name f e a h = elim (Result-cases (json r "event.json" f)) [
    | inr (c, k) ↦ absurd (ground arith)
    | inl (v, k) ↦ elim (Result-cases (decode_event v)) [
      | inr (c, l) ↦ absurd (ground arith)
      | inl (e', l) ↦ elim (Result-cases (json r "reply.json" f)) [
        | inr (c, m) ↦ absurd (ground arith)
        | inl (u, m) ↦ elim (Result-cases (decode_reply u)) [
          | inr (c, n) ↦ absurd (ground arith)
          | inl (a', n) ↦ (v, e', u, a', k, l, m, n)
        ]
      ]
    ]
  ]

  read_pair-Reads :
      (name : String) (f : Folder Document) (e : Event) (a : Reply)
      → read_pair r plain name f ≡ ok (e, a)
      → Reads name f e a
  unfolding read_pair
  read_pair-Reads name f e a h =
      let (v, e', u, a', k, l, m, n) = read_values name f e a h in
      elim (Result-cases (payload r plain e' f)) [
        | inr (c, p) ↦ absurd (ground arith)
        | inl (content, p) ↦ record {
          v = v;
          u = u;
          content = content;
          event_read = k;
          event_decoded = ground arith;
          reply_read = m;
          reply_decoded = ground arith;
          event_name = ground (arith, eq_iff e'.id name);
          reply_name = ground (arith, eq_iff a'.event_id name);
          paid = ground arith;
          hashed = ground (arith, eq_iff (sha256 content) e'.content_sha256);
        }
      ]

  pub read_pair-IsPair :
      (name : String) (f : Folder Document) (e : Event) (a : Reply)
      → read_pair r plain name f ≡ ok (e, a)
      → IsPair name f e a
  read_pair-IsPair name f e a h =
      let s = read_pair-Reads name f e a h in
      record {
        event_record = s.v;
        event_file = json-HasJson r "event.json" f s.v s.event_read;
        event_valid = decode_event_valid s.v e s.event_decoded;
        event_fields = decode_event-IsEventOf s.v e s.event_decoded;
        event_name = s.event_name;
        reply_record = s.u;
        reply_file = json-HasJson r "reply.json" f s.u s.reply_read;
        reply_valid = decode_reply_valid s.u a s.reply_decoded;
        reply_fields = decode_reply-IsReplyOf s.u a s.reply_decoded;
        reply_name = s.reply_name;
        content = s.content;
        has_content = payload-HasContent e f s.content s.paid;
        has_hash = s.hashed;
      }
