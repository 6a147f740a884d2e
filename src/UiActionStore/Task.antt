-- ===== src/UiActionStore/Task.antt =====
-- What `load` of bridge/src/ui-action-store.mjs makes sure of, said without its code.
use hermes_codex_bridge.Base.{
  ℕ, String, ◌≡◌, ◌∙◌, refl, ap, inl, inr, true, Option, none, some, List, ok, eq_iff, arith,
  leb_iff, Result-cases,
}
use hermes_codex_bridge.Base.Assoc.{lookup}
use hermes_codex_bridge.Base.Json.{Json, str, get, is_some, is_text, string_is-true, text_at}
use hermes_codex_bridge.Base.Text.{is_event_id}
use hermes_codex_bridge.Runtime.{Runtime}
use hermes_codex_bridge.Contracts.Shape.{
  validate_event, validate_reply, Event, Reply, ReplyAction, decode_event, decode_reply,
}
use hermes_codex_bridge.Contracts.Accepted.{IsEventOf}
use hermes_codex_bridge.Contracts.Answered.{
  IsReplyOf, decode_event-IsEventOf, decode_reply-IsReplyOf, decode_event_valid, decode_reply_valid,
}
use hermes_codex_bridge.ReplyDispatcher.Process.{Leaf}
use hermes_codex_bridge.ReplyDispatcher.Readable.{IsReadable}
use hermes_codex_bridge.UiActionStore.Files.{
  World, interaction_directory, leaves_of, safe_file_bytes, safe_json,
}
use hermes_codex_bridge.UiActionStore.Checks.{is_str, valid_timestamp, validate_action}
use hermes_codex_bridge.UiActionStore.Load.{Context, checked_action, checked_reply, load}

pub is_str-eq : (k s : String) (v : Json) → is_str s (get k v) ≡ true → get k v ≡ some (str s)
is_str-eq k s v h =
    let (found, same) = string_is-true (is_text s) k v h in
    found ∙ ap (λ t. some (str t)) ((eq_iff _ _).0 same)

module _ (r : Runtime) where
  open r use {Document, parse, sha256}

  -- the leaf of this name is a plain file of at most a mebibyte, and holds this value
  abbrev pub HasValue : Option (Leaf Document) → Json → Type 0
  HasValue found v =
      (l : Leaf Document) × (text : Document) × (found ≡ some l)
      × IsReadable 1048576 l text
      × (parse text ≡ some v)

  pub safe_json-HasValue :
      (found : Option (Leaf Document)) (v : Json × Document)
      → safe_json r found ≡ ok v
      → HasValue found v.0
  unfolding safe_json safe_file_bytes
  safe_json-HasValue none v h = absurd (ground arith)
  safe_json-HasValue (some l) v h = (
    l,
    l.text,
    refl,
    record {
      is_file = ground arith;
      is_no_link = ground arith;
      has_one_name = ground arith;
      has_size = ground (arith, leb_iff l.size 1048576);
      is_inside = ground arith;
      has_text = refl;
    },
    ground arith,
  )

  module _ (plain : String → Document) where
    -- what the action file `v` says of the event and the reply
    pub record IsActionOf (v : Json) (c : Context) : Type 0 where
      pub schema : get "schema" v ≡ some (str "hermes-codex-ui-action/v3")
      pub event_id : get "event_id" v ≡ some (str c.event.id)
      pub thread_id : get "thread_id" v ≡ some (str c.event.thread_id)
      pub source_turn_id : get "source_turn_id" v ≡ some (str c.event.turn_id)
      pub reply_sha256 : get "reply_sha256" v ≡ some (str (sha256 (plain c.text)))
      pub created_at : get "created_at" v ≡ some (str c.created_at)

    -- The folder of `id` holds a valid event and a valid reply of this id, the reply is a text, and
    -- the action belongs to both, by the hash of the text too.
    pub record IsTask (id : String) (c : Context) (w : World Document) : Type 0 where
      pub id_form : is_event_id id ≡ true
      pub event_record : Json
      pub event_file : HasValue (lookup "event.json" (leaves_of id w)) event_record
      pub event_valid : validate_event event_record ≡ ok tt
      pub event_fields : IsEventOf event_record c.event
      pub event_id : c.event.id ≡ id
      pub reply_record : Json
      pub reply_file : HasValue (lookup "reply.json" (leaves_of id w)) reply_record
      pub reply : Reply
      pub reply_valid : validate_reply reply_record ≡ ok tt
      pub reply_fields : IsReplyOf reply_record reply
      pub reply_id : reply.event_id ≡ id
      pub reply_action : reply.action ≡ ReplyAction.reply
      pub reply_text : reply.text ≡ some c.text
      pub reply_hash : c.reply_hash ≡ sha256 (plain c.text)
      pub action_record : Json
      pub action_file : HasValue (lookup "ui-action.json" (leaves_of id w)) action_record
      pub action_fields : IsActionOf action_record c

    module _ (date_parse : String → Option ℕ) where
      validate_action-parts :
          (v : Json) (e : Event)
          → validate_action date_parse v e ≡ ok tt
          → (is_str "hermes-codex-ui-action/v3" (get "schema" v) ≡ true)
            × (is_str e.id (get "event_id" v) ≡ true)
            × (is_str e.thread_id (get "thread_id" v) ≡ true)
            × (is_str e.turn_id (get "source_turn_id" v) ≡ true)
            × (valid_timestamp date_parse (get "created_at" v) ≡ true)
      unfolding validate_action
      validate_action-parts v e h =
          (ground arith, ground arith, ground arith, ground arith, ground arith)

      checked_action-parts :
          (e : Event) (text : String) (v : Json) (c : Context)
          → checked_action r plain date_parse e text v ≡ ok c
          → (validate_action date_parse v e ≡ ok tt)
            × (is_str (sha256 (plain text)) (get "reply_sha256" v) ≡ true)
            × (c.event ≡ e)
            × (c.text ≡ text)
            × (c.reply_hash ≡ sha256 (plain text))
            × (c.created_at ≡ text_at "created_at" v)
      unfolding checked_action
      checked_action-parts e text v c h = elim (Result-cases (validate_action date_parse v e)) [
        | inr (k, m) ↦ absurd (ground arith)
        | inl (tt, m) ↦ (m, ground arith, ground arith, ground arith, ground arith, ground arith)
      ]

      checked_action-IsActionOf :
          (e : Event) (text : String) (v : Json) (c : Context)
          → checked_action r plain date_parse e text v ≡ ok c
          → IsActionOf v c
      unfolding valid_timestamp
      checked_action-IsActionOf e text v c h =
          let (valid, hashed, event, same, _, created) = checked_action-parts e text v c h in
          let p = validate_action-parts v e valid in
          record {
            schema = is_str-eq "schema" _ v p.0;
            event_id = rw event (is_str-eq "event_id" e.id v p.1);
            thread_id = rw event (is_str-eq "thread_id" e.thread_id v p.2);
            source_turn_id = rw event (is_str-eq "source_turn_id" e.turn_id v p.3);
            reply_sha256 = rw same (is_str-eq "reply_sha256" _ v hashed);
            created_at =
                rw created (string_is-true (λ t. is_some (date_parse t)) "created_at" v p.4).0;
          }

      checked_reply-parts :
          (id : String) (e : Event) (a : Reply) (text : String)
          → checked_reply r plain date_parse id e a ≡ ok text
          → (e.id ≡ id) × (a.event_id ≡ id) × (a.action ≡ ReplyAction.reply) × (a.text ≡ some text)
      unfolding checked_reply
      checked_reply-parts id e a text h = (
        ground (arith, eq_iff e.id id),
        ground (arith, eq_iff a.event_id id),
        ground arith,
        ground arith,
      )

      -- the values that a load has read
      record Reads (id : String) (c : Context) (w : World Document) : Type 0 where
        named : is_event_id id ≡ true
        v : Json × Document
        u : Json × Document
        x : Json × Document
        e : Event
        a : Reply
        text : String
        event_read : safe_json r (lookup "event.json" (leaves_of id w)) ≡ ok v
        event_decoded : decode_event v.0 ≡ ok e
        reply_read : safe_json r (lookup "reply.json" (leaves_of id w)) ≡ ok u
        reply_decoded : decode_reply u.0 ≡ ok a
        replied : checked_reply r plain date_parse id e a ≡ ok text
        action_read : safe_json r (lookup "ui-action.json" (leaves_of id w)) ≡ ok x
        checked : checked_action r plain date_parse e text x.0 ≡ ok c

      directory-leaves :
          (id : String) (w : World Document) (leaves : List (String × Leaf Document))
          → interaction_directory id w ≡ ok leaves
          → (is_event_id id ≡ true) × (leaves ≡ leaves_of id w)
      unfolding interaction_directory leaves_of
      directory-leaves id w leaves h = (ground arith, ground arith)

      -- the files of a load, before what they say of each other
      load-values :
          (id : String) (c : Context) (w : World Document)
          → load r plain date_parse id w ≡ ok c
          → (leaves : List (String × Leaf Document)) × (v : Json × Document) × (u : Json × Document)
            × (x : Json × Document) × (e : Event) × (a : Reply) × (text : String)
            × (interaction_directory id w ≡ ok leaves)
            × (safe_json r (lookup "event.json" leaves) ≡ ok v)
            × (decode_event v.0 ≡ ok e)
            × (safe_json r (lookup "reply.json" leaves) ≡ ok u)
            × (decode_reply u.0 ≡ ok a)
            × (checked_reply r plain date_parse id e a ≡ ok text)
            × (safe_json r (lookup "ui-action.json" leaves) ≡ ok x)
            × (checked_action r plain date_parse e text x.0 ≡ ok c)
      unfolding load
      load-values id c w h = elim (Result-cases (interaction_directory id w)) [
        | inr (k, m) ↦ absurd (ground arith)
        | inl (ls, m) ↦ elim (Result-cases (safe_json r (lookup "event.json" ls))) [
          | inr (k, m1) ↦ absurd (ground arith)
          | inl (v, m1) ↦ elim (Result-cases (decode_event v.0)) [
            | inr (k, m2) ↦ absurd (ground arith)
            | inl (e, m2) ↦ elim (Result-cases (safe_json r (lookup "reply.json" ls))) [
              | inr (k, m3) ↦ absurd (ground arith)
              | inl (u, m3) ↦ elim (Result-cases (decode_reply u.0)) [
                | inr (k, m4) ↦ absurd (ground arith)
                | inl (a, m4) ↦ elim (Result-cases (checked_reply r plain date_parse id e a)) [
                  | inr (k, m5) ↦ absurd (ground arith)
                  | inl (text, m5) ↦
                      elim (Result-cases (safe_json r (lookup "ui-action.json" ls))) [
                        | inr (k, m6) ↦ absurd (ground arith)
                        | inl (x, m6) ↦
                            (ls, v, u, x, e, a, text, m, m1, m2, m3, m4, m5, m6, ground arith)
                      ]
                ]
              ]
            ]
          ]
        ]
      ]

      load-Reads :
          (id : String) (c : Context) (w : World Document)
          → load r plain date_parse id w ≡ ok c
          → Reads id c w
      load-Reads id c w h =
          let (ls, v, u, x, e, a, text, m, m1, m2, m3, m4, m5, m6, m7) = load-values id c w h in
          let (named, same) = directory-leaves id w ls m in
          record {
            named = named;
            v = v;
            u = u;
            x = x;
            e = e;
            a = a;
            text = text;
            event_read = rw same at m1;
            event_decoded = m2;
            reply_read = rw same at m3;
            reply_decoded = m4;
            replied = m5;
            action_read = rw same at m6;
            checked = m7;
          }

      pub load-IsTask :
          (id : String) (c : Context) (w : World Document)
          → load r plain date_parse id w ≡ ok c
          → IsTask id c w
      load-IsTask id c w h =
          let s = load-Reads id c w h in
          let (id_same, reply_id, reply_action, reply_text) =
            checked_reply-parts id s.e s.a s.text s.replied in
          let (_, _, event, text, hash, _) = checked_action-parts s.e s.text s.x.0 c s.checked in
          record {
            id_form = s.named;
            event_record = s.v.0;
            event_file = safe_json-HasValue _ s.v s.event_read;
            event_valid = decode_event_valid s.v.0 s.e s.event_decoded;
            event_fields = rw event (decode_event-IsEventOf s.v.0 s.e s.event_decoded);
            event_id = rw event id_same;
            reply_record = s.u.0;
            reply_file = safe_json-HasValue _ s.u s.reply_read;
            reply = s.a;
            reply_valid = decode_reply_valid s.u.0 s.a s.reply_decoded;
            reply_fields = decode_reply-IsReplyOf s.u.0 s.a s.reply_decoded;
            reply_id = reply_id;
            reply_action = reply_action;
            reply_text = rw text reply_text;
            reply_hash = rw text hash;
            action_record = s.x.0;
            action_file = safe_json-HasValue _ s.x s.action_read;
            action_fields = checked_action-IsActionOf s.e s.text s.x.0 c s.checked;
          }
