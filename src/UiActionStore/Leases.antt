-- ===== src/UiActionStore/Leases.antt =====
-- When a router may take a reply, in bridge/src/ui-action-store.mjs.
use hermes_codex_bridge.Base.{
  ℕ, suc, ◌+◌, ◌≤◌, ◌<◌, ◌⊎◌, ◌∙◌, ap, sym, String, ◌≡◌, refl, inl, inr, Bool, true, false, Option,
  none, some, Bool-cases, Result-cases, ok, arith,
}
use hermes_codex_bridge.Base.Actions.{bind-ok}
use hermes_codex_bridge.Base.Assoc.{lookup}
use hermes_codex_bridge.Base.Json.{Json, str, get, is_some, string_is-true, text_at}
use hermes_codex_bridge.Runtime.{Runtime}
use hermes_codex_bridge.Contracts.Shape.{Event}
use hermes_codex_bridge.ReplyDispatcher.Process.{Leaf}
use hermes_codex_bridge.UiActionStore.Files.{
  World, leaves_of, safe_file_bytes, safe_json, optional_json,
}
use hermes_codex_bridge.UiActionStore.Checks.{
  is_past, is_str, valid_timestamp, validate_claim, earlier, later_by,
}
use hermes_codex_bridge.UiActionStore.Task.{
  HasValue, IsTask, safe_json-HasValue, load-IsTask, is_str-eq,
}
use hermes_codex_bridge.UiActionStore.Load.{
  Context, Claim, load, valid_claim, terminal_exists, deadline_of, now,
}
use hermes_codex_bridge.UiActionStore.Methods.{
  Claimed, not_terminal, not_expired, take_over, clear_claim, claim_in_time, claim_open,
  claim_context, claim,
}

module _ (r : Runtime) where
  open r use {Document}

  pub optional_json-none : (l : Option (Leaf Document)) → optional_json r l ≡ ok none → l ≡ none
  unfolding optional_json safe_json safe_file_bytes
  optional_json-none none h = refl
  optional_json-none (some l) h = absurd (ground arith)

  optional_json-some :
      (l : Option (Leaf Document)) (v : Json × Document)
      → optional_json r l ≡ ok (some v)
      → safe_json r l ≡ ok v
  unfolding optional_json
  optional_json-some l v h = ground arith

module _ (r : Runtime) (plain : String → r.Document) (date_parse : String → Option ℕ)
    (faults : ℕ → Bool) (iso : ℕ → String) (clock : ℕ → ℕ) (random_id : ℕ → String) where
  open r use {Document}

  terminal_exists-none :
      (id : String) (w : World Document)
      → terminal_exists r plain date_parse id w ≡ ok false
      → lookup "receipt.json" (leaves_of id w) ≡ none
  unfolding terminal_exists
  terminal_exists-none id w h =
      optional_json-none r (lookup "receipt.json" (leaves_of id w)) (ground arith)

  -- neither a receipt nor a proof is there
  abbrev pub IsOpen : String → World Document → Type 0
  IsOpen id w =
      (lookup "receipt.json" (leaves_of id w) ≡ none)
      × (lookup "ui-applied.json" (leaves_of id w) ≡ none)

  pub not_terminal-IsOpen :
      (id : String) (w : World Document)
      → (not_terminal r plain date_parse faults iso clock random_id id w).0 ≡ ok tt
      → IsOpen id w × ((not_terminal r plain date_parse faults iso clock random_id id w).1 ≡ w)
  unfolding not_terminal
  not_terminal-IsOpen id w h = elim (Result-cases (terminal_exists r plain date_parse id w)) [
    | inr (c, e) ↦ absurd (ground arith)
    | inl (true, e) ↦ absurd (ground arith)
    | inl (false, e) ↦
        elim (Result-cases (optional_json r (lookup "ui-applied.json" (leaves_of id w)))) [
          | inr (c, k) ↦ absurd (ground arith)
          | inl (some v, k) ↦ absurd (ground arith)
          | inl (none, k) ↦ ((terminal_exists-none id w e, optional_json-none r _ k), ground arith)
        ]
  ]

  pub not_expired-kept :
      (id : String) (c : Context) (w : World Document)
      → (not_expired r plain date_parse faults iso clock random_id id c w).0 ≡ ok tt
      → (is_past (deadline_of r plain date_parse c.event) (clock w.clock_reads) ≡ false)
        × ((not_expired r plain date_parse faults iso clock random_id id c w).1 ≡ (now clock w).1)
  unfolding not_expired
  not_expired-kept id c w h =
      elim (Bool-cases (is_past (deadline_of r plain date_parse c.event) (clock w.clock_reads))) [
        | inr e ↦ (e, ground arith)
        | inl e ↦ absurd (ground arith)
      ]

  -- a claim that is there may be taken over at the time `t`
  abbrev pub IsOver : String → Context → Option (Json × Document) → ℕ → Type 0
  IsOver id c none t = Unit
  IsOver id c (some v) t =
      (valid : Claim Document) × (valid_claim r plain date_parse id c.reply_hash v ≡ ok valid)
      × (is_past (date_parse valid.expires_at) t ≡ true)

  clear_claim-IsOver :
      (id : String) (c : Context) (existing : Option (Json × Document)) (w : World Document)
      → (clear_claim r plain date_parse faults iso clock random_id id c existing w).0 ≡ ok tt
      → IsOver id c existing (clock w.clock_reads)
  unfolding clear_claim take_over
  clear_claim-IsOver id c none w h = tt
  clear_claim-IsOver id c (some v) w h =
      elim (Result-cases (valid_claim r plain date_parse id c.reply_hash v)) [
        | inr (e, k) ↦ absurd (ground arith)
        | inl (valid, k) ↦
            elim (Bool-cases (is_past (date_parse valid.expires_at) (clock w.clock_reads))) [
              | inl past ↦ (valid, k, past)
              | inr held ↦ absurd (ground arith)
            ]
      ]

  -- A time that is a date's is not past the declared end, nor seven days past the creation; a
  -- deadline that is not a number holds nothing up.
  abbrev IsWithin : Option ℕ → Option ℕ → ℕ → Type 0
  IsWithin (some end_time) (some created) t = (t ≤ end_time) × (t ≤ created + 604800000)
  IsWithin _ _ t = Unit

  is_past-IsWithin :
      (e : Event) (t : ℕ)
      → is_past (deadline_of r plain date_parse e) t ≡ false
      → IsWithin (date_parse e.expires_at) (date_parse e.created_at) t
  unfolding is_past
  is_past-IsWithin e t h = go (date_parse e.expires_at) (date_parse e.created_at) h
    where
      go :
          (end_time created : Option ℕ)
          → is_past (earlier end_time (later_by 604800000 created)) t ≡ false
          → IsWithin end_time created t
      go (some a) (some b) k = (ground arith, ground arith)
      go none b k = tt
      go (some a) none k = tt

  -- The claim `v` is for this reply, and its lease is over at the time `t`.
  pub record IsEnded (id : String) (c : Context) (v : Json) (t : ℕ) : Type 0 where
    pub schema : get "schema" v ≡ some (str "hermes-codex-ui-claim/v3")
    pub event_id : get "event_id" v ≡ some (str id)
    pub reply_sha256 : get "reply_sha256" v ≡ some (str c.reply_hash)
    pub end_text : String
    pub expires_at : get "expires_at" v ≡ some (str end_text)
    pub end_time : ℕ
    pub end_parsed : date_parse end_text ≡ some end_time
    pub is_over : end_time < t

  valid_claim-parts :
      (id reply_hash : String) (v : Json × Document) (valid : Claim Document)
      → valid_claim r plain date_parse id reply_hash v ≡ ok valid
      → (is_str "hermes-codex-ui-claim/v3" (get "schema" v.0) ≡ true)
        × (is_str id (get "event_id" v.0) ≡ true)
        × (is_str reply_hash (get "reply_sha256" v.0) ≡ true)
        × (valid_timestamp date_parse (get "expires_at" v.0) ≡ true)
        × (valid.expires_at ≡ text_at "expires_at" v.0)
  unfolding valid_claim validate_claim
  valid_claim-parts id reply_hash v valid h =
      (ground arith, ground arith, ground arith, ground arith, ground arith)

  is_past-some :
      (o : Option ℕ) (t : ℕ)
      → is_past o t ≡ true
      → (end_time : ℕ) × (o ≡ some end_time) × (end_time < t)
  unfolding is_past
  is_past-some none t h = absurd (ground arith)
  is_past-some (some n) t h = (n, refl, ground arith)

  IsOver-IsEnded :
      (id : String) (c : Context) (v : Json × Document) (t : ℕ)
      → IsOver id c (some v) t
      → IsEnded id c v.0 t
  unfolding valid_timestamp
  IsOver-IsEnded id c v t (valid, h, past) =
      let p = valid_claim-parts id c.reply_hash v valid h in
      let (end_time, parsed, over) = is_past-some (date_parse valid.expires_at) t past in
      record {
        schema = is_str-eq "schema" _ v.0 p.0;
        event_id = is_str-eq "event_id" id v.0 p.1;
        reply_sha256 = is_str-eq "reply_sha256" c.reply_hash v.0 p.2;
        end_text = text_at "expires_at" v.0;
        expires_at = (string_is-true (λ s. is_some (date_parse s)) "expires_at" v.0 p.3).0;
        end_time = end_time;
        end_parsed = ap date_parse (sym p.4) ∙ parsed;
        is_over = over;
      }

  -- no claim is there, or one of a lease that is over at the time `t`
  abbrev IsUnclaimed : String → Context → World Document → ℕ → Type 0
  IsUnclaimed id c w t =
      (lookup "ui-claim.json" (leaves_of id w) ≡ none)
      ⊎ ((v : Json) × HasValue r (lookup "ui-claim.json" (leaves_of id w)) v × IsEnded id c v t)

  found-IsUnclaimed :
      (id : String) (c : Context) (w : World Document) (t : ℕ) (existing : Option (Json × Document))
      → optional_json r (lookup "ui-claim.json" (leaves_of id w)) ≡ ok existing
      → IsOver id c existing t
      → IsUnclaimed id c w t
  found-IsUnclaimed id c w t none h over = inl (optional_json-none r _ h)
  found-IsUnclaimed id c w t (some v) h over =
      inr (v.0, safe_json-HasValue r _ v (optional_json-some r _ v h), IsOver-IsEnded id c v t over)

  -- what a successful claim has found
  pub record IsFree (id : String) (c : Context) (w : World Document) : Type 0 where
    pub task : IsTask r plain id c w
    pub is_open : IsOpen id w
    pub in_time :
        IsWithin
          (date_parse c.event.expires_at)
          (date_parse c.event.created_at)
          (clock w.clock_reads)
    pub is_unclaimed : IsUnclaimed id c w (clock (suc w.clock_reads))

  claim_in_time-parts :
      (id : String) (c : Context) (w : World Document) (d : Claimed)
      → (claim_in_time r plain date_parse faults iso clock random_id id c w).0 ≡ ok d
      → (existing : Option (Json × Document)) × (optional_json r
            (lookup "ui-claim.json" (leaves_of id w))
          ≡ ok existing)
        × IsOver id c existing (clock w.clock_reads)
  unfolding claim_in_time
  claim_in_time-parts id c w d h =
      elim (Result-cases (optional_json r (lookup "ui-claim.json" (leaves_of id w)))) [
        | inr (e, k) ↦ absurd (ground arith)
        | inl (existing, k) ↦
            let clear = clear_claim r plain date_parse faults iso clock random_id id c existing in
            elim (Result-cases (clear w).0) [
              | inr (e, l) ↦ absurd (ground arith)
              | inl (tt, l) ↦ (existing, k, clear_claim-IsOver id c existing w l)
            ]
      ]

  claim_open-parts :
      (id : String) (c : Context) (w : World Document) (d : Claimed)
      → (claim_open r plain date_parse faults iso clock random_id id c w).0 ≡ ok d
      → (is_past (deadline_of r plain date_parse c.event) (clock w.clock_reads) ≡ false)
        × ((claim_in_time r plain date_parse faults iso clock random_id id c (now clock w).1).0
            ≡ ok d)
  unfolding claim_open
  claim_open-parts id c w d h =
      let m = not_expired r plain date_parse faults iso clock random_id id c in
      let (_, e, k, _) =
        bind-ok m (λ _. claim_in_time r plain date_parse faults iso clock random_id id c) w h in
      let (in_time, s) = not_expired-kept id c w e in (in_time, rw s at k)

  pub claim_context-parts :
      (id : String) (c : Context) (w : World Document) (d : Claimed)
      → (claim_context r plain date_parse faults iso clock random_id id c w).0 ≡ ok d
      → IsOpen id w × ((claim_open r plain date_parse faults iso clock random_id id c w).0 ≡ ok d)
  unfolding claim_context
  claim_context-parts id c w d h =
      let m = not_terminal r plain date_parse faults iso clock random_id id in
      let (_, e, k, _) =
        bind-ok m (λ _. claim_open r plain date_parse faults iso clock random_id id c) w h in
      let (is_open, s) = not_terminal-IsOpen id w e in (is_open, rw s at k)

  pub claim-loaded :
      (id : String) (w : World Document) (d : Claimed)
      → (claim r plain date_parse faults iso clock random_id id w).0 ≡ ok d
      → (c : Context) × (load r plain date_parse id w ≡ ok c)
        × ((claim_context r plain date_parse faults iso clock random_id id c w).0 ≡ ok d)
  unfolding claim
  claim-loaded id w d h = elim (Result-cases (load r plain date_parse id w)) [
    | inr (e, k) ↦ absurd (ground arith)
    | inl (c, k) ↦ (c, k, ground arith)
  ]

  -- A router gets a lease only for a reply whose folder holds a valid event, a valid text reply and an
  -- action, all of this id, the action with the event's task and turn and the hash of the reply's
  -- text; that has neither a receipt nor a proof; where the clock is neither past the event's
  -- declared end nor seven days past its creation, as far as both are dates; and that has no claim,
  -- or one for this reply whose end is before the clock.
  pub claim-IsFree :
      (id : String) (w : World Document) (d : Claimed)
      → (claim r plain date_parse faults iso clock random_id id w).0 ≡ ok d
      → (c : Context) × IsFree id c w
  unfolding leaves_of
  claim-IsFree id w d h =
      let (c, loaded, h1) = claim-loaded id w d h in
      let (is_open, h2) = claim_context-parts id c w d h1 in
      let (in_time, h3) = claim_open-parts id c w d h2 in
      let (existing, found, over) = claim_in_time-parts id c (now clock w).1 d h3 in
      (
        c,
        record {
          task = load-IsTask r plain date_parse id c w loaded;
          is_open = is_open;
          in_time = is_past-IsWithin c.event (clock w.clock_reads) in_time;
          is_unclaimed = found-IsUnclaimed id c w (clock (suc w.clock_reads)) existing found over;
        },
      )
