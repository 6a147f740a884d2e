-- ===== src/UiActionStore/WrongLease.antt =====
-- What `applied` of bridge/src/ui-action-store.mjs leaves behind for a lease that is not the claim's.
use hermes_codex_bridge.Base.{
  ℕ, suc, String, ◌≡◌, refl, ◌∙◌, ap, inl, inr, Bool, true, false, Option, none, some,
  if◌then◌else◌, str_eq, eq_iff, Option-cases, ok, err, arith,
}
use hermes_codex_bridge.Base.Actions.{◌>>=◌, pure, reads, bind-eq}
use hermes_codex_bridge.Base.Assoc.{lookup, insert, lookup-insert}
use hermes_codex_bridge.Base.Json.{Json, end}
use hermes_codex_bridge.Base.Text.{is_safe_identifier}
use hermes_codex_bridge.Runtime.{Runtime}
use hermes_codex_bridge.ReplyDispatcher.Process.{Folder}
use hermes_codex_bridge.UiActionStore.Files.{
  lease, turn, World, leaves_of, set_leaves, written, interaction_directory, safe_json,
  safe_file_bytes, optional_json, write_json_once, write_once_or_same, same_bytes,
}
use hermes_codex_bridge.UiActionStore.Load.{
  Context, Claim, load, read_claim, holds_lease, now, terminal, receipt,
}
use hermes_codex_bridge.UiActionStore.Methods.{
  require, optional, applied_receipt, applied_proof, applied_received, applied_context,
  mark_applied,
}
use hermes_codex_bridge.UiActionStore.Kept.{leaves_of-set_leaves}

optional_json_missing : (r : Runtime) → optional_json r none ≡ ok none
unfolding optional_json safe_json safe_file_bytes
optional_json_missing r = refl

module _ (r : Runtime) (faults : ℕ → Bool) where
  open r use {Document}

  -- after a write, every name of the folder is as before, but that one
  abbrev after_write : String → String → Json → World Document → World Document
  after_write id name v w =
      set_leaves id (insert name (written r v) (leaves_of id w))
        (record w { writes = suc w.writes })

  write_json_once-new :
      (id name : String) (v : Json) (w : World Document)
      → lookup name (leaves_of id w) ≡ none
      → faults w.writes ≡ false
      → write_json_once r faults id name v w ≡ (ok true, after_write id name v w)
  unfolding write_json_once
  write_json_once-new id name v w free works = ground arith

  write_once_or_same-new :
      (id name : String) (v : Json) (w : World Document)
      → lookup name (leaves_of id w) ≡ none
      → faults w.writes ≡ false
      → write_once_or_same r faults id name v w ≡ (ok tt, after_write id name v w)
  unfolding write_once_or_same
  write_once_or_same-new id name v w free works =
      bind-eq (write_json_once r faults id name v)
        (λ published.
          if published
          then pure tt
          else reads (λ u. same_bytes r faults v (safe_file_bytes (lookup name (leaves_of id u)))))
        w (write_json_once-new id name v w free works)

  lookup-after_write :
      (id name other : String) (v : Json) (w : World Document) (f : Folder Document)
      → lookup id w.folders ≡ some f
      → lookup other (leaves_of id (after_write id name v w))
        ≡ (if str_eq name other then some (written r v) else lookup other (leaves_of id w))
  lookup-after_write id name other v w f there = ground (
    arith,
    eq_iff id id,
    leaves_of-set_leaves id id (insert name (written r v) (leaves_of id w))
        (record w { writes = suc w.writes }),
    lookup-insert name other (written r v) (leaves_of id w),
  )

module _ (r : Runtime) (plain : String → r.Document) (date_parse : String → Option ℕ)
    (faults : ℕ → Bool) (iso : ℕ → String) (clock : ℕ → ℕ) (random_id : ℕ → String) where
  open r use {Document}

  load-folder :
      (id : String) (w : World Document) (c : Context)
      → load r plain date_parse id w ≡ ok c
      → (f : Folder Document) × (lookup id w.folders ≡ some f)
  unfolding load interaction_directory
  load-folder id w c h = elim (Option-cases (lookup id w.folders)) [
    | inl e ↦ absurd (ground arith)
    | inr found ↦ found
  ]

  terminal-new :
      (id : String) (w : World Document)
      → lookup "receipt.json" (leaves_of id w) ≡ none
      → faults w.writes ≡ false
      → terminal r faults iso clock id "APPLIED" end w ≡ (
        ok tt,
        after_write r faults id "receipt.json"
            (receipt r faults iso clock id (iso (clock w.clock_reads)) "APPLIED" end)
            (now clock w).1,
      )
  unfolding terminal leaves_of
  terminal-new id w free works =
      write_once_or_same-new r faults id "receipt.json" _ (now clock w).1 free works

  -- the claim is not the caller's
  applied_proof-err :
      (id lease_id turn_id : String) (c : Context) (w : World Document) (held : Claim Document)
      → read_claim r plain date_parse id c w ≡ ok held
      → holds_lease r plain date_parse lease_id held ≡ false
      → applied_proof r plain date_parse faults iso clock random_id id lease_id turn_id c none w
        ≡ (err lease, w)
  unfolding applied_proof
  applied_proof-err id lease_id turn_id c w held found other = ground arith

  applied_received-err :
      (id lease_id turn_id : String) (c : Context) (w : World Document) (held : Claim Document)
      → lookup "ui-applied.json" (leaves_of id w) ≡ none
      → read_claim r plain date_parse id c w ≡ ok held
      → holds_lease r plain date_parse lease_id held ≡ false
      → applied_received r plain date_parse faults iso clock random_id id lease_id turn_id c w
        ≡ (err lease, w)
  unfolding applied_received
  applied_received-err id lease_id turn_id c w held free claimed other =
      bind-eq (reads (optional r plain date_parse faults iso clock random_id id "ui-applied.json"))
        (λ found.
          applied_proof r plain date_parse faults iso clock random_id id lease_id turn_id c found)
        w (rw (free, optional_json_missing r) refl)
      ∙ applied_proof-err id lease_id turn_id c w held claimed other

  read_claim-eq :
      (id : String) (c : Context) (w w' : World Document)
      → lookup "ui-claim.json" (leaves_of id w') ≡ lookup "ui-claim.json" (leaves_of id w)
      → read_claim r plain date_parse id c w' ≡ read_claim r plain date_parse id c w
  unfolding read_claim
  read_claim-eq id c w w' h = ground (arith, h)

  -- A reply is open and claimed. A call of `applied` with another lease than the claim's fails, and
  -- the receipt that says APPLIED is there all the same.
  pub mark_applied_wrong_lease :
      (id lease_id turn_id : String) (w : World Document) (c : Context) (held : Claim Document)
      → is_safe_identifier turn_id ≡ true
      → load r plain date_parse id w ≡ ok c
      → lookup "receipt.json" (leaves_of id w) ≡ none
      → lookup "ui-applied.json" (leaves_of id w) ≡ none
      → read_claim r plain date_parse id c w ≡ ok held
      → holds_lease r plain date_parse lease_id held ≡ false
      → faults w.writes ≡ false
      → let (out, w') =
          mark_applied r plain date_parse faults iso clock random_id id lease_id turn_id w in
        (out ≡ err lease)
        × (lookup "receipt.json" (leaves_of id w')
            ≡ some (
                written r
                  (receipt r faults iso clock id (iso (clock w.clock_reads)) "APPLIED" end)))
  unfolding mark_applied applied_context applied_receipt leaves_of
  mark_applied_wrong_lease id lease_id turn_id w c held safe loaded open_receipt open_proof claimed
        other works =
      let (f, there) = load-folder id w c loaded in
      let w1 = (now {D = Document} clock w).1 in
      let v = receipt r faults iso clock id (iso (clock w.clock_reads)) "APPLIED" end in
      let w2 = after_write r faults id "receipt.json" v w1 in
      let proof = lookup-after_write r faults id "receipt.json" "ui-applied.json" v w1 f there in
      let claim = lookup-after_write r faults id "receipt.json" "ui-claim.json" v w1 f there in
      let kept : lookup "receipt.json" (leaves_of id w2) ≡ some (written r v) =
        lookup-after_write r faults id "receipt.json" "receipt.json" v w1 f there in
      let whole : mark_applied r plain date_parse faults iso clock random_id id lease_id turn_id w
          ≡ (err lease, w2) =
        bind-eq (require (is_safe_identifier turn_id) turn)
          (λ _. reads (load r plain date_parse id) >>= λ c'.
            applied_context r plain date_parse faults iso clock random_id id lease_id turn_id c')
          w {a = tt} {s' = w} (rw safe)
        ∙ bind-eq (reads (load r plain date_parse id))
            (λ c'.
              applied_context r plain date_parse faults iso clock random_id id lease_id turn_id c')
            w {a = c} {s' = w} (rw loaded)
        ∙ bind-eq (reads (optional r plain date_parse faults iso clock random_id id "receipt.json"))
            (λ x. applied_receipt r plain date_parse faults iso clock random_id id x >>= λ _.
              applied_received r plain date_parse faults iso clock random_id id lease_id turn_id c)
            w {a = none} {s' = w} (rw (open_receipt, optional_json_missing r) refl)
        ∙ bind-eq (terminal r faults iso clock id "APPLIED" end)
            (λ _.
              applied_received r plain date_parse faults iso clock random_id id lease_id turn_id c)
            w (terminal-new id w open_receipt works)
        ∙ applied_received-err id lease_id turn_id c w2 held (proof ∙ open_proof)
            (read_claim-eq id c w w2 claim ∙ claimed) other in
      (ap (λ x. x.0) whole, ap (λ x. lookup "receipt.json" (leaves_of id x.1)) whole ∙ kept)
