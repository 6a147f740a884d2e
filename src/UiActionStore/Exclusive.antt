-- ===== src/UiActionStore/Exclusive.antt =====
-- A lease of bridge/src/ui-action-store.mjs keeps other routers away until it is over.
use hermes_codex_bridge.Base.{
  ℕ, suc, ◌+◌, ◌≤◌, ◌<◌, String, ◌≡◌, refl, ◌∙◌, ap, subst, inl, inr, Bool, false, Option, none,
  some, eq_iff, Bool-cases, Option-cases, Result-cases, ok, arith,
}
use hermes_codex_bridge.Base.Actions.{◌>>=◌, bind-ok, bind-eq, reads}
use hermes_codex_bridge.Base.Assoc.{lookup, insert, lookup-insert}
use hermes_codex_bridge.Base.Json.{Json, str, get}
use hermes_codex_bridge.Base.Text.{is_safe_identifier}
use hermes_codex_bridge.Runtime.{Runtime, IsFaithful}
use hermes_codex_bridge.ReplyDispatcher.Process.{Leaf, Folder}
use hermes_codex_bridge.UiActionStore.Files.{
  World, leaves_of, written, interaction_directory, safe_json, safe_file_bytes, write_json_once,
  remove_leaf, set_leaves,
}
use hermes_codex_bridge.UiActionStore.Load.{Context, load, now}
use hermes_codex_bridge.UiActionStore.Methods.{
  Claimed, random, new_claim, clear_claim, write_claim, claim_in_time, claim_open, claim_context,
  claim, not_terminal, not_expired, optional, take_over,
}
use hermes_codex_bridge.UiActionStore.Kept.{leaves_of-set_leaves, Keeps}
use hermes_codex_bridge.UiActionStore.WriteOnce.{clear_claim-IsKeeping}
use hermes_codex_bridge.UiActionStore.Task.{HasValue, IsTask, load-IsTask}
use hermes_codex_bridge.UiActionStore.Leases.{claim-IsFree, not_terminal-IsOpen, not_expired-kept}

module _ (r : Runtime) where
  open r use {Document}

  folder_of :
      (id name : String) (w : World Document) (l : Leaf Document)
      → lookup name (leaves_of id w) ≡ some l
      → (f : Folder Document) × (lookup id w.folders ≡ some f)
  unfolding leaves_of lookup
  folder_of id name w l h = elim (Option-cases (lookup id w.folders)) [
    | inl e ↦ absurd (ground arith)
    | inr found ↦ found
  ]

module _ (r : Runtime) (plain : String → r.Document) (date_parse : String → Option ℕ)
    (faults : ℕ → Bool) (iso : ℕ → String) (clock : ℕ → ℕ) (random_id : ℕ → String) where
  open r use {Document}

  load-event :
      (id : String) (w : World Document) (c : Context)
      → load r plain date_parse id w ≡ ok c
      → (l : Leaf Document) × (lookup "event.json" (leaves_of id w) ≡ some l)
  unfolding load interaction_directory safe_json safe_file_bytes leaves_of
  load-event id w c h = elim (Option-cases (lookup "event.json" (leaves_of id w))) [
    | inl e ↦ absurd (ground arith)
    | inr found ↦ found
  ]

  -- removing an old claim does not turn the clock back
  clear_claim-later :
      (id : String) (c : Context) (existing : Option (Json × Document)) (w : World Document)
      → w.clock_reads
        ≤ (clear_claim r plain date_parse faults iso clock random_id id c existing w).1.clock_reads
  unfolding clear_claim take_over remove_leaf set_leaves
  clear_claim-later id c none w = omega arith
  clear_claim-later id c (some v) w = ground arith

  -- what a router gets is the text of the reply, and the task and the turn of the event
  abbrev IsFor : Context → Claimed → Type 0
  IsFor c d =
      (d.text ≡ c.text) × (d.thread_id ≡ c.event.thread_id) × (d.source_turn_id ≡ c.event.turn_id)

  -- the claim that is written
  write_claim-leaf :
      (id : String) (c : Context) (u : World Document) (f : Folder Document) (d : Claimed)
      → lookup id u.folders ≡ some f
      → (write_claim r plain date_parse faults iso clock random_id id c u).0 ≡ ok d
      → (d.lease_id ≡ random_id u.ids)
        × IsFor c d
        × ((write_claim r plain date_parse faults iso clock random_id id c u).1.clock_reads
            ≡ suc u.clock_reads)
        × (lookup "ui-claim.json"
              (leaves_of id (write_claim r plain date_parse faults iso clock random_id id c u).1)
            ≡ some (
                written r (
                  new_claim r plain date_parse faults iso clock random_id id c
                    (random_id u.ids)
                    (clock u.clock_reads))))
  unfolding write_claim random write_json_once leaves_of set_leaves
  write_claim-leaf id c u f d there h =
      let v =
        new_claim r plain date_parse faults iso clock random_id id c (random_id u.ids)
          (clock u.clock_reads) in
      let leaves = insert "ui-claim.json" (written r v) (leaves_of id u) in
      let after = record u {
        ids = suc u.ids;
        clock_reads = suc u.clock_reads;
        writes = suc u.writes;
      } in
      let set = leaves_of-set_leaves id id leaves after in
      let found = lookup-insert "ui-claim.json" "ui-claim.json" (written r v) (leaves_of id u) in
      elim (Bool-cases (is_safe_identifier (random_id u.ids))) [
        | inr e ↦ absurd (ground arith)
        | inl e ↦ elim (Bool-cases (faults u.writes)) [
          | inl k ↦ absurd (ground arith)
          | inr k ↦ elim (Option-cases (lookup "ui-claim.json" (leaves_of id u))) [
            | inr (l, o) ↦ absurd (ground arith)
            | inl o ↦ (
              ground arith,
              (ground arith, ground arith, ground arith),
              ground arith,
              ground (arith, set, found, eq_iff id id),
            )
          ]
        ]
      ]

  -- behind the checks and the removal of an old claim
  claim_in_time-leaf :
      (id : String) (c : Context) (w : World Document) (l : Leaf Document) (d : Claimed)
      → lookup "event.json" (leaves_of id w) ≡ some l
      → (claim_in_time r plain date_parse faults iso clock random_id id c w).0 ≡ ok d
      → let w' = (claim_in_time r plain date_parse faults iso clock random_id id c w).1 in
        (n : ℕ) × IsFor c d
        × (w.clock_reads ≤ n)
        × (w'.clock_reads ≡ suc n)
        × (lookup "ui-claim.json" (leaves_of id w')
            ≡ some (
                written r (
                  new_claim r plain date_parse faults iso clock random_id id c d.lease_id
                    (clock n))))
  unfolding claim_in_time Keeps
  claim_in_time-leaf id c w l d event h =
      elim (Result-cases
        (optional r plain date_parse faults iso clock random_id id "ui-claim.json" w)) [
          | inr (e, k) ↦ absurd (ground arith)
          | inl (existing, k) ↦
              let clear = clear_claim r plain date_parse faults iso clock random_id id c existing in
              let write = write_claim r plain date_parse faults iso clock random_id id c in
              let start =
                bind-eq
                  (reads
                    (optional r plain date_parse faults iso clock random_id id "ui-claim.json"))
                  (λ x.
                    clear_claim r plain date_parse faults iso clock random_id id c x >>= λ _. write)
                  w {a = existing} {s' = w} (ap (λ out. (out, w)) k) in
              let (_, e, m, s) =
                bind-ok clear (λ _. write) w (subst (λ out. out.0 ≡ ok d) start h) in
              let u = (clear w).1 in
              let kept =
                (clear_claim-IsKeeping r plain date_parse faults iso clock random_id (λ _ _. false)
                    id c existing).keeps
                  w id "event.json" l refl event in
              let (f, there) = folder_of r id "event.json" u l kept in
              let (lease, given, read, leaf) = write_claim-leaf id c u f d there m in
              let state = ap (λ out. out.1) start ∙ s in
              (
                u.clock_reads,
                given,
                clear_claim-later id c existing w,
                ap (λ x. x.clock_reads) state ∙ read,
                rw (lease, state) leaf,
              )
        ]

  -- What the call of `claim` that returns `d` leaves: `d` is for a reply that the folder held, and
  -- the claim is that of its lease, of the time `clock n`, which is the last one that the call read,
  -- after that of the deadline.
  abbrev pub IsLeased : String → World Document → Claimed → ℕ → Type 0
  IsLeased id w d n =
      let w' = (claim r plain date_parse faults iso clock random_id id w).1 in
      (c : Context) × IsTask r plain id c w
      × IsFor c d
      × (w.clock_reads < n)
      × (w'.clock_reads ≡ suc n)
      × (lookup "ui-claim.json" (leaves_of id w')
          ≡ some (
              written r (
                new_claim r plain date_parse faults iso clock random_id id c d.lease_id (clock n))))

  pub claim-IsLeased :
      (id : String) (w : World Document) (d : Claimed)
      → (claim r plain date_parse faults iso clock random_id id w).0 ≡ ok d
      → (n : ℕ) × IsLeased id w d n
  unfolding claim claim_context claim_open leaves_of
  claim-IsLeased id w d h =
      let (c, e, h1, s1) =
        bind-ok (reads (load r plain date_parse id))
          (λ c. claim_context r plain date_parse faults iso clock random_id id c) w h in
      let (l, event) = load-event id w c e in
      let not_ended = not_terminal r plain date_parse faults iso clock random_id id in
      let open_claim = claim_open r plain date_parse faults iso clock random_id id c in
      let (_, e2, h2, s2) = bind-ok not_ended (λ _. open_claim) w h1 in
      let (_, same) = not_terminal-IsOpen r plain date_parse faults iso clock random_id id w e2 in
      let h3 = subst (λ u. (open_claim u).0 ≡ ok d) same h2 in
      let deadline = not_expired r plain date_parse faults iso clock random_id id c in
      let in_time = claim_in_time r plain date_parse faults iso clock random_id id c in
      let (_, e4, h4, s4) = bind-ok deadline (λ _. in_time) w h3 in
      let (_, same') = not_expired-kept r plain date_parse faults iso clock random_id id c w e4 in
      let h5 = subst (λ u. (in_time u).0 ≡ ok d) same' h4 in
      let (n, given, later, last, leaf) = claim_in_time-leaf id c (now clock w).1 l d event h5 in
      let states = s1 ∙ s2 ∙ ap (λ u. (open_claim u).1) same ∙ s4 ∙ ap (λ u. (in_time u).1) same' in
      (
        n,
        (
          c,
          load-IsTask r plain date_parse id c w e,
          given,
          omega (arith, later),
          ap (λ u. u.clock_reads) states ∙ last,
          ap (λ u. lookup "ui-claim.json" (leaves_of id u)) states ∙ leaf,
        ),
      )

module _ (r : Runtime) (faithful : IsFaithful r) where
  open r use {Document}

  -- a claim that was written is read back as itself
  HasValue-written :
      (found : Option (Leaf Document)) (v u : Json)
      → found ≡ some (written r v)
      → HasValue r found u
      → u ≡ v
  HasValue-written found v u e (l, text, k, readable, parsed) =
      let same = readable.has_text in ground (arith, faithful.parse-pretty v)

  module _ (plain : String → r.Document) (date_parse : String → Option ℕ) where
    -- Two calls of `claim` for the same reply, one after the other, both return a lease, at whatever
    -- times and with whatever random identifiers and faults. Then each call has returned the text,
    -- task and turn of a reply that the folder held, and left the claim of the lease that it returned,
    -- with the hash of that text, dated by the last time that the call read, after that of its
    -- deadline; and the first claim's two minutes were over by the second call's own clock.
    pub claim-exclusive :
        (faults faults' : ℕ → Bool) (iso : ℕ → String) (clock clock' : ℕ → ℕ)
        (random_id random_id' : ℕ → String) (id : String) (w : World Document) (d d' : Claimed)
        → ((n : ℕ) → date_parse (iso n) ≡ some n)
        → (claim r plain date_parse faults iso clock random_id id w).0 ≡ ok d
        → (claim r plain date_parse faults' iso clock' random_id' id
            (claim r plain date_parse faults iso clock random_id id w).1).0
          ≡ ok d'
        → let w' = (claim r plain date_parse faults iso clock random_id id w).1 in
          (n : ℕ) × (m : ℕ) × IsLeased r plain date_parse faults iso clock random_id id w d n
          × IsLeased r plain date_parse faults' iso clock' random_id' id w' d' m
          × (clock n + 120000 < clock' (suc w'.clock_reads))
    unfolding get
    claim-exclusive faults faults' iso clock clock' random_id random_id' id w d d' dates h h' =
        let w' = (claim r plain date_parse faults iso clock random_id id w).1 in
        let (n, leased) = claim-IsLeased r plain date_parse faults iso clock random_id id w d h in
        let (m, leased') =
          claim-IsLeased r plain date_parse faults' iso clock' random_id' id w' d' h' in
        let (c, _, _, _, _, leaf) = leased in
        let v = new_claim r plain date_parse faults iso clock random_id id c d.lease_id (clock n) in
        let (c', free) =
          claim-IsFree r plain date_parse faults' iso clock' random_id' id w' d' h' in
        (
          n,
          m,
          leased,
          leased',
          elim free.is_unclaimed [
            | inl none_there ↦ absurd (ground (arith, leaf))
            | inr (u, there, ended) ↦
                let same = HasValue-written _ v u leaf there in
                let ends =
                  subst (λ x. get "expires_at" x ≡ some (str ended.end_text)) same
                    ended.expires_at in
                let parsed = ended.end_parsed in
                let over = ended.is_over in ground (arith, dates (clock n + 120000))
          ],
        )
