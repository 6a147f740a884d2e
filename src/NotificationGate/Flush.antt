-- ===== src/NotificationGate/Flush.antt =====
-- What a flush of the notification gate publishes.
use mathlib.Core.List.{Memᴰ, append_assoc}
use hermes_codex_bridge.Base.{
  ℕ, suc, ◌≤◌, ◌≡◌, ◌⊎◌, ◌≢◌, refl, sym, ap, ◌∙◌, String, Bool, true, Option, some, List, [], ◌∷◌,
  ◌++◌, arith, eq_iff, Bool-cases, inl, inr, Result-cases, subst, All-append, All-mono, ok, All,
  if◌then◌else◌,
}
use hermes_codex_bridge.Base.Json.{Json, or_else, obj, end}
use hermes_codex_bridge.Runtime.{Runtime}
use hermes_codex_bridge.CandidateStore.Record.{Candidate, State, ready, published}
use hermes_codex_bridge.CandidateStore.Store.{list_candidates}
use hermes_codex_bridge.NotificationGate.Gate.{
  World, Limits, Presence, away, unknown, flush, active_states, is_due, flush_one, flush_listed,
  deliver, send, make_ready, move, finite_date_ms,
}

-- `c` may leave at a time that the clock showed.
pub record IsDue (clock : ℕ → Option ℕ) (sample : Presence) (c : Candidate) : Type 0 where
  pub reading : ℕ
  pub now : ℕ
  pub read : clock reading ≡ some now
  pub settled : (c.kind ≢ "FINAL_RESPONSE") ⊎ (c.stabilize_until_ms ≤ now)
  pub waited : (sample ≡ away) ⊎ (c.local_deadline_ms ≤ now)

module _ (r : Runtime) (locale_le : String → String → Bool) (faults : ℕ → Bool) (limits : Limits)
    (clock : ℕ → Option ℕ) (publish : ℕ → Option (Option String)) (aborted : ℕ → Bool) where
  open r use {Document}

  outbox-move :
      (id : String) (q : State) (patch : Json) (w : World Document)
      → (move r locale_le faults limits clock id q patch w).1.outbox ≡ w.outbox
  unfolding move
  outbox-move id q patch w = refl

  outbox-make_ready :
      (c : Candidate) (w : World Document)
      → (make_ready r locale_le faults limits clock publish aborted c w).1.outbox ≡ w.outbox
  unfolding make_ready
  outbox-make_ready c w = ground (arith, outbox-move c.event_id ready (obj end) w)

  -- The outbox after a delivery: as it was, or with this message on top.
  abbrev Sent : Candidate → World Document → World Document → Type 0
  Sent c w w' = (w'.outbox ≡ w.outbox) ⊎ (w'.outbox ≡ (c.event_id, c.message) ∷ w.outbox)

  deliver-Sent :
      (c : Candidate) (w : World Document)
      → Sent c w (deliver r locale_le faults limits clock publish aborted c w).1
  unfolding deliver send
  deliver-Sent c w =
      let (a, w1) = make_ready r locale_le faults limits clock publish aborted c w in
      let w2 : World Document = record w1 { outbox = (c.event_id, c.message) ∷ w1.outbox } in
      ground (arith, outbox-make_ready c w, outbox-move c.event_id published (obj end) w2)

  flush_one-Sent :
      (sample : Presence) (c : Candidate) (w : World Document)
      → let w' = (flush_one r locale_le faults limits clock publish aborted sample c w).1 in
        (w'.outbox ≡ w.outbox)
        ⊎ ((w'.outbox ≡ (c.event_id, c.message) ∷ w.outbox)
            × ((t : ℕ) × (clock w.clock_reads ≡ some t)
                × (is_due r locale_le faults limits clock publish aborted sample c t ≡ true)))
  unfolding flush_one finite_date_ms
  flush_one-Sent sample c w =
      let w1 : World Document = record w { clock_reads = suc w.clock_reads } in
      ground (arith, deliver-Sent c w1)

  is_due-IsDue :
      (sample : Presence) (c : Candidate) (n t : ℕ)
      → clock n ≡ some t
      → is_due r locale_le faults limits clock publish aborted sample c t ≡ true
      → IsDue clock sample c
  is_due-IsDue sample c n t read h = record {
    reading = n;
    now = t;
    read = read;
    settled = ground (arith, eq_iff c.kind "FINAL_RESPONSE");
    waited = ground arith;
  }

  -- An entry of the outbox is the message of a listed candidate that was due
  pub record IsDelivered (sample : Presence) (listed : List Candidate) (entry : String × Json)
      : Type 0 where
    pub candidate : Candidate
    pub mem : Memᴰ candidate listed
    pub key : entry.0 ≡ candidate.event_id
    pub message : entry.1 ≡ candidate.message
    pub due : IsDue clock sample candidate

  IsDelivered-cons :
      (sample : Presence) (c : Candidate) (cs : List Candidate) (e : String × Json)
      → IsDelivered sample cs e
      → IsDelivered sample (c ∷ cs) e
  IsDelivered-cons sample c cs e d = record {
    candidate = d.candidate;
    mem = Memᴰ.tail d.mem;
    key = d.key;
    message = d.message;
    due = d.due;
  }

  abbrev pub Grown : Presence → List Candidate → World Document → World Document → Type 0
  Grown sample listed w w' =
      (new : List (String × Json)) × (w'.outbox ≡ new ++ w.outbox)
      × All (IsDelivered sample listed) new

  round-Grown :
      (sample : Presence) (c : Candidate) (cs : List Candidate) (w : World Document)
      → Grown sample
          (c ∷ cs)
          w
          (flush_one r locale_le faults limits clock publish aborted sample c w).1
  round-Grown sample c cs w = elim (flush_one-Sent sample c w) [
    | inl same ↦ ([], same, tt)
    | inr (top, (t, read, due)) ↦ (
      (c.event_id, c.message) ∷ [],
      top,
      (
        record {
          candidate = c;
          mem = Memᴰ.head refl;
          key = refl;
          message = refl;
          due = is_due-IsDue sample c w.clock_reads t read due;
        },
        tt,
      ),
    )
  ]

  later-Grown :
      (sample : Presence) (c : Candidate) (cs : List Candidate) (w w1 w2 : World Document)
      → Grown sample (c ∷ cs) w w1
      → Grown sample cs w1 w2
      → Grown sample (c ∷ cs) w w2
  later-Grown sample c cs w w1 w2 (new, e, h) (more, e', h') = (
    more ++ new,
    e' ∙ ap (λ (l : List (String × Json)). more ++ l) e ∙ sym (append_assoc more new w.outbox),
    All-append (IsDelivered sample (c ∷ cs)) more new
        (All-mono (IsDelivered sample cs) (IsDelivered sample (c ∷ cs)) more
          (IsDelivered-cons sample c cs) h')
        h,
  )

  flush_listed-cases :
      (sample : Presence) (c : Candidate) (cs : List Candidate) (round count : ℕ)
      (w : World Document)
      → let w1 = (flush_one r locale_le faults limits clock publish aborted sample c w).1 in
        let w' =
          (flush_listed r locale_le faults limits clock publish aborted sample
            (c ∷ cs)
            round
            count
            w).1 in
        (w' ≡ w)
        ⊎ ((w' ≡ w1)
            ⊎ ((n : ℕ) × (w'
                  ≡ (flush_listed r locale_le faults limits clock publish aborted sample cs
                      (suc round)
                      n
                      w1).1)))
  unfolding flush_listed
  flush_listed-cases sample c cs round count w = elim (Bool-cases (aborted round)) [
    | inl stop ↦ inl (ground arith)
    | inr go ↦
        elim (Result-cases
          (flush_one r locale_le faults limits clock publish aborted sample c w).0) [
            | inr (e, failed) ↦ inr (inl (ground arith))
            | inl (sent, h) ↦ inr (inr (if sent then suc count else count, ground arith))
          ]
  ]

  flush_listed-Grown :
      (sample : Presence) (cs : List Candidate) (round count : ℕ) (w : World Document)
      → Grown sample cs w
          (flush_listed r locale_le faults limits clock publish aborted sample cs round count w).1
  flush_listed-Grown sample [] round count w = unfold flush_listed in ([], refl, tt)
  flush_listed-Grown sample (c ∷ cs) round count w =
      let w1 = (flush_one r locale_le faults limits clock publish aborted sample c w).1 in
      let first = round-Grown sample c cs w in
      elim (flush_listed-cases sample c cs round count w) [
        | inl e ↦ ([], ap (λ (x : World Document). x.outbox) e, tt)
        | inr (inl e) ↦ subst (Grown sample (c ∷ cs) w) (sym e) first
        | inr (inr (n, e)) ↦ subst (Grown sample (c ∷ cs) w) (sym e) (
            later-Grown sample c cs w w1
              (flush_listed r locale_le faults limits clock publish aborted sample cs (suc round) n
                w1).1
              first (flush_listed-Grown sample cs (suc round) n w1))
      ]

  flush-cases :
      (observed : Option Presence) (w : World Document)
      → let w' = (flush r locale_le faults limits clock publish aborted observed w).1 in
        (w'.outbox ≡ w.outbox)
        ⊎ ((listed : List Candidate) × ((list_candidates r locale_le
                (some active_states)
                w.candidates).0
              ≡ ok listed)
            × ((s : World Document) × (s.outbox ≡ w.outbox)
                × (w'
                    ≡ (flush_listed r locale_le faults limits clock publish aborted
                        (or_else observed unknown)
                        listed
                        0
                        0
                        s).1)))
  unfolding flush
  flush-cases observed w =
      elim (Result-cases (list_candidates r locale_le (some active_states) w.candidates).0) [
        | inr (e, h) ↦ inl (ground arith)
        | inl (listed, h) ↦ inr (
          listed,
          h,
          (
            record w {
              candidates = (list_candidates r locale_le (some active_states) w.candidates).1;
            },
            refl,
            ground arith,
          ),
        )
      ]

  -- Whatever the presence, the clock, the answers of `publish` and the signal do, a flush only
  -- adds to the calls of `publish`, and each added call is the message of a candidate that the
  -- store listed as pending or ready and that was due at a time the clock showed: a final response
  -- had settled, and the user was away or the local grace was over.
  pub flush_only_due :
      (observed : Option Presence) (w : World Document)
      → let w' = (flush r locale_le faults limits clock publish aborted observed w).1 in
        (w'.outbox ≡ w.outbox)
        ⊎ ((listed : List Candidate) × ((list_candidates r locale_le
                (some active_states)
                w.candidates).0
              ≡ ok listed)
            × Grown (or_else observed unknown) listed w w')
  flush_only_due observed w = elim (flush-cases observed w) [
    | inl same ↦ inl same
    | inr (listed, h, (s, kept, after)) ↦
        let (new, e, all) = flush_listed-Grown (or_else observed unknown) listed 0 0 s in
        inr (
          listed,
          h,
          (
            new,
            ap (λ (x : World Document). x.outbox) after
                ∙ e
                ∙ ap (λ (l : List (String × Json)). new ++ l) kept,
            all,
          ),
        )
  ]
