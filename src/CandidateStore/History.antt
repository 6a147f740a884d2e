-- ===== src/CandidateStore/History.antt =====
-- Any sequence of calls of the candidate store, seen from one record.
use hermes_codex_bridge.Base.{
  ℕ, String, ◌≡◌, ◌⊎◌, sym, ◌∙◌, subst, Bool, true, false, Option, none, some, List, [], ◌∷◌, arith,
  str_eq, eq_iff, leb, leb_iff, Bool-cases, inl, inr, Result-cases, Result, ok, err, ap,
}
use hermes_codex_bridge.Base.Json.{Json}
use hermes_codex_bridge.Runtime.{Runtime, IsFaithful}
use hermes_codex_bridge.CandidateStore.Record.{
  State, Code, Candidate, may_follow, normalize_candidate, to_json,
}
use hermes_codex_bridge.CandidateStore.Normal.{IsWellFormed, normalize_candidate-IsWellFormed}
use hermes_codex_bridge.CandidateStore.Files.{Directory, read_record, replace_record}
use hermes_codex_bridge.CandidateStore.Patch.{SameMessage}
use hermes_codex_bridge.CandidateStore.Store.{Store, put, transition}
use hermes_codex_bridge.CandidateStore.Laws.{
  read_record-replaced, read_record-too_large, written, read_record-replaced_other,
}
use hermes_codex_bridge.CandidateStore.Transition.{transition_moves}

pub data Op : Type 0 where
  put_op : Json → Op
  move_op : (id next : String) → (patch : Json) → Op

module _ (r : Runtime) (faithful : IsFaithful r) (faults : ℕ → Bool) where
  pub perform : Op → Store r.Document → Store r.Document
  perform (put_op input) s = (put r faults input s).1
  perform (move_op id next patch) s = (transition r faults id next patch s).1

  pub perform_all : List Op → Store r.Document → Store r.Document
  unfolding perform
  perform_all [] s = s
  perform_all (op ∷ ops) s = perform_all ops (perform op s)

  -- what `get` reads of a record
  abbrev pub sight : String → Store r.Document → Result Code (Option Candidate)
  sight id s = read_record r s.disk.leaves id true

  module _ (s : Store r.Document) where
    -- A write happens if the store is open and the disk works.
    write-cases :
        ((s.is_closed ≡ false) × (faults s.disk.writes ≡ false))
        ⊎ ((s.is_closed ≡ true) ⊎ (faults s.disk.writes ≡ true))
    write-cases = ground arith

    put-none :
        (input : Json) (c : Candidate)
        → normalize_candidate r input ≡ ok c
        → sight c.event_id s ≡ ok none
        → ((put r faults input s).1.disk.leaves ≡ s.disk.leaves)
          ⊎ ((put r faults input s).1 ≡ written r faithful faults c s)
    unfolding put replace_record
    put-none input c n absent = elim write-cases [
      | inl (o, works) ↦ inr (ground arith)
      | inr stuck ↦ inl (ground arith)
    ]

    put-some :
        (input : Json) (c : Candidate)
        → normalize_candidate r input ≡ ok c
        → (sight c.event_id s ≡ ok none) ⊎ ((put r faults input s).1.disk.leaves ≡ s.disk.leaves)
    unfolding put
    put-some input c n = ground arith

    put-fails :
        (input : Json) (e : Code)
        → normalize_candidate r input ≡ err e
        → (put r faults input s).1.disk.leaves ≡ s.disk.leaves
    unfolding put
    put-fails input e n = ground arith

    put-leaves :
        (input : Json)
        → ((put r faults input s).1.disk.leaves ≡ s.disk.leaves)
          ⊎ ((c : Candidate) × IsWellFormed r c
              × (sight c.event_id s ≡ ok none)
              × ((put r faults input s).1 ≡ written r faithful faults c s))
    put-leaves input = elim (Result-cases (normalize_candidate r input)) [
      | inr (e, n) ↦ inl (put-fails input e n)
      | inl (c, n) ↦ elim (put-some input c n) [
        | inr same ↦ inl same
        | inl absent ↦ elim (put-none input c n absent) [
          | inl same ↦ inl same
          | inr wrote ↦
              inr (c, normalize_candidate-IsWellFormed r faithful input c n, absent, wrote)
        ]
      ]
    ]

    transition-fails :
        (id next : String) (patch : Json) (e : Code)
        → (transition r faults id next patch s).0 ≡ err e
        → (transition r faults id next patch s).1.disk.leaves ≡ s.disk.leaves
    unfolding transition replace_record
    transition-fails id next patch e h = ground arith

    -- A call writes no file, or a new record, or a next state of a record that is there.
    data Wrote (s' : Store r.Document) : Type 0 where
      nothing : s'.disk.leaves ≡ s.disk.leaves → Wrote s'
      new :
          (c : Candidate)
          → IsWellFormed r c
          → sight c.event_id s ≡ ok none
          → s' ≡ written r faithful faults c s
          → Wrote s'
      moved :
          (id : String) (c d : Candidate)
          → IsWellFormed r d
          → sight id s ≡ ok (some c)
          → may_follow c.state d.state ≡ true
          → SameMessage c d
          → s' ≡ written r faithful faults d s
          → Wrote s'

    read-missing :
        (root : Directory r.Document) (id : String) (c : Candidate)
        → read_record r root id false ≡ ok (some c)
        → read_record r root id true ≡ ok (some c)
    unfolding read_record
    read-missing root id c h = ground arith

    perform-Wrote : (op : Op) → Wrote (perform op s)
    unfolding perform
    perform-Wrote (put_op input) = elim (put-leaves input) [
      | inl same ↦ nothing same
      | inr (c, w, absent, wrote) ↦ new c w absent wrote
    ]
    perform-Wrote (move_op id next patch) =
        elim (Result-cases (transition r faults id next patch s).0) [
          | inr (e, h) ↦ nothing (transition-fails id next patch e h)
          | inl (d, h) ↦
              let (c, w, there, allowed, named, same, after) =
                transition_moves r faithful faults id next patch d s
                  (transition r faults id next patch s).1 (ground (arith, h)) in
              moved id c d w (read-missing s.disk.leaves id c there) allowed same after
        ]

  -- every readable record stands in the file of its own identifier
  abbrev pub IsNamed : Store r.Document → Type 0
  IsNamed s = (id : String) (c : Candidate) → sight id s ≡ ok (some c) → c.event_id ≡ id

  abbrev pub IsTerminal : State → Type 0
  IsTerminal q = (next : State) → may_follow q next ≡ false

  sight-written_other :
      (c : Candidate) (s : Store r.Document) (id : String)
      → str_eq c.event_id id ≡ false
      → sight id (written r faithful faults c s) ≡ sight id s
  sight-written_other c s id h = read_record-replaced_other r faithful c _ s.disk.leaves id true h

  sight-written :
      (c d : Candidate) (s : Store r.Document)
      → IsWellFormed r c
      → sight c.event_id (written r faithful faults c s) ≡ ok (some d)
      → d ≡ c
  sight-written c d s w h = elim (Bool-cases (leb (r.byte_length (r.pretty (to_json c))) 3145728)) [
    | inl fits ↦
        cc (h, read_record-replaced r faithful c s.disk.leaves true w ((leb_iff _ _).0 fits))
    | inr large ↦ cc (h, read_record-too_large r faithful c s.disk.leaves w (ground arith))
  ]

  pub written-IsNamed :
      (c : Candidate) (s : Store r.Document)
      → IsWellFormed r c
      → IsNamed s
      → IsNamed (written r faithful faults c s)
  written-IsNamed c s w named id d h = elim (Bool-cases (str_eq c.event_id id)) [
    | inl e ↦
        let here = (eq_iff c.event_id id).0 e in
        ap (λ (x : Candidate). x.event_id)
          (sight-written c d s w
            (subst (λ j. sight j (written r faithful faults c s) ≡ ok (some d)) (sym here) h))
        ∙ here
    | inr n ↦ named id d (sym (sight-written_other c s id n) ∙ h)
  ]

  perform-IsNamed : (op : Op) (s : Store r.Document) → IsNamed s → IsNamed (perform op s)
  perform-IsNamed op s named = go (perform-Wrote s op)
    where
      go : {s' : Store r.Document} → Wrote s s' → IsNamed s'
      go (nothing same) =
          λ id c h. named id c (ap (λ root. read_record r root id true) (sym same) ∙ h)
      go (new c w absent e) = subst IsNamed (sym e) (written-IsNamed c s w named)
      go (moved id c d w there allowed same e) = subst IsNamed (sym e) (written-IsNamed d s w named)

  perform-terminal :
      (op : Op) (s : Store r.Document) (id : String) (c : Candidate)
      → IsNamed s
      → sight id s ≡ ok (some c)
      → IsTerminal c.state
      → sight id (perform op s) ≡ ok (some c)
  perform-terminal op s id c named there final = go (perform-Wrote s op)
    where
      kept :
          (d : Candidate) {s' : Store r.Document}
          → s' ≡ written r faithful faults d s
          → ¬ (d.event_id ≡ id)
          → sight id s' ≡ ok (some c)
      kept d e other =
          subst (λ t. sight id t ≡ ok (some c)) (sym e)
            (sight-written_other d s id (ground (arith, eq_iff d.event_id id)) ∙ there)

      go : {s' : Store r.Document} → Wrote s s' → sight id s' ≡ ok (some c)
      go (nothing same) = ap (λ root. read_record r root id true) same ∙ there
      go (new d w absent e) =
          kept d e (λ here. cc (subst (λ j. sight j s ≡ ok none) here absent, there))
      go (moved j b d w found allowed same e) = kept d e λ here.
          let at_id : j ≡ id = sym (named j b found) ∙ sym same.event_id ∙ here in
          let b_is_c : b ≡ c = cc (subst (λ k. sight k s ≡ ok (some b)) at_id found, there) in
          cc (allowed, b_is_c, final d.state)

  -- A record in a state with no successor is never changed again: after any calls of `put` and
  -- `transition`, whether they fail or not, `get` returns the same record.
  pub perform_all-terminal :
      (ops : List Op) (s : Store r.Document) (id : String) (c : Candidate)
      → IsNamed s
      → sight id s ≡ ok (some c)
      → IsTerminal c.state
      → sight id (perform_all ops s) ≡ ok (some c)
  unfolding perform_all
  perform_all-terminal [] s id c named there final = there
  perform_all-terminal (op ∷ ops) s id c named there final =
      perform_all-terminal ops (perform op s) id c (perform-IsNamed op s named)
        (perform-terminal op s id c named there final) final
