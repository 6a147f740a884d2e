-- ===== src/CandidateStore/Transition.antt =====
-- `transition` of the candidate store moves one record along `TRANSITIONS`, and nothing else.
use hermes_codex_bridge.Base.{ℕ, String, ◌≡◌, Bool, true, false, some, arith, str_eq, ok, all}
use hermes_codex_bridge.Base.Json.{Json, Fields, obj, keys, str}
use hermes_codex_bridge.Runtime.{Runtime, IsFaithful}
use hermes_codex_bridge.CandidateStore.Record.{
  State, Candidate, may_follow, normalize_candidate, valid_state,
}
use hermes_codex_bridge.CandidateStore.Normal.{IsWellFormed, normalize_candidate-IsWellFormed}
use hermes_codex_bridge.CandidateStore.Files.{Directory, read_record, replace_record}
use hermes_codex_bridge.CandidateStore.Patch.{SameMessage, normalize_candidate-patched}
use hermes_codex_bridge.CandidateStore.Store.{Store, transition, next_record, patched, check_patch}
use hermes_codex_bridge.CandidateStore.Laws.{written, read_record-IsWellFormed}

patch-keys :
    (patch : Json) (gs : Fields)
    → check_patch patch ≡ ok gs
    → all (str_eq "reason") (keys gs) ≡ true
unfolding check_patch
patch-keys (obj fs) gs h = ground arith
patch-keys Json.null gs h = cc
patch-keys _ gs h = cc

-- What a successful run of the checks of `transition` has found.
record Found (r : Runtime) (root : Directory r.Document) (id next : String) (patch : Json)
    (d : Candidate) : Type 0 where
  current : Candidate
  fields : Fields
  state : State
  read : read_record r root id false ≡ ok (some current)
  named : valid_state (some (str next)) ≡ ok state
  patch_ok : check_patch patch ≡ ok fields
  allowed : may_follow current.state state ≡ true
  normal : normalize_candidate r (patched current fields state) ≡ ok d

next_record-Found :
    (r : Runtime) (root : Directory r.Document) (id next : String) (patch : Json) (d : Candidate)
    → next_record r root id next patch ≡ ok d
    → Found r root id next patch d
unfolding next_record
next_record-Found r root id next patch d h = ground arith

module _ (r : Runtime) (faithful : IsFaithful r) (faults : ℕ → Bool) where
  transition-parts :
      (id next : String) (patch : Json) (d : Candidate) (s s' : Store r.Document)
      → transition r faults id next patch s ≡ (ok d, s')
      → (next_record r s.disk.leaves id next patch ≡ ok d) × (s' ≡ written r faithful faults d s)
  unfolding transition replace_record
  transition-parts id next patch d s s' h = ground arith

  pub transition-next :
      (id next : String) (patch : Json) (d : Candidate) (s : Store r.Document)
      → next_record r s.disk.leaves id next patch ≡ ok d
      → s.is_closed ≡ false
      → faults s.disk.writes ≡ false
      → transition r faults id next patch s ≡ (ok d, written r faithful faults d s)
  unfolding transition replace_record
  transition-next id next patch d s found o works = ground arith

  -- A successful transition finds a readable record, whose state `TRANSITIONS` lets move to the
  -- named one; what it writes is the same message in that state.
  pub transition_moves :
      (id next : String) (patch : Json) (d : Candidate) (s s' : Store r.Document)
      → transition r faults id next patch s ≡ (ok d, s')
      → (c : Candidate) × IsWellFormed r d
        × (read_record r s.disk.leaves id false ≡ ok (some c))
        × (may_follow c.state d.state ≡ true)
        × (valid_state (some (str next)) ≡ ok d.state)
        × SameMessage c d
        × (s' ≡ written r faithful faults d s)
  transition_moves id next patch d s s' h =
      let (found, after) = transition-parts id next patch d s s' h in
      let f = next_record-Found r s.disk.leaves id next patch d found in
      let w = read_record-IsWellFormed r faithful s.disk.leaves id false f.current f.read in
      let (same, moved) =
        normalize_candidate-patched r faithful f.current d f.fields f.state w
          (patch-keys patch f.fields f.patch_ok) f.normal in
      (
        f.current,
        normalize_candidate-IsWellFormed r faithful _ d f.normal,
        f.read,
        rw moved f.allowed,
        rw moved f.named,
        same,
        after,
      )
