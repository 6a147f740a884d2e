-- ===== src/Ledger/Kept.antt =====
-- A claim file that is there stays as it is, whatever this bridge and the others do.
use hermes_codex_bridge.Base.{
  ℕ, String, ◌≡◌, inl, inr, Bool, Option, some, List, [], ◌∷◌, arith, eq_iff, Result-cases,
}
use hermes_codex_bridge.Base.Assoc.{lookup, lookup-insert}
use hermes_codex_bridge.Ledger.Claims.{
  Entry, Disk, claim_entry, link_claim, link_all, commit_claim, create_canonical_claim, tick,
}
use hermes_codex_bridge.Ledger.Open.{
  Ledger, read_legacy_ledger, publish_readiness_marker, migrate, prepare, open_ledger,
  append_legacy, mark_hash, mark, hash_key,
}

-- the second directory holds the entries of the first
abbrev pub Extends : List (String × Entry) → List (String × Entry) → Type 0
Extends claims claims' =
    (h : String) (e : Entry) → lookup h claims ≡ some e → lookup h claims' ≡ some e

pub link_claim-Extends :
    (claims : List (String × Entry)) (hash : String) → Extends claims (link_claim claims hash).1
unfolding link_claim
link_claim-Extends claims hash h e there =
    ground (arith, eq_iff hash h, lookup-insert hash h (claim_entry hash) claims)

pub link_all-Extends :
    (claims : List (String × Entry)) (hs : List String) → Extends claims (link_all claims hs)
unfolding link_all
link_all-Extends claims [] h e there = there
link_all-Extends claims (k ∷ ks) h e there =
    link_all-Extends (link_claim claims k).1 ks h e (link_claim-Extends claims k h e there)

module _ (fails : ℕ → Bool) (others : ℕ → List String) where
  commit_claim-Extends :
      (hash : String) (d : Disk) → Extends d.claims (commit_claim fails others hash d).1.claims
  unfolding commit_claim
  commit_claim-Extends hash d h e there =
      let around = link_all-Extends d.claims (others d.operations) h e there in
      let linked = link_claim-Extends (link_all d.claims (others d.operations)) hash h e around in
      ground arith

  pub create_canonical_claim-Extends :
      (hash : String) (d : Disk)
      → Extends d.claims (create_canonical_claim fails others hash d).1.claims
  unfolding create_canonical_claim
  create_canonical_claim-Extends hash d h e there =
      let committed = commit_claim-Extends hash (tick d) h e there in ground arith

  pub migrate-Extends :
      (hashes : List String) (d : Disk) → Extends d.claims (migrate fails others hashes d).1.claims
  unfolding migrate
  migrate-Extends [] d h e there = there
  migrate-Extends (k ∷ ks) d h e there =
      let d' = (create_canonical_claim fails others k d).1 in
      let made = create_canonical_claim-Extends k d h e there in
      ground (arith, migrate-Extends ks d h e there, migrate-Extends ks d' h e made)

  publish-claims : (d : Disk) → (publish_readiness_marker fails others d).1.claims ≡ d.claims
  unfolding publish_readiness_marker
  publish-claims d = ground arith

  prepare-Extends :
      (hashes : List String) (d : Disk) → Extends d.claims (prepare fails others hashes d).1.claims
  unfolding prepare
  prepare-Extends hashes d h e there =
      let migrated = migrate-Extends hashes d h e there in
      let published = publish-claims (migrate fails others hashes d).1 in ground arith

  pub open_ledger-Extends : (d : Disk) → Extends d.claims (open_ledger fails others d).1.claims
  unfolding open_ledger
  open_ledger-Extends d h e there = elim (Result-cases (read_legacy_ledger d.legacy)) [
    | inl (hashes, r) ↦ let prepared = prepare-Extends hashes d h e there in ground arith
    | inr (c, r) ↦ ground arith
  ]

  module _ (hash_of : String → String) (appended : ℕ → Option String) where
    pub mark_hash-Extends :
        (hash : String) (d : Disk)
        → Extends d.claims (mark_hash fails others hash_of appended hash d).1.claims
    unfolding mark_hash append_legacy
    mark_hash-Extends hash d h e there =
        let made = create_canonical_claim-Extends hash d h e there in ground arith

    pub mark-Extends :
        (key : String) (l : Ledger)
        → Extends l.disk.claims (mark fails others hash_of appended key l).1.disk.claims
    unfolding mark
    mark-Extends key l h e there =
        elim (Result-cases (hash_key fails others hash_of appended key)) [
          | inl (hash, k) ↦ let marked = mark_hash-Extends hash l.disk h e there in ground arith
          | inr (c, k) ↦ ground arith
        ]
