-- ===== src/Ledger/Ready.antt =====
-- A directory of bridge/src/ledger.mjs that an opening has made ready stays so.
use hermes_codex_bridge.Base.{
  ℕ, String, ◌≡◌, Bool, true, Option, List, [], ◌∷◌, ok, arith, eq_iff, All,
}
use hermes_codex_bridge.Base.Assoc.{insert}
use hermes_codex_bridge.Base.Text.{is_sha256}
use hermes_codex_bridge.Ledger.Claims.{
  Entry, Disk, claim_text, claim_entry, entry_text, link_claim, link_all, commit_claim,
  create_canonical_claim, tick, validate_entries,
}
use hermes_codex_bridge.Ledger.Open.{
  Ledger, readiness_exists, append_legacy, hash_key, mark_hash, mark,
}
use hermes_codex_bridge.Ledger.Once.{after_all}

-- every entry is a claim
abbrev pub AreValid : List (String × Entry) → Type 0
AreValid claims = validate_entries claims ≡ ok tt

-- the marker is there, and every entry is a claim
abbrev pub IsReady : Disk → Type 0
IsReady d = (readiness_exists d.ready ≡ ok true) × AreValid d.claims

-- the texts are SHA-256 in hexadecimal
abbrev pub AreHashes : List String → Type 0
AreHashes = All (λ (h : String). is_sha256 h ≡ true)

insert-AreValid :
    (hash : String) (claims : List (String × Entry))
    → is_sha256 hash ≡ true
    → AreValid claims
    → AreValid (insert hash (claim_entry hash) claims)
unfolding validate_entries entry_text insert
insert-AreValid hash [] h k = ground (arith, eq_iff (claim_text hash) (claim_text hash))
insert-AreValid hash ((n, e) ∷ rest) h k =
    let later = insert-AreValid hash rest h in
    ground (arith, eq_iff (claim_text hash) (claim_text hash))

link_claim-AreValid :
    (claims : List (String × Entry)) (hash : String)
    → is_sha256 hash ≡ true
    → AreValid claims
    → AreValid (link_claim claims hash).1
unfolding link_claim
link_claim-AreValid claims hash h k = ground (arith, insert-AreValid hash claims h k)

link_all-AreValid :
    (claims : List (String × Entry)) (hs : List String)
    → AreHashes hs
    → AreValid claims
    → AreValid (link_all claims hs)
unfolding link_all
link_all-AreValid claims [] h k = k
link_all-AreValid claims (x ∷ xs) (h, hs) k =
    link_all-AreValid (link_claim claims x).1 xs hs (link_claim-AreValid claims x h k)

module _ (fails : ℕ → Bool) (others : ℕ → List String)
    (linked : (n : ℕ) → AreHashes (others n)) where
  commit_claim-IsReady :
      (hash : String) (d : Disk)
      → is_sha256 hash ≡ true
      → IsReady d
      → IsReady (commit_claim fails others hash d).1
  unfolding commit_claim
  commit_claim-IsReady hash d h (ready, valid) =
      let around = link_all-AreValid d.claims (others d.operations) (linked d.operations) valid in
      let done = link_claim-AreValid (link_all d.claims (others d.operations)) hash h around in
      (ground arith, ground arith)

  create_canonical_claim-IsReady :
      (hash : String) (d : Disk)
      → is_sha256 hash ≡ true
      → IsReady d
      → IsReady (create_canonical_claim fails others hash d).1
  unfolding create_canonical_claim
  create_canonical_claim-IsReady hash d h (ready, valid) =
      let (marker, done) = commit_claim-IsReady hash (tick d) h (ready, valid) in
      (ground arith, ground arith)

  module _ (hash_of : String → String) (appended : ℕ → Option String)
      (hashes : (s : String) → is_sha256 (hash_of s) ≡ true) where
    append_legacy-IsReady :
        (hash : String) (d : Disk)
        → IsReady d
        → IsReady (append_legacy fails others hash_of appended hash d).1
    unfolding append_legacy
    append_legacy-IsReady hash d (ready, valid) = (ground arith, ground arith)

    mark_hash-IsReady :
        (hash : String) (d : Disk)
        → is_sha256 hash ≡ true
        → IsReady d
        → IsReady (mark_hash fails others hash_of appended hash d).1
    unfolding mark_hash
    mark_hash-IsReady hash d h (ready, valid) =
        let d' = (create_canonical_claim fails others hash d).1 in
        let (marker, done) = create_canonical_claim-IsReady hash d h (ready, valid) in
        let (marker', done') = append_legacy-IsReady hash d' (marker, done) in
        (ground arith, ground arith)

    mark-IsReady :
        (key : String) (l : Ledger)
        → IsReady l.disk
        → IsReady (mark fails others hash_of appended key l).1.disk
    unfolding mark hash_key
    mark-IsReady key l (ready, valid) =
        let (marker, done) = mark_hash-IsReady (hash_of key) l.disk (hashes key) (ready, valid) in
        (ground arith, ground arith)

    -- whatever is marked
    pub after_all-IsReady :
        (keys : List String) (l : Ledger)
        → IsReady l.disk
        → IsReady (after_all fails others hash_of appended keys l).disk
    unfolding after_all
    after_all-IsReady [] l h = h
    after_all-IsReady (key ∷ keys) l h =
        after_all-IsReady keys (mark fails others hash_of appended key l).1 (mark-IsReady key l h)
