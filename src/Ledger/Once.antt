-- ===== src/Ledger/Once.antt =====
-- `mark` of the ledger tells one caller only that a message is new, and `has` knows it from then on.
use hermes_codex_bridge.Base.{
  ℕ, String, ◌≡◌, inl, inr, Bool, true, false, Option, some, List, [], ◌∷◌, Result, ok, err, arith,
  str_eq, eq_iff, Option-cases, Result-cases, All,
}
use hermes_codex_bridge.Base.Assoc.{lookup, lookup-insert}
use hermes_codex_bridge.Ledger.Lines.{Code}
use hermes_codex_bridge.Ledger.Claims.{
  Entry, Disk, ClaimResult, claim_text, claim_entry, link_claim, link_all, commit_claim,
  create_canonical_claim, tick, canonical_claim_exists, validate_canonical_claim,
}
use hermes_codex_bridge.Ledger.Open.{Marked, Ledger, append_legacy, mark_hash, mark, hash_key, has}
use hermes_codex_bridge.Ledger.Kept.{Extends, mark-Extends}

-- the claim of a hash is there, with its own text
abbrev pub IsClaimed : String → List (String × Entry) → Type 0
IsClaimed hash claims = canonical_claim_exists claims hash ≡ ok true

pub IsClaimed-lookup :
    (hash : String) (claims : List (String × Entry))
    → IsClaimed hash claims
    → (e : Entry) × (lookup hash claims ≡ some e)
unfolding canonical_claim_exists
IsClaimed-lookup hash claims h = elim (Option-cases (lookup hash claims)) [
  | inl e ↦ absurd (ground arith)
  | inr found ↦ found
]

pub IsClaimed-Extends :
    (hash : String) (claims claims' : List (String × Entry))
    → Extends claims claims'
    → IsClaimed hash claims
    → IsClaimed hash claims'
unfolding canonical_claim_exists
IsClaimed-Extends hash claims claims' kept h =
    let (e, found) = IsClaimed-lookup hash claims h in
    let found' = kept hash e found in ground arith

link_claim-IsClaimed :
    (claims : List (String × Entry)) (hash : String)
    → (link_claim claims hash).0 ≡ true
    → IsClaimed hash (link_claim claims hash).1
unfolding link_claim canonical_claim_exists
link_claim-IsClaimed claims hash h = ground (
  arith,
  eq_iff hash hash,
  eq_iff (claim_text hash) (claim_text hash),
  lookup-insert hash hash (claim_entry hash) claims,
)

validated-IsClaimed :
    (claims : List (String × Entry)) (hash : String)
    → validate_canonical_claim claims hash ≡ ok tt
    → IsClaimed hash claims
unfolding validate_canonical_claim canonical_claim_exists
validated-IsClaimed claims hash h = ground arith

unfoldable is_marked : Result Code Marked → Bool
is_marked (ok m) = m.marked
is_marked (err e) = false

module _ (fails : ℕ → Bool) (others : ℕ → List String) where
  commit_claim-IsClaimed :
      (hash : String) (d : Disk) (c : ClaimResult)
      → (commit_claim fails others hash d).0 ≡ ok c
      → IsClaimed hash (commit_claim fails others hash d).1.claims
  unfolding commit_claim
  commit_claim-IsClaimed hash d c h =
      let around = link_all d.claims (others d.operations) in
      ground (
        arith,
        link_claim-IsClaimed around hash,
        validated-IsClaimed (link_claim around hash).1 hash,
      )

  pub create_canonical_claim-IsClaimed :
      (hash : String) (d : Disk) (c : ClaimResult)
      → (create_canonical_claim fails others hash d).0 ≡ ok c
      → IsClaimed hash (create_canonical_claim fails others hash d).1.claims
  unfolding create_canonical_claim
  create_canonical_claim-IsClaimed hash d c h =
      ground (arith, commit_claim-IsClaimed hash (tick d) c)

  module _ (hash_of : String → String) (appended : ℕ → Option String) where
    mark_hash-IsClaimed :
        (hash : String) (d : Disk) (m : Marked)
        → (mark_hash fails others hash_of appended hash d).0 ≡ ok m
        → IsClaimed hash (mark_hash fails others hash_of appended hash d).1.claims
    unfolding mark_hash append_legacy
    mark_hash-IsClaimed hash d m h =
        elim (Result-cases (create_canonical_claim fails others hash d).0) [
          | inl (c, k) ↦ let made = create_canonical_claim-IsClaimed hash d c k in ground arith
          | inr (c, k) ↦ ground arith
        ]

    mark_hash_known :
        (hash : String) (d : Disk) (e : Entry)
        → lookup hash d.claims ≡ some e
        → is_marked (mark_hash fails others hash_of appended hash d).0 ≡ false
    unfolding mark_hash canonical_claim_exists is_marked
    mark_hash_known hash d e found = ground arith

    -- what a successful `mark` leaves
    pub mark-IsClaimed :
        (key : String) (l : Ledger) (m : Marked)
        → (mark fails others hash_of appended key l).0 ≡ ok m
        → IsClaimed (hash_of key) (mark fails others hash_of appended key l).1.disk.claims
          × (l.is_closed ≡ false)
          × (str_eq key "" ≡ false)
          × ((mark fails others hash_of appended key l).1.is_closed ≡ false)
    unfolding mark hash_key
    mark-IsClaimed key l m h =
        let marked = mark_hash-IsClaimed (hash_of key) l.disk m in
        (ground arith, ground arith, ground arith, ground arith)

    mark_known :
        (key : String) (l : Ledger) (e : Entry)
        → lookup (hash_of key) l.disk.claims ≡ some e
        → is_marked (mark fails others hash_of appended key l).0 ≡ false
    unfolding mark hash_key is_marked
    mark_known key l e found = ground (arith, mark_hash_known (hash_of key) l.disk e found)

    -- the calls of `mark` in their order: each key, and whether it was marked by its call
    unfoldable pub mark_all : List String → Ledger → List (String × Bool)
    unfolding is_marked
    mark_all [] l = []
    mark_all (key ∷ keys) l =
        let (out, l') = mark fails others hash_of appended key l in
        (key, is_marked out) ∷ mark_all keys l'

    abbrev pub NotMarked : String → List (String × Bool) → Type 0
    NotMarked hash = All (λ (c : String × Bool). hash_of c.0 ≡ hash → c.1 ≡ false)

    -- Of the calls with one hash, the first one that marks is the only one.
    abbrev pub IsMarkedOnce : List (String × Bool) → Type 0
    IsMarkedOnce [] = Unit
    IsMarkedOnce ((key, marked) ∷ rest) =
        (marked ≡ true → NotMarked (hash_of key) rest) × IsMarkedOnce rest

    mark_all_known :
        (keys : List String) (l : Ledger) (hash : String) (e : Entry)
        → lookup hash l.disk.claims ≡ some e
        → NotMarked hash (mark_all keys l)
    unfolding mark_all
    mark_all_known [] l hash e found = tt
    mark_all_known (key ∷ keys) l hash e found = (
      λ same. mark_known key l e (rw same found),
      mark_all_known keys (mark fails others hash_of appended key l).1 hash e
          (mark-Extends fails others hash_of appended key l hash e found),
    )

    is_marked-IsClaimed :
        (key : String) (l : Ledger)
        → is_marked (mark fails others hash_of appended key l).0 ≡ true
        → IsClaimed (hash_of key) (mark fails others hash_of appended key l).1.disk.claims
    unfolding is_marked
    is_marked-IsClaimed key l h = elim (Result-cases (mark fails others hash_of appended key l).0) [
      | inl (m, k) ↦ (mark-IsClaimed key l m k).0
      | inr (c, k) ↦ absurd (ground arith)
    ]

    -- Whatever other bridges link in between and whichever operations fail, over any calls of
    -- `mark` at most one call reports a hash as newly marked.
    pub mark_all-IsMarkedOnce : (keys : List String) (l : Ledger) → IsMarkedOnce (mark_all keys l)
    unfolding mark_all
    mark_all-IsMarkedOnce [] l = tt
    mark_all-IsMarkedOnce (key ∷ keys) l =
        let l' = (mark fails others hash_of appended key l).1 in
        (
          λ marked.
              let (e, found) =
                IsClaimed-lookup (hash_of key) l'.disk.claims (is_marked-IsClaimed key l marked) in
              mark_all_known keys l' (hash_of key) e found,
          mark_all-IsMarkedOnce keys l',
        )

    unfoldable pub after_all : List String → Ledger → Ledger
    after_all [] l = l
    after_all (key ∷ keys) l = after_all keys (mark fails others hash_of appended key l).1

    pub after_all-Extends :
        (keys : List String) (l : Ledger) → Extends l.disk.claims (after_all keys l).disk.claims
    unfolding after_all
    after_all-Extends [] l h e there = there
    after_all-Extends (key ∷ keys) l h e there =
        after_all-Extends keys (mark fails others hash_of appended key l).1 h e
          (mark-Extends fails others hash_of appended key l h e there)

    -- Once a call of `mark` has returned, with or without a new claim, an open ledger has its key,
    -- whatever is marked after it.
    pub mark-has :
        (key : String) (keys : List String) (l : Ledger) (m : Marked)
        → (mark fails others hash_of appended key l).0 ≡ ok m
        → let l' = after_all keys (mark fails others hash_of appended key l).1 in
          l'.is_closed ≡ false → has fails others hash_of appended key l' ≡ ok true
    unfolding has hash_key
    mark-has key keys l m h still =
        let (claimed, was_open, named, _) = mark-IsClaimed key l m h in
        let l1 = (mark fails others hash_of appended key l).1 in
        let kept =
          IsClaimed-Extends (hash_of key) l1.disk.claims (after_all keys l1).disk.claims
            (after_all-Extends keys l1) claimed in
        rw (still, named) kept
