-- ===== src/Ledger/Migrated.antt =====
-- What `openLedger` of bridge/src/ledger.mjs takes over from the legacy file.
use hermes_codex_bridge.Base.{
  ℕ, String, ◌≡◌, ◌⊎◌, inl, inr, refl, sym, subst, ◌∙◌, Bool, true, false, List, [], ◌∷◌, Result,
  ok, err, arith, Result-cases, All, All-mono, Option, ap,
}
use hermes_codex_bridge.Base.Text.{is_sha256}
use hermes_codex_bridge.Ledger.Lines.{Code, parse_ledger}
use hermes_codex_bridge.Ledger.Claims.{
  Disk, Entry, FileRead, contents, create_canonical_claim, canonical_claim_exists, validate_entries,
  ClaimResult,
}
use hermes_codex_bridge.Ledger.Open.{
  Ledger, ready_content, readiness_exists, read_legacy_ledger, publish_readiness_marker, migrate,
  prepare, open_ledger,
}
use hermes_codex_bridge.Ledger.Kept.{Extends, migrate-Extends}
use hermes_codex_bridge.Ledger.Legacy.{lines_text, IsLine, IsReadInto, parse_ledger-All, member-All}
use hermes_codex_bridge.Ledger.Ready.{AreHashes, IsReady, after_all-IsReady}
use hermes_codex_bridge.Ledger.Once.{
  IsClaimed, IsClaimed-Extends, create_canonical_claim-IsClaimed, after_all, after_all-Extends,
}

ready_content-ready : readiness_exists (contents ready_content) ≡ ok true
unfolding readiness_exists
ready_content-ready = refl

module _ (fails : ℕ → Bool) (others : ℕ → List String) where
  -- every hash of the list has its claim
  abbrev pub AllClaimed : List String → Disk → Type 0
  AllClaimed hashes d = All (λ (hash : String). IsClaimed hash d.claims) hashes

  migrate_known :
      (hash : String) (hashes : List String) (d : Disk)
      → canonical_claim_exists d.claims hash ≡ ok true
      → migrate fails others (hash ∷ hashes) d ≡ migrate fails others hashes d
  unfolding migrate
  migrate_known hash hashes d k = ground arith

  migrate_made :
      (hash : String) (hashes : List String) (d : Disk) (c : ClaimResult)
      → canonical_claim_exists d.claims hash ≡ ok false
      → (create_canonical_claim fails others hash d).0 ≡ ok c
      → migrate fails others (hash ∷ hashes) d
        ≡ migrate fails others hashes (create_canonical_claim fails others hash d).1
  unfolding migrate
  migrate_made hash hashes d c k l = ground arith

  migrate_lost :
      (hash : String) (hashes : List String) (d : Disk) (c : Code)
      → (canonical_claim_exists d.claims hash ≡ err c)
        ⊎ ((canonical_claim_exists d.claims hash ≡ ok false)
            × ((create_canonical_claim fails others hash d).0 ≡ err c))
      → (migrate fails others (hash ∷ hashes) d).0 ≡ err c
  unfolding migrate
  migrate_lost hash hashes d c h = ground arith

  -- a migration that returns has made all its claims
  abbrev Completes : List String → Result Code (Unit {0}) × Disk → Type 0
  Completes hashes out = out.0 ≡ ok tt → AllClaimed hashes out.1

  add-Completes :
      (hash : String) (hashes : List String) (d : Disk)
      → IsClaimed hash d.claims
      → Completes hashes (migrate fails others hashes d)
      → Completes (hash ∷ hashes) (migrate fails others hashes d)
  add-Completes hash hashes d here later h =
      (IsClaimed-Extends hash d.claims _ (migrate-Extends fails others hashes d) here, later h)

  migrate-AllClaimed :
      (hashes : List String) (d : Disk) → Completes hashes (migrate fails others hashes d)
  migrate-AllClaimed [] d = λ h. tt
  migrate-AllClaimed (hash ∷ hashes) d =
      elim (Result-cases (canonical_claim_exists d.claims hash)) [
        | inr (c, k) ↦ λ h. absurd (ground (arith, migrate_lost hash hashes d c (inl k)))
        | inl (true, k) ↦
            subst (Completes (hash ∷ hashes)) (sym (migrate_known hash hashes d k))
              (add-Completes hash hashes d k (migrate-AllClaimed hashes d))
        | inl (false, k) ↦ elim (Result-cases (create_canonical_claim fails others hash d).0) [
          | inr (c, l) ↦ λ h. absurd (ground (arith, migrate_lost hash hashes d c (inr (k, l))))
          | inl (c, l) ↦
              let d' = (create_canonical_claim fails others hash d).1 in
              subst (Completes (hash ∷ hashes)) (sym (migrate_made hash hashes d c k l)) (
                add-Completes hash hashes d'
                  (create_canonical_claim-IsClaimed fails others hash d c l)
                  (migrate-AllClaimed hashes d'))
        ]
      ]

  publish-ready :
      (d : Disk)
      → (publish_readiness_marker fails others d).0 ≡ ok tt
      → (readiness_exists (publish_readiness_marker fails others d).1.ready ≡ ok true)
        × ((publish_readiness_marker fails others d).1.claims ≡ d.claims)
  unfolding publish_readiness_marker
  publish-ready d h = (ground (arith, ready_content-ready), ground arith)

  prepare-parts :
      (hashes : List String) (d : Disk)
      → (prepare fails others hashes d).0 ≡ ok tt
      → let d' = (migrate fails others hashes d).1 in
        ((migrate fails others hashes d).0 ≡ ok tt)
        × (validate_entries d'.claims ≡ ok tt)
        × (prepare fails others hashes d ≡ publish_readiness_marker fails others d')
  unfolding prepare
  prepare-parts hashes d h = ground arith

  open_ledger-prepare :
      (hashes : List String) (d : Disk)
      → readiness_exists d.ready ≡ ok false
      → read_legacy_ledger d.legacy ≡ ok hashes
      → open_ledger fails others d ≡ prepare fails others hashes d
  unfolding open_ledger
  open_ledger-prepare hashes d fresh read = ground arith

  open_ledger-ready :
      (d : Disk)
      → readiness_exists d.ready ≡ ok true
      → validate_entries d.claims ≡ ok tt
      → open_ledger fails others d ≡ (ok tt, d)
  unfolding open_ledger
  open_ledger-ready d marker valid = ground arith

  -- what the first opening leaves
  open_ledger-IsReady :
      (hashes : List String) (d : Disk)
      → readiness_exists d.ready ≡ ok false
      → read_legacy_ledger d.legacy ≡ ok hashes
      → (open_ledger fails others d).0 ≡ ok tt
      → let d' = (open_ledger fails others d).1 in AllClaimed hashes d' × IsReady d'
  open_ledger-IsReady hashes d fresh read h =
      let e = open_ledger-prepare hashes d fresh read in
      let (migrated, valid, published) = prepare-parts hashes d (rw e at h) in
      let d' = (migrate fails others hashes d).1 in
      let (marker, same) = publish-ready d' (rw (e ∙ published) at h) in
      rw (e ∙ published) (
        subst (λ claims. All (λ (hash : String). IsClaimed hash claims) hashes) (sym same)
            (migrate-AllClaimed hashes d migrated),
        (marker, rw same valid),
      )

  -- an opening that returns has read the legacy file
  open_ledger-read :
      (d : Disk) (text : String)
      → readiness_exists d.ready ≡ ok false
      → d.legacy ≡ contents text
      → (open_ledger fails others d).0 ≡ ok tt
      → (hashes : List String) × (parse_ledger text ≡ ok hashes)
  unfolding open_ledger read_legacy_ledger
  open_ledger-read d text fresh there h = elim (Result-cases (parse_ledger text)) [
    | inl read ↦ read
    | inr (c, e) ↦ absurd (ground arith)
  ]

  -- an empty line, or a hash with its claim
  abbrev pub IsTaken : List (String × Entry) → String → Type 0
  IsTaken claims line = (line ≡ "") ⊎ IsClaimed line claims

  lines-IsTaken :
      (lines hashes : List String) (d : Disk) (claims : List (String × Entry))
      → All (IsReadInto hashes) lines
      → AllClaimed hashes d
      → Extends d.claims claims
      → All (IsTaken claims) lines
  lines-IsTaken lines hashes d claims read all_claimed kept =
      All-mono (IsReadInto hashes) (IsTaken claims) lines
        (λ line. λ h. elim h [
          | inl e ↦ inl e
          | inr k ↦ inr (
              IsClaimed-Extends line d.claims claims kept
                (member-All (λ (hash : String). IsClaimed hash d.claims) hashes line k all_claimed))
        ])
        read

  -- The first opening of a ledger, where it returns, takes over the whole legacy file: each of its
  -- lines is empty or has its claim, then and after any marks. Every later opening after any marks
  -- succeeds and changes nothing, whatever has become of the legacy file. Keys and the claims that
  -- other bridges link are SHA-256 texts.
  pub open_ledger-AllClaimed :
      (hash_of : String → String) (appended : ℕ → Option String)
      → ((s : String) → is_sha256 (hash_of s) ≡ true)
      → ((n : ℕ) → AreHashes (others n))
      → (lines : List String) (d : Disk) → readiness_exists d.ready ≡ ok false
      → All IsLine lines
      → d.legacy ≡ contents (lines_text lines)
      → (open_ledger fails others d).0 ≡ ok tt
      → (keys : List String) (legacy : FileRead)
      → let l : Ledger = record { disk = (open_ledger fails others d).1; is_closed = false } in
        let d' = (after_all fails others hash_of appended keys l).disk in
        All (IsTaken d'.claims) lines
        × (open_ledger fails others (record d' { legacy = legacy })
            ≡ (ok tt, record d' { legacy = legacy }))
  unfolding read_legacy_ledger
  open_ledger-AllClaimed hash_of appended hashed linked lines d fresh parts there h keys legacy =
      let (hashes, read) = open_ledger-read d (lines_text lines) fresh there h in
      let l : Ledger = record { disk = (open_ledger fails others d).1; is_closed = false } in
      let (claimed, ready) =
        open_ledger-IsReady hashes d fresh (ap read_legacy_ledger there ∙ read) h in
      let (marker, valid) =
        after_all-IsReady fails others linked hash_of appended hashed keys l ready in
      let kept = after_all-Extends fails others hash_of appended keys l in
      let d' = (after_all fails others hash_of appended keys l).disk in
      (
        lines-IsTaken lines hashes l.disk d'.claims (parse_ledger-All lines hashes parts read)
            claimed kept,
        open_ledger-ready (record d' { legacy = legacy }) marker valid,
      )
