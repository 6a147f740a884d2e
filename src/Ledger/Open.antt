-- ===== src/Ledger/Open.antt =====
-- `openLedger` of bridge/src/ledger.mjs and the methods of a ledger. The legacy file is appended to
-- after a claim; `appended n` is what the n-th append leaves there if it throws, `none` if it
-- does not.
use Prim.Native.String
use hermes_codex_bridge.Base.{
  ℕ, String, Bool, true, false, not, Option, none, some, List, [], ◌∷◌, if◌then◌else◌, str_eq,
  Result, ok, err, ◌>>=◌,
}
use hermes_codex_bridge.Ledger.Lines.{Code, key, corrupt, closed, io, parse_ledger}
use hermes_codex_bridge.Ledger.Claims.{
  FileRead, missing, unreadable, contents, Disk, ClaimResult, claim_text, canonical_claim_exists,
  validate_entries, create_canonical_claim, tick,
}

abbrev pub ready_content : String
ready_content = "hermes-ledger-claims-v1\n"

unfoldable pub readiness_exists : FileRead → Result Code Bool
readiness_exists missing = ok false
readiness_exists unreadable = err corrupt
readiness_exists (contents text) = if str_eq text ready_content then ok true else err corrupt

unfoldable pub read_legacy_ledger : FileRead → Result Code (List String)
read_legacy_ledger missing = parse_ledger ""
read_legacy_ledger unreadable = err io
read_legacy_ledger (contents text) = parse_ledger text

-- the results of `mark`
pub record Marked : Type 0 where
  pub marked : Bool
  pub ledger_failed : Bool
  pub cleanup_failed : Bool

pub record Ledger : Type 0 where
  pub disk : Disk
  pub is_closed : Bool

module _ (fails : ℕ → Bool) (others : ℕ → List String) where
  -- `publishReadinessMarker`: a stage file, linked to the marker's name
  unfoldable pub publish_readiness_marker : Disk → Result Code (Unit {0}) × Disk
  publish_readiness_marker d =
      if fails d.operations then (err io, tick d) else elim (readiness_exists d.ready) [
        | ok false ↦
            (ok tt, record d { ready = contents ready_content; operations = (tick d).operations })
        | ok true ↦ (ok tt, tick d)
        | err e ↦ (err e, tick d)
      ]

  -- the claims of the hashes of the legacy file
  unfoldable pub migrate : List String → Disk → Result Code (Unit {0}) × Disk
  migrate [] d = (ok tt, d)
  migrate (hash ∷ hashes) d =
      let (created, d') = create_canonical_claim fails others hash d in
      let known = migrate hashes d in
      let made = migrate hashes d' in
      elim (canonical_claim_exists d.claims hash) [
        | err e ↦ (err e, d)
        | ok true ↦ known
        | ok false ↦ elim created [ err e ↦ (err e, d') | ok _ ↦ made ]
      ]

  abbrev checked : Disk → Result Code (Unit {0}) × Disk
  checked d = (validate_entries d.claims, d)

  -- the branch with no readiness marker, once the legacy file is read
  unfoldable pub prepare : List String → Disk → Result Code (Unit {0}) × Disk
  prepare hashes d =
      let (migrated, d') = migrate hashes d in
      elim (validate_entries d.claims) [
        | err e ↦ (err e, d)
        | ok _ ↦ elim migrated [
          | err e ↦ (err e, d')
          | ok _ ↦ elim (validate_entries d'.claims) [
            | err e ↦ (err e, d')
            | ok _ ↦ publish_readiness_marker d'
          ]
        ]
      ]

  unfoldable pub open_ledger : Disk → Result Code (Unit {0}) × Disk
  open_ledger d = elim (readiness_exists d.ready) [
    | err e ↦ (err e, d)
    | ok true ↦ checked d
    | ok false ↦ elim (read_legacy_ledger d.legacy) [
      | ok hashes ↦ prepare hashes d
      | err e ↦ elim (readiness_exists d.ready) [
        | err f ↦ (err f, d)
        | ok true ↦ checked d
        | ok false ↦ (err e, d)
      ]
    ]
  ]

  module _ (hash_of : String → String) (appended : ℕ → Option String) where
    -- `hashKey` of a key that is a string
    unfoldable pub hash_key : String → Result Code String
    hash_key raw_key = if str_eq raw_key "" then err key else ok (hash_of raw_key)

    unfoldable pub has : String → Ledger → Result Code Bool
    has raw_key l =
        if l.is_closed
        then err closed
        else (hash_key raw_key >>= λ hash. canonical_claim_exists l.disk.claims hash)

    abbrev legacy_text : FileRead → String
    legacy_text (contents text) = text
    legacy_text _ = ""

    -- `openLedgerWrite`, `appendLedger`, `syncLedger` and `closeLedgerWrite`: whether one threw
    unfoldable pub append_legacy : String → Disk → Bool × Disk
    append_legacy hash d =
        let text = legacy_text d.legacy in
        elim (appended d.operations) [
          | none ↦ (
            false,
            record d {
              legacy = contents (String.◌++◌ text (claim_text hash));
              operations = (tick d).operations;
            },
          )
          | some torn ↦ (
            true,
            record d {
              legacy = contents (String.◌++◌ text torn);
              operations = (tick d).operations;
            },
          )
        ]

    abbrev unmarked : Bool → Marked
    unmarked cleanup = record { marked = false; ledger_failed = false; cleanup_failed = cleanup }

    abbrev finish_mark : String → ClaimResult → Disk → Result Code Marked × Disk
    finish_mark hash c d =
        let (failed, d') = append_legacy hash d in
        if not c.marked then (ok (unmarked c.cleanup_failed), d) else (
          ok (record { marked = true; ledger_failed = failed; cleanup_failed = c.cleanup_failed }),
          d',
        )

    -- the queued operation of `mark`
    unfoldable pub mark_hash : String → Disk → Result Code Marked × Disk
    mark_hash hash d =
        let (created, d') = create_canonical_claim fails others hash d in
        elim (canonical_claim_exists d.claims hash) [
          | err e ↦ (err e, d)
          | ok true ↦ (ok (unmarked false), d)
          | ok false ↦ elim created [ err e ↦ (err e, d') | ok c ↦ finish_mark hash c d' ]
        ]

    unfoldable pub mark : String → Ledger → Result Code Marked × Ledger
    mark raw_key l = if l.is_closed then (err closed, l) else elim (hash_key raw_key) [
      | err e ↦ (err e, l)
      | ok hash ↦ let (out, d) = mark_hash hash l.disk in (out, record l { disk = d })
    ]

    unfoldable pub close : Ledger → Ledger
    close l = record l { is_closed = true }
