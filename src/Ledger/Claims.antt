-- ===== src/Ledger/Claims.antt =====
-- Claim files of bridge/src/ledger.mjs. A claim is committed by linking a finished stage file to
-- its name, which fails if the name is there. The n-th operation on the file system throws if
-- `fails n`; `others n` are the hashes that other bridges link before the n-th one.
use Prim.Native.String
use hermes_codex_bridge.Base.{
  ℕ, suc, String, Bool, true, false, not, ◌||◌, Option, none, some, List, [], ◌∷◌, if◌then◌else◌,
  str_eq, Result, ok, err, ◌>>=◌,
}
use hermes_codex_bridge.Base.Assoc.{lookup, insert}
use hermes_codex_bridge.Base.Text.{is_sha256}
use hermes_codex_bridge.Ledger.Lines.{Code, corrupt, io}

-- what `readFile` gives
pub data FileRead : Type 0 where
  missing : FileRead
  unreadable : FileRead
  contents : String → FileRead

pub record Entry : Type 0 where
  pub is_file : Bool
  -- `none` where a read throws
  pub text : Option String

pub record Disk : Type 0 where
  pub legacy : FileRead
  pub claims : List (String × Entry)
  pub ready : FileRead
  pub operations : ℕ

-- `${hash}\n`
unfoldable pub claim_text : String → String
claim_text hash = String.◌++◌ hash "\n"

unfoldable pub entry_text : Option Entry → FileRead
entry_text none = missing
entry_text (some e) = elim e.text [ none ↦ unreadable | some text ↦ contents text ]

abbrev claim_holds : String → FileRead → Result Code Bool
claim_holds hash missing = ok false
claim_holds hash unreadable = err corrupt
claim_holds hash (contents text) = if str_eq text (claim_text hash) then ok true else err corrupt

unfoldable pub canonical_claim_exists : List (String × Entry) → String → Result Code Bool
unfolding entry_text
canonical_claim_exists claims hash = claim_holds hash (entry_text (lookup hash claims))

abbrev must_hold : String → FileRead → Result Code (Unit {0})
must_hold hash (contents text) = if str_eq text (claim_text hash) then ok tt else err corrupt
must_hold hash _ = err corrupt

unfoldable pub validate_canonical_claim : List (String × Entry) → String → Result Code (Unit {0})
unfolding entry_text
validate_canonical_claim claims hash = must_hold hash (entry_text (lookup hash claims))

-- the loop of `validateClaimsDirectory`
unfoldable pub validate_entries : List (String × Entry) → Result Code (Unit {0})
unfolding entry_text
validate_entries [] = ok tt
validate_entries ((name, e) ∷ rest) =
    let later = validate_entries rest in
    if not e.is_file || not (is_sha256 name)
    then err corrupt
    else (must_hold name (entry_text (some e)) >>= λ _. later)

abbrev pub claim_entry : String → Entry
claim_entry hash = record { is_file = true; text = some (claim_text hash) }

-- `link`: whether the name was free, and the directory after it
unfoldable pub link_claim : List (String × Entry) → String → Bool × List (String × Entry)
link_claim claims hash = elim (lookup hash claims) [
  | none ↦ (true, insert hash (claim_entry hash) claims)
  | some e ↦ (false, claims)
]

-- what other bridges link in the meantime
unfoldable pub link_all : List (String × Entry) → List String → List (String × Entry)
link_all claims [] = claims
link_all claims (h ∷ hs) = link_all (link_claim claims h).1 hs

-- `marked`, and whether `cleanupError` is set
pub record ClaimResult : Type 0 where
  pub marked : Bool
  pub cleanup_failed : Bool

abbrev pub tick : Disk → Disk
tick d = record d { operations = suc d.operations }

module _ (fails : ℕ → Bool) (others : ℕ → List String) where
  -- the link, or the check of the claim that is there, then the removal of the stage
  unfoldable pub commit_claim : String → Disk → Result Code ClaimResult × Disk
  commit_claim hash d =
      let around = link_all d.claims (others d.operations) in
      let (marked, claims) = link_claim around hash in
      let d' = record d { claims = claims; operations = suc d.operations } in
      let result : ClaimResult = record {
        marked = marked;
        cleanup_failed = fails (suc d.operations);
      } in
      if fails d.operations
      then (err io, record d { claims = around; operations = suc d.operations })
      else elim (if marked then ok tt else validate_canonical_claim claims hash) [
        | err e ↦ (err e, tick d')
        | ok _ ↦ (ok result, tick d')
      ]

  -- `createCanonicalClaim`: the stage file is written, synced and closed before the link
  unfoldable pub create_canonical_claim : String → Disk → Result Code ClaimResult × Disk
  create_canonical_claim hash d =
      if fails d.operations then (err io, tick d) else commit_claim hash (tick d)
