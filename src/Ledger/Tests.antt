-- ===== src/Ledger/Tests.antt =====
-- The theorems on bridge/src/ledger.mjs, applied to a ledger with one hash in its legacy file.
use hermes_codex_bridge.Base.{
  ℕ, String, ◌≡◌, refl, Bool, true, false, Option, none, All, arith, List, [], ◌∷◌, ok,
}
use hermes_codex_bridge.Base.Assoc.{lookup, insert}
use hermes_codex_bridge.Base.Text.{is_sha256}
use hermes_codex_bridge.Runtime.Sample.{zeros}
use hermes_codex_bridge.Ledger.Lines.{
  split_lines, ends_in_newline, add_hash, read_lines, parse_ledger,
}
use hermes_codex_bridge.Ledger.Claims.{
  missing, contents, Disk, link_claim, link_all, commit_claim, create_canonical_claim,
  canonical_claim_exists, validate_canonical_claim, validate_entries, entry_text, claim_text,
}
use hermes_codex_bridge.Ledger.Open.{
  Ledger, Marked, readiness_exists, read_legacy_ledger, publish_readiness_marker, migrate, prepare,
  open_ledger, append_legacy, mark_hash, mark, hash_key, has,
}
use hermes_codex_bridge.Ledger.Once.{
  after_all, mark_all, IsMarkedOnce, mark_all-IsMarkedOnce, mark-has,
}
use hermes_codex_bridge.Ledger.Migrated.{IsTaken, open_ledger-AllClaimed}
use hermes_codex_bridge.Ledger.Legacy.{IsLine}

abbrev old_ledger : Disk
old_ledger = record {
  legacy = contents "0000000000000000000000000000000000000000000000000000000000000000\n";
  claims = [];
  ready = missing;
  operations = 0;
}

abbrev works : ℕ → Bool
works _ = false

abbrev alone : ℕ → List String
alone _ = []

abbrev appends : ℕ → Option String
appends _ = none

-- every key has the hash of zeros, so that keys collide
abbrev one_hash : String → String
one_hash _ = zeros

zeros-IsLine : IsLine zeros
zeros-IsLine = ground arith

opens : (open_ledger works alone old_ledger).0 ≡ ok tt
unfolding open_ledger readiness_exists read_legacy_ledger parse_ledger ends_in_newline split_lines
    read_lines add_hash is_sha256 prepare migrate validate_entries canonical_claim_exists lookup
    create_canonical_claim commit_claim link_all link_claim insert entry_text claim_text
    publish_readiness_marker validate_canonical_claim
opens = refl

abbrev opened : Ledger
opened = record { disk = (open_ledger works alone old_ledger).1; is_closed = false }

open_ledger-AllClaimed_example :
    let d' = (after_all works alone one_hash appends ("key" ∷ []) opened).disk in
    All (IsTaken works alone d'.claims) (zeros ∷ [])
    × (open_ledger works alone (record d' { legacy = missing })
        ≡ (ok tt, record d' { legacy = missing }))
unfolding readiness_exists is_sha256
open_ledger-AllClaimed_example =
    open_ledger-AllClaimed works alone one_hash appends (λ _. refl) (λ _. tt) (zeros ∷ [])
      old_ledger refl (zeros-IsLine, tt) refl opens ("key" ∷ []) missing

abbrev empty_ledger : Ledger
empty_ledger = record {
  disk = record { legacy = missing; claims = []; ready = missing; operations = 0 };
  is_closed = false;
}

marks_one :
    mark_all works alone one_hash appends ("a" ∷ "b" ∷ []) empty_ledger
    ≡ ("a", true) ∷ ("b", false) ∷ []
unfolding mark_all mark hash_key mark_hash append_legacy canonical_claim_exists lookup
    create_canonical_claim commit_claim link_all link_claim insert entry_text claim_text
    validate_canonical_claim
marks_one = refl

mark_all-IsMarkedOnce_example :
    IsMarkedOnce works alone one_hash appends
      (mark_all works alone one_hash appends ("a" ∷ "b" ∷ []) empty_ledger)
mark_all-IsMarkedOnce_example =
    mark_all-IsMarkedOnce works alone one_hash appends ("a" ∷ "b" ∷ []) empty_ledger

abbrev new_mark : Marked
new_mark = record { marked = true; ledger_failed = false; cleanup_failed = false }

marks : (mark works alone one_hash appends "a" empty_ledger).0 ≡ ok new_mark
unfolding mark hash_key mark_hash append_legacy canonical_claim_exists lookup create_canonical_claim
    commit_claim link_all link_claim insert entry_text claim_text validate_canonical_claim
marks = refl

stays_open :
    (after_all works alone one_hash appends
      ("b" ∷ [])
      (mark works alone one_hash appends "a" empty_ledger).1).is_closed
    ≡ false
unfolding after_all mark hash_key mark_hash append_legacy canonical_claim_exists lookup
    create_canonical_claim commit_claim link_all link_claim insert entry_text claim_text
    validate_canonical_claim
stays_open = refl

mark-has_example :
    has works alone one_hash appends "a" (
      after_all works alone one_hash appends
        ("b" ∷ [])
        (mark works alone one_hash appends "a" empty_ledger).1)
    ≡ ok true
mark-has_example =
    mark-has works alone one_hash appends "a" ("b" ∷ []) empty_ledger new_mark marks stays_open
