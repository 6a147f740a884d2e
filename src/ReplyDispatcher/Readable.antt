-- ===== src/ReplyDispatcher/Readable.antt =====
-- Which files `safeFile` of bridge/src/reply-dispatcher.mjs and `safeFileBytes` of
-- bridge/src/ui-action-store.mjs read.
use hermes_codex_bridge.Base.{
  ℕ, ◌≡◌, ◌≤◌, true, false, some, inl, inr, String, Option-cases, Result-cases, ok, arith, leb_iff,
}
use hermes_codex_bridge.Base.Json.{Json}
use hermes_codex_bridge.Runtime.{Runtime}
use hermes_codex_bridge.ReplyDispatcher.Process.{Leaf, Folder, find_text, safe_file, json}

-- a regular file inside the root, under one name only and of at most `max` bytes, and its text
pub record IsReadable {D : Type 0} (max : ℕ) (l : Leaf D) (text : D) : Type 0 where
  pub is_file : l.is_file ≡ true
  pub is_no_link : l.is_symbolic_link ≡ false
  pub has_one_name : l.nlink ≡ 1
  pub has_size : l.size ≤ max
  pub is_inside : l.inside ≡ true
  pub has_text : l.text ≡ text

-- the directory has such a file of this name
abbrev pub HasFile : {D : Type 0} → String → ℕ → Folder D → D → Type 0
HasFile {D} name max f text =
    (l : Leaf D) × (find_text name f.leaves ≡ some l) × IsReadable max l text

pub safe_file-HasFile :
    {D : Type 0} (name : String) (max : ℕ) (f : Folder D) (text : D)
    → safe_file name max f ≡ ok text
    → HasFile name max f text
unfolding safe_file
safe_file-HasFile name max f text h = elim (Option-cases (find_text name f.leaves)) [
  | inl e ↦ absurd (ground arith)
  | inr (l, e) ↦ (
    l,
    e,
    record {
      is_file = ground arith;
      is_no_link = ground arith;
      has_one_name = ground arith;
      has_size = ground (arith, leb_iff l.size max);
      is_inside = ground arith;
      has_text = ground arith;
    },
  )
]

module _ (r : Runtime) where
  open r use {Document, parse}

  -- the file of this name, of at most a mebibyte, holds this value
  abbrev pub HasJson : String → Folder Document → Json → Type 0
  HasJson name f v = (text : Document) × HasFile name 1048576 f text × (parse text ≡ some v)

  pub json-HasJson :
      (name : String) (f : Folder Document) (v : Json) → json r name f ≡ ok v → HasJson name f v
  unfolding json
  json-HasJson name f v h = elim (Result-cases (safe_file name 1048576 f)) [
    | inr (c, e) ↦ absurd (ground arith)
    | inl (text, e) ↦ (text, safe_file-HasFile name 1048576 f text e, ground arith)
  ]
