-- ===== src/UiActionStore/Files.antt =====
-- The files of bridge/src/ui-action-store.mjs. `root` is what the checks of the queue's root and of
-- its `interactions` end with; an interaction is a folder of leaves, and `registry` holds the files
-- of the root itself. The n-th write or replacement throws if `faults n`.
use hermes_codex_bridge.Base.{
  ℕ, suc, String, Bool, true, false, not, ◌||◌, Option, none, some, List, [], leb, ◌==◌,
  if◌then◌else◌, Result, ok, err,
}
use hermes_codex_bridge.Base.Actions.{Action, ◌>>=◌, pure, reads}
use hermes_codex_bridge.Base.Assoc.{lookup, insert, remove}
use hermes_codex_bridge.Base.Json.{Json}
use hermes_codex_bridge.Base.Text.{is_event_id}
use hermes_codex_bridge.Runtime.{Runtime}
use hermes_codex_bridge.ReplyDispatcher.Process.{Leaf, Folder}

-- the `UI_…` codes; `missing` is `ENOENT`, `contract` an error of a validator, `io` any other
pub data Code : Type 0 where
  event_id path json action conflict claim claim_changed lease hash terminal expired claimed : Code
  code turn applied registry heartbeat limit reply_action missing contract io : Code

pub record World (D : Type 0) : Type 0 where
  pub root : Result Code (Unit {0})
  pub folders : List (String × Folder D)
  pub registry : List (String × Leaf D)
  pub writes : ℕ
  pub clock_reads : ℕ
  pub ids : ℕ

-- `safeFileBytes`
unfoldable pub safe_file_bytes : {D : Type 0} → Option (Leaf D) → Result Code D
safe_file_bytes none = err missing
safe_file_bytes (some l) =
    if not l.is_file || l.is_symbolic_link || not (l.nlink == 1) || not (leb l.size 1048576)
    then err path
    else if not l.inside
    then err path
    else ok l.text

-- `interactionDirectory`, with the leaves that are read from then on
unfoldable pub interaction_directory :
    {D : Type 0} → String → World D → Result Code (List (String × Leaf D))
interaction_directory id w = if not (is_event_id id) then err event_id else elim w.root [
  | err e ↦ err e
  | ok _ ↦ elim (lookup id w.folders) [
    | none ↦ err missing
    | some f ↦ if f.safe then ok f.leaves else err path
  ]
]

-- the leaves of a folder now
unfoldable pub leaves_of : {D : Type 0} → String → World D → List (String × Leaf D)
leaves_of id w = elim (lookup id w.folders) [ none ↦ [] | some f ↦ f.leaves ]

unfoldable pub set_leaves : {D : Type 0} → String → List (String × Leaf D) → World D → World D
set_leaves id leaves w = elim (lookup id w.folders) [
  | none ↦ w
  | some f ↦ record w { folders = insert id (record f { leaves = leaves }) w.folders }
]

module _ (r : Runtime) where
  open r use {Document, pretty, parse, same, byte_length}

  -- `safeJson`: the value, and the text it was read from
  unfoldable pub safe_json : Option (Leaf Document) → Result Code (Json × Document)
  safe_json l = elim (safe_file_bytes l) [
    | err missing ↦ err missing
    | err path ↦ err path
    | err _ ↦ err json
    | ok text ↦ elim (parse text) [ none ↦ err json | some v ↦ ok (v, text) ]
  ]

  unfoldable pub optional_json : Option (Leaf Document) → Result Code (Option (Json × Document))
  optional_json l = elim (safe_json l) [
    | err missing ↦ ok none
    | err e ↦ err e
    | ok v ↦ ok (some v)
  ]

  abbrev pub written : Json → Leaf Document
  written value = record {
    is_file = true;
    is_symbolic_link = false;
    nlink = 1;
    size = byte_length (pretty value);
    inside = true;
    text = pretty value;
  }

  module _ (faults : ℕ → Bool) where
    -- `write` to a name of a folder: whether it was published, or was there
    unfoldable pub write_json_once : String → String → Json → Action (World Document) Code Bool
    write_json_once id name value w =
        let leaves = leaves_of id w in
        let w' = record w { writes = suc w.writes } in
        if faults w.writes then (err io, w') else elim (lookup name leaves) [
          | some l ↦ (ok false, w')
          | none ↦ (ok true, set_leaves id (insert name (written value) leaves) w')
        ]

    -- what is read of a name that was there
    abbrev pub same_bytes : Json → Result Code Document → Result Code (Unit {0})
    same_bytes value (err path) = err path
    same_bytes value (err _) = err conflict
    same_bytes value (ok text) = if same text (pretty value) then ok tt else err conflict

    unfoldable pub write_once_or_same :
        String → String → Json → Action (World Document) Code (Unit {0})
    write_once_or_same id name value = do
      published ← write_json_once id name value
      (if published
          then pure tt
          else reads (λ w. same_bytes value (safe_file_bytes (lookup name (leaves_of id w)))))

    -- the same in the root
    unfoldable pub register_once : String → Json → Action (World Document) Code (Unit {0})
    register_once name value w =
        let w' = record w { writes = suc w.writes } in
        if faults w.writes then (err io, w') else elim (lookup name w.registry) [
          | some l ↦ (same_bytes value (safe_file_bytes (some l)), w')
          | none ↦ (ok tt, record w' { registry = insert name (written value) w.registry })
        ]

    abbrev changed : Option Document → Option (Leaf Document) → Bool
    changed none l = false
    changed (some expected) none = true
    changed (some expected) (some l) = not (same l.text expected)

    -- `atomicReplace` of a file of the root
    unfoldable pub atomic_replace :
        String → Json → Option Document → Action (World Document) Code (Unit {0})
    atomic_replace name value expected w =
        if changed expected (lookup name w.registry)
        then (err registry, w)
        else if faults w.writes
        then (err io, record w { writes = suc w.writes })
        else (
          ok tt,
          record w { registry = insert name (written value) w.registry; writes = suc w.writes },
        )

  -- `rm` of a claim
  unfoldable pub remove_leaf : String → String → Action (World Document) Code (Unit {0})
  remove_leaf id name w = (ok tt, set_leaves id (remove name (leaves_of id w)) w)
