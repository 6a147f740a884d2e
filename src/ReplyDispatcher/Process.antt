-- ===== src/ReplyDispatcher/Process.antt =====
-- `processDirectory` and `scanInternal` of bridge/src/reply-dispatcher.mjs, on interaction
-- directories that hold named leaves. A write that fails (`faults`, by its number) throws; a name
-- that is there already is a write-once conflict. `now` is the clock of the scan, in milliseconds,
-- and `date_parse` is `Date.parse` on a time that a validator has accepted; both count from the
-- earliest time of a `Date`.
use hermes_codex_bridge.Base.{
  ℕ, suc, String, Bool, true, false, not, ◌||◌, Option, none, some, List, [], ◌∷◌, map, leb, ◌==◌,
  if◌then◌else◌, str_eq, Result, ok, err,
}
use hermes_codex_bridge.Base.Text.{codes, lower, has_part, has_suffix}
use hermes_codex_bridge.Base.Json.{Json, str, obj, field, end}
use hermes_codex_bridge.Runtime.{Runtime}
use hermes_codex_bridge.Contracts.Shape.{
  EventKind, approval_request, ReplyAction, reply, approve_once, decline,
}
use hermes_codex_bridge.ReplyDispatcher.Apply.{Call}

pub data Code : Type 0 where
  dispatch_path dispatch_json dispatch_conflict dispatch_event_id dispatch_hash dispatch_invalid :
      Code

-- what `lstat`, `realpath` and `readFile` tell of a name
pub record Leaf (D : Type 0) : Type 0 where
  pub is_file : Bool
  pub is_symbolic_link : Bool
  pub nlink : ℕ
  pub size : ℕ
  pub inside : Bool
  pub text : D

-- An interaction directory. `safe` tells that it is a directory, no link, and inside the root.
pub record Folder (D : Type 0) : Type 0 where
  pub safe : Bool
  pub leaves : List (String × Leaf D)

pub record Counts : Type 0 where
  pub applied : ℕ
  pub routed : ℕ
  pub expired : ℕ
  pub declined : ℕ
  pub rejected : ℕ
  pub failed : ℕ
  pub deferred : ℕ

pub record World (D : Type 0) : Type 0 where
  pub folder : Folder D
  pub claims : List (String × D)
  pub writes : ℕ
  pub clock_reads : ℕ
  pub calls : List Call

abbrev pub Action : Type 0 → Type 0 → Type 0
Action D A = World D → Result Code A × World D

infixl 5 ◌>>=◌
abbrev pub ◌>>=◌ : {D A B : Type 0} → Action D A → (A → Action D B) → Action D B
◌>>=◌ m f w = let (a, w') = m w in elim a [ ok x ↦ f x w' | err e ↦ (err e, w') ]

-- What holds of both ways out of the first action holds of the two in a row.
pub after_bind :
    {D A B : Type 0} (P : Result Code B × World D → Type 0) (m : Action D A) (f : A → Action D B)
    (w : World D)
    → ((x : A) → P (f x (m w).1))
    → ((c : Code) → P (err c, (m w).1))
    → P ((m >>= f) w)
after_bind {A = A} P m f w h k = go (m w).0
  where
    go : (a : Result Code A) → P (elim a [ ok x ↦ f x (m w).1 | err e ↦ (err e, (m w).1) ])
    go (ok x) = h x
    go (err c) = k c

abbrev pub pure : {D A : Type 0} → A → Action D A
pure a w = (ok a, w)

abbrev pub throw : {D A : Type 0} → Code → Action D A
throw e w = (err e, w)

unfoldable pub find_text : {A : Type 0} → String → List (String × A) → Option A
find_text name [] = none
find_text name ((n, a) ∷ rest) = if str_eq n name then some a else find_text name rest

abbrev pub same_action : ReplyAction → ReplyAction → Bool
same_action reply reply = true
same_action approve_once approve_once = true
same_action decline decline = true
same_action _ _ = false

-- `/(?:conflict|\.partial$)/iu`
abbrev pub is_conflict : String → Bool
is_conflict name =
    has_part (codes "conflict") (map lower (codes name))
    || has_suffix (codes ".partial") (map lower (codes name))

-- `const ttl = …`
abbrev pub ttl : EventKind → ℕ
ttl approval_request = 43200000
ttl _ = 604800000

abbrev pub error_code : Option String → String
error_code (some c) = if str_eq c "STALE" then "STALE" else "REJECTED"
error_code none = "REJECTED"

abbrev pub names : {D : Type 0} → Folder D → List String
names f = map (λ l. l.0) f.leaves

unfoldable pub safe_file : {D : Type 0} → String → ℕ → Folder D → Result Code D
safe_file name max f = elim (find_text name f.leaves) [
  | none ↦ err dispatch_invalid
  | some l ↦
      if not l.is_file || l.is_symbolic_link || not (l.nlink == 1) || not (leb l.size max)
      then err dispatch_path
      else if not l.inside
      then err dispatch_path
      else ok l.text
]

abbrev pub now : {D : Type 0} → (ℕ → ℕ) → Action D ℕ
now clock w = (ok (clock w.clock_reads), record w { clock_reads = suc w.clock_reads })

abbrev receipt : String → String → String → Option String → Json
receipt event_id at_time status code = obj (
    field "schema" (str "hermes-codex-interaction-receipt/v3") (
      field "event_id" (str event_id) (
        field "processed_at" (str at_time) (
          field "status" (str status) (elim code [
            | none ↦ end
            | some c ↦ field "error" (obj (field "code" (str c) end)) end
          ])))))

abbrev code_name : Code → String
code_name dispatch_path = "DISPATCH_PATH"
code_name dispatch_json = "DISPATCH_JSON"
code_name dispatch_conflict = "DISPATCH_CONFLICT"
code_name dispatch_event_id = "DISPATCH_EVENT_ID"
code_name dispatch_hash = "DISPATCH_HASH"
code_name dispatch_invalid = "DISPATCH_INVALID"

module _ (r : Runtime) where
  open r use {Document, stringify, pretty, parse, same}

  -- `JSON.parse` of a safe file; only the errors of the dispatcher pass
  unfoldable pub json : String → Folder Document → Result Code Json
  json name f = elim (safe_file name 1048576 f) [
    | err dispatch_path ↦ err dispatch_path
    | err _ ↦ err dispatch_json
    | ok text ↦ elim (parse text) [ none ↦ err dispatch_json | some v ↦ ok v ]
  ]

  -- The writer's conflict is a name that is there: it passes where it holds the same value.
  abbrev same_value : Document → Json → Result Code (Unit {0})
  same_value text value = elim (parse text) [
    | none ↦ err dispatch_invalid
    | some v ↦ if same (stringify v) (stringify value) then ok tt else err dispatch_conflict
  ]

  abbrev written : Json → Leaf Document
  written value = record {
    is_file = true;
    is_symbolic_link = false;
    nlink = 1;
    size = r.byte_length (pretty value);
    inside = true;
    text = pretty value;
  }

  module _ (faults : ℕ → Bool) where
    -- `writeOnceOrSame` in the interaction directory
    unfoldable pub write_once_or_same : String → Json → Action Document (Unit {0})
    write_once_or_same name value w =
        let w' = record w { writes = suc w.writes } in
        if faults w.writes
        then (err dispatch_invalid, w')
        else elim (find_text name w.folder.leaves) [
          | some l ↦ (same_value l.text value, w')
          | none ↦ (
            ok tt,
            record w' {
              folder = record w.folder { leaves = (name, written value) ∷ w.folder.leaves };
            },
          )
        ]

    -- `writeOnceOrSame` in `dispatch-claims`
    unfoldable pub claim_once_or_same : String → Json → Action Document (Unit {0})
    claim_once_or_same name value w =
        let w' = record w { writes = suc w.writes } in
        if faults w.writes then (err dispatch_invalid, w') else elim (find_text name w.claims) [
          | some text ↦ (same_value text value, w')
          | none ↦ (ok tt, record w' { claims = (name, pretty value) ∷ w.claims })
        ]

    module _ (iso : ℕ → String) (clock : ℕ → ℕ) where
      unfoldable pub terminal : String → String → Option String → Action Document (Unit {0})
      terminal event_id status code = do
        t ← now clock
        write_once_or_same "receipt.json" (receipt event_id (iso t) status code)

      -- `recordFailure`, whose own errors are dropped
      unfoldable pub record_failure : String → Code → World Document → World Document
      record_failure event_id code w =
          let (a, w') = now clock w in
          elim a [
            | err e ↦ w'
            | ok t ↦
                (write_once_or_same "windows-failure.json"
                  (obj (
                    field "schema" (str "hermes-codex-windows-failure/v3") (
                      field "event_id" (str event_id) (
                        field "created_at" (str (iso t))
                          (field "code" (str (code_name code)) end)))))
                  w').1
          ]
