-- ===== src/CandidateStore/Store.antt =====
-- The methods of `openCandidateStore` in bridge/src/candidate-store.mjs. The promise chain `tail`
-- runs one operation after the other, so each is a step of its own on the whole state.
use text.Mathlib.Text.{starts_with}
use hermes_codex_bridge.Base.{
  ℕ, String, Bool, true, false, not, ◌&&◌, ◌||◌, Option, none, some, List, [], ◌∷◌, if◌then◌else◌,
  str_eq, Result, ok, err, ◌>>=◌, all, any,
}
use hermes_codex_bridge.Base.Json.{Json, Fields, end, field, str, obj, keys, is_some}
use hermes_codex_bridge.Runtime.{Runtime}
use hermes_codex_bridge.CandidateStore.Record.{
  State, Code, state_name, may_follow, bad_patch, bad_transition, conflict, corrupt, closed,
  Candidate, valid_event_id, valid_state, normalize_candidate, to_json,
}
use hermes_codex_bridge.CandidateStore.Files.{Leaf, Directory, Disk, read_record, replace_record}

pub record Store (D : Type 0) : Type 0 where
  pub disk : Disk D
  pub is_closed : Bool

-- `{ ...fields, [key]: value }`
abbrev pub with_field : String → Json → Fields → Fields
with_field k v end = field k v end
with_field k v (field j w fs) = if str_eq j k then field j v fs else field j w (with_field k v fs)

abbrev pub spread : Fields → Fields → Fields
spread fs end = fs
spread fs (field k v gs) = spread (with_field k v fs) gs

abbrev pub fields_of : Json → Fields
fields_of (obj fs) = fs
fields_of _ = end

-- `{ ...current, ...patch, state: nextState }`
unfoldable pub patched : Candidate → Fields → State → Json
unfolding to_json
patched current patch next =
    obj (with_field "state" (str (state_name next)) (spread (fields_of (to_json current)) patch))

-- an object whose only key may be `reason`
unfoldable pub check_patch : Json → Result Code Fields
check_patch (obj fs) = if all (str_eq "reason") (keys fs) then ok fs else err bad_patch
check_patch _ = err bad_patch

abbrev same_identity : Candidate → Candidate → Bool
same_identity a b =
    str_eq a.event_id b.event_id
    && str_eq a.thread_id b.thread_id
    && str_eq a.turn_id b.turn_id
    && str_eq a.content_hash b.content_hash

-- `record.name.slice(0, -5)` of a name that ends in `.json`
abbrev strip_json : String → Option String
strip_json String.[] = none
strip_json (String.◌∷◌ c s) =
    let rest = strip_json s in
    if str_eq (String.◌∷◌ c s) ".json"
    then some ""
    else elim rest [ none ↦ none | some t ↦ some (String.◌∷◌ c t) ]

-- an operation that `enqueue` refuses once the store is closed
abbrev on_disk :
    {D A : Type 0} → (Disk D → Result Code A × Disk D) → Store D → Result Code A × Store D
on_disk op s =
    if s.is_closed then (err closed, s) else let (a, d) = op s.disk in (a, record s { disk = d })

module _ (r : Runtime) where
  open r use {Document}

  -- the checks of `transition`, up to the record that it is to write
  unfoldable pub next_record : Directory Document → String → String → Json → Result Code Candidate
  next_record root event_id next_state patch = do
    _ ← valid_event_id (some (str event_id))
    next ← valid_state (some (str next_state))
    fields ← check_patch patch
    found ← read_record r root event_id false
    elim found [
      | none ↦ err corrupt
      | some current ↦
          if may_follow current.state next
          then normalize_candidate r (patched current fields next)
          else err bad_transition
    ]

module _ (r : Runtime) (faults : ℕ → Bool) where
  open r use {Document}

  -- the file of each method, once the queue has come to it
  put_body : Json → Disk Document → Result Code Candidate × Disk Document
  put_body input d = elim (normalize_candidate r input) [
    | err e ↦ (err e, d)
    | ok candidate ↦ elim (read_record r d.leaves candidate.event_id true) [
      | err e ↦ (err e, d)
      | ok none ↦ replace_record r faults d candidate
      | ok (some existing) ↦
          if same_identity existing candidate then (ok existing, d) else (err conflict, d)
    ]
  ]

  transition_body : String → String → Json → Disk Document → Result Code Candidate × Disk Document
  transition_body event_id next_state patch d =
      elim (next_record r d.leaves event_id next_state patch) [
        | err e ↦ (err e, d)
        | ok c ↦ replace_record r faults d c
      ]

  unfoldable pub put : Json → Store Document → Result Code Candidate × Store Document
  unfolding put_body
  put input = on_disk (put_body input)

  unfoldable pub transition :
      String → String → Json → Store Document → Result Code Candidate × Store Document
  unfolding transition_body
  transition event_id next_state patch = on_disk (transition_body event_id next_state patch)

module _ (r : Runtime) (locale_le : String → String → Bool) where
  open r use {Document}

  -- `entries.sort((left, right) => left.name.localeCompare(right.name))`
  insert_entry : String × Leaf Document → Directory Document → Directory Document
  insert_entry e [] = e ∷ []
  insert_entry e (f ∷ rest) = if locale_le e.0 f.0 then e ∷ f ∷ rest else f ∷ insert_entry e rest

  sort_entries : Directory Document → Directory Document
  unfolding insert_entry
  sort_entries [] = []
  sort_entries (e ∷ rest) = insert_entry e (sort_entries rest)

  abbrev selects : Option (List State) → State → Bool
  selects none q = true
  selects (some qs) q = any (λ p. str_eq (state_name p) (state_name q)) qs

  select_states : List String → Result Code (List State)
  select_states [] = ok []
  select_states (s ∷ rest) = do q ← valid_state (some (str s)); qs ← select_states rest; ok (q ∷ qs)

  abbrev is_record_name : String → Bool
  is_record_name name = is_some (strip_json name) && starts_with name "evt_"

  -- the loop of `list` over the entries
  list_entries :
      Directory Document → Option (List State) → Directory Document → Result Code (List Candidate)
  list_entries root selected [] = ok []
  list_entries root selected ((name, l) ∷ rest) =
      let later = list_entries root selected rest in
      elim (strip_json name) [
        | none ↦ later
        | some event_id ↦
            if not (starts_with name "evt_")
            then later
            else if not l.is_file || l.is_symbolic_link
            then err corrupt
            else (do
              found ← read_record r root event_id false
              records ← later
              elim found [
                | none ↦ err corrupt
                | some c ↦ ok (if selects selected c.state then c ∷ records else records)
              ])
      ]

  list_body : Option (List String) → Directory Document → Result Code (List Candidate)
  unfolding select_states list_entries sort_entries
  list_body none root = list_entries root none (sort_entries root)
  list_body (some names) root = do
    selected ← select_states names
    list_entries root (some selected) (sort_entries root)

  unfoldable pub get_candidate :
      String → Store Document → Result Code (Option Candidate) × Store Document
  get_candidate event_id = on_disk (λ d. (read_record r d.leaves event_id true, d))

  unfoldable pub list_candidates :
      Option (List String) → Store Document → Result Code (List Candidate) × Store Document
  unfolding list_body
  list_candidates names = on_disk (λ d. (list_body names d.leaves, d))

unfoldable pub close : {D : Type 0} → Store D → Store D
close s = record s { is_closed = true }
