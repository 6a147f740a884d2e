-- ===== src/UiActionStore/Kept.antt =====
-- Actions, proofs and receipts are written once: no method of bridge/src/ui-action-store.mjs
-- changes or removes one. Only claims come and go.
use hermes_codex_bridge.Base.{
  ℕ, suc, String, ◌≡◌, refl, inl, inr, Bool, true, false, Option, none, some, List, if◌then◌else◌,
  str_eq, eq_iff, Option-cases, Result, arith,
}
use hermes_codex_bridge.Base.Actions.{Action, ◌>>=◌, pure, throw, reads, Relates-bind}
use hermes_codex_bridge.Base.Assoc.{lookup, insert, remove, lookup-insert, lookup-remove}
use hermes_codex_bridge.Base.Json.{Json}
use hermes_codex_bridge.Runtime.{Runtime}
use hermes_codex_bridge.ReplyDispatcher.Process.{Leaf}
use hermes_codex_bridge.UiActionStore.Files.{
  Code, World, leaves_of, set_leaves, written, write_json_once, write_once_or_same, register_once,
  atomic_replace, remove_leaf,
}
use hermes_codex_bridge.UiActionStore.Load.{now}
use hermes_codex_bridge.UiActionStore.Methods.{require}

pub leaves_of-set_leaves :
    {D : Type 0} (id j : String) (leaves : List (String × Leaf D)) (w : World D)
    → leaves_of j (set_leaves id leaves w) ≡ (elim (lookup id w.folders) [
      | none ↦ leaves_of j w
      | some _ ↦ if str_eq id j then leaves else leaves_of j w
    ])
unfolding leaves_of set_leaves
leaves_of-set_leaves id j leaves w = elim (Option-cases (lookup id w.folders)) [
  | inl e ↦ ground arith
  | inr (f, e) ↦
      ground (arith, eq_iff id j, lookup-insert id j (record f { leaves = leaves }) w.folders)
]

-- every leaf but a claim is as it was
unfoldable pub Keeps : {D : Type 0} → World D → World D → Type 0
Keeps {D} w w' =
    (id name : String) (l : Leaf D)
    → str_eq name "ui-claim.json" ≡ false
    → lookup name (leaves_of id w) ≡ some l
    → lookup name (leaves_of id w') ≡ some l

pub Keeps-refl : {D : Type 0} (w : World D) → Keeps w w
unfolding Keeps
Keeps-refl w id name l other there = there

pub Keeps-trans : {D : Type 0} (s t u : World D) → Keeps s t → Keeps t u → Keeps s u
unfolding Keeps
Keeps-trans s t u h k id name l other there = k id name l other (h id name l other there)

-- a change outside the folders
pub same_folders-Keeps : {D : Type 0} (w w' : World D) → w'.folders ≡ w.folders → Keeps w w'
unfolding Keeps leaves_of
same_folders-Keeps w w' e id name l other there = rw e there

-- an action that keeps them
pub record IsKeeping {D A : Type 0} (m : Action (World D) Code A) : Type 0 where
  pub keeps : (w : World D) → Keeps w (m w).1

module _ {D : Type 0} where
  pub bind-IsKeeping :
      {A B : Type 0} {m : Action (World D) Code A} {f : A → Action (World D) Code B}
      → IsKeeping m
      → ((a : A) → IsKeeping (f a))
      → IsKeeping (m >>= f)
  bind-IsKeeping {m = m} {f = f} h k = record {
    keeps = Relates-bind Keeps m f Keeps-trans h.keeps (λ a. (k a).keeps);
  }

  pub reads-IsKeeping : {A : Type 0} (f : World D → Result Code A) → IsKeeping (reads f)
  reads-IsKeeping f = record { keeps = Keeps-refl }

  pub pure-IsKeeping : {A : Type 0} (a : A) → IsKeeping {D = D} (pure a)
  pure-IsKeeping a = record { keeps = Keeps-refl }

  pub throw-IsKeeping : {A : Type 0} (c : Code) → IsKeeping {D = D} {A = A} (throw c)
  throw-IsKeeping c = record { keeps = Keeps-refl }

  pub require-IsKeeping : (b : Bool) (c : Code) → IsKeeping {D = D} (require b c)
  require-IsKeeping true c = pure-IsKeeping tt
  require-IsKeeping false c = throw-IsKeeping c

  pub now-IsKeeping : (clock : ℕ → ℕ) → IsKeeping {D = D} (now clock)
  now-IsKeeping clock = record { keeps = λ w. reads_clock w }
    where
      reads_clock : (w : World D) → Keeps w (record w { clock_reads = suc w.clock_reads })
      reads_clock w = same_folders-Keeps w _ refl

  pub if-IsKeeping :
      {A : Type 0} (b : Bool) {m n : Action (World D) Code A}
      → IsKeeping m
      → IsKeeping n
      → IsKeeping (if b then m else n)
  if-IsKeeping true h k = h
  if-IsKeeping false h k = k

  -- a new name in a folder
  insert-Keeps :
      (id name : String) (a : Leaf D) (w : World D)
      → lookup name (leaves_of id w) ≡ none
      → Keeps w (set_leaves id (insert name a (leaves_of id w)) w)
  unfolding Keeps
  insert-Keeps id name a w free j other l _ there = ground (
    arith,
    eq_iff id j,
    eq_iff name other,
    leaves_of-set_leaves id j (insert name a (leaves_of id w)) w,
    lookup-insert name other a (leaves_of id w),
  )

  write-Keeps :
      (id name : String) (a : Leaf D) (w : World D)
      → lookup name (leaves_of id w) ≡ none
      → Keeps w
          (set_leaves id (insert name a (leaves_of id w)) (record w { writes = suc w.writes }))
  unfolding leaves_of
  write-Keeps id name a w free =
      let w' = record w { writes = suc w.writes } in
      Keeps-trans w w' _ (same_folders-Keeps w w' refl) (insert-Keeps id name a w' free)

  claim-Keeps :
      (id : String) (w : World D)
      → Keeps w (set_leaves id (remove "ui-claim.json" (leaves_of id w)) w)
  unfolding Keeps
  claim-Keeps id w j other l named there = ground (
    arith,
    eq_iff id j,
    eq_iff "ui-claim.json" other,
    eq_iff other "ui-claim.json",
    leaves_of-set_leaves id j (remove "ui-claim.json" (leaves_of id w)) w,
    lookup-remove "ui-claim.json" other (leaves_of id w),
  )

module _ (r : Runtime) where
  open r use {Document}

  module _ (faults : ℕ → Bool) where
    pub write_json_once-IsKeeping :
        (id name : String) (v : Json) → IsKeeping (write_json_once r faults id name v)
    unfolding write_json_once
    write_json_once-IsKeeping id name v = record { keeps = λ w. kept w }
      where
        kept : (w : World Document) → Keeps w (write_json_once r faults id name v w).1
        kept w =
            let ticked = same_folders-Keeps w (record w { writes = suc w.writes }) refl in
            elim (Option-cases (lookup name (leaves_of id w))) [
              | inl e ↦ let added = write-Keeps id name (written r v) w e in ground arith
              | inr (l, e) ↦ ground arith
            ]

    pub write_once_or_same-IsKeeping :
        (id name : String) (v : Json) → IsKeeping (write_once_or_same r faults id name v)
    unfolding write_once_or_same
    write_once_or_same-IsKeeping id name v =
        bind-IsKeeping (write_json_once-IsKeeping id name v)
          (λ published. if-IsKeeping published (pure-IsKeeping tt) (reads-IsKeeping _))

    pub register_once-IsKeeping :
        (name : String) (v : Json) → IsKeeping (register_once r faults name v)
    unfolding register_once
    register_once-IsKeeping name v = record { keeps = λ w. same_folders-Keeps w _ (ground arith) }

    pub atomic_replace-IsKeeping :
        (name : String) (v : Json) (expected : Option Document)
        → IsKeeping (atomic_replace r faults name v expected)
    unfolding atomic_replace
    atomic_replace-IsKeeping name v expected = record {
      keeps = λ w. same_folders-Keeps w _ (ground arith);
    }

  pub remove_claim-IsKeeping : (id : String) → IsKeeping (remove_leaf r id "ui-claim.json")
  unfolding remove_leaf
  remove_claim-IsKeeping id = record { keeps = claim-Keeps id }
