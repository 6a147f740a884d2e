-- ===== src/Base/Actions.antt =====
-- A method that may throw and writes as it goes: a state goes in, and comes out beside the result
-- or the error.
use mathlib.Core.Path.{◌≡◌, refl, ap}
use native.Mathlib.Omega.{arith}
use hermes_codex_bridge.Base.Outcomes.{Result, ok, err}

abbrev pub Action : Type 0 → Type 0 → Type 0 → Type 0
Action S E A = S → Result E A × S

infixl 5 ◌>>=◌
abbrev pub ◌>>=◌ : {S E A B : Type 0} → Action S E A → (A → Action S E B) → Action S E B
◌>>=◌ m f s = let (a, s') = m s in elim a [ ok x ↦ f x s' | err e ↦ (err e, s') ]

abbrev pub pure : {S E A : Type 0} → A → Action S E A
pure a s = (ok a, s)

abbrev pub throw : {S E A : Type 0} → E → Action S E A
throw e s = (err e, s)

-- code that reads and does not write
abbrev pub reads : {S E A : Type 0} → (S → Result E A) → Action S E A
reads f s = (f s, s)

-- `m` relates the states before and after it
abbrev pub Relates : {S E A : Type 0} → (S → S → Type 0) → Action S E A → Type 0
Relates {S} R m = (s : S) → R s (m s).1

module _ {S E : Type 0} (R : S → S → Type 0) where
  -- A transitive relation that holds of two actions holds of the two in a row.
  pub Relates-bind :
      {A B : Type 0} (m : Action S E A) (f : A → Action S E B)
      → ((s t u : S) → R s t → R t u → R s u)
      → Relates R m
      → ((a : A) → Relates R (f a))
      → Relates R (m >>= f)
  Relates-bind {A} {B} m f trans hm hf s = go (m s).0
    where
      go :
          (a : Result E A)
          → R s
              (elim a as (λ _. Result E B × S) [ ok x ↦ f x (m s).1 | err e ↦ (err e, (m s).1) ]).1
      go (ok x) = trans s (m s).1 (f x (m s).1).1 (hm s) (hf x (m s).1)
      go (err e) = hm s

-- Inversion of two actions in a row that return.
pub bind-ok :
    {S E A B : Type 0} (m : Action S E A) (f : A → Action S E B) (s : S) {b : B}
    → ((m >>= f) s).0 ≡ ok b
    → (a : A) × ((m s).0 ≡ ok a) × ((f a (m s).1).0 ≡ ok b) × (((m >>= f) s).1 ≡ (f a (m s).1).1)
bind-ok {S} {E} {A} {B} m f s {b} h = go (m s) h
  where
    go :
        (out : Result E A × S)
        → (elim out.0 as (λ _. Result E B × S) [ ok x ↦ f x out.1 | err e ↦ (err e, out.1) ]).0
          ≡ ok b
        → (a : A) × (out.0 ≡ ok a)
          × ((f a out.1).0 ≡ ok b)
          × ((elim out.0 as (λ _. Result E B × S) [ ok x ↦ f x out.1 | err e ↦ (err e, out.1) ]).1
              ≡ (f a out.1).1)
    go (ok a, s') k = (a, refl, k, refl)
    go (err e, s') k = absurd (ground arith)

-- The first of two actions in a row returns, and the second goes on from there.
pub bind-eq :
    {S E A B : Type 0} (m : Action S E A) (f : A → Action S E B) (s : S) {a : A} {s' : S}
    → m s ≡ (ok a, s')
    → (m >>= f) s ≡ f a s'
bind-eq {S} {E} {A} {B} m f s h =
    ap {B = Result E B × S}
      (λ out. elim out.0 as (λ _. Result E B × S) [ ok x ↦ f x out.1 | err e ↦ (err e, out.1) ]) h

-- ... or fails, and so do both.
pub bind-err :
    {S E A B : Type 0} (m : Action S E A) (f : A → Action S E B) (s : S) {e : E} {s' : S}
    → m s ≡ (err e, s')
    → (m >>= f) s ≡ (err e, s')
bind-err {S} {E} {A} {B} m f s h =
    ap {B = Result E B × S}
      (λ out. elim out.0 as (λ _. Result E B × S) [ ok x ↦ f x out.1 | err e ↦ (err e, out.1) ]) h
