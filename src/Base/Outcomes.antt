-- ===== src/Base/Outcomes.antt =====
-- Code that throws returns a `Result`. A method that also writes is an action of `Exec`: what was
-- written before a throw stays written, so the state comes back beside the error too.
use mathlib.Core.Path.{◌≡◌, refl}
use mathlib.Core.Bool.{Bool, true, false}
use mathlib.Core.Logic.{◌⊎◌, inl, inr}
use mathlib.Core.List.{List, [], ◌∷◌}
use hermes_codex_bridge.Base.Lists.{All}

pub data Result {ℓ κ} (E : Type κ) (A : Type ℓ) : Type (ℓ ⊔ κ) where
  ok : A → Result E A
  err : E → Result E A

module _ {E : Type 0} where
  -- `if (bad) throw e`
  abbrev pub reject_if : Bool → E → Result E (Unit {0})
  reject_if true e = err e
  reject_if false e = ok tt

-- `try { … } catch { throw e }`
abbrev pub rethrow {ℓ κ} : {E : Type κ} {A : Type ℓ} → Result E A → E → Result E A
rethrow (ok a) e = ok a
rethrow (err _) e = err e

infixl 5 ◌>>=◌ ◌>>◌
abbrev pub ◌>>=◌ {ℓ κ} : {E : Type κ} {A B : Type ℓ} → Result E A → (A → Result E B) → Result E B
ok a >>= f = f a
err e >>= f = err e

abbrev pub ◌>>◌ : {E B : Type 0} → Result E (Unit {0}) → Result E B → Result E B
m >> k = m >>= λ _. k

-- `function assert(condition, code) { if (!condition) throw new Error(code); }`
abbrev pub assert : {E : Type 0} → Bool → E → Result E (Unit {0})
assert true e = ok tt
assert false e = err e

-- a row of calls of `assert`, in their order
unfoldable pub asserts : {E : Type 0} → List (Bool × E) → Result E (Unit {0})
asserts [] = ok tt
asserts ((b, e) ∷ rest) = assert b e >> asserts rest

pub asserts-eq-ok :
    {E : Type 0} (cs : List (Bool × E)) → asserts cs ≡ ok tt → All (λ c. c.0 ≡ true) cs
unfolding asserts
asserts-eq-ok [] h = tt
asserts-eq-ok ((true, e) ∷ rest) h = (refl, asserts-eq-ok rest h)
asserts-eq-ok ((false, e) ∷ rest) h = cc

pub bind-eq-ok :
    {E A B : Type 0} (m : Result E A) (f : A → Result E B) {b : B}
    → (m >>= f) ≡ ok b
    → (a : A) × (m ≡ ok a) × (f a ≡ ok b)
bind-eq-ok (ok a) f h = (a, refl, h)
bind-eq-ok (err e) f h = cc

pub ok-injective : {E A : Type 0} {a b : A} → ◌≡◌ {A = Result E A} (ok a) (ok b) → a ≡ b
ok-injective h = cc

pub Result-cases :
    {E A : Type 0} (m : Result E A) → ((a : A) × (m ≡ ok a)) ⊎ ((e : E) × (m ≡ err e))
Result-cases (ok a) = inl (a, refl)
Result-cases (err e) = inr (e, refl)

pub bind_assoc :
    {E A B C : Type 0} (m : Result E A) (f : A → Result E B) (g : B → Result E C)
    → ((m >>= f) >>= g) ≡ (m >>= λ a. f a >>= g)
bind_assoc (ok a) f g = refl
bind_assoc (err e) f g = refl

pub bind-ext :
    {E A B : Type 0} (m : Result E A) (f g : A → Result E B)
    → ((a : A) → f a ≡ g a)
    → (m >>= f) ≡ (m >>= g)
bind-ext (ok a) f g h = h a
bind-ext (err e) f g h = refl

pub bind-ok_id : {E A : Type 0} (m : Result E A) → (m >>= λ a. ok a) ≡ m
bind-ok_id (ok a) = refl
bind-ok_id (err e) = refl
