-- ===== src/Base/Assoc.antt =====
-- A directory as an association list from names; a name is found at its first entry.
use Prim.Native.String.{String}
use mathlib.Core.Path.{◌≡◌, refl}
use mathlib.Core.Option.{Option, none, some}
use mathlib.Core.List.{List, [], ◌∷◌}
use native.Mathlib.Omega.{arith}
use text.Mathlib.Text.{◌==◌ as str_eq}
use text.Mathlib.TextEquality.{eq_iff}
use hermes_codex_bridge.Base.Tests.{if◌then◌else◌}

module _ {ℓ} {A : Type ℓ} where
  unfoldable pub lookup : String → List (String × A) → Option A
  lookup name [] = none
  lookup name ((n, a) ∷ rest) = if str_eq n name then some a else lookup name rest

  unfoldable pub insert : String → A → List (String × A) → List (String × A)
  insert name a [] = (name, a) ∷ []
  insert name a ((n, b) ∷ rest) =
      if str_eq n name then (name, a) ∷ rest else (n, b) ∷ insert name a rest

  unfoldable pub remove : String → List (String × A) → List (String × A)
  remove name [] = []
  remove name ((n, b) ∷ rest) =
      if str_eq n name then remove name rest else (n, b) ∷ remove name rest

  pub lookup-insert :
      (k j : String) (a : A) (m : List (String × A))
      → lookup j (insert k a m) ≡ (if str_eq k j then some a else lookup j m)
  unfolding lookup insert
  lookup-insert k j a [] = refl
  lookup-insert k j a ((n, b) ∷ rest) =
      ground (arith, eq_iff k j, eq_iff n k, eq_iff n j, lookup-insert k j a rest)

  pub lookup-remove :
      (k j : String) (m : List (String × A))
      → lookup j (remove k m) ≡ (if str_eq k j then none else lookup j m)
  unfolding lookup remove
  lookup-remove k j [] = ground arith
  lookup-remove k j ((n, b) ∷ rest) =
      ground (arith, eq_iff k j, eq_iff n k, eq_iff n j, lookup-remove k j rest)
