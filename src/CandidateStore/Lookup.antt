-- ===== src/CandidateStore/Lookup.antt =====
-- A replaced record file is found under its own name, and no other name is touched.
use text.Mathlib.TextLemmas.{append_cancel_right}
use hermes_codex_bridge.Base.{
  String, ◌≡◌, refl, some, [], ◌∷◌, arith, str_eq, eq_iff, if◌then◌else◌,
}
use hermes_codex_bridge.CandidateStore.Files.{Leaf, Directory, find_leaf, replace_leaf, file_name}

module _ {ℓ} {D : Type ℓ} where
  pub find_leaf-replace_leaf :
      (k j : String) (l : Leaf D) (d : Directory D)
      → find_leaf j (replace_leaf k l d) ≡ (if str_eq k j then some l else find_leaf j d)
  unfolding find_leaf replace_leaf
  find_leaf-replace_leaf k j l [] = refl
  find_leaf-replace_leaf k j l ((n, m) ∷ rest) =
      ground (arith, eq_iff k j, eq_iff n k, eq_iff n j, find_leaf-replace_leaf k j l rest)

pub file_name-eq : (a b : String) → str_eq (file_name a) (file_name b) ≡ str_eq a b
unfolding file_name
file_name-eq a b =
    ground (arith, eq_iff a b, eq_iff (file_name a) (file_name b), append_cancel_right a b ".json")
