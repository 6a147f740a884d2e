-- ===== src/Base/Json.antt =====
-- JSON values, as `JSON.parse` returns them: an object lists its own keys, each once, in order.
-- `undefined`, functions and NaN are no JSON values; a field that is not there reads as `none`.
use Prim.Native.Nat.{ℕ}
use Prim.Native.String.{String}
use mathlib.Core.Bool.{Bool, true, false, ◌&&◌}
use mathlib.Core.Path.{◌≡◌, refl}
use mathlib.Core.Option.{Option, none, some}
use mathlib.Core.List.{List, [], ◌∷◌}
use text.Mathlib.Text.{◌==◌ as str_eq}
use hermes_codex_bridge.Base.Tests.{leb, if◌then◌else◌}
use hermes_codex_bridge.Base.Lists.{all, any}

-- A number is a natural one, or another finite one, by its text: negative or fractional.
mutual
  pub data Json : Type 0 where
    null : Json
    bool : Bool → Json
    natural : ℕ → Json
    other_number : String → Json
    str : String → Json
    arr : Items → Json
    obj : Fields → Json

  pub data Items : Type 0 where
    nil : Items
    cons : Json → Items → Items

  pub data Fields : Type 0 where
    end : Fields
    field : String → Json → Fields → Fields

abbrev pub items : Items → List Json
items nil = []
items (cons v vs) = v ∷ items vs

abbrev pub find_field : String → Fields → Option Json
find_field k end = none
find_field k (field j v fs) = if str_eq j k then some v else find_field k fs

abbrev pub keys : Fields → List String
keys end = []
keys (field k v fs) = k ∷ keys fs

-- `value[key]`, an own property of an object
unfoldable pub get : String → Json → Option Json
get k (obj fs) = find_field k fs
get k _ = none

-- `typeof value === "object" && value !== null && !Array.isArray(value)`
abbrev pub is_object : Json → Bool
is_object (obj fs) = true
is_object _ = false

abbrev pub is_some {ℓ} : {A : Type ℓ} → Option A → Bool
is_some none = false
is_some (some a) = true

abbrev pub has_own : String → Json → Bool
has_own k v = is_some (get k v)

-- `fields.every((field) => Object.hasOwn(value, field))`
unfoldable pub has_own_fields : List String → Json → Bool
unfolding get
has_own_fields ks v = is_object v && all (λ k. has_own k v) ks

abbrev pub as_string : Option Json → Option String
as_string (some (str s)) = some s
as_string _ = none

abbrev pub or_else {ℓ} : {A : Type ℓ} → Option A → A → A
or_else none d = d
or_else (some a) d = a

-- the text of a field, and the value of a field, that a validator has shown to be there
unfoldable pub text_at : String → Json → String
unfolding get
text_at k v = or_else (as_string (get k v)) ""

unfoldable pub at : String → Json → Json
unfolding get
at k v = or_else (get k v) null

-- `typeof value === "string" && test(value)`
unfoldable pub string_is : (String → Bool) → Option Json → Bool
string_is test (some (str s)) = test s
string_is test _ = false

abbrev pub is_string : Option Json → Bool
is_string = string_is (λ _. true)

abbrev pub is_text : String → String → Bool
is_text s t = str_eq t s

-- `new Set(names).has(value)`
abbrev pub is_member : List String → String → Bool
is_member names s = any (λ n. str_eq n s) names

-- `Number.isSafeInteger(value) && value >= 0`
abbrev pub max_safe_integer : ℕ
max_safe_integer = 9007199254740991

abbrev pub safe_natural : Json → Option ℕ
safe_natural (natural n) = if leb n max_safe_integer then some n else none
safe_natural _ = none

pub string_is-true :
    (test : String → Bool) (k : String) (v : Json)
    → string_is test (get k v) ≡ true
    → (get k v ≡ some (str (text_at k v))) × (test (text_at k v) ≡ true)
unfolding string_is text_at
string_is-true test k v h = go (get k v) refl h
  where
    go :
        (o : Option Json)
        → get k v ≡ o
        → string_is test o ≡ true
        → (get k v ≡ some (str (or_else (as_string (get k v)) "")))
          × (test (or_else (as_string (get k v)) "") ≡ true)
    go none e h = cc
    go (some (str s)) e h = rw e (refl, h)
    go (some null) e h = cc
    go (some (bool b)) e h = cc
    go (some (natural n)) e h = cc
    go (some (other_number n)) e h = cc
    go (some (arr vs)) e h = cc
    go (some (obj fs)) e h = cc
