-- ===== src/RolloutParser/Lines.antt =====
-- The lines of a text, and those of texts in a row, for bridge/src/rollout-parser.mjs.
use hermes_codex_bridge.Base.{
  ℕ, suc, ◌≤◌, ◌≡◌, refl, sym, ◌∙◌, ap, inl, inr, true, false, Bool-cases, Option, none, some, List,
  [], ◌∷◌, ◌++◌, map, ◌==◌, length, if◌then◌else◌, arith,
}
use hermes_codex_bridge.RolloutParser.Records.{Input, bytes}
use hermes_codex_bridge.RolloutParser.Stream.{split_line}

-- a byte in front of the lines of a text, and of what is behind its last newline
abbrev pub push_byte : ℕ → List (List ℕ) × List ℕ → List (List ℕ) × List ℕ
push_byte b ([], rest) = if b == b'\n' then ([] ∷ [], rest) else ([], b ∷ rest)
push_byte b (line ∷ lines, rest) =
    if b == b'\n' then ([] ∷ line ∷ lines, rest) else ((b ∷ line) ∷ lines, rest)

unfoldable pub lines_of : List ℕ → List (List ℕ) × List ℕ
lines_of [] = ([], [])
lines_of (b ∷ bs) = push_byte b (lines_of bs)

abbrev pub last_record : List ℕ → List Input
last_record [] = []
last_record (b ∷ bs) = bytes (b ∷ bs) ∷ []

-- the records of a whole text: its lines, and what is behind its last newline if that is not empty
abbrev pub records_of : List ℕ → List Input
records_of bs = let (lines, rest) = lines_of bs in map bytes lines ++ last_record rest

abbrev pub concat : List (List ℕ) → List ℕ
concat [] = []
concat (xs ∷ xss) = xs ++ concat xss

pub lines_of-rest : (bs : List ℕ) → lines_of (lines_of bs).1 ≡ ([], (lines_of bs).1)
unfolding lines_of
lines_of-rest [] = refl
lines_of-rest (b ∷ bs) = go (lines_of bs) (lines_of-rest bs)
  where
    go :
        (s : List (List ℕ) × List ℕ)
        → lines_of s.1 ≡ ([], s.1)
        → lines_of (push_byte b s).1 ≡ ([], (push_byte b s).1)
    go ([], rest) h = elim (Bool-cases (b == b'\n')) [
      | inl e ↦ rw (e, h) refl
      | inr e ↦ rw (e, h, e) refl
    ]
    go (line ∷ lines, rest) h = elim (Bool-cases (b == b'\n')) [
      | inl e ↦ rw (e, h) refl
      | inr e ↦ rw (e, h) refl
    ]

push_byte-newline :
    (b : ℕ) (s : List (List ℕ) × List ℕ) → (b == b'\n') ≡ true → push_byte b s ≡ ([] ∷ s.0, s.1)
push_byte-newline b ([], rest) e = rw e refl
push_byte-newline b (line ∷ lines, rest) e = rw e refl

-- Lines of two texts in a row.
pub lines_of-append :
    (xs ys : List ℕ)
    → lines_of (xs ++ ys) ≡ (
      (lines_of xs).0 ++ (lines_of ((lines_of xs).1 ++ ys)).0,
      (lines_of ((lines_of xs).1 ++ ys)).1,
    )
unfolding lines_of
lines_of-append [] ys = refl
lines_of-append (x ∷ xs) ys = ap (push_byte x) (lines_of-append xs ys) ∙ go (lines_of xs)
  where
    go :
        (s : List (List ℕ) × List ℕ)
        → push_byte x (s.0 ++ (lines_of (s.1 ++ ys)).0, (lines_of (s.1 ++ ys)).1) ≡ (
          (push_byte x s).0 ++ (lines_of ((push_byte x s).1 ++ ys)).0,
          (lines_of ((push_byte x s).1 ++ ys)).1,
        )
    go ([], rest) = elim (Bool-cases (x == b'\n')) [
      | inl e ↦ push_byte-newline x (lines_of (rest ++ ys)) e ∙ rw e refl
      | inr e ↦ rw e refl
    ]
    go (line ∷ lines, rest) = elim (Bool-cases (x == b'\n')) [
      | inl e ↦ rw e refl
      | inr e ↦ rw e refl
    ]

-- what the first newline leaves
unfoldable pub SplitsAs : List ℕ → Option (List ℕ × List ℕ) → Type 0
SplitsAs xs none = lines_of xs ≡ ([], xs)
SplitsAs xs (some (line, more)) =
    (lines_of xs ≡ (line ∷ (lines_of more).0, (lines_of more).1)) × (suc (length more) ≤ length xs)

pub split_line-SplitsAs : (xs : List ℕ) → SplitsAs xs (split_line xs)
unfolding split_line lines_of SplitsAs
split_line-SplitsAs [] = refl
split_line-SplitsAs (x ∷ xs) = elim (Bool-cases (x == b'\n')) [
  | inl e ↦ rw e (push_byte-newline x (lines_of xs) e, omega arith)
  | inr e ↦ rw e (go e (split_line xs) (split_line-SplitsAs xs))
]
  where
    go :
        (x == b'\n') ≡ false
        → (o : Option (List ℕ × List ℕ)) → SplitsAs xs o
        → SplitsAs (x ∷ xs) (elim o [ none ↦ none | some (line, more) ↦ some (x ∷ line, more) ])
    go e none h = ap (push_byte x) h ∙ rw e refl
    go e (some (line, more)) (h, k) = (ap (push_byte x) h ∙ rw e refl, omega (arith, k))

-- the first line, or the rest where there is none, starts so
unfoldable pub Prefixed : List ℕ → List (List ℕ) × List ℕ → Type 0
Prefixed xs ([], rest) = (zs : List ℕ) × (rest ≡ xs ++ zs)
Prefixed xs (line ∷ lines, rest) = (zs : List ℕ) × (line ≡ xs ++ zs)

push_byte-Prefixed :
    (x : ℕ) (xs : List ℕ) (s : List (List ℕ) × List ℕ)
    → (x == b'\n') ≡ false
    → Prefixed xs s
    → Prefixed (x ∷ xs) (push_byte x s)
unfolding Prefixed
push_byte-Prefixed x xs ([], rest) e (zs, h) = rw e (zs, ap (λ r. x ∷ r) h)
push_byte-Prefixed x xs (line ∷ lines, rest) e (zs, h) = rw e (zs, ap (λ r. x ∷ r) h)

-- a text without a newline, from its second byte
no_newline :
    (x : ℕ) (xs : List ℕ) (s : List (List ℕ) × List ℕ)
    → push_byte x s ≡ ([], x ∷ xs)
    → ((x == b'\n') ≡ false) × (s ≡ ([], xs))
no_newline x xs ([], rest) h = elim (Bool-cases (x == b'\n')) [
  | inl e ↦ absurd (ground (arith, h, e))
  | inr e ↦ (e, ground (arith, h, e))
]
no_newline x xs (line ∷ lines, rest) h = elim (Bool-cases (x == b'\n')) [
  | inl e ↦ absurd (ground (arith, h, e))
  | inr e ↦ absurd (ground (arith, h, e))
]

nil-Prefixed : (s : List (List ℕ) × List ℕ) → Prefixed [] s
unfolding Prefixed
nil-Prefixed ([], rest) = (rest, refl)
nil-Prefixed (line ∷ lines, rest) = (line, refl)

pub lines_of-Prefixed :
    (xs ys : List ℕ) → lines_of xs ≡ ([], xs) → Prefixed xs (lines_of (xs ++ ys))
unfolding lines_of Prefixed
lines_of-Prefixed [] ys h = nil-Prefixed (lines_of ys)
lines_of-Prefixed (x ∷ xs) ys h =
    let (e, k) = no_newline x xs (lines_of xs) h in
    push_byte-Prefixed x xs (lines_of (xs ++ ys)) e (lines_of-Prefixed xs ys k)

-- bytes without a newline in front of a text
unfoldable pub glue : List ℕ → List (List ℕ) × List ℕ → List (List ℕ) × List ℕ
glue xs ([], rest) = ([], xs ++ rest)
glue xs (line ∷ lines, rest) = ((xs ++ line) ∷ lines, rest)

push_byte-glue :
    (x : ℕ) (xs : List ℕ) (s : List (List ℕ) × List ℕ)
    → (x == b'\n') ≡ false
    → push_byte x (glue xs s) ≡ glue (x ∷ xs) s
unfolding glue
push_byte-glue x xs ([], rest) e = rw e refl
push_byte-glue x xs (line ∷ lines, rest) e = rw e refl

pub glue_nil : (s : List (List ℕ) × List ℕ) → glue [] s ≡ s
unfolding glue
glue_nil ([], rest) = refl
glue_nil (line ∷ lines, rest) = refl

pub lines_of-glue :
    (xs ys : List ℕ) → lines_of xs ≡ ([], xs) → lines_of (xs ++ ys) ≡ glue xs (lines_of ys)
unfolding lines_of
lines_of-glue [] ys h = sym (glue_nil (lines_of ys))
lines_of-glue (x ∷ xs) ys h =
    let (e, k) = no_newline x xs (lines_of xs) h in
    ap (push_byte x) (lines_of-glue xs ys k) ∙ push_byte-glue x xs (lines_of ys) e
