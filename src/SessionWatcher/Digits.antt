-- ===== src/SessionWatcher/Digits.antt =====
-- Lists of bytes in frames of bridge/src/session-watcher.mjs: digits, colons and what a cut leaves.
use hermes_codex_bridge.Base.{
  ℕ, zero, suc, ◌+◌, ◌-◌, ◌*◌, ◌/◌, ◌%◌, ◌≤◌, ◌<◌, ◌≡◌, ◌⊎◌, refl, sym, ◌∙◌, ap, inl, inr, Bool,
  true, false, Bool-cases, none, some, List, [], ◌∷◌, ◌++◌, all, length, take, drop, ltb,
  append_assoc, arith,
}
use hermes_codex_bridge.Base.Text.{is_digit, is_hex}
use hermes_codex_bridge.SessionWatcher.Frames.{
  split_colon, ascii, is_digits, is_length, number_from, decimal, same_codes,
}

pub ascii-all : (cs : List ℕ) → all is_hex cs ≡ true → ascii cs ≡ cs
ascii-all [] h = refl
ascii-all (c ∷ cs) h = ground (arith, ascii-all cs (ground arith))

pub split_colon-none : (cs : List ℕ) → all is_hex cs ≡ true → split_colon cs ≡ none
unfolding split_colon
split_colon-none [] h = refl
split_colon-none (c ∷ cs) h = ground (arith, split_colon-none cs (ground arith))

pub split_colon-append :
    (cs bs : List ℕ) → all is_hex cs ≡ true → split_colon (cs ++ (b':' ∷ bs)) ≡ some (cs, bs)
unfolding split_colon
split_colon-append [] bs h = refl
split_colon-append (c ∷ cs) bs h = ground (arith, split_colon-append cs bs (ground arith))

pub same_codes_refl : (cs : List ℕ) → same_codes cs cs ≡ true
unfolding same_codes
same_codes_refl [] = refl
same_codes_refl (c ∷ cs) = ground (arith, same_codes_refl cs)

pub all_digit-hex : (cs : List ℕ) → all is_digit cs ≡ true → all is_hex cs ≡ true
all_digit-hex [] h = refl
all_digit-hex (c ∷ cs) h = ground (arith, all_digit-hex cs (ground arith))

pub take-append : (xs ys : List ℕ) → take (length xs) (xs ++ ys) ≡ xs
take-append [] ys = refl
take-append (x ∷ xs) ys = ap (λ zs. x ∷ zs) (take-append xs ys)

pub drop-append : (xs ys : List ℕ) → drop (length xs) (xs ++ ys) ≡ ys
drop-append [] ys = refl
drop-append (x ∷ xs) ys = drop-append xs ys

pub drop_all : (n : ℕ) (xs : List ℕ) → length xs ≤ n → drop n xs ≡ []
drop_all zero [] h = refl
drop_all zero (x ∷ xs) h = absurd (omega (arith, h))
drop_all (suc n) [] h = refl
drop_all (suc n) (x ∷ xs) h = drop_all n xs (omega (arith, h))

pub all-append_left : (p : ℕ → Bool) (xs ys : List ℕ) → all p (xs ++ ys) ≡ true → all p xs ≡ true
all-append_left p [] ys h = refl
all-append_left p (x ∷ xs) ys h = ground (arith, all-append_left p xs ys (ground arith))

-- A cut of a text lies in its first part, or behind the byte that follows that.
pub cut-cases :
    (xs : List ℕ) (b : ℕ) (ys tail rest : List ℕ)
    → xs ++ (b ∷ ys) ≡ tail ++ rest
    → ((m : List ℕ) × (xs ≡ tail ++ m)) ⊎ ((t : List ℕ) × (tail ≡ xs ++ (b ∷ t)) × (ys ≡ t ++ rest))
cut-cases xs b ys [] rest h = inl (xs, refl)
cut-cases [] b ys (t ∷ tail) rest h = inr (tail, ground (arith, h), ground (arith, h))
cut-cases (x ∷ xs) b ys (t ∷ tail) rest h = elim (cut-cases xs b ys tail rest (ground (arith, h))) [
  | inl (m, e) ↦ inl (m, ground (arith, h, e))
  | inr (t', e, k) ↦ inr (t', ground (arith, h, e), k)
]

-- the decimal digits of a number
pub record IsDecimal (n : ℕ) (cs : List ℕ) : Type 0 where
  pub digits : is_digits cs ≡ true
  pub shape : is_length cs ≡ true
  pub value : number_from 0 cs ≡ n

number_from-append :
    (n : ℕ) (cs : List ℕ) (d : ℕ)
    → number_from n (cs ++ (d ∷ [])) ≡ number_from n cs * 10 + (d - b'0')
unfolding number_from
number_from-append n [] d = refl
number_from-append n (c ∷ cs) d = number_from-append (n * 10 + (c - b'0')) cs d

all-append_digit :
    (cs : List ℕ) (d : ℕ)
    → all is_digit cs ≡ true
    → is_digit d ≡ true
    → all is_digit (cs ++ (d ∷ [])) ≡ true
all-append_digit [] d h k = ground (arith, k)
all-append_digit (c ∷ cs) d h k = ground (arith, all-append_digit cs d (ground arith) k)

one_digit-IsDecimal : (n : ℕ) → ltb n 10 ≡ true → IsDecimal n ((n % 10 + b'0') ∷ [])
unfolding number_from
one_digit-IsDecimal n h = record {
  digits = ground arith;
  shape = ground arith;
  value = ground arith;
}

more_digits-IsDecimal :
    (n : ℕ) (cs : List ℕ)
    → ltb n 10 ≡ false
    → IsDecimal (n / 10) cs
    → IsDecimal n (cs ++ ((n % 10 + b'0') ∷ []))
unfolding number_from
more_digits-IsDecimal n [] h k = absurd (ground (arith, k.digits))
more_digits-IsDecimal n (c ∷ []) h k = record {
  digits = ground (arith, k.digits);
  shape = ground (arith, k.digits, k.value);
  value = ground (arith, k.value);
}
more_digits-IsDecimal n (c ∷ d ∷ cs) h k =
    let last = all-append_digit cs (n % 10 + b'0') (ground (arith, k.digits)) (ground arith) in
    record {
      digits = ground (arith, k.digits, last);
      shape = ground (arith, k.shape, last);
      value =
          number_from-append ((0 + (c - b'0')) * 10 + (d - b'0')) cs (n % 10 + b'0')
          ∙ omega (arith, k.value);
    }

-- The digits in front of a text are those of the number.
pub decimal-IsDecimal :
    (fuel n : ℕ) (text : List ℕ)
    → n < fuel
    → (ds : List ℕ) × (decimal fuel n text ≡ ds ++ text) × IsDecimal n ds
unfolding decimal
decimal-IsDecimal zero n text h = absurd (omega (arith, h))
decimal-IsDecimal (suc fuel) n text h = elim (Bool-cases (ltb n 10)) [
  | inl e ↦ ((n % 10 + b'0') ∷ [], rw e refl, one_digit-IsDecimal n e)
  | inr e ↦
      let (ds, k, d) =
        decimal-IsDecimal fuel (n / 10) ((n % 10 + b'0') ∷ text) (ground (arith, h, e)) in
      (
        ds ++ ((n % 10 + b'0') ∷ []),
        rw e (k ∙ sym (append_assoc ds ((n % 10 + b'0') ∷ []) text)),
        more_digits-IsDecimal n ds e d,
      )
]
