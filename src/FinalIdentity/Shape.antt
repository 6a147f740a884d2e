-- ===== src/FinalIdentity/Shape.antt =====
-- Each identifier that bridge/src/final-identity.mjs makes is one that the validators take.
use Prim.Native.Char.{Char, code}
use Prim.Native.String
use hermes_codex_bridge.Base.{
  ℕ, zero, suc, ◌+◌, ◌%◌, ◌==◌, String, ◌≡◌, refl, Bool, true, false, List, [], ◌∷◌, ◌++◌, all,
  length, arith,
}
use hermes_codex_bridge.Base.Text.{
  Class, lit, hex, codes, is_hex, matches, run, is_sha256, is_event_id, event_id_pattern,
}
use hermes_codex_bridge.Base.Strings.{take_chars, drop_chars, change_char, codes-append}
use hermes_codex_bridge.FinalIdentity.{
  hex_digit, parse_hex, variant, uuid_digits, create_deterministic_event_id,
}

-- hexadecimal digits, this many of them
record IsHex (n : ℕ) (s : String) : Type 0 where
  digits : all is_hex (codes s) ≡ true
  count : length (codes s) ≡ n

run-IsHex : (n : ℕ) (s : String) → matches (run n hex []) (codes s) ≡ true → IsHex n s
unfolding matches
run-IsHex zero String.[] h = record { digits = refl; count = refl }
run-IsHex zero (String.◌∷◌ c s) h = absurd (ground arith)
run-IsHex (suc n) String.[] h = absurd (ground arith)
run-IsHex (suc n) (String.◌∷◌ c s) h =
    let rest = run-IsHex n s (ground arith) in
    record { digits = ground (arith, rest.digits); count = ground (arith, rest.count) }

take_chars-IsHex : (n m : ℕ) (s : String) → IsHex (n + m) s → IsHex n (take_chars n s)
take_chars-IsHex zero m s h = record { digits = refl; count = refl }
take_chars-IsHex (suc n) m String.[] h = absurd (ground (arith, h.count))
take_chars-IsHex (suc n) m (String.◌∷◌ c s) h =
    let rest =
      take_chars-IsHex n m s
        (record { digits = ground (arith, h.digits); count = omega (arith, h.count) }) in
    record { digits = ground (arith, rest.digits, h.digits); count = ground (arith, rest.count) }

drop_chars-IsHex : (n m : ℕ) (s : String) → IsHex (n + m) s → IsHex m (drop_chars n s)
drop_chars-IsHex zero m s h = record { digits = h.digits; count = omega (arith, h.count) }
drop_chars-IsHex (suc n) m String.[] h = absurd (ground (arith, h.count))
drop_chars-IsHex (suc n) m (String.◌∷◌ c s) h =
    drop_chars-IsHex n m s
      (record { digits = ground (arith, h.digits); count = omega (arith, h.count) })

change_char-IsHex :
    (f : Char → Char) (k n : ℕ) (s : String)
    → ((c : Char) → is_hex (code (f c)) ≡ true)
    → IsHex n s
    → IsHex n (change_char f k s)
change_char-IsHex f k n String.[] hf h = h
change_char-IsHex f zero n (String.◌∷◌ c s) hf h = record {
  digits = ground (arith, h.digits, hf c);
  count = h.count;
}
change_char-IsHex f (suc k) zero (String.◌∷◌ c s) hf h = absurd (ground (arith, h.count))
change_char-IsHex f (suc k) (suc n) (String.◌∷◌ c s) hf h =
    let rest =
      change_char-IsHex f k n s hf
        (record { digits = ground (arith, h.digits); count = omega (arith, h.count) }) in
    record { digits = ground (arith, rest.digits, h.digits); count = ground (arith, rest.count) }

record Fits (ps : List Class) (s : String) : Type 0 where
  fits : matches ps (codes s) ≡ true

-- a group of digits in front of what matches the rest of the pattern
group-Fits :
    (n : ℕ) {ps : List Class} {s t : String}
    → IsHex n s
    → Fits ps t
    → Fits (run n hex ps) (String.◌++◌ s t)
unfolding matches
group-Fits n {ps} {s} {t} h k = record {
  fits = rw (codes-append s t) (go n (codes s) h.digits h.count);
}
  where
    go :
        (n : ℕ) (cs : List ℕ)
        → all is_hex cs ≡ true
        → length cs ≡ n
        → matches (run n hex ps) (cs ++ codes t) ≡ true
    go zero [] a b = k.fits
    go zero (c ∷ cs) a b = absurd (ground arith)
    go (suc n) [] a b = absurd (ground arith)
    go (suc n) (c ∷ cs) a b = ground (arith, go n cs (ground arith) (omega (arith, b)))

dash-Fits : {ps : List Class} {t : String} → Fits ps t → Fits (lit b'-' ∷ ps) (String.◌++◌ "-" t)
unfolding matches
dash-Fits {ps} {t} h = record { fits = rw (codes-append "-" t) h.fits }

evt-Fits :
    {ps : List Class} {t : String}
    → Fits ps t
    → Fits (lit b'e' ∷ lit b'v' ∷ lit b't' ∷ lit b'_' ∷ ps) (String.◌++◌ "evt_" t)
unfolding matches
evt-Fits {ps} {t} h = record { fits = rw (codes-append "evt_" t) h.fits }

end-Fits : (n : ℕ) (s : String) → IsHex n s → Fits (run n hex []) s
unfolding matches
end-Fits zero String.[] h = record { fits = refl }
end-Fits zero (String.◌∷◌ c s) h = absurd (ground (arith, h.count))
end-Fits (suc n) String.[] h = absurd (ground (arith, h.count))
end-Fits (suc n) (String.◌∷◌ c s) h =
    let rest =
      end-Fits n s (record { digits = ground (arith, h.digits); count = omega (arith, h.count) }) in
    record { fits = ground (arith, h.digits, rest.fits) }

hex_digit-is_hex : (a b c : Bool) → is_hex (code (hex_digit a b c)) ≡ true
hex_digit-is_hex true b c = refl
hex_digit-is_hex false true c = refl
hex_digit-is_hex false false true = refl
hex_digit-is_hex false false false = refl

uuid_digits-IsHex : (digest : String) → is_sha256 digest ≡ true → IsHex 32 (uuid_digits digest)
unfolding is_sha256
uuid_digits-IsHex digest h =
    change_char-IsHex variant 16 32 _
      (λ c. let n = parse_hex (code c) % 4 in hex_digit-is_hex (n == 0) (n == 1) (n == 2))
      (change_char-IsHex (λ _. "5") 12 32 _ (λ _. refl)
        (take_chars-IsHex 32 32 digest (run-IsHex 64 digest h)))

-- Where a digest is 64 hexadecimal digits, the identifier made of it has the shape that the contracts
-- and the stores ask for, whatever the identity is.
pub create_deterministic_event_id-valid :
    (sha256 : String → String) (identity : String)
    → is_sha256 (sha256 identity) ≡ true
    → is_event_id (create_deterministic_event_id sha256 identity) ≡ true
unfolding create_deterministic_event_id is_event_id
create_deterministic_event_id-valid sha256 identity h =
    let u = uuid_digits (sha256 identity) in
    let hu = uuid_digits-IsHex (sha256 identity) h in
    let fits : Fits event_id_pattern _ = evt-Fits (
      group-Fits 8 (take_chars-IsHex 8 24 u hu) (
        dash-Fits (
          group-Fits 4 (take_chars-IsHex 4 20 _ (drop_chars-IsHex 8 24 u hu)) (
            dash-Fits (
              group-Fits 4 (take_chars-IsHex 4 16 _ (drop_chars-IsHex 12 20 u hu)) (
                dash-Fits (
                  group-Fits 4 (take_chars-IsHex 4 12 _ (drop_chars-IsHex 16 16 u hu))
                    (dash-Fits (end-Fits 12 _ (drop_chars-IsHex 20 12 u hu)))))))))) in
    fits.fits
