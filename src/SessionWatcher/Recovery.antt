-- ===== src/SessionWatcher/Recovery.antt =====
-- Reading the state file of bridge/src/session-watcher.mjs after the last frame was cut off.
use hermes_codex_bridge.Base.{
  ℕ, zero, suc, ◌-◌, ◌≤◌, String, ◌≡◌, refl, sym, subst, ◌∙◌, ap, inl, inr, Bool, true, false,
  Option, none, some, List, [], ◌∷◌, ◌++◌, all, All, length, leb, length-append, append_assoc,
  append_nil, Result, ok, ◌>>=◌, bind-eq-ok, ok-injective, arith,
}
use hermes_codex_bridge.Base.Text.{is_hex, is_digit}
use hermes_codex_bridge.Base.Json.{Json}
use hermes_codex_bridge.SessionWatcher.State.{Code, State, validate_state_record}
use hermes_codex_bridge.SessionWatcher.Frames.{
  split_colon, is_digits, read_payload, read_sized, read_hash, read_frame, Parsed, parse_frames,
  parse_state, frame_state_record,
}
use hermes_codex_bridge.SessionWatcher.Digits.{
  ascii-all, split_colon-none, split_colon-append, same_codes_refl, all_digit-hex, take-append,
  drop-append, drop_all, all-append_left, cut-cases, IsDecimal, decimal-IsDecimal,
}

-- what the proofs rely on: a hash is 64 hexadecimal digits
pub record IsHash (sha256 : List ℕ → List ℕ) : Type 0 where
  pub hex : (bs : List ℕ) → all is_hex (sha256 bs) ≡ true
  pub count : (bs : List ℕ) → length (sha256 bs) ≡ 64

module _ (sha256 : List ℕ → List ℕ) (json_of : List ℕ → Option Json) (bytes_of : Json → List ℕ)
    (hash_of : IsHash sha256) where
  abbrev pub is_small : Json → Bool
  is_small v = leb (length (bytes_of v)) 1048576

  -- ... and a record that is written is read back
  abbrev pub IsStored : Json → Type 0
  IsStored v = (is_small v ≡ true) × (json_of (bytes_of v) ≡ some v)

  -- behind the second colon of a record's frame, and behind the first
  abbrev sized : Json → List ℕ → List ℕ
  sized v more = bytes_of v ++ (b'\n' ∷ more)

  abbrev hashed : Json → List ℕ → List ℕ
  hashed v more = sha256 (bytes_of v) ++ (b':' ∷ sized v more)

  record Frame (v : Json) : Type 0 where
    size : List ℕ
    is_decimal : IsDecimal (length (bytes_of v)) size
    parts :
        (more : List ℕ)
        → frame_state_record sha256 bytes_of v ++ more ≡ size ++ (b':' ∷ hashed v more)

  frame : (v : Json) → Frame v
  unfolding frame_state_record
  frame v =
      let n = length (bytes_of v) in
      let text = b':' ∷ (sha256 (bytes_of v) ++ (b':' ∷ (bytes_of v ++ (b'\n' ∷ [])))) in
      let (size, e, d) = decimal-IsDecimal (suc n) n text (omega arith) in
      record {
        size = size;
        is_decimal = d;
        parts = λ more.
            ap (λ bs. bs ++ more) e
            ∙ append_assoc size text more
            ∙ ap (λ bs. size ++ (b':' ∷ bs))
                (append_assoc (sha256 (bytes_of v)) (b':' ∷ (bytes_of v ++ (b'\n' ∷ []))) more
                  ∙ ap (λ bs. sha256 (bytes_of v) ++ (b':' ∷ bs))
                      (append_assoc (bytes_of v) (b'\n' ∷ []) more));
      }

  is_digits-hex : (cs : List ℕ) → is_digits cs ≡ true → all is_hex cs ≡ true
  is_digits-hex [] h = refl
  is_digits-hex (c ∷ cs) h = all_digit-hex (c ∷ cs) h

  read_frame-eq :
      (n : ℕ) (size behind bytes : List ℕ)
      → split_colon bytes ≡ some (size, behind)
      → IsDecimal n size
      → leb n 1048576 ≡ true
      → read_frame sha256 json_of bytes ≡ read_hash sha256 json_of n behind
  unfolding read_frame
  read_frame-eq n size behind bytes h d small =
      ground (arith, ascii-all size (is_digits-hex size d.digits), d.shape, d.value)

  read_hash-eq :
      (n : ℕ) (hash behind bytes : List ℕ)
      → split_colon bytes ≡ some (hash, behind)
      → all is_hex hash ≡ true
      → length hash ≡ 64
      → read_hash sha256 json_of n bytes ≡ read_sized sha256 json_of n hash behind
  unfolding read_hash
  read_hash-eq n hash behind bytes h hex count = ground (arith, ascii-all hash hex)

  read_sized-eq :
      (v : Json) (more : List ℕ)
      → json_of (bytes_of v) ≡ some v
      → read_sized sha256 json_of (length (bytes_of v)) (sha256 (bytes_of v)) (sized v more)
        ≡ ok (some (v, more))
  unfolding read_sized read_payload
  read_sized-eq v more back = ground (
    arith,
    take-append (bytes_of v) (b'\n' ∷ more),
    drop-append (bytes_of v) (b'\n' ∷ more),
    same_codes_refl (sha256 (bytes_of v)),
    back,
  )

  -- A whole frame is read.
  read_frame-whole :
      (v : Json) (more : List ℕ)
      → IsStored v
      → read_frame sha256 json_of (frame_state_record sha256 bytes_of v ++ more)
        ≡ ok (some (v, more))
  read_frame-whole v more (small, back) =
      let f = frame v in
      let n = length (bytes_of v) in
      let hash = sha256 (bytes_of v) in
      let hex = is_digits-hex f.size f.is_decimal.digits in
      ap (read_frame sha256 json_of) (f.parts more)
      ∙ read_frame-eq n f.size (hashed v more) _ (split_colon-append f.size (hashed v more) hex)
          f.is_decimal small
      ∙ read_hash-eq n hash (sized v more) _
          (split_colon-append hash (sized v more) (hash_of.hex (bytes_of v)))
          (hash_of.hex (bytes_of v)) (hash_of.count (bytes_of v))
      ∙ read_sized-eq v more back

  -- A frame that is cut off ends the reading: in its size, in its hash, in its payload.
  read_frame-in_size :
      (tail m : List ℕ) (b : ℕ)
      → is_digits ((b ∷ tail) ++ m) ≡ true
      → read_frame sha256 json_of (b ∷ tail) ≡ ok none
  unfolding read_frame
  read_frame-in_size tail m b h =
      let digits = all-append_left is_digit (b ∷ tail) m h in
      let hex = all_digit-hex (b ∷ tail) digits in
      ground (arith, split_colon-none (b ∷ tail) hex, ascii-all (b ∷ tail) hex, digits)

  read_hash-in_hash :
      (n : ℕ) (t m : List ℕ)
      → all is_hex (t ++ m) ≡ true
      → length (t ++ m) ≡ 64
      → read_hash sha256 json_of n t ≡ ok none
  unfolding read_hash
  read_hash-in_hash n t m h count =
      let hex = all-append_left is_hex t m h in
      ground (arith, split_colon-none t hex, ascii-all t hex, hex, length-append t m)

  read_sized-in_payload :
      (v : Json) (hash t : List ℕ) (x : ℕ) (rest : List ℕ)
      → sized v [] ≡ t ++ (x ∷ rest)
      → read_sized sha256 json_of (length (bytes_of v)) hash t ≡ ok none
  unfolding read_sized
  read_sized-in_payload v hash t x rest h =
      let short = drop_all (length (bytes_of v)) t (
        omega (
          arith,
          ap length h,
          length-append t (x ∷ rest),
          length-append (bytes_of v) (b'\n' ∷ []),
        )) in
      ground (arith, short)

  read_frame-cut :
      (v : Json) (b : ℕ) (tail : List ℕ) (x : ℕ) (rest : List ℕ)
      → is_small v ≡ true
      → frame_state_record sha256 bytes_of v ≡ (b ∷ tail) ++ (x ∷ rest)
      → read_frame sha256 json_of (b ∷ tail) ≡ ok none
  read_frame-cut v b tail x rest small h =
      let f = frame v in
      let n = length (bytes_of v) in
      let hash = sha256 (bytes_of v) in
      let hex = is_digits-hex f.size f.is_decimal.digits in
      let whole = sym (f.parts []) ∙ append_nil (frame_state_record sha256 bytes_of v) ∙ h in
      elim (cut-cases f.size b':' (hashed v []) (b ∷ tail) (x ∷ rest) whole) [
        | inl (m, e) ↦
            read_frame-in_size tail m b (subst (λ cs. is_digits cs ≡ true) e f.is_decimal.digits)
        | inr (t, e, k) ↦
            ap (read_frame sha256 json_of) e
            ∙ read_frame-eq n f.size t _ (split_colon-append f.size t hex) f.is_decimal small
            ∙ elim (cut-cases hash b':' (sized v []) t (x ∷ rest) k) [
              | inl (m, e') ↦
                  read_hash-in_hash n t m
                    (subst (λ cs. all is_hex cs ≡ true) e' (hash_of.hex (bytes_of v)))
                    (ap length (sym e') ∙ hash_of.count (bytes_of v))
              | inr (t', e', k') ↦
                  ap (read_hash sha256 json_of n) e'
                  ∙ read_hash-eq n hash t' _ (split_colon-append hash t' (hash_of.hex (bytes_of v)))
                      (hash_of.hex (bytes_of v)) (hash_of.count (bytes_of v))
                  ∙ read_sized-in_payload v hash t' x rest k'
            ]
      ]

  module _ (is_absolute : String → Bool) where
    -- the records one after the other, and their frames
    unfoldable pub replay : List Json → State → Result Code State
    replay [] s = ok s
    replay (v ∷ vs) s = validate_state_record is_absolute v s >>= replay vs

    abbrev pub frames : List Json → List ℕ
    frames [] = []
    frames (v ∷ vs) = frame_state_record sha256 bytes_of v ++ frames vs

    -- what is read at a cut-off frame
    parse_frames-cut :
        (fuel total : ℕ) (v : Json) (tail : List ℕ) (x : ℕ) (rest : List ℕ) (s : State)
        → is_small v ≡ true
        → frame_state_record sha256 bytes_of v ≡ tail ++ (x ∷ rest)
        → parse_frames sha256 json_of is_absolute fuel total tail s
          ≡ ok (record { state = s; valid_bytes = total - length tail })
    unfolding parse_frames
    parse_frames-cut fuel total v [] x rest s small h =
        ap (λ n. ok (record { state = s; valid_bytes = n })) (omega arith)
    parse_frames-cut zero total v (b ∷ tail) x rest s small h = refl
    parse_frames-cut (suc fuel) total v (b ∷ tail) x rest s small h =
        ground (arith, read_frame-cut v b tail x rest small h)

    parse_frames-step :
        (fuel total : ℕ) (bytes : List ℕ) (v : Json) (more : List ℕ) (s : State)
        → read_frame sha256 json_of bytes ≡ ok (some (v, more))
        → parse_frames sha256 json_of is_absolute (suc fuel) total bytes s ≡ (
            validate_state_record is_absolute v s
            >>= parse_frames sha256 json_of is_absolute fuel total more)
    unfolding parse_frames read_frame split_colon
    parse_frames-step fuel total [] v more s h = absurd (ground (arith, h))
    parse_frames-step fuel total (b ∷ bs) v more s h =
        ap
          (λ frame. frame >>= λ o. elim o as (λ _. Result Code Parsed) [
            | none ↦ ok (record { state = s; valid_bytes = total - length (b ∷ bs) })
            | some (u, rest) ↦
                validate_state_record is_absolute u s
                >>= parse_frames sha256 json_of is_absolute fuel total rest
          ])
          h

    -- a frame takes a byte or more
    frame_takes_bytes :
        (v : Json) (more : List ℕ)
        → suc (length more) ≤ length (frame_state_record sha256 bytes_of v ++ more)
    frame_takes_bytes v more =
        let f = frame v in
        omega (
          arith,
          ap length (f.parts more),
          length-append f.size (b':' ∷ hashed v more),
          length-append (sha256 (bytes_of v)) (b':' ∷ sized v more),
          length-append (bytes_of v) (b'\n' ∷ more),
        )

    parse_frames-replay :
        (vs : List Json) (v : Json) (fuel total : ℕ) (tail : List ℕ) (x : ℕ) (rest : List ℕ)
        (s s' : State)
        → All IsStored vs
        → is_small v ≡ true
        → length (frames vs ++ tail) ≤ fuel
        → replay vs s ≡ ok s'
        → frame_state_record sha256 bytes_of v ≡ tail ++ (x ∷ rest)
        → parse_frames sha256 json_of is_absolute fuel total (frames vs ++ tail) s
          ≡ ok (record { state = s'; valid_bytes = total - length tail })
    unfolding replay
    parse_frames-replay [] v fuel total tail x rest s s' stored small enough h cut =
        parse_frames-cut fuel total v tail x rest s small cut
        ∙ ap (λ t. ok (record { state = t; valid_bytes = total - length tail })) (ok-injective h)
    parse_frames-replay (u ∷ vs) v zero total tail x rest s s' stored small enough h cut = absurd (
        omega (
          arith,
          enough,
          frame_takes_bytes u (frames vs ++ tail),
          ap length (append_assoc (frame_state_record sha256 bytes_of u) (frames vs) tail),
        ))
    parse_frames-replay (u ∷ vs) v (suc fuel) total tail x rest s s' (first, others) small enough h
          cut =
        let more = frames vs ++ tail in
        let whole = append_assoc (frame_state_record sha256 bytes_of u) (frames vs) tail in
        let (s1, e, k) = bind-eq-ok (validate_state_record is_absolute u s) (replay vs) h in
        ap (λ bytes. parse_frames sha256 json_of is_absolute (suc fuel) total bytes s) whole
        ∙ parse_frames-step fuel total _ u more s (read_frame-whole u more first)
        ∙ ap (λ m. m >>= parse_frames sha256 json_of is_absolute fuel total more) e
        ∙ parse_frames-replay vs v fuel total tail x rest s1 s' others small
            (omega (arith, enough, ap length whole, frame_takes_bytes u more)) k cut

    -- A state file holds the frames of records that have at most 1 MiB, are read back as they were
    -- written, and are valid one after the other, and then the start of another frame, of any length, even none. Reading it gives the state of the records
    -- that are whole, and their length, to which the file is cut back.
    pub parse_state-cut :
        (vs : List Json) (v : Json) (tail : List ℕ) (x : ℕ) (rest : List ℕ) (s : State)
        → All IsStored vs
        → is_small v ≡ true
        → replay vs (record { checkpoints = []; bootstrapped = false }) ≡ ok s
        → frame_state_record sha256 bytes_of v ≡ tail ++ (x ∷ rest)
        → parse_state sha256 json_of is_absolute (frames vs ++ tail)
          ≡ ok (record { state = s; valid_bytes = length (frames vs) })
    unfolding parse_state
    parse_state-cut vs v tail x rest s stored small h cut =
        let bytes = frames vs ++ tail in
        parse_frames-replay vs v (length bytes) (length bytes) tail x rest
          (record { checkpoints = []; bootstrapped = false }) s stored small (omega arith) h cut
        ∙ ap (λ n. ok (record { state = s; valid_bytes = n }))
            (omega (arith, length-append (frames vs) tail))
