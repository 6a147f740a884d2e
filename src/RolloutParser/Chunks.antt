-- ===== src/RolloutParser/Chunks.antt =====
-- `parseChunkStream` of bridge/src/rollout-parser.mjs and the lines of the whole text.
use hermes_codex_bridge.Base.{
  ℕ, zero, suc, ◌≤◌, String, ◌≡◌, refl, sym, ◌∙◌, ap, inl, inr, false, Bool-cases, Option, none,
  some, List, [], ◌∷◌, ◌++◌, map, leb, length, length-append, append_nil, append_assoc, bind_assoc,
  bind-ext, bind-ok_id, if◌then◌else◌, Result, ok, err, ◌>>=◌, arith,
}
use hermes_codex_bridge.Base.Json.{Json}
use hermes_codex_bridge.RolloutParser.Final.{Code, record_too_large}
use hermes_codex_bridge.RolloutParser.Records.{Input, bytes, parse}
use hermes_codex_bridge.RolloutParser.Lines.{
  last_record, lines_of, records_of, concat, SplitsAs, Prefixed, split_line-SplitsAs, lines_of-rest,
  lines_of-append, lines_of-Prefixed,
}
use hermes_codex_bridge.RolloutParser.Stream.{
  split_line, Progress, start, take_record, take_records, parse_complete_record_iterable,
  take_lines, take_chunk, take_chunks, take_rest, parse_chunk_stream,
}

module _ (byte_length : String → ℕ) (sha256 : String → String) (json_parse : String → Option Json)
    (decode : List ℕ → Option String) where
  -- the lines, one after the other
  abbrev run : List (List ℕ) → Progress → Result Code Progress
  run lines = take_records byte_length sha256 json_parse decode (map bytes lines)

  -- the whole text
  abbrev whole : List ℕ → Progress → Result Code Progress
  whole xs p =
      run (lines_of xs).0 p >>= take_rest byte_length sha256 json_parse decode (lines_of xs).1

  -- the lines, and what is behind the last newline
  abbrev lines_then : List ℕ → Progress → Result Code (List ℕ × Progress)
  lines_then xs p = run (lines_of xs).0 p >>= λ q. ok ((lines_of xs).1, q)

  run-append :
      (is js : List Input) (p : Progress)
      → take_records byte_length sha256 json_parse decode (is ++ js) p ≡ (
          take_records byte_length sha256 json_parse decode is p
          >>= take_records byte_length sha256 json_parse decode js)
  unfolding take_records
  run-append [] js p = refl
  run-append (i ∷ is) js p =
      bind-ext (take_record byte_length sha256 json_parse decode i p) _ _ (λ q. run-append is js q)
      ∙ sym (bind_assoc (take_record byte_length sha256 json_parse decode i p) _ _)

  -- The loop has enough turns.
  take_lines-eq :
      (n : ℕ) (xs : List ℕ) (p : Progress)
      → length xs ≤ n
      → take_lines byte_length sha256 json_parse decode n xs p ≡ lines_then xs p
  unfolding take_lines lines_of take_records SplitsAs
  take_lines-eq zero [] p h = refl
  take_lines-eq zero (x ∷ xs) p h = absurd (omega (arith, h))
  take_lines-eq (suc n) xs p h =
      go (λ more k q. take_lines-eq n more q (omega (arith, h, k))) (split_line xs)
        (split_line-SplitsAs xs)
    where
      go :
          ((more : List ℕ)
            → suc (length more) ≤ length xs
            → (q : Progress)
            → take_lines byte_length sha256 json_parse decode n more q ≡ lines_then more q)
          → (o : Option (List ℕ × List ℕ)) → SplitsAs xs o
          → (elim o as (λ _. Result Code (List ℕ × Progress)) [
            | none ↦ ok (xs, p)
            | some (line, more) ↦
                take_record byte_length sha256 json_parse decode (bytes line) p
                >>= take_lines byte_length sha256 json_parse decode n more
          ])
            ≡ lines_then xs p
      go others none e =
          sym (ap {B = Result Code (List ℕ × Progress)} (λ s. run s.0 p >>= λ q. ok (s.1, q)) e)
      go others (some (line, more)) (e, k) =
          bind-ext (take_record byte_length sha256 json_parse decode (bytes line) p) _ _
            (others more k)
          ∙ sym (
              bind_assoc (take_record byte_length sha256 json_parse decode (bytes line) p)
                (run (lines_of more).0) (λ q. ok ((lines_of more).1, q)))
          ∙ sym (ap {B = Result Code (List ℕ × Progress)} (λ s. run s.0 p >>= λ q. ok (s.1, q)) e)

  map-append : (ls ms : List (List ℕ)) → map bytes (ls ++ ms) ≡ map bytes ls ++ map bytes ms
  map-append [] ms = refl
  map-append (l ∷ ls) ms = ap (λ is. bytes l ∷ is) (map-append ls ms)

  -- a text in two parts
  whole-append :
      (xs ys : List ℕ) (p : Progress)
      → whole (xs ++ ys) p ≡ (run (lines_of xs).0 p >>= whole ((lines_of xs).1 ++ ys))
  whole-append xs ys p =
      let (ls, rest) = lines_of (((lines_of xs).1) ++ ys) in
      ap (λ s. run s.0 p >>= take_rest byte_length sha256 json_parse decode s.1)
        (lines_of-append xs ys)
      ∙ ap
          (λ is.
            take_records byte_length sha256 json_parse decode is p
            >>= take_rest byte_length sha256 json_parse decode rest)
          (map-append (lines_of xs).0 ls)
      ∙ ap (λ m. m >>= take_rest byte_length sha256 json_parse decode rest)
          (run-append (map bytes (lines_of xs).0) (map bytes ls) p)
      ∙ bind_assoc (run (lines_of xs).0 p) (run ls)
          (take_rest byte_length sha256 json_parse decode rest)

  record-too_large :
      (xs : List ℕ) (p : Progress)
      → leb (length xs) 2097152 ≡ false
      → take_record byte_length sha256 json_parse decode (bytes xs) p ≡ err record_too_large
  unfolding take_record parse
  record-too_large xs p large = ground arith

  whole-Prefixed :
      (xs : List ℕ) (p : Progress) (s : List (List ℕ) × List ℕ)
      → Prefixed xs s
      → leb (length xs) 2097152 ≡ false
      → (run s.0 p >>= take_rest byte_length sha256 json_parse decode s.1) ≡ err record_too_large
  unfolding take_records take_rest Prefixed
  whole-Prefixed xs p ([], []) (zs, e) large =
      absurd (ground (arith, ap length e, length-append xs zs))
  whole-Prefixed xs p ([], b ∷ rest) (zs, e) large =
      record-too_large (b ∷ rest) p (ground (arith, ap length e, length-append xs zs))
  whole-Prefixed xs p (line ∷ lines, rest) (zs, e) large =
      ap (λ m. (m >>= run lines) >>= take_rest byte_length sha256 json_parse decode rest)
        (record-too_large line p (ground (arith, ap length e, length-append xs zs)))

  -- a text without a newline whose first part is too large
  whole-too_large :
      (xs ys : List ℕ) (p : Progress)
      → lines_of xs ≡ ([], xs)
      → leb (length xs) 2097152 ≡ false
      → whole (xs ++ ys) p ≡ err record_too_large
  whole-too_large xs ys p h large =
      whole-Prefixed xs p (lines_of (xs ++ ys)) (lines_of-Prefixed xs ys h) large

  abbrev with_rest : List ℕ → Progress → Result Code (List ℕ × Progress)
  with_rest rest q = ok (rest, q)

  -- the check behind the inner loop
  abbrev check : List ℕ × Progress → Result Code (List ℕ × Progress)
  check (rest, q) = if leb (length rest) 2097152 then ok (rest, q) else err record_too_large

  abbrev finish : List ℕ × Progress → Result Code Progress
  finish (rest, p) = take_rest byte_length sha256 json_parse decode rest p

  -- The chunks and what is pending are read as their concatenation.
  take_chunks-eq :
      (chunks : List (List ℕ)) (pending : List ℕ) (p : Progress)
      → lines_of pending ≡ ([], pending)
      → (take_chunks byte_length sha256 json_parse decode chunks (pending, p) >>= finish)
        ≡ whole (pending ++ concat chunks) p
  unfolding take_chunks take_chunk take_records
  take_chunks-eq [] pending p h = sym (
      ap (λ xs. whole xs p) (append_nil pending)
      ∙ ap (λ s. run s.0 p >>= take_rest byte_length sha256 json_parse decode s.1) h)
  take_chunks-eq (chunk ∷ chunks) pending p h =
      let xs = pending ++ chunk in
      ap
        (λ m.
          ((m >>= check) >>= take_chunks byte_length sha256 json_parse decode chunks) >>= finish)
        (take_lines-eq (length xs) xs p (omega arith))
      ∙ go xs (λ q. take_chunks-eq chunks (lines_of xs).1 q (lines_of-rest xs))
          (run (lines_of xs).0 p)
      ∙ sym (whole-append xs (concat chunks) p)
      ∙ ap (λ ys. whole ys p) (append_assoc pending chunk (concat chunks))
    where
      go :
          (xs : List ℕ)
          → ((q : Progress)
              → (take_chunks byte_length sha256 json_parse decode chunks ((lines_of xs).1, q)
                  >>= finish)
                ≡ whole ((lines_of xs).1 ++ concat chunks) q)
          → (m : Result Code Progress)
          → ((((m >>= with_rest (lines_of xs).1) >>= check)
                >>= take_chunks byte_length sha256 json_parse decode chunks)
              >>= finish)
            ≡ (m >>= whole ((lines_of xs).1 ++ concat chunks))
      go xs others (err e) = refl
      go xs others (ok q) = elim (Bool-cases (leb (length (lines_of xs).1) 2097152)) [
        | inl e ↦ rw e (others q)
        | inr e ↦
            rw e (sym (whole-too_large (lines_of xs).1 (concat chunks) q (lines_of-rest xs) e))
      ]

  take_records-last :
      (rest : List ℕ) (p : Progress)
      → take_records byte_length sha256 json_parse decode (last_record rest) p
        ≡ take_rest byte_length sha256 json_parse decode rest p
  unfolding take_records take_rest
  take_records-last [] p = refl
  take_records-last (b ∷ bs) p =
      bind-ok_id (take_record byte_length sha256 json_parse decode (bytes (b ∷ bs)) p)

  take_records-whole :
      (xs : List ℕ) (p : Progress)
      → take_records byte_length sha256 json_parse decode (records_of xs) p ≡ whole xs p
  take_records-whole xs p =
      run-append (map bytes (lines_of xs).0) (last_record (lines_of xs).1) p
      ∙ bind-ext (run (lines_of xs).0 p) _ _ (take_records-last (lines_of xs).1)

  -- However a stream is cut into chunks, its messages, or its error, are those of its records: the
  -- lines of the whole text, and what is behind its last newline if that is not empty.
  pub parse_chunk_stream-concat :
      (chunks : List (List ℕ))
      → parse_chunk_stream byte_length sha256 json_parse decode chunks
        ≡ parse_complete_record_iterable byte_length sha256 json_parse decode
            (records_of (concat chunks))
  unfolding parse_chunk_stream parse_complete_record_iterable lines_of
  parse_chunk_stream-concat chunks =
      sym (
        bind_assoc (take_chunks byte_length sha256 json_parse decode chunks ([], start)) finish
          (λ p. ok p.messages))
      ∙ ap (λ m. m >>= λ p. ok p.messages)
          (take_chunks-eq chunks [] start refl ∙ sym (take_records-whole (concat chunks) start))
