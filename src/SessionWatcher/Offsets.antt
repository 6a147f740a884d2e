-- ===== src/SessionWatcher/Offsets.antt =====
-- Which records `walkCompleteRecords` of bridge/src/session-watcher.mjs hands on, and where it ends.
use hermes_codex_bridge.Base.{
  ℕ, zero, suc, ◌+◌, ◌≤◌, ◌≡◌, ◌⊎◌, refl, sym, ◌∙◌, ap, inl, inr, subst, true, false, Bool-cases,
  Option, none, some, List, [], ◌∷◌, ◌++◌, length, length-append, append_nil, append_assoc, leb,
  if◌then◌else◌, Result, ok, err, arith,
}
use hermes_codex_bridge.Base.Actions.{Action, ◌>>=◌, pure, bind-eq, bind-err}
use hermes_codex_bridge.RolloutParser.Stream.{split_line}
use hermes_codex_bridge.RolloutParser.Lines.{
  lines_of, concat, SplitsAs, split_line-SplitsAs, lines_of-rest, lines_of-append, glue, glue_nil,
  lines_of-glue,
}
use hermes_codex_bridge.SessionWatcher.Walk.{
  Walked, Walk, add_segment, walked, fresh_record, walk_split, walk_buffer, walk_buffers,
  walk_complete_records,
}

-- the bytes of the record that is being read
unfoldable pub Reads : ℕ → List ℕ → Walk → Type 0
Reads max_record_bytes bytes w =
    (w.durable_offset + length bytes ≡ w.position)
    × (((w.oversize ≡ false)
          × (w.pieces ≡ bytes)
          × (w.count ≡ length bytes)
          × (leb (length bytes) max_record_bytes ≡ true))
        ⊎ ((w.oversize ≡ true) × (leb (length bytes) max_record_bytes ≡ false)))

module _ (max_record_bytes : ℕ) where
  -- what is handed on of a line that ends at an offset
  abbrev pub line_record : List ℕ → ℕ → Walked
  line_record line end = record {
    record_bytes = if leb (length line) max_record_bytes then some line else none;
    record_end = end;
  }

  add_segment-fields :
      (segment : List ℕ) (w : Walk)
      → ((add_segment max_record_bytes segment w).durable_offset ≡ w.durable_offset)
        × ((add_segment max_record_bytes segment w).position ≡ w.position)
  unfolding add_segment
  add_segment-fields segment w = (ground arith, ground arith)

  add_segment-walked :
      (bytes segment : List ℕ) (w : Walk) (end : ℕ)
      → Reads max_record_bytes bytes w
      → walked (add_segment max_record_bytes segment w) end ≡ line_record (bytes ++ segment) end
  unfolding add_segment Reads
  add_segment-walked bytes segment w end (place, inl (small, same, count, fits)) =
      ground (arith, length-append bytes segment)
  add_segment-walked bytes segment w end (place, inr (large, over)) =
      ground (arith, length-append bytes segment)

  add_segment-Reads :
      (bytes segment hash : List ℕ) (w : Walk)
      → Reads max_record_bytes bytes w
      → Reads max_record_bytes (bytes ++ segment) (record (add_segment max_record_bytes segment w) {
        prefix_hash = hash;
        position = w.position + length segment;
      })
  unfolding add_segment Reads
  add_segment-Reads bytes segment hash w (place, inl (small, same, count, fits)) =
      elim (Bool-cases (leb (w.count + length segment) max_record_bytes)) [
        | inl e ↦ (
          ground (arith, length-append bytes segment),
          inl (
            ground arith,
            ground arith,
            ground (arith, length-append bytes segment),
            ground (arith, length-append bytes segment),
          ),
        )
        | inr e ↦ (
          ground (arith, length-append bytes segment),
          inr (ground arith, ground (arith, length-append bytes segment)),
        )
      ]
  add_segment-Reads bytes segment hash w (place, inr (large, over)) = (
    ground (arith, length-append bytes segment),
    inr (ground arith, ground (arith, length-append bytes segment)),
  )

module _ {S E : Type 0} (max_record_bytes : ℕ) (check : Action S E (Unit {0}))
    (on_record : Walked → Action S E (Unit {0})) where
  -- the lines of a text one after the other, and the offset behind them
  unfoldable pub walk_lines : List (List ℕ) → ℕ → Action S E ℕ
  walk_lines [] offset = pure offset
  walk_lines (line ∷ lines) offset =
      on_record (line_record max_record_bytes line (offset + suc (length line))) >>= λ _.
      walk_lines lines (offset + suc (length line))

  -- both fail alike, or the walk ends where the lines do, with these bytes of a record
  unfoldable pub Agrees : List ℕ → Result E Walk × S → Result E ℕ × S → Type 0
  Agrees rest out ref =
      ((w : Walk) × (s : S) × (out ≡ (ok w, s))
        × (ref ≡ (ok w.durable_offset, s))
        × Reads max_record_bytes rest w)
      ⊎ ((e : E) × (s : S) × (out ≡ (err e, s)) × (ref ≡ (err e, s)))

  fresh-Reads :
      (end : ℕ) (hash : List ℕ) (w : Walk) → Reads max_record_bytes [] (fresh_record end hash w)
  unfolding Reads
  fresh-Reads end hash w = (omega arith, inl (refl, refl, refl, ground arith))

  -- the same record is handed on, and then ...
  record-Agrees :
      (rest : List ℕ) (c : Walked) (f : Action S E Walk) (g : Action S E ℕ) (s : S)
      → ((t : S) → Agrees rest (f t) (g t))
      → Agrees rest ((on_record c >>= λ _. f) s) ((on_record c >>= λ _. g) s)
  unfolding Agrees
  record-Agrees rest c f g s h = go (on_record c s)
    where
      go :
          (out : Result E (Unit {0}) × S)
          → Agrees rest
              (elim out.0 as (λ _. Result E Walk × S) [ ok _ ↦ f out.1 | err e ↦ (err e, out.1) ])
              (elim out.0 as (λ _. Result E ℕ × S) [ ok _ ↦ g out.1 | err e ↦ (err e, out.1) ])
      go (ok _, t) = h t
      go (err e, t) = inr (e, t, refl, refl)

  walk_split-Agrees :
      (others : List ℕ → Walk → Action S E Walk) (o : Option (List ℕ × List ℕ))
      (buffer bytes : List ℕ) (w : Walk) (s : S)
      → ((t : S) → check t ≡ (ok tt, t))
      → SplitsAs buffer o
      → ((more : List ℕ)
          → suc (length more) ≤ length buffer
          → (v : Walk) (t : S) → Reads max_record_bytes [] v
          → Agrees
              (lines_of more).1
              (others more v t)
              (walk_lines (lines_of more).0 v.durable_offset t))
      → Reads max_record_bytes bytes w
      → Agrees
          (glue bytes (lines_of buffer)).1
          (walk_split max_record_bytes check on_record others o buffer w s)
          (walk_lines (glue bytes (lines_of buffer)).0 w.durable_offset s)
  unfolding walk_split walk_lines Agrees SplitsAs glue Reads
  walk_split-Agrees others none buffer bytes w s goes h rest reads =
      let w' = add_segment max_record_bytes buffer w in
      let w'' = record w' {
        prefix_hash = w.prefix_hash ++ buffer;
        position = w.position + length buffer;
      } in
      let (durable, _) = add_segment-fields max_record_bytes buffer w in
      subst
        (λ l. Agrees (glue bytes l).1 (ok w'', s) (walk_lines (glue bytes l).0 w.durable_offset s))
        (sym h)
        (inl (
          w'',
          s,
          refl,
          ap (λ n. (ok n, s)) (sym durable),
          add_segment-Reads max_record_bytes bytes buffer (w.prefix_hash ++ buffer) w reads,
        ))
  walk_split-Agrees others (some (segment, more)) buffer bytes w s goes (h, k) rest reads =
      let w' = add_segment max_record_bytes segment w in
      let end = w.position + suc (length segment) in
      let v = fresh_record end (w.prefix_hash ++ (segment ++ (b'\n' ∷ []))) w' in
      let c = line_record max_record_bytes (bytes ++ segment) end in
      let place : w.durable_offset + suc (length (bytes ++ segment)) ≡ end =
        omega (arith, reads.0, length-append bytes segment) in
      let code : (check >>= λ _. on_record (walked w' end) >>= λ _. others more v) s
          ≡ (on_record c >>= λ _. others more v) s =
        bind-eq check (λ _. on_record (walked w' end) >>= λ _. others more v) s {a = tt} {s' = s}
          (goes s)
        ∙ ap (λ (x : Walked). (on_record x >>= λ _. others more v) s)
            (add_segment-walked max_record_bytes bytes segment w end reads) in
      subst
        (λ l.
          Agrees (glue bytes l).1
            ((check >>= λ _. on_record (walked w' end) >>= λ _. others more v) s)
            (walk_lines (glue bytes l).0 w.durable_offset s))
        (sym h)
        (subst
          (λ n.
            Agrees (lines_of more).1
              ((check >>= λ _. on_record (walked w' end) >>= λ _. others more v) s)
              ((on_record (line_record max_record_bytes (bytes ++ segment) n) >>= λ _.
                  walk_lines (lines_of more).0 n)
                s))
          (sym place)
          (subst
            (λ out.
              Agrees (lines_of more).1 out
                ((on_record c >>= λ _. walk_lines (lines_of more).0 end) s))
            (sym code)
            (record-Agrees (lines_of more).1 c (others more v) (walk_lines (lines_of more).0 end) s
              (λ t.
                rest more k v t
                  (fresh-Reads end (w.prefix_hash ++ (segment ++ (b'\n' ∷ []))) w')))))

  walk_buffer-Agrees :
      (fuel : ℕ) (buffer bytes : List ℕ) (w : Walk) (s : S)
      → ((t : S) → check t ≡ (ok tt, t))
      → suc (length buffer) ≤ fuel
      → Reads max_record_bytes bytes w
      → Agrees
          (glue bytes (lines_of buffer)).1
          (walk_buffer max_record_bytes check on_record fuel buffer w s)
          (walk_lines (glue bytes (lines_of buffer)).0 w.durable_offset s)
  unfolding walk_buffer
  walk_buffer-Agrees zero buffer bytes w s goes enough reads = absurd (omega (arith, enough))
  walk_buffer-Agrees (suc fuel) buffer bytes w s goes enough reads =
      walk_split-Agrees (walk_buffer max_record_bytes check on_record fuel) (split_line buffer)
        buffer bytes w s goes (split_line-SplitsAs buffer)
        (λ more k v t fresh.
          subst
            (λ l.
              Agrees l.1 (walk_buffer max_record_bytes check on_record fuel more v t)
                (walk_lines l.0 v.durable_offset t))
            (glue_nil (lines_of more))
            (walk_buffer-Agrees fuel more [] v t goes (omega (arith, enough, k)) fresh))
        reads

  -- lines in a row
  walk_lines-append :
      (lines more : List (List ℕ)) (offset : ℕ) (s : S)
      → walk_lines (lines ++ more) offset s ≡ (walk_lines lines offset >>= walk_lines more) s
  unfolding walk_lines
  walk_lines-append [] more offset s = refl
  walk_lines-append (line ∷ lines) more offset s =
      go (on_record (line_record max_record_bytes line (offset + suc (length line))) s)
        (walk_lines-append lines more (offset + suc (length line)))
    where
      go :
          (out : Result E (Unit {0}) × S)
          → ((t : S)
              → walk_lines (lines ++ more) (offset + suc (length line)) t
                ≡ (walk_lines lines (offset + suc (length line)) >>= walk_lines more) t)
          → elim out.0 as (λ _. Result E ℕ × S) [
            | ok _ ↦ walk_lines (lines ++ more) (offset + suc (length line)) out.1
            | err e ↦ (err e, out.1)
          ]
            ≡ ((λ _. elim out.0 as (λ _. Result E ℕ × S) [
              | ok _ ↦ walk_lines lines (offset + suc (length line)) out.1
              | err e ↦ (err e, out.1)
            ])
                  >>= walk_lines more)
                s
      go (ok _, t) h = h t
      go (err e, t) h = refl

  walk_buffers-Agrees :
      (buffers : List (List ℕ)) (bytes : List ℕ) (w : Walk) (s : S)
      → ((t : S) → check t ≡ (ok tt, t))
      → lines_of bytes ≡ ([], bytes)
      → Reads max_record_bytes bytes w
      → Agrees
          (lines_of (bytes ++ concat buffers)).1
          (walk_buffers max_record_bytes check on_record buffers w s)
          (walk_lines (lines_of (bytes ++ concat buffers)).0 w.durable_offset s)
  unfolding walk_buffers Agrees walk_lines
  walk_buffers-Agrees [] bytes w s goes h reads =
      subst (λ l. Agrees l.1 (ok w, s) (walk_lines l.0 w.durable_offset s))
        (sym (ap lines_of (append_nil bytes) ∙ h)) (inl (w, s, refl, refl, reads))
  walk_buffers-Agrees (buffer ∷ buffers) bytes w s goes h reads =
      let xs = bytes ++ buffer in
      let walk = walk_buffer max_record_bytes check on_record (suc (length buffer)) buffer w in
      let rest = walk_buffers max_record_bytes check on_record buffers in
      let (more, behind) = lines_of ((lines_of xs).1 ++ concat buffers) in
      let first =
        subst (λ l. Agrees l.1 (walk s) (walk_lines l.0 w.durable_offset s))
          (sym (lines_of-glue bytes buffer h))
          (walk_buffer-Agrees (suc (length buffer)) buffer bytes w s goes (omega arith) reads) in
      let lines =
        ap lines_of (sym (append_assoc bytes buffer (concat buffers)))
        ∙ lines_of-append xs (concat buffers) in
      subst (λ l. Agrees l.1 ((check >>= λ _. walk >>= rest) s) (walk_lines l.0 w.durable_offset s))
        (sym lines)
        (subst (λ out. Agrees behind out (walk_lines ((lines_of xs).0 ++ more) w.durable_offset s))
          (sym (bind-eq check (λ _. walk >>= rest) s {a = tt} {s' = s} (goes s)))
          (subst (λ out. Agrees behind ((walk >>= rest) s) out)
            (sym (walk_lines-append (lines_of xs).0 more w.durable_offset s))
            (elim first [
              | inr (e, t, k, l) ↦ inr (
                e,
                t,
                bind-err walk rest s k,
                bind-err (walk_lines (lines_of xs).0 w.durable_offset) (walk_lines more) s l,
              )
              | inl (w', t, k, l, reads') ↦
                  subst
                    (λ out.
                      Agrees behind out
                        ((walk_lines (lines_of xs).0 w.durable_offset >>= walk_lines more) s))
                    (sym (bind-eq walk rest s k))
                    (subst (λ out. Agrees behind (rest w' t) out)
                      (sym (
                        bind-eq (walk_lines (lines_of xs).0 w.durable_offset) (walk_lines more) s
                          l))
                      (walk_buffers-Agrees buffers (lines_of xs).1 w' t goes (lines_of-rest xs)
                        reads'))
            ])))

  -- Where no abort is seen, the walk over a file's bytes, in any buffers, hands on each line of them
  -- in order, with the offset behind its newline, and without its bytes if they are too many; it
  -- ends with the offset behind the last newline, or with the error of the first record that fails.
  pub walk_complete_records-Agrees :
      (start_offset : ℕ) (prefix_hash : List ℕ) (buffers : List (List ℕ)) (s : S)
      → ((t : S) → check t ≡ (ok tt, t))
      → Agrees
          (lines_of (concat buffers)).1
          (walk_complete_records max_record_bytes check on_record start_offset prefix_hash buffers
            s)
          (walk_lines (lines_of (concat buffers)).0 start_offset s)
  unfolding walk_complete_records Reads lines_of
  walk_complete_records-Agrees start_offset prefix_hash buffers s goes =
      walk_buffers-Agrees buffers [] _ s goes refl
        (omega arith, inl (refl, refl, refl, ground arith))
