-- ===== src/SessionWatcher/Walk.antt =====
-- `walkCompleteRecords` of bridge/src/session-watcher.mjs over the buffers that it reads. A hash is
-- the bytes it was fed, `check` is `checkAbort`, and `on_record` what the caller does with a record.
use hermes_codex_bridge.Base.{
  ℕ, zero, suc, ◌+◌, Bool, true, false, Option, none, some, List, [], ◌∷◌, ◌++◌, length, leb,
  if◌then◌else◌,
}
use hermes_codex_bridge.Base.Actions.{Action, ◌>>=◌, pure}
use hermes_codex_bridge.RolloutParser.Stream.{split_line}

-- the argument of `onRecord`: no record is an oversize one
pub record Walked : Type 0 where
  pub record_bytes : Option (List ℕ)
  pub record_end : ℕ

-- the variables of the loops: `position` counts the bytes taken so far, and `pieces` is their
-- concatenation
pub record Walk : Type 0 where
  pub position : ℕ
  pub durable_offset : ℕ
  pub pieces : List ℕ
  pub count : ℕ
  pub oversize : Bool
  pub prefix_hash : List ℕ
  pub confirmed_hash : List ℕ

-- a segment of a record, or what remains of a buffer
unfoldable pub add_segment : ℕ → List ℕ → Walk → Walk
add_segment max_record_bytes segment w =
    if w.oversize
    then w
    else if leb (w.count + length segment) max_record_bytes
    then record w { pieces = w.pieces ++ segment; count = w.count + length segment }
    else record w { oversize = true; pieces = [] }

abbrev pub walked : Walk → ℕ → Walked
walked w end = record {
  record_bytes = if w.oversize then none else some w.pieces;
  record_end = end;
}

-- behind a newline
abbrev pub fresh_record : ℕ → List ℕ → Walk → Walk
fresh_record end hash w = record {
  position = end;
  durable_offset = end;
  pieces = [];
  count = 0;
  oversize = false;
  prefix_hash = hash;
  confirmed_hash = hash;
}

module _ {S E : Type 0} (max_record_bytes : ℕ) (check : Action S E (Unit {0}))
    (on_record : Walked → Action S E (Unit {0})) where
  -- a turn of the loop over a buffer: up to the next newline, or to the end
  unfoldable pub walk_split :
      (List ℕ → Walk → Action S E Walk) → Option (List ℕ × List ℕ) → List ℕ → Walk → Action S E Walk
  walk_split others none bytes w =
      let w' = add_segment max_record_bytes bytes w in
      pure
        (record w' { prefix_hash = w.prefix_hash ++ bytes; position = w.position + length bytes })
  walk_split others (some (segment, more)) bytes w =
      let w' = add_segment max_record_bytes segment w in
      let end = w.position + suc (length segment) in
      check >>= λ _. on_record (walked w' end) >>= λ _.
      others more (fresh_record end (w.prefix_hash ++ (segment ++ (b'\n' ∷ []))) w')

  -- the loop over a buffer, from the start of a segment on
  unfoldable pub walk_buffer : ℕ → List ℕ → Walk → Action S E Walk
  walk_buffer zero bytes w = pure w
  walk_buffer (suc fuel) bytes w = walk_split (walk_buffer fuel) (split_line bytes) bytes w

  unfoldable pub walk_buffers : List (List ℕ) → Walk → Action S E Walk
  walk_buffers [] w = pure w
  walk_buffers (buffer ∷ buffers) w =
      check >>= λ _. walk_buffer (suc (length buffer)) buffer w >>= walk_buffers buffers

  -- `walkCompleteRecords` from an offset on
  unfoldable pub walk_complete_records : ℕ → List ℕ → List (List ℕ) → Action S E Walk
  walk_complete_records start_offset prefix_hash buffers = walk_buffers buffers (record {
    position = start_offset;
    durable_offset = start_offset;
    pieces = [];
    count = 0;
    oversize = false;
    prefix_hash = prefix_hash;
    confirmed_hash = prefix_hash;
  })
