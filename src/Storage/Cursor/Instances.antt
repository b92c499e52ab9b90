-- ===== src/Storage/Cursor/Instances.antt =====
-- `FullCursor` and `ChunkReader` as cursors.
use memseries.Base.{ℕ, zero, suc, ◌+◌, ◌<◌, ◌≡◌, arith, refl, ap, sym, ◌∙◌, subst, Bool, false}
use memseries.Base.{some, List, [], ◌∷◌, length}
use memseries.Meas.{Meas, max_time}
use memseries.Storage.FullCursor.{
  FullCursor, full_read_next, full_top, full_is_end, skip_equal, new_full_cursor,
}
use memseries.Storage.FullCursor.Drain.{
  Left, firsts, past, firsts-past, length-past, length-Left, in_range, full_read_next_lem,
  skip_equal-past, Left-whole, new_full_cursor_lem,
}
use memseries.Storage.Chunk.Reader.{ChunkReader, read_next, top, is_end}
use memseries.Storage.Chunk.Reader.Drain.{Stands, kept, behind, next_last, next_skips, skip_lem}
use memseries.Storage.Cursor.{ICursor, Gives}

abbrev pub full_cursor : ICursor FullCursor
full_cursor = record {
  read_next = full_read_next;
  top = full_top;
  is_end = full_is_end;
  from_time = λ c. c.min_time;
  to_time = λ c. c.max_time;
  count = λ c. length c.ma;
}

abbrev pub chunk_cursor : ICursor ChunkReader
chunk_cursor = record {
  read_next = read_next;
  top = top;
  is_end = is_end;
  from_time = λ r. r.chunk.header.stat.min_time;
  to_time = λ r. r.chunk.header.stat.max_time;
  count = λ r. r.values_count;
}

module _ (checks : Bool) where
  full_Gives :
      (fuel : ℕ) (c : FullCursor) (ms : List Meas)
      → Left c.ma c.index ms
      → length ms < fuel
      → Gives full_cursor checks c (firsts ms)
  full_Gives zero c ms h enough = absurd (omega arith)
  full_Gives (suc fuel) c [] h enough = unfold full_is_end in ground arith
  full_Gives (suc fuel) c (m ∷ ms) (here, rest) enough =
      let inside = in_range c.ma c.index here in
      let sizes = length-Left c.ma (c.index + 1) ms rest in
      let next : ℕ = skip_equal (length c.ma) c.ma m.time (c.index + 1) in
      let later =
        full_Gives fuel (record c { index = next }) (past m.time ms)
          (skip_equal-past (length c.ma) c.ma m.time (c.index + 1) ms rest (omega arith))
          (omega (arith, length-past m.time ms)) in
      (
        unfold full_is_end in ground arith,
        unfold full_top in (rw here (ground arith)),
        (
          record c { index = next },
          full_read_next_lem checks c m ms (here, rest),
          subst (Gives full_cursor checks (record c { index = next })) (firsts-past m.time ms)
              later,
        ),
      )

  -- A new cursor over an array whose first time is before MAX_TIME passes its checks and behaves
  -- as a cursor that gives the first measurement of each run of neighbours of one time: its end,
  -- its top and its next measurement agree at each step.
  pub new_full_cursor-Gives :
      (m : Meas) (ms : List Meas)
      → m.time < max_time
      → (c : FullCursor) × (new_full_cursor checks (m ∷ ms) ≡ some c)
        × Gives full_cursor checks c (firsts (m ∷ ms))
  new_full_cursor-Gives m ms h = (
    _,
    new_full_cursor_lem checks m ms h,
    full_Gives (length ms + 2) _ (m ∷ ms) (Left-whole (m ∷ ms)) (omega arith),
  )

  pub chunk_Gives :
      (fuel : ℕ) (r : ChunkReader) (m : Meas) (ms : List Meas)
      → Stands checks r m ms
      → length ms < fuel
      → Gives chunk_cursor checks r (kept m ms)
  chunk_Gives zero r m ms h enough = absurd (omega arith)
  chunk_Gives (suc fuel) r m [] h enough = (
    unfold is_end in (rw h.exists (ground arith)),
    unfold top in (rw h.exists (ap some h.shown)),
    (
      record r { top_value_exists = false },
      next_last checks r h.count h.exists
          ∙ ap (λ x. some (x, record r { top_value_exists = false })) h.shown,
      unfold is_end in (rw h.count refl),
    ),
  )
  chunk_Gives (suc fuel) r m (x ∷ xs) h enough =
      let (r', n, ns, found, stands, seen, fewer) =
        skip_lem checks r.top_value.time x xs r h.rest in
      (
        unfold is_end in (rw h.exists (ground arith)),
        unfold top in (rw h.exists (ap some h.shown)),
        (
          r',
          next_skips checks (length xs) r r' h.count h.exists found
              ∙ ap (λ t. some (t, r')) h.shown,
          subst (Gives chunk_cursor checks r')
              (sym seen ∙ ap (λ (y : Meas). behind y.time x xs) h.shown)
              (chunk_Gives fuel r' n ns stands (omega arith)),
        ),
      )
