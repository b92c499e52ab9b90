-- ===== src/Memory/Track/Query.antt =====
-- storage/memstorage/timetrack.cpp: what `TimeTrack` reads. `sort` is `std::sort` of measurements by
-- time, and `sort_cursors` that of cursors.
use memseries.Base.{ℕ, zero, suc, ◌+◌, ◌-◌, ◌^◌, Bool, ◌&&◌, ◌==◌, ltb, leb, if◌then◌else◌}
use memseries.Base.{Option, none, some, ◌>>=◌, ◌>>◌, ensure, List, [], ◌∷◌, ◌++◌, length, ◌⊎◌}
use memseries.Meas.{Meas, new_meas}
use memseries.Storage.Statistic.{Doubles, Statistic, new_statistic, update_by}
use memseries.Storage.Cursor.{QueryInterval, QueryTimePoint, read_time_point, apply_query}
use memseries.Storage.Collapse.{colapse_cursors, either_cursor}
use memseries.Storage.Merge.{MergeSortCursor, merge_cursor}
use memseries.Storage.Linear.{LinearCursor, linear_cursor}
use memseries.Storage.Select.{SomeReader, some_reader, get_reader, chunk_stat}
use memseries.Memory.Track.{
  MemChunk, TimeTrack, from_of, to_of, lower_bound, upper_bound, range, chunk_in_query, current,
}

-- The chunks of the loops of `intervalReader` and `stat`: from the one before the lower bound on.
unfoldable pub interval_chunks : ℕ → ℕ → TimeTrack → List MemChunk
interval_chunks from to t =
    range (lower_bound from t.index - 1) (upper_bound to t.index) t.index ++ current t

-- Those that the query touches.
unfoldable pub chunks_in_query : ℕ → ℕ → List MemChunk → List MemChunk
chunks_in_query from to [] = []
chunks_in_query from to (c ∷ cs) =
    let rest = chunks_in_query from to cs in if chunk_in_query from to c then c ∷ rest else rest

module _ (d : Doubles) (sort : List Meas → List Meas) (checks : Bool) where
  unfoldable pub readers_of : List MemChunk → Option (List SomeReader)
  readers_of [] = some []
  readers_of (c ∷ cs) = do r ← get_reader sort checks c.chunk; rs ← readers_of cs; some (r ∷ rs)

  -- `std::sort` of cursors, with its comparator.
  abbrev pub CursorSort : Type 0
  CursorSort =
      (SomeReader ⊎ MergeSortCursor SomeReader → SomeReader ⊎ MergeSortCursor SomeReader → Bool)
      → List (SomeReader ⊎ MergeSortCursor SomeReader)
      → List (SomeReader ⊎ MergeSortCursor SomeReader)

  -- The cursor of a query, and `none` inside when no chunk has a reader.
  unfoldable pub interval_reader :
      CursorSort
      → QueryInterval
      → TimeTrack
      → Option (Option (ℕ × LinearCursor (SomeReader ⊎ MergeSortCursor SomeReader)))
  unfolding interval_chunks chunks_in_query readers_of
  interval_reader sort_cursors q t = do
    readers ← readers_of (chunks_in_query q.from q.to (interval_chunks q.from q.to t))
    let found = (do
      c ← colapse_cursors some_reader checks (λ _. none) sort_cursors readers
      some (some (t.meas_id, c)))
    if length readers == 0 then some none else found

  -- `foreach`, on the state `C` of the callback; `rounds` is the fuel of `apply`.
  unfoldable pub foreach :
      {C : Type 0}
      → CursorSort
      → (C → Bool)
      → (Meas → C → C)
      → QueryInterval
      → ℕ
      → TimeTrack
      → C
      → Option C
  unfolding interval_reader
  foreach sort_cursors canceled call q rounds t c = do
    rdrs ← interval_reader sort_cursors q t
    elim rdrs [
      | none ↦ some c
      | some (id, cursor) ↦ (do
        (cursor', c') ←
            apply_query
              (linear_cursor (either_cursor some_reader (merge_cursor some_reader checks)) checks)
              checks canceled call q rounds cursor c
        some c')
    ]

  unfoldable pub stats_of : ℕ → ℕ → List MemChunk → Statistic → Option Statistic
  stats_of from to [] result = some result
  stats_of from to (c ∷ cs) result = do
    st ← chunk_stat d sort checks from to c.chunk
    stats_of from to cs (update_by d st result)

  unfoldable pub stat : ℕ → ℕ → ℕ → TimeTrack → Option Statistic
  unfolding interval_chunks chunks_in_query stats_of
  stat id from to t = do
    ensure checks (id == t.meas_id)
    stats_of from to (chunks_in_query from to (interval_chunks from to t)) new_statistic

  -- The loop of `readTimePoint` over the chunks of the index.
  unfoldable pub points_of : QueryTimePoint → List MemChunk → Meas → Option Meas
  points_of q [] result = some result
  points_of q (c ∷ cs) result = do
    let found = (do
      rdr ← get_reader sort checks c.chunk
      m ← read_time_point some_reader checks q (c.chunk.header.stat.count + 2) rdr
      some (if ltb result.time m.time then m else result))
    result' ←
        (if leb (from_of c) q.time_point && leb q.time_point (to_of c) then found else some result)
    points_of q cs result'

  -- The loop over the reader of the current chunk, with fuel.
  unfoldable pub latest_of : ℕ → ℕ → SomeReader → Meas → Option Meas
  latest_of time_point zero r result = none
  latest_of time_point (suc rounds) r result =
      let more = (do
        (v, r') ← some_reader.read_next checks r
        latest_of time_point rounds r'
            (if leb result.time v.time && leb v.time time_point then v else result)) in
      if some_reader.is_end r then some result else more

  unfoldable pub latest_of_current : QueryTimePoint → List MemChunk → Meas → Option Meas
  unfolding latest_of
  latest_of_current q [] result = some result
  latest_of_current q (c ∷ cs) result =
      let found = (do
        rdr ← get_reader sort checks c.chunk
        latest_of q.time_point (c.chunk.header.stat.count + 2) rdr result) in
      if leb (to_of c) q.time_point then found else some result

  abbrev pub no_data_flag : ℕ
  no_data_flag = 2 ^ 32 - 1

  unfoldable pub track_time_point : QueryTimePoint → TimeTrack → Option Meas
  unfolding points_of latest_of_current
  track_time_point q t = do
    let near =
        range (lower_bound q.time_point t.index - 1) (upper_bound q.time_point t.index + 1) t.index
    in_index ← points_of q near (record new_meas { flag = no_data_flag })
    result ← latest_of_current q (current t) in_index
    some (if result.flag == no_data_flag then record result { time = q.time_point } else result)
