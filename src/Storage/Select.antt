-- ===== src/Storage/Select.antt =====
-- storage/chunk.cpp: `Chunk::getReader` with the sort of an unsorted chunk, and `Chunk::stat`.
pub mod Fold
use memseries.Base.{ℕ, zero, suc, ◌+◌, Bool, false, not, ltb, leb, ◌==◌, ◌&&◌, ◌<◌, if◌then◌else◌}
use memseries.Base.{
  Option, none, some, ◌>>=◌, ◌>>◌, ensure, List, [], ◌∷◌, length, set, replicate, get_elem?,
}
use memseries.Base.{◌⊎◌, inl, inr}
use memseries.Meas.{Meas, new_meas, in_interval_of}
use memseries.Storage.Statistic.{Doubles, Statistic, new_statistic, update}
use memseries.Storage.Chunk.{Chunk}
use memseries.Storage.Chunk.Reader.{ChunkReader, raw_reader, is_end, read_next}
use memseries.Storage.FullCursor.{FullCursor, new_full_cursor}
use memseries.Storage.Cursor.{ICursor}
use memseries.Storage.Cursor.Instances.{chunk_cursor, full_cursor}
use memseries.Storage.Collapse.{either_cursor}

-- What `getReader` returns: the reader of a sorted chunk, or the array of an unsorted one.
abbrev pub SomeReader : Type 0
SomeReader = ChunkReader ⊎ FullCursor

abbrev pub some_reader : ICursor SomeReader
some_reader = either_cursor chunk_cursor full_cursor

-- `ma[pos++] = v` for all that the reader returns; a write out of the array is undefined.
unfoldable pub fill_array : Bool → ℕ → ChunkReader → ℕ → List Meas → Option (List Meas)
fill_array checks zero r pos ma = none
fill_array checks (suc rounds) r pos ma =
    let more = (do
      (v, r') ← read_next checks r
      old ← get_elem? ma pos
      fill_array checks rounds r' (pos + 1) (set ma pos v)) in
    if is_end r then some ma else more

-- `ma.front().time <= ma.back().time`.
abbrev pub last_time : ℕ → List Meas → ℕ
last_time t [] = t
last_time t (m ∷ ms) = last_time m.time ms

abbrev pub ends_ordered : List Meas → Bool
ends_ordered [] = false
ends_ordered (m ∷ ms) = leb m.time (last_time m.time ms)

-- `sort` is `std::sort` by time. The fuel is a round more than the reader has measurements.
unfoldable pub get_reader : (List Meas → List Meas) → Bool → Chunk → Option SomeReader
unfolding fill_array
get_reader sort checks c = do
  raw ← raw_reader checks c
  let count = c.header.stat.count
  let sorted = (do
    ma ← fill_array checks (count + 2) raw 0 (replicate count new_meas)
    ensure checks (ends_ordered (sort ma))
    fr ← new_full_cursor checks (sort ma)
    some (inr fr))
  if c.header.is_sorted == 0 then sorted else some (inl raw)

-- The loop of `stat` over a reader, with fuel.
unfoldable pub stat_loop :
    {S : Type 0} → ICursor S → Doubles → Bool → ℕ → ℕ → ℕ → S → Statistic → Option Statistic
stat_loop o d checks from to zero r result = none
stat_loop o d checks from to (suc rounds) r result =
    let more = (do
      (m, r') ← o.read_next checks r
      stat_loop o d checks from to rounds r'
          (if in_interval_of from to m.time then update d m result else result)) in
    if o.is_end r then some result else more

unfoldable pub chunk_stat :
    Doubles → (List Meas → List Meas) → Bool → ℕ → ℕ → Chunk → Option Statistic
unfolding stat_loop get_reader
chunk_stat d sort checks from to c = do
  let st = c.header.stat
  let part = (do
    r ← get_reader sort checks c
    stat_loop some_reader d checks from to (st.count + 2) r new_statistic)
  if in_interval_of from to st.min_time && in_interval_of from to st.max_time then some st else part
