-- ===== src/Memory/Track.antt =====
-- storage/memstorage/timetrack.h and timetrack.cpp: `TimeTrack`, the chunks of one id in memory.
pub mod Query
pub mod Append
pub mod Ranges
pub mod Drop
pub mod Spread
use memseries.Base.{
  ℕ, zero, suc, ◌+◌, ◌-◌, ◌%◌, ◌^◌, Bool, true, false, not, ◌&&◌, ◌||◌, ◌==◌, ltb, leb,
  if◌then◌else◌,
}
use memseries.Base.{
  Option, none, some, ◌>>=◌, ◌>>◌, ensure, List, [], ◌∷◌, ◌++◌, length, take, drop,
}
use memseries.Meas.{Meas, new_meas, min_time, max_time, in_interval_of, in_flag, MeasMinMax}
use memseries.Storage.Statistic.{min_by, max_by}
use memseries.Storage.Chunk as Chunk
use memseries.Storage.Chunk.{ChunkHeader, header_first, header_last}
use memseries.Memory.Allocator.{AllocatedData}

-- memchunk.h. The track of a chunk and the pointers to its memory are left out.
pub record MemChunk : Type 0 where
  pub chunk : Chunk.Chunk
  pub is_from_pool : Bool
  pub a_data : AllocatedData

-- `_index` is a map from the maximum time of a chunk, in the order of its keys.
pub record TimeTrack : Type 0 where
  pub meas_id : ℕ
  pub min_max : MeasMinMax
  pub max_sync_time : ℕ
  pub step : ℕ
  pub cur_chunk : Option MemChunk
  pub index : List (ℕ × MemChunk)

abbrev pub from_of : MemChunk → ℕ
from_of c = c.chunk.header.stat.min_time

abbrev pub to_of : MemChunk → ℕ
to_of c = c.chunk.header.stat.max_time

unfoldable pub new_track : ℕ → ℕ → TimeTrack
new_track step meas_id = record {
  meas_id = meas_id;
  min_max = record {
    min = record new_meas { time = max_time };
    max = record new_meas { time = min_time };
  };
  max_sync_time = min_time;
  step = step;
  cur_chunk = none;
  index = [];
}

-- `std::map::insert`, which leaves a key that is there, and `erase`.
unfoldable pub insert_key : ℕ → MemChunk → List (ℕ × MemChunk) → List (ℕ × MemChunk)
insert_key k c [] = (k, c) ∷ []
insert_key k c ((j, x) ∷ rest) =
    let later = (j, x) ∷ insert_key k c rest in
    if ltb k j then (k, c) ∷ (j, x) ∷ rest else if k == j then (j, x) ∷ rest else later

unfoldable pub erase_key : ℕ → List (ℕ × MemChunk) → List (ℕ × MemChunk)
erase_key k [] = []
erase_key k ((j, x) ∷ rest) =
    let later = (j, x) ∷ erase_key k rest in if k == j then rest else later

-- The positions that `lower_bound` and `upper_bound` point to.
unfoldable pub lower_bound : ℕ → List (ℕ × MemChunk) → ℕ
lower_bound t [] = 0
lower_bound t ((j, x) ∷ rest) = let later = suc (lower_bound t rest) in if ltb j t then later else 0

unfoldable pub upper_bound : ℕ → List (ℕ × MemChunk) → ℕ
upper_bound t [] = 0
upper_bound t ((j, x) ∷ rest) = let later = suc (upper_bound t rest) in if leb j t then later else 0

-- The chunks of a loop from one position to another that stops at the end of the map.
abbrev pub chunks_of : List (ℕ × MemChunk) → List MemChunk
chunks_of [] = []
chunks_of ((j, x) ∷ rest) = x ∷ chunks_of rest

unfoldable pub range : ℕ → ℕ → List (ℕ × MemChunk) → List MemChunk
range begin end index =
    if ltb end begin
    then chunks_of (drop begin index)
    else chunks_of (take (end - begin) (drop begin index))

unfoldable pub chunk_in_query : ℕ → ℕ → MemChunk → Bool
chunk_in_query from to c =
    in_interval_of (from_of c) (to_of c) from
    || in_interval_of (from_of c) (to_of c) to
    || in_interval_of from to (from_of c)
    || in_interval_of from to (to_of c)

-- The current chunk, if there is one.
abbrev pub current : TimeTrack → List MemChunk
current t = elim t.cur_chunk [ none ↦ [] | some c ↦ c ∷ [] ]

unfoldable pub spread : List MemChunk → ℕ × ℕ → ℕ × ℕ
spread [] r = r
spread (c ∷ cs) (least, greatest) =
    spread cs (min_by ltb (from_of c) least, max_by ltb (to_of c) greatest)

-- `minMaxTime`; `none` is the answer false.
unfoldable pub min_max_time : ℕ → TimeTrack → Option (ℕ × ℕ)
unfolding spread
min_max_time id t =
    if not (id == t.meas_id)
    then none
    else some (spread (current t) (spread (chunks_of t.index) (max_time, min_time)))

unfoldable pub current_value : Bool → List ℕ → ℕ → TimeTrack → Option Meas
current_value checks ids flag t = do
  ensure checks (length ids == 1)
  ensure checks (elim ids [ [] ↦ false | id ∷ rest ↦ id == t.meas_id ])
  let no_value = record new_meas { flag = 2 ^ 32 - 1 }
  elim t.cur_chunk [
    | none ↦ some no_value
    | some c ↦
        (let last = header_last c.chunk.header in
          if in_flag flag last then some last else some no_value)
  ]

unfoldable pub reread_min_max : TimeTrack → TimeTrack
reread_min_max t =
    let at_min : Meas → Meas = λ m. record m { time = min_time } in
    let oldest : Meas = elim t.index [
      | [] ↦ elim t.cur_chunk [ none ↦ at_min t.min_max.min | some c ↦ header_first c.chunk.header ]
      | (k, c) ∷ rest ↦ header_first c.chunk.header
    ] in
    let newest : Meas = elim t.cur_chunk [
      | none ↦ at_min t.min_max.max
      | some c ↦ header_last c.chunk.header
    ] in
    record t { min_max = record { min = oldest; max = newest } }

-- The loop of `drop_N` with a counter in 64 bits: the dropped chunks and the rest.
unfoldable pub drop_loop : ℕ → List (ℕ × MemChunk) → List MemChunk × List (ℕ × MemChunk)
drop_loop cnt [] = ([], [])
drop_loop cnt ((k, c) ∷ rest) =
    let less = (cnt + 2 ^ 64 - 1) % 2 ^ 64 in
    let more = drop_loop less rest in if less == 0 then (c ∷ [], rest) else (c ∷ more.0, more.1)

-- `reserves n` says whether `std::vector::reserve` of `n` elements succeeds; where it throws, nothing
-- is dropped and the answer is `none`.
unfoldable pub drop_n : (ℕ → Bool) → ℕ → TimeTrack → Option (List MemChunk × TimeTrack)
unfolding drop_loop reread_min_max
drop_n reserves n t = do
  ensure true (reserves n)
  let dropped = drop_loop n t.index
  some (dropped.0, reread_min_max (record t { index = dropped.1 }))

-- The loop of `drop_Old`: the count of the erased ones and the rest.
unfoldable pub drop_before : ℕ → List (ℕ × MemChunk) → ℕ × List (ℕ × MemChunk)
drop_before t [] = (0, [])
drop_before t ((k, c) ∷ rest) =
    let more = drop_before t rest in
    if ltb (to_of c) t then (more.0 + 1, more.1) else (0, (k, c) ∷ rest)

-- Without a current chunk, a null pointer is read.
unfoldable pub drop_old : ℕ → TimeTrack → Option (ℕ × TimeTrack)
unfolding drop_before
drop_old time t = do
  let dropped = drop_before time t.index
  let t' = record t { index = dropped.1 }
  c ← t.cur_chunk
  if ltb (to_of c) time
      then some (dropped.0 + 1, record t' { cur_chunk = none })
      else some (dropped.0, t')
