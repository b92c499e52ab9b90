-- ===== src/Memory/Track/Append.antt =====
-- storage/memstorage/timetrack.cpp: `TimeTrack::append`, over an allocator and a container of chunks.
pub mod Keys
use memseries.Base.{
  ℕ, zero, suc, ◌+◌, ◌*◌, ◌%◌, ◌^◌, Bool, true, false, ◌||◌, ◌==◌, ltb, leb, if◌then◌else◌,
}
use memseries.Base.{Option, none, some, ◌>>=◌, ◌>>◌, ensure, List, [], ◌∷◌, length, replicate}
use memseries.Meas.{Meas, in_interval_of, update_max, update_min}
use memseries.Storage.Statistic.{Doubles}
use memseries.Storage.Chunk as Chunk
use memseries.Storage.Chunk.{ChunkHeader, is_full}
use memseries.Storage.Select.{SomeReader, some_reader, get_reader, ends_ordered}
use memseries.Memory.Allocator.{AllocatedData, is_some, no_data}
use memseries.Memory.Track.{
  MemChunk, TimeTrack, from_of, to_of, insert_key, erase_key, lower_bound, upper_bound, range,
}

-- `IMemoryAllocator`, and the calls of `MemoryChunkContainer`.
pub record MemoryAllocator (A : Type 0) : Type 0 where
  pub allocate : A → AllocatedData × A
  pub free : AllocatedData → A → Option A
  pub chunk_size : A → ℕ

pub record MemoryChunkContainer (M : Type 0) : Type 0 where
  pub add_chunk : MemChunk → M → M
  pub free_chunk : MemChunk → M → M

-- What a call of `append` changes.
pub record TrackState (A M : Type 0) : Type 0 where
  pub track : TimeTrack
  pub allocator : A
  pub mcc : M

abbrev pub update_min_max : Meas → TimeTrack → TimeTrack
update_min_max m t = record t { min_max = update_min m (update_max m t.min_max) }

-- `MeasSet::insert`: a measurement of a time that is there is left out.
unfoldable pub insert_meas : Meas → List Meas → List Meas
insert_meas m [] = m ∷ []
insert_meas m (n ∷ ns) =
    let later = n ∷ insert_meas m ns in
    if ltb m.time n.time then m ∷ n ∷ ns else if m.time == n.time then n ∷ ns else later

-- The loop of `get_target_to_replace_from_index`, which reads a target ahead; past the end that is
-- undefined.
unfoldable pub find_target : ℕ → List MemChunk → Option MemChunk
find_target t [] = none
find_target t (c ∷ []) = none
find_target t (c ∷ next ∷ rest) =
    let more = find_target t (next ∷ rest) in
    if ltb t (from_of next) || in_interval_of (from_of c) (to_of c) t then some c else more

unfoldable pub get_target_to_replace_from_index : ℕ → List (ℕ × MemChunk) → Option MemChunk
unfolding find_target
get_target_to_replace_from_index t [] = find_target t []
get_target_to_replace_from_index t ((k, c) ∷ []) = some c
get_target_to_replace_from_index t ((k, c) ∷ (k', c') ∷ rest) =
    let index = (k, c) ∷ (k', c') ∷ rest in
    let found = range (lower_bound t index) (upper_bound t index + 1) index in
    let looped = find_target t found in
    elim found [ [] ↦ looped | x ∷ xs ↦ if length xs == 0 then some x else looped ]

module _ {A M : Type 0} (alloc : MemoryAllocator A) (container : MemoryChunkContainer M) where
  module _ (d : Doubles) (sort : List Meas → List Meas) (checks : Bool) (fresh : ChunkHeader) where
    -- Whether there was memory. `fresh` stands for the header in new memory, and the buffer is 0.
    unfoldable pub create_new_chunk : Meas → TrackState A M → Option (Bool × TrackState A M)
    create_new_chunk m s = do
      let t : TimeTrack = elim s.track.cur_chunk [
        | none ↦ s.track
        | some c ↦ record s.track { index = insert_key (to_of c) c s.track.index; cur_chunk = none }
      ]
      let got = alloc.allocate s.allocator
      let size = alloc.chunk_size got.1
      let made = (do
        c ← Chunk.create d checks fresh (replicate size 0) size m
        let mc : MemChunk = record { chunk = c; is_from_pool = true; a_data = got.0 }
        some (
          true,
          record {
            track = record t { cur_chunk = some mc };
            allocator = got.1;
            mcc = container.add_chunk mc s.mcc;
          },
        ))
      if is_some got.0.header then made else some (false, record s { track = t; allocator = got.1 })

    -- The measurements of a reader in a set, less those of one time. `rounds` is fuel.
    unfoldable pub unpack : ℕ → ℕ → SomeReader → List Meas → Option (List Meas)
    unfolding insert_meas
    unpack time zero r mset = none
    unpack time (suc rounds) r mset =
        let more = (do
          (v, r') ← some_reader.read_next checks r
          unpack time rounds r' (if v.time == time then mset else insert_meas v mset)) in
        if some_reader.is_end r then some mset else more

    -- A failed append throws.
    unfoldable pub append_rest : List Meas → Chunk.Chunk → Option Chunk.Chunk
    append_rest [] c = some c
    append_rest (m ∷ ms) c = do
      (done, c') ← Chunk.append d checks m c
      let rest = append_rest ms c'
      if done then rest else none

    -- A new chunk on the heap; an empty set has no front.
    unfoldable pub pack : ℕ → List Meas → AllocatedData → Option MemChunk
    unfolding append_rest
    pack size [] no_memory = none
    pack size (m ∷ ms) no_memory = do
      ensure checks (ends_ordered (m ∷ ms))
      c ← Chunk.create d checks fresh (replicate size 0) size m
      c' ← append_rest ms c
      some (record { chunk = c'; is_from_pool = false; a_data = no_memory })

    -- The chunk that takes the place of another, with its measurements and a new one. `sizeof(Meas)` is
    -- 24.
    unfoldable pub rewrite : Meas → MemChunk → A → M → Option (MemChunk × A × M)
    unfolding insert_meas unpack pack
    rewrite m target a mcc = do
      rdr ← get_reader sort checks target.chunk
      mset ← unpack m.time (target.chunk.header.stat.count + 2) rdr []
      let mcc' = if target.is_from_pool then container.free_chunk target mcc else mcc
      let freed = alloc.free target.a_data a
      a' ← (if target.is_from_pool then freed else some a)
      new_chunk ← pack ((target.chunk.header.size + 2 * 24) % 2 ^ 32) (insert_meas m mset) no_data
      some (new_chunk, a', mcc')

    -- Without a current chunk, and with chunks in the index, a null pointer is read.
    unfoldable pub append_to_past : Meas → TrackState A M → Option (TrackState A M)
    unfolding rewrite get_target_to_replace_from_index
    append_to_past m s = do
      let t = s.track
      cur ← t.cur_chunk
      let in_current = (do
        (c, a, mcc) ← rewrite m cur s.allocator s.mcc
        some (record { track = record t { cur_chunk = some c }; allocator = a; mcc = mcc }))
      let in_index = (do
        target ← get_target_to_replace_from_index m.time t.index
        let rest = erase_key (to_of target) t.index
        (c, a, mcc) ← rewrite m target s.allocator s.mcc
        some (record {
          track = record t { index = insert_key (to_of c) c rest };
          allocator = a;
          mcc = mcc;
        }))
      if length t.index == 0 || leb (from_of cur) m.time then in_current else in_index

    abbrev pub with_min_max : Meas → TrackState A M → TrackState A M
    with_min_max m s = record s { track = update_min_max m s.track }

    -- The answer is false for `bad_alloc`.
    unfoldable pub append : Meas → TrackState A M → Option (Bool × TrackState A M)
    unfolding create_new_chunk append_to_past
    append m s = do
      let in_new = (do
        (done, s') ← create_new_chunk m s
        some (done, (if done then with_min_max m s' else s')))
      elim s.track.cur_chunk [
        | none ↦ in_new
        | some c ↦
            (let to_current = (do
              (done, c') ← Chunk.append d checks m c.chunk
              let s' = record s {
                track = record s.track { cur_chunk = some (record c { chunk = c' }) };
              }
              let in_next = (do
                (made, s'') ← create_new_chunk m s'
                some (made, (if made then with_min_max m (with_min_max m s'') else s'')))
              if done then some (true, with_min_max m s') else in_next) in
              let to_past = (do s' ← append_to_past m s; some (true, with_min_max m s')) in
              let to_old = if ltb (to_of c) m.time then to_current else to_past in
              if is_full c.chunk then in_new else to_old)
      ]
