-- ===== src/Examples/Tracks.antt =====
-- The theorems on tracks at concrete inputs.
use memseries.Base.{ℕ, ◌+◌, ◌≤◌, ◌≡◌, ◌⊎◌, arith, refl, true, false, ◌==◌, if◌then◌else◌}
use memseries.Base.{some, List, [], ◌∷◌, ◌++◌, length, take, drop, ltb, replicate}
use memseries.Meas.{new_meas, min_time, max_time}
use memseries.Compression.Buffer as Buffer
use memseries.Compression.Facade.{new_writer}
use memseries.Storage.Statistic.{Doubles, new_statistic}
use memseries.Storage.Chunk.{MeasData}
use memseries.Memory.Allocator.{no_data}
use memseries.Memory.Track.{MemChunk, TimeTrack, chunks_of, current, drop_n, drop_old, min_max_time}
use memseries.Memory.Track.Query.{interval_chunks, chunks_in_query}
use memseries.Memory.Track.Append.{
  MemoryAllocator, MemoryChunkContainer, TrackState, append, create_new_chunk,
}
use memseries.Memory.Track.Append.Keys.{IsKeyed, append-IsKeyed}
use memseries.Memory.Track.Ranges.{KeysFrom, ended_by, interval_chunks-ended_by}
use memseries.Memory.Track.Drop.{kept_from, drop_n-take, drop_old-kept_from}
use memseries.Memory.Track.Spread.{AllWithin, begins_at, ends_at, min_max_time-AllWithin}
use memseries.Examples.{sample}
use memseries.Memory.Track.{insert_key}
use memseries.Storage.Chunk.{is_full, ChunkHeader}
use memseries.Base.{none}

abbrev doubles : Doubles
doubles = record { lt = ltb; plus = λ a b. a }

abbrev blank : MeasData
blank = record { id = 0; time = 0; value = 0; flag = 0 }

-- A chunk with a first and a last time.
abbrev chunk_between : ℕ → ℕ → MemChunk
chunk_between from to = record {
  chunk = record {
    header = record {
      id = 1;
      meas_id = 7;
      data_first = record blank { time = from };
      data_last = record blank { time = to };
      bw_pos = 0;
      size = 8;
      crc = 0;
      offset_in_page = 0;
      stat = record new_statistic { min_time = from; max_time = to; count = 2 };
      is_sorted = 1;
    };
    writer = new_writer (Buffer.create (replicate 8 0));
  };
  is_from_pool = false;
  a_data = no_data;
}

abbrev old_chunks : List (ℕ × MemChunk)
old_chunks = (10, chunk_between 1 10) ∷ (30, chunk_between 20 30) ∷ []

abbrev track : TimeTrack
track = record {
  meas_id = 7;
  min_max = record { min = new_meas; max = new_meas };
  max_sync_time = 0;
  step = 0;
  cur_chunk = some (chunk_between 40 50);
  index = old_chunks;
}

keys : KeysFrom 0 track.index
keys = (omega arith, refl, omega arith, (omega arith, refl, omega arith, tt))

interval_chunks-ended_by_example :
    chunks_in_query 5 25 (interval_chunks 5 25 track)
    ≡ chunks_in_query 5 25 (ended_by 25 (chunks_of track.index) ++ current track)
interval_chunks-ended_by_example = interval_chunks-ended_by 5 25 track (omega arith) keys

drop_n-take_example :
    (gone : List MemChunk) × (t' : TimeTrack) × (drop_n (λ n. ltb n 100) 1 track ≡ some (gone, t'))
    × (gone ≡ (if 1 == 0 then chunks_of track.index else chunks_of (take 1 track.index)))
    × (t'.index ≡ (if 1 == 0 then [] else drop 1 track.index))
    × (t'.cur_chunk ≡ track.cur_chunk)
drop_n-take_example = drop_n-take (λ n. ltb n 100) 1 track (omega arith) (omega arith) refl

drop_old-kept_from_example :
    (n : ℕ) × (t' : TimeTrack) × (drop_old 15 track ≡ some (n, t'))
    × (chunks_of t'.index ++ current t' ≡ kept_from 15 (chunks_of track.index ++ current track))
    × (n + (length t'.index + length (current t')) ≡ length track.index + 1)
drop_old-kept_from_example = drop_old-kept_from 15 track (chunk_between 40 50) keys refl

min_max_time-AllWithin_example :
    (least : ℕ) × (greatest : ℕ) × (min_max_time 7 track ≡ some (least, greatest))
    × AllWithin least greatest (chunks_of track.index ++ current track)
    × (least ≤ max_time)
    × ((least ≡ max_time) ⊎ (begins_at least (chunks_of track.index ++ current track) ≡ true))
    × ((greatest ≡ min_time) ⊎ (ends_at greatest (chunks_of track.index ++ current track) ≡ true))
min_max_time-AllWithin_example = min_max_time-AllWithin track

-- An allocator without memory, and a container that does nothing.
abbrev empty_allocator : MemoryAllocator ℕ
empty_allocator = record { allocate = λ a. (no_data, a); free = λ x a. some a; chunk_size = λ a. 8 }

abbrev idle_container : MemoryChunkContainer ℕ
idle_container = record { add_chunk = λ c m. m; free_chunk = λ c m. m }

abbrev fresh : ChunkHeader
fresh = (chunk_between 0 0).chunk.header

-- The writer of the current chunk is full.
abbrev full_chunk : MemChunk
full_chunk = record (chunk_between 40 50) {
  chunk = record {
    header = (chunk_between 40 50).chunk.header;
    writer = record (new_writer (Buffer.create (replicate 8 0))) { is_full = true };
  };
}

abbrev before : TrackState ℕ ℕ
before = record { track = record track { cur_chunk = some full_chunk }; allocator = 0; mcc = 0 }

abbrev after : TrackState ℕ ℕ
after = record {
  track = record track { cur_chunk = none; index = old_chunks ++ ((50, full_chunk) ∷ []) };
  allocator = 0;
  mcc = 0;
}

no_memory_left :
    append empty_allocator idle_container doubles (λ ms. ms) true fresh (sample 60 1 0) before
    ≡ some (false, after)
unfolding append create_new_chunk insert_key is_full new_writer
no_memory_left = refl

append-IsKeyed_example : IsKeyed empty_allocator idle_container after
append-IsKeyed_example =
    append-IsKeyed empty_allocator idle_container doubles (λ ms. ms) true fresh (sample 60 1 0)
      before after false (omega arith, refl, (omega arith, refl, tt)) no_memory_left
