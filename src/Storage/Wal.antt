-- ===== src/Storage/Wal.antt =====
-- storage/wal/walfile.cpp: `WALFile`, the log of measurements in a file. An exception is `none`, and so is
-- a write of what lies behind the given array. A file that cannot be opened to append is left out.
pub mod Intervals
pub mod Queries
pub mod Append
pub mod Filter
pub mod Points
pub mod Hits
pub mod Answers
pub mod Sets
pub mod Reader
pub mod MinMax
use memseries.Base.{
  ℕ, zero, suc, ◌+◌, ◌-◌, ◌%◌, ◌^◌, Bool, true, false, not, ◌&&◌, ◌||◌, ◌==◌, ltb, leb,
  if◌then◌else◌,
}
use memseries.Base.{Option, none, some, ◌>>=◌, ◌>>◌, ensure, List, [], ◌∷◌, ◌++◌, length, take}
use memseries.Meas.{
  Meas, new_meas, min_time, max_time, contains, in_flag, in_ids, in_query, in_query_interval,
  MeasMinMax, update_max, update_min,
}
use memseries.Storage.Bloom.{bloom_empty, bloom_add}
use memseries.Storage.Statistic.{Doubles, Statistic, new_statistic, update, min_by, max_by}
use memseries.Storage.Select.{ends_ordered}
use memseries.Storage.FullCursor.{FullCursor, new_full_cursor}
use memseries.Storage.Cursor.{QueryInterval, QueryTimePoint, apply}
use memseries.Storage.Cursor.Instances.{full_cursor}
use memseries.Container.StripedMap.{StripedMap, create, find_bucket}

-- status.h.
pub data AppendError : Type 0 where
  ok bad_alloc bad_shard wal_file_limit : AppendError

-- The constructor with an error leaves `writed` as it is in memory: `none`.
pub record Status : Type 0 where
  pub writed : Option ℕ
  pub ignored : ℕ
  pub error : AppendError

abbrev pub status_of : ℕ → Status
status_of wr = record { writed = some wr; ignored = 0; error = ok }

abbrev pub status_error : ℕ → AppendError → Status
status_error ig err = record { writed = none; ignored = ig; error = err }

-- `file` is what the file holds, `none` as long as there is no file.
pub record WalFile : Type 0 where
  pub file : Option (List Meas)
  pub is_readonly : Bool
  pub writed : ℕ
  pub id_bloom : ℕ
  pub min_time : ℕ
  pub max_time : ℕ

-- The constructors: a new file, and one that is there.
unfoldable pub create_file : WalFile
create_file = record {
  file = none;
  is_readonly = false;
  writed = 0;
  id_bloom = bloom_empty;
  min_time = max_time;
  max_time = min_time;
}

unfoldable pub open_file : Bool → List Meas → WalFile
open_file readonly ms = record {
  file = some ms;
  is_readonly = readonly;
  writed = length ms;
  id_bloom = 0;
  min_time = max_time;
  max_time = min_time;
}

abbrev pub content_of : Option (List Meas) → List Meas
content_of none = []
content_of (some ms) = ms

abbrev pub content : WalFile → List Meas
content w = content_of w.file

-- The loop over the written measurements. `_idBloom` has 32 bits.
unfoldable pub note_all : List Meas → WalFile → WalFile
note_all [] w = w
note_all (m ∷ ms) w = note_all ms (record w {
  id_bloom = bloom_add w.id_bloom m.id % 2 ^ 32;
  min_time = min_by ltb w.min_time m.time;
  max_time = max_by ltb w.max_time m.time;
})

-- What both `append` functions write.
unfoldable pub write_all : List Meas → WalFile → WalFile
unfolding note_all
write_all ms w =
    let noted = note_all ms w in
    record noted { file = some (content w ++ ms); writed = (w.writed + length ms) % 2 ^ 64 }

-- The number of measurements that a batch of `sz` writes, in 64 bits; `limit` is the setting
-- `wal_file_size`.
unfoldable pub write_size : ℕ → ℕ → WalFile → ℕ
write_size limit sz w =
    if ltb limit ((sz + w.writed) % 2 ^ 64) then (limit + 2 ^ 64 - w.writed) % 2 ^ 64 else sz

module _ (checks : Bool) (limit : ℕ) where
  unfoldable pub append : Meas → WalFile → Option (Status × WalFile)
  unfolding write_all
  append value w = do
    ensure checks (not w.is_readonly)
    if ltb limit w.writed
        then some (status_error 1 wal_file_limit, w)
        else some (status_of 1, write_all (value ∷ []) w)

  unfoldable pub append_range : List Meas → WalFile → Option (Status × WalFile)
  unfolding write_size write_all
  append_range ms w = do
    ensure checks (not w.is_readonly)
    let size = write_size limit (length ms) w
    let opened = record w { file = some (content w) }
    let full : Status = record { writed = some 0; ignored = length ms; error = wal_file_limit }
    let written =
        (if ltb (length ms) size then none else some (status_of size, write_all (take size ms) w))
    if size == 0 then some (full, opened) else written

unfoldable pub read_all : WalFile → Option (List Meas)
read_all w = do ms ← w.file; if ltb (length ms) w.writed then none else some (take w.writed ms)
