-- ===== src/Storage/Chunk/Reader.antt =====
-- storage/chunk.cpp: `ChunkReader`, the cursor of a chunk that is in order of time.
pub mod Drain
use memseries.Base.{
  ℕ, zero, suc, ◌+◌, ◌-◌, ◌%◌, ◌^◌, Bool, true, false, not, ◌&&◌, ◌==◌, leb, if◌then◌else◌,
}
use memseries.Base.{Option, none, some, ◌>>=◌, ◌>>◌, ensure, List, [], ◌∷◌}
use memseries.Meas.{Meas}
use memseries.Compression.Buffer
use memseries.Compression.Facade
use memseries.Compression.Facade.{CompressedReader, new_reader}
use memseries.Storage.Chunk.{Chunk, header_first}

pub record ChunkReader : Type 0 where
  pub values_count : ℕ
  pub top_value_exists : Bool
  pub top_value : Meas
  pub count : ℕ
  pub chunk : Chunk
  pub compressed_rdr : CompressedReader

-- The constructor. `count` is a `size_t`.
unfoldable pub new_chunk_reader : Bool → ℕ → Chunk → CompressedReader → Option ChunkReader
new_chunk_reader checks count c rdr = do
  ensure checks (leb c.header.stat.min_time c.header.stat.max_time)
  some (record {
    values_count = (count + 1) % 2 ^ 64;
    top_value_exists = true;
    top_value = header_first c.header;
    count = count;
    chunk = c;
    compressed_rdr = rdr;
  })

unfoldable pub is_end : ChunkReader → Bool
is_end r = (r.count == 0) && not r.top_value_exists

-- The loop of `skipDuplicates` with `count` measurements to go.
unfoldable pub skip_loop : Bool → ℕ → ℕ → ChunkReader → Option ChunkReader
skip_loop checks t zero r = some r
skip_loop checks t (suc count) r = do
  (m, rdr) ← Facade.read checks r.compressed_rdr
  let r' = record r { top_value_exists = true; count = count; top_value = m; compressed_rdr = rdr }
  let rest = skip_loop checks t count r'
  if not (m.time == t) then some r' else rest

unfoldable pub skip_duplicates : Bool → ℕ → ChunkReader → Option ChunkReader
unfolding skip_loop
skip_duplicates checks t r = skip_loop checks t r.count r

unfoldable pub read_next : Bool → ChunkReader → Option (Meas × ChunkReader)
unfolding is_end skip_duplicates
read_next checks r = do
  ensure checks (not (is_end r))
  ensure checks r.top_value_exists
  if r.count == 0
      then some (r.top_value, record r { top_value_exists = false })
      else (do r' ← skip_duplicates checks r.top_value.time r; some (r.top_value, r'))

-- What a `top()` returns, where it does not throw.
unfoldable pub top : ChunkReader → Option Meas
top r = if r.top_value_exists then some r.top_value else none

-- `raw_res` of `getReader`: a new buffer on the same memory, and a reader of it. The count of the
-- header less one is a `uint32_t`.
unfoldable pub raw_reader : Bool → Chunk → Option ChunkReader
raw_reader checks c =
    new_chunk_reader checks ((c.header.stat.count + 2 ^ 32 - 1) % 2 ^ 32) c
      (new_reader (Buffer.create c.writer.bb.mem) (header_first c.header))
