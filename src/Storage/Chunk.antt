-- ===== src/Storage/Chunk.antt =====
-- storage/chunk.h and chunk.cpp: a header and a compressed buffer. `checks` is `DOUBLE_CHECKS`, and
-- `d` the arithmetic of doubles.
pub mod Reader
pub mod Run
pub mod RoundTrip
pub mod Failure
pub mod Compact
pub mod Checks
use memseries.Base.{ℕ, ◌+◌, ◌-◌, ◌%◌, ◌^◌, Bool, true, false, not, ◌==◌, ltb, if◌then◌else◌}
use memseries.Base.{Option, none, some, ◌>>=◌, ◌>>◌, ensure, List, map, take}
use memseries.Meas.{Meas, min_time, max_time}
use memseries.Storage.Bloom.{bloom_check}
use memseries.Storage.Statistic.{Doubles, Statistic, new_statistic, update}
use memseries.Compression.Buffer
use memseries.Compression.Buffer.{set_pos, reset_pos}
use memseries.Compression.Facade
use memseries.Compression.Facade.{CompressedWriter, new_writer}

pub record MeasData : Type 0 where
  pub id : ℕ
  pub time : ℕ
  pub value : ℕ
  pub flag : ℕ

pub record ChunkHeader : Type 0 where
  pub id : ℕ
  pub meas_id : ℕ
  pub data_first : MeasData
  pub data_last : MeasData
  pub bw_pos : ℕ
  pub size : ℕ
  pub crc : ℕ
  pub offset_in_page : ℕ
  pub stat : Statistic
  pub is_sorted : ℕ

abbrev pub header_first : ChunkHeader → Meas
header_first h = record {
  id = h.meas_id;
  time = h.data_first.time;
  value = h.data_first.value;
  flag = h.data_first.flag;
}

abbrev pub header_last : ChunkHeader → Meas
header_last h = record {
  id = h.meas_id;
  time = h.data_last.time;
  value = h.data_last.value;
  flag = h.data_last.flag;
}

-- The id of the measurement goes to the header, and that of the data stays.
abbrev pub set_data : Meas → MeasData → MeasData
set_data m x = record x { time = m.time; value = m.value; flag = m.flag }

abbrev pub set_first : Meas → ChunkHeader → ChunkHeader
set_first m h = record h { data_first = set_data m h.data_first; meas_id = m.id }

abbrev pub set_last : Meas → ChunkHeader → ChunkHeader
set_last m h = record h { data_last = set_data m h.data_last }

-- `bw` and `_buffer_t` are the buffer of the writer and its memory.
pub record Chunk : Type 0 where
  pub header : ChunkHeader
  pub writer : CompressedWriter

-- The constructor of a new chunk: `buffer` is the memory behind the pointer.
unfoldable pub create : Doubles → Bool → ChunkHeader → List ℕ → ℕ → Meas → Option Chunk
create d checks hdr buffer size first = do
  let h = set_last first (set_first first (record hdr { size = size }))
  let stat = new_statistic
  ensure checks (stat.max_time == min_time)
  ensure checks (stat.min_time == max_time)
  let cleared = map (λ _. 0) (take size buffer)
  let bb = reset_pos (Buffer.create cleared)
  let h₁ = record h { stat = update d first stat; is_sorted = 1; bw_pos = bb.pos }
  (done, w) ← Facade.append checks (header_first h₁) (new_writer bb)
  ensure checks (h₁.is_sorted == 1)
  some (record { header = h₁; writer = w })

-- The constructor that opens an existing chunk.
unfoldable pub open_chunk : Bool → ChunkHeader → List ℕ → Option Chunk
open_chunk checks hdr buffer = do
  ensure checks (not (hdr.stat.max_time == min_time))
  ensure checks (not (hdr.stat.min_time == max_time))
  some (record {
    header = hdr;
    writer = new_writer (set_pos hdr.bw_pos (Buffer.create (take hdr.size buffer)));
  })

unfoldable pub append : Doubles → Bool → Meas → Chunk → Option (Bool × Chunk)
append d checks m c = do
  (t_f, w) ← Facade.append checks m c.writer
  let h = c.header
  let sorted = if ltb m.time h.data_last.time then 0 else h.is_sorted
  let h₁ = record h { is_sorted = sorted; bw_pos = w.bb.pos; stat = update d m h.stat }
  if not t_f
      then (do ensure checks w.is_full; some (false, record c { writer = w }))
      else some (true, record { header = set_last m h₁; writer = w })

unfoldable pub is_full : Chunk → Bool
is_full c = c.writer.is_full

unfoldable pub check_id : ℕ → Chunk → Bool
check_id id c = c.header.meas_id == id

unfoldable pub check_flag : ℕ → Chunk → Bool
check_flag f c = if f == 0 then true else bloom_check c.header.stat.flag_bloom f

-- The checksum is `utils::crc32` of a memory and a size, which is a library's.
module _ (crc32 : List ℕ → ℕ → ℕ) where
  unfoldable pub calc_checksum : ChunkHeader → List ℕ → ℕ
  calc_checksum hdr buff = crc32 buff hdr.size

  unfoldable pub update_checksum : ChunkHeader → List ℕ → ChunkHeader
  update_checksum hdr buff = record hdr { crc = crc32 buff hdr.size }

  unfoldable pub check_checksum : Chunk → Bool
  unfolding calc_checksum
  check_checksum c = c.header.crc == calc_checksum c.header c.writer.bb.mem

-- The count of bytes to skip in front, and the header of what is left; all in 32 bits.
unfoldable pub compact : ChunkHeader → ℕ × ChunkHeader
compact hdr =
    let cur_chunk_buf_size = (hdr.size + 2 ^ 32 - hdr.bw_pos + 1) % 2 ^ 32 in
    if hdr.bw_pos == 0 then (0, hdr) else (
      (hdr.size + 2 ^ 32 - cur_chunk_buf_size) % 2 ^ 32,
      record hdr { size = cur_chunk_buf_size; bw_pos = 0 },
    )
