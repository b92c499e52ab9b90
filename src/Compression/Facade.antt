-- ===== src/Compression/Facade.antt =====
-- compression/compression.h and compression.cpp: `CopmressedWriter` and `CopmressedReader`, which
-- join the three compressors on one buffer. The four pointers to the buffer are one field.
pub mod Stream
pub mod Reading
pub mod Series
pub mod Room
pub mod Total
pub mod Failure
use memseries.Base.{ℕ, Bool, true, false, not, ◌||◌, if◌then◌else◌, Option, some, ◌>>=◌}
use memseries.Meas.{Meas, new_meas}
use memseries.Compression.Buffer.{ByteBuffer, used_space}
use memseries.Compression.Delta
use memseries.Compression.Delta.{DeltaCompressor, DeltaDeCompressor}
use memseries.Compression.Xor
use memseries.Compression.Xor.{XorCompressor, XorDeCompressor}
use memseries.Compression.Flag
use memseries.Compression.Flag.{FlagCompressor, FlagDeCompressor}

pub record CompressedWriter : Type 0 where
  pub bb : ByteBuffer
  pub first : Meas
  pub is_first : Bool
  pub is_full : Bool
  pub time_comp : DeltaCompressor
  pub value_comp : XorCompressor
  pub flag_comp : FlagCompressor

unfoldable pub new_writer : ByteBuffer → CompressedWriter
new_writer bw = record {
  bb = bw;
  first = new_meas;
  is_first = true;
  is_full = false;
  time_comp = Delta.new_compressor;
  value_comp = Xor.new_compressor;
  flag_comp = Flag.new_compressor;
}

-- All three are called, also after one has failed.
unfoldable pub append : Bool → Meas → CompressedWriter → Option (Bool × CompressedWriter)
append checks m w = do
  let w₀ = if w.is_first then record w { first = m; is_first = false } else w
  (t_f, tc, b₁) ← Delta.append m.time w.time_comp w.bb
  (f_f, vc, b₂) ← Xor.append checks m.value w.value_comp b₁
  (v_f, fc, b₃) ← Flag.append m.flag w.flag_comp b₂
  let w₁ = record w₀ { bb = b₃; time_comp = tc; value_comp = vc; flag_comp = fc }
  some (if not t_f || not f_f || not v_f then (false, record w₁ { is_full = true }) else (true, w₁))

unfoldable pub writer_used_space : CompressedWriter → ℕ
unfolding used_space
writer_used_space w = used_space w.bb

pub record CompressedReader : Type 0 where
  pub bw : ByteBuffer
  pub first : Meas
  pub time_dcomp : DeltaDeCompressor
  pub value_dcomp : XorDeCompressor
  pub flag_dcomp : FlagDeCompressor

unfoldable pub new_reader : ByteBuffer → Meas → CompressedReader
new_reader bw first = record {
  bw = bw;
  first = first;
  time_dcomp = Delta.new_decompressor first.time;
  value_dcomp = record { prev_value = first.value };
  flag_dcomp = Flag.new_decompressor first.flag;
}

unfoldable pub read : Bool → CompressedReader → Option (Meas × CompressedReader)
read checks r = do
  (time, td, b₁) ← Delta.time_read checks r.time_dcomp r.bw
  (value, vd, b₂) ← Xor.value_read checks r.value_dcomp b₁
  (flag, fd, b₃) ← Flag.flag_read r.flag_dcomp b₂
  some (
    record { id = r.first.id; time = time; value = value; flag = flag },
    record r { bw = b₃; time_dcomp = td; value_dcomp = vd; flag_dcomp = fd },
  )
