-- ===== src/Compression/Flag.antt =====
-- compression/flag.h and flag.cpp: flags of 32 bits in groups of seven (LEB128).
pub mod Encoding
pub mod RoundTrip
use memseries.Base.{ℕ, zero, suc, ◌+◌, ◌*◌, ◌/◌, ◌%◌, ◌^◌, Bool, true, false, ◌==◌, bit_and, bit_or}
use memseries.Base.{ltb, if◌then◌else◌, Option, none, some, ◌>>=◌}
use memseries.Compression.Buffer.{ByteBuffer, free_size, write, read}

pub record FlagCompressor : Type 0 where
  pub is_first : Bool
  pub first : ℕ

-- The constructor leaves `_first` unset; 0 stands for it here.
abbrev pub new_compressor : FlagCompressor
new_compressor = record { is_first = true; first = 0 }

-- The `do` loop on a value `x`, with fuel for the rounds; a 32-bit value takes five at most.
-- Bytes that were written stay when the room runs out.
unfoldable pub write_groups : ℕ → ℕ → ByteBuffer → Option (Bool × ByteBuffer)
write_groups zero x b = none
write_groups (suc rounds) x b =
    let next = x / 2 ^ 7 in
    let sub_res = bit_and x 0x7f in
    let sub_res' = if next == 0 then sub_res else bit_or sub_res 0x80 in
    let written = write 1 (sub_res' % 2 ^ 8) b in
    let rest = (do b' ← written; write_groups rounds next b') in
    let last = (do b' ← written; some (true, b')) in
    if ltb (free_size b) 1 then some (false, b) else if next == 0 then last else rest

unfoldable pub append :
    ℕ → FlagCompressor → ByteBuffer → Option (Bool × FlagCompressor × ByteBuffer)
append v c b =
    if c.is_first
    then some (true, record { is_first = false; first = v }, b)
    else (do (done, b') ← write_groups 5 v b; some (done, c, b'))

-- `FlagDeCompressor` keeps its first flag and never reads it.
pub record FlagDeCompressor : Type 0 where
  pub is_first : Bool
  pub first : ℕ

abbrev pub new_decompressor : ℕ → FlagDeCompressor
new_decompressor first = record { is_first = true; first = first }

-- The loop after `i` bytes. The groups are shifted as 64-bit numbers, and a shift by 64 or more is
-- undefined, so the tenth byte is the last one that can be read.
unfoldable pub read_groups : ℕ → ℕ → ℕ → ByteBuffer → Option (ℕ × ByteBuffer)
read_groups zero i result b = none
read_groups (suc rounds) i result b = do
  (readed, b') ← read 1 b
  let result' = bit_or result (bit_and readed 0x7f * 2 ^ (7 * i) % 2 ^ 64) % 2 ^ 32
  let rest = read_groups rounds (i + 1) result' b'
  if bit_and readed 0x80 == 0 then some (result', b') else rest

unfoldable pub flag_read :
    FlagDeCompressor → ByteBuffer → Option (ℕ × FlagDeCompressor × ByteBuffer)
flag_read c b = do (result, b') ← read_groups 10 0 0 b; some (result, c, b')
