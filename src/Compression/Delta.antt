-- ===== src/Compression/Delta.antt =====
-- compression/delta.h and delta.cpp: timestamps as differences of differences.
-- `Time` and `int64_t` are bit patterns of 64 bits. The buffer that the three compressors share is
-- passed through each call.
pub mod Encoding
pub mod Decoding
pub mod RoundTrip
use memseries.Base.{ℕ, ◌+◌, ◌-◌, ◌*◌, ◌/◌, ◌%◌, ◌^◌, Bool, true, false, not, ◌&&◌, ◌==◌}
use memseries.Base.{Option, none, some, ◌>>=◌, ◌>>◌, ensure, if◌then◌else◌, ltb}
use memseries.Base.{bit_and, bit_or, add64, sub64, neg64, slt64}
use memseries.Compression.Buffer.{ByteBuffer, free_size, write, read}

abbrev pub delta_1b_mask : ℕ
delta_1b_mask = 0x80

abbrev pub delta_1b_mask_inv : ℕ
delta_1b_mask_inv = 0x3f

abbrev pub delta_2b_mask : ℕ
delta_2b_mask = 0xc000

abbrev pub delta_2b_mask_inv : ℕ
delta_2b_mask_inv = 0x1fff

abbrev pub delta_3b_mask : ℕ
delta_3b_mask = 0xe0_0000

abbrev pub delta_3b_mask_inv : ℕ
delta_3b_mask_inv = 0xf_ffff

unfoldable pub get_delta_1b : ℕ → ℕ
get_delta_1b d = bit_or delta_1b_mask (bit_and delta_1b_mask_inv (d % 2 ^ 8))

unfoldable pub get_delta_2b : ℕ → ℕ
get_delta_2b d = bit_or delta_2b_mask (bit_and delta_2b_mask_inv (d % 2 ^ 16))

unfoldable pub get_delta_3b : ℕ → ℕ
get_delta_3b d = bit_or delta_3b_mask (bit_and delta_3b_mask_inv (d % 2 ^ 32))

-- The union `conv_32`: a number of 32 bits, and its bytes 0 to 1 and 2.
abbrev pub small_lo : ℕ → ℕ
small_lo big = big % 2 ^ 16

abbrev pub small_hi : ℕ → ℕ
small_hi big = big / 2 ^ 16 % 2 ^ 8

-- `BitOperations::check`: whether the bit `num` of `v` is set.
abbrev pub check : ℕ → ℕ → Bool
check v num = bit_and (v / 2 ^ num) 1 == 1

pub record DeltaCompressor : Type 0 where
  pub is_first : Bool
  pub first : ℕ
  pub prev_delta : ℕ
  pub prev_time : ℕ

abbrev pub new_compressor : DeltaCompressor
new_compressor = record { is_first = true; first = 0; prev_delta = 0; prev_time = 0 }

-- The branches of `append` that write the difference `d`, and whether there was room for it.
unfoldable pub write_delta : ℕ → ByteBuffer → Option (Bool × ByteBuffer)
unfolding get_delta_1b get_delta_2b get_delta_3b
write_delta d b =
    if slt64 (neg64 32) d && slt64 d 32
    then if ltb (free_size b) 1
      then some (false, b)
      else (do b₁ ← write 1 (get_delta_1b d) b; some (true, b₁))
    else if slt64 (neg64 4096) d && slt64 d 4096
    then if ltb (free_size b) 2
      then some (false, b)
      else (do b₁ ← write 2 (get_delta_2b d) b; some (true, b₁))
    else if slt64 (neg64 524288) d && slt64 d 524287
    then if ltb (free_size b) 3 then some (false, b) else (do
      let c = get_delta_3b d
      b₁ ← write 1 (small_hi c) b
      b₂ ← write 2 (small_lo c) b₁
      some (true, b₂))
    else if ltb (free_size b) 9
    then some (false, b)
    else (do b₁ ← write 1 0 b; b₂ ← write 8 d b₁; some (true, b₂))

unfoldable pub append :
    ℕ → DeltaCompressor → ByteBuffer → Option (Bool × DeltaCompressor × ByteBuffer)
append t c b =
    if c.is_first
    then some (true, record { is_first = false; first = t; prev_delta = 0; prev_time = t }, b)
    else (do
      let d = sub64 (sub64 t c.prev_time) c.prev_delta
      (done, b') ← write_delta d b
      some (done, (if done then record c { prev_delta = d; prev_time = t } else c), b'))

pub record DeltaDeCompressor : Type 0 where
  pub prev_delta : ℕ
  pub prev_time : ℕ

abbrev pub new_decompressor : ℕ → DeltaDeCompressor
new_decompressor first = record { prev_delta = 0; prev_time = first }

-- The branches of `read` that find the difference; `checks` is `DOUBLE_CHECKS`.
unfoldable pub read_delta : Bool → ByteBuffer → Option (ℕ × ByteBuffer)
read_delta checks b = do
  (first_byte, b₁) ← read 1 b
  if (bit_and first_byte delta_1b_mask == delta_1b_mask) && not (check first_byte 6)
      then (let result = bit_and first_byte delta_1b_mask_inv in
          some ((if slt64 32 result then bit_or (neg64 64) result else result), b₁))
      else if (bit_and first_byte (delta_2b_mask / 2 ^ 8) == delta_2b_mask / 2 ^ 8)
          && not (check first_byte 5)
      then (do
        (second, b₂) ← read 1 b₁
        let first_unmasked = bit_and first_byte (delta_2b_mask_inv / 2 ^ 8)
        let result = bit_or (first_unmasked * 2 ^ 8) second
        some ((if slt64 4096 result then bit_or (neg64 4096) result else result), b₂))
      else if bit_and first_byte (delta_3b_mask / 2 ^ 16) == delta_3b_mask / 2 ^ 16
      then (do
        (second, b₂) ← read 2 b₁
        let first_unmasked = bit_and first_byte (delta_3b_mask_inv / 2 ^ 16 % 2 ^ 8)
        let result = first_unmasked * 2 ^ 16 + second
        some ((if slt64 524287 result then bit_or (neg64 524287) result else result), b₂))
      else if first_byte == 0
      then read 8 b₁
      else (do ensure checks false; some (0, b₁))

unfoldable pub time_read :
    Bool → DeltaDeCompressor → ByteBuffer → Option (ℕ × DeltaDeCompressor × ByteBuffer)
time_read checks c b = do
  (result, b') ← read_delta checks b
  let ret = add64 (add64 c.prev_time result) c.prev_delta
  some (ret, record { prev_delta = result; prev_time = ret }, b')
