-- ===== src/Compression/Delta/Encoding.antt =====
-- What the delta compressor writes, in plain arithmetic.
use memseries.Base.{ℕ, ◌+◌, ◌%◌, ◌^◌, ◌≤◌, true, false, ◌&&◌, arith}
use memseries.Base.{◌≡◌, List, ◌++◌, length, some, if◌then◌else◌, ltb}
use memseries.Base.{neg64, slt64}
use memseries.Base.Bits.{mask-bit_and, bit_or_below}
use memseries.Compression.Delta.{get_delta_1b, get_delta_2b, get_delta_3b, write_delta}
use memseries.Compression.Buffer.{ByteBuffer, write}
use memseries.Compression.Buffer.Stream.{
  bytes, put, IsBuffer, write-put, put-append, put-IsBuffer, length-bytes,
}
use memseries.Base.{ap, sym, ◌∙◌, length-append}
use memseries.Compression.Delta.{small_hi, small_lo}

pub get_delta_1b_lem : (d : ℕ) → get_delta_1b d ≡ 128 + d % 64
unfolding get_delta_1b
get_delta_1b_lem d = ground (arith, mask-bit_and 6 (d % 2 ^ 8), bit_or_below 6 2 (d % 64))

pub get_delta_2b_lem : (d : ℕ) → get_delta_2b d ≡ 0xc000 + d % 8192
unfolding get_delta_2b
get_delta_2b_lem d = ground (arith, mask-bit_and 13 (d % 2 ^ 16), bit_or_below 13 6 (d % 8192))

pub get_delta_3b_lem : (d : ℕ) → get_delta_3b d ≡ 0xe0_0000 + d % 2 ^ 20
unfolding get_delta_3b
get_delta_3b_lem d = ground (arith, mask-bit_and 20 (d % 2 ^ 32), bit_or_below 20 14 (d % 2 ^ 20))

-- The byte sequences, in the order in which they are read.
unfoldable pub encoding : ℕ → List ℕ
encoding d =
    if slt64 (neg64 32) d && slt64 d 32
    then bytes 1 (128 + d % 64)
    else if slt64 (neg64 4096) d && slt64 d 4096
    then bytes 2 (0xc000 + d % 8192)
    else if slt64 (neg64 524288) d && slt64 d 524287
    then bytes 3 (0xe0_0000 + d % 2 ^ 20)
    else bytes 1 0 ++ bytes 8 d

-- Two writes, one after the other, are one piece of the stream.
module _ (b : ByteBuffer) (valid : IsBuffer b) where
  write_twice :
      (n m v w : ℕ)
      → n + m ≤ b.pos
      → write m w (put (bytes n v) b) ≡ some (put (bytes n v ++ bytes m w) b)
  write_twice n m v w room =
      write-put m w (put (bytes n v) b) (put-IsBuffer (bytes n v) b valid)
        (unfold put in omega (arith, length-bytes n v))
      ∙ ap some (sym (put-append (bytes n v) (bytes m w) b))

  split_three : (c : ℕ) → bytes 1 (small_hi c) ++ bytes 2 (small_lo c) ≡ bytes 3 c
  unfolding bytes
  split_three c = ground arith

  pub write_three :
      (c : ℕ)
      → 3 ≤ b.pos
      → write 2 (small_lo c) (put (bytes 1 (small_hi c)) b) ≡ some (put (bytes 3 c) b)
  write_three c room =
      write_twice 1 2 (small_hi c) (small_lo c) room ∙ ap (λ xs. some (put xs b)) (split_three c)

  pub write_nine :
      (d : ℕ) → 9 ≤ b.pos → write 8 d (put (bytes 1 0) b) ≡ some (put (bytes 1 0 ++ bytes 8 d) b)
  write_nine d room = write_twice 1 8 0 d room

-- On a valid buffer, the writing branches of the time compressor put exactly the arithmetic
-- encoding of the difference (its marker and two's complement, of 1, 2, 3 or 9 bytes by its
-- range) if the position leaves room for it, and otherwise report failure with the buffer
-- unchanged.
pub write_delta-encoding :
    (d : ℕ) (b : ByteBuffer)
    → IsBuffer b
    → write_delta d b
      ≡ some (if ltb b.pos (length (encoding d)) then (false, b) else (true, put (encoding d) b))
unfolding write_delta encoding
write_delta-encoding d b valid = ground (
  arith,
  get_delta_1b_lem d,
  get_delta_2b_lem d,
  get_delta_3b_lem d,
  length-bytes 1 (128 + d % 64),
  length-bytes 2 (0xc000 + d % 8192),
  length-bytes 3 (0xe0_0000 + d % 2 ^ 20),
  length-bytes 8 d,
  length-append {0} (bytes 1 0) (bytes 8 d),
  length-bytes 1 0,
  write-put 1 (get_delta_1b d) b valid,
  write-put 2 (get_delta_2b d) b valid,
  write-put 1 (small_hi (get_delta_3b d)) b valid,
  write_three b valid (get_delta_3b d),
  write-put 1 0 b valid,
  write_nine b valid d,
)
