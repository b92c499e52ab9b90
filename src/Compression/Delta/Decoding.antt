-- ===== src/Compression/Delta/Decoding.antt =====
-- What the delta decompressor makes of the bytes of a difference.
use memseries.Base.{ℕ, ◌+◌, ◌-◌, ◌/◌, ◌%◌, ◌^◌, ◌≤◌, ◌<◌, Bool, true, not, ◌&&◌, arith}
use memseries.Base.{◌≡◌, refl, List, ◌++◌, length, some, if◌then◌else◌, leb, ltb, ◌==◌}
use memseries.Base.{bit_and, bit_or, neg64, IsU64, all_below, all_below→at, length-append}
use memseries.Base.Bits.{bit_or_fields, bit_or_below, bit_or_step, zero-bit_or}
use memseries.Compression.Delta.{read_delta, check}
use memseries.Compression.Delta.Encoding.{encoding}
use memseries.Compression.Buffer.{ByteBuffer, read}
use memseries.Compression.Buffer.Stream.{
  bytes, Ahead, skip, IsBuffer, read-Ahead, length-bytes, read_twice,
}

-- The three-byte form extends the sign of a negative difference by `(-524287) | result`, which also
-- sets the lowest bit.
unfoldable pub decoded : ℕ → ℕ
decoded d = if leb (neg64 524287) d && leb d (neg64 4096) && (d % 2 == 0) then d + 1 else d

-- The tests on the first byte, one table for each form.
abbrev short_test : ℕ → Bool
short_test r =
    (bit_and (128 + r) 0x80 == 0x80) && not (check (128 + r) 6) && (bit_and (128 + r) 0x3f == r)

short_form : (r : ℕ) → r < 64 → short_test r ≡ true
unfolding all_below
short_form r h = all_below→at 64 short_test r refl h

abbrev middle_test : ℕ → Bool
middle_test r =
    check (192 + r) 6
    && (bit_and (192 + r) 0xc0 == 0xc0)
    && not (check (192 + r) 5)
    && (bit_and (192 + r) 0x1f == r)

middle_form : (r : ℕ) → r < 32 → middle_test r ≡ true
unfolding all_below
middle_form r h = all_below→at 32 middle_test r refl h

abbrev long_test : ℕ → Bool
long_test r =
    check (224 + r) 6
    && check (224 + r) 5
    && (bit_and (224 + r) 0xe0 == 0xe0)
    && (bit_and (224 + r) 0xf == r)

long_form : (r : ℕ) → r < 16 → long_test r ≡ true
unfolding all_below
long_form r h = all_below→at 16 long_test r refl h

-- Sign extension by `|`.
extend_6 : (r : ℕ) → r < 64 → bit_or (neg64 64) r ≡ neg64 64 + r
extend_6 r h = bit_or_below 6 (2 ^ 58 - 1) r h

extend_13 : (r : ℕ) → 4096 ≤ r → r < 8192 → bit_or (neg64 4096) r ≡ neg64 8192 + r
extend_13 r lo hi =
    ground (arith, bit_or_fields 12 (2 ^ 52 - 1) 1 0 (r - 4096), zero-bit_or (r - 4096))

extend_20 :
    (r : ℕ)
    → 524288 ≤ r
    → r < 2 ^ 20
    → bit_or (neg64 524287) r ≡ (if r % 2 == 0 then neg64 (2 ^ 20) + r + 1 else neg64 (2 ^ 20) + r)
extend_20 r lo hi = ground (
  arith,
  bit_or_fields 19 (2 ^ 45 - 1) 1 1 (r - 524288),
  bit_or_step 1 (r - 524288),
  zero-bit_or ((r - 524288) / 2),
)

-- One run of `read_delta` on each form.
module _ (checks : Bool) (b b₁ b₂ : ByteBuffer) where
  read_short :
      (r : ℕ)
      → r < 64
      → read 1 b ≡ some (128 + r, b₁)
      → read_delta checks b ≡ some ((if ltb 32 r then neg64 64 + r else r), b₁)
  unfolding read_delta
  read_short r h first = rw first (ground (arith, short_form r, extend_6 r))

  read_middle :
      (r : ℕ)
      → r < 8192
      → read 1 b ≡ some (192 + r / 256, b₁)
      → read 1 b₁ ≡ some (r % 256, b₂)
      → read_delta checks b ≡ some ((if ltb 4096 r then neg64 8192 + r else r), b₂)
  unfolding read_delta
  read_middle r h first second = rw first (
      ground
        (arith, second, middle_form (r / 256), bit_or_below 8 (r / 256) (r % 256), extend_13 r))

  read_long :
      (r : ℕ)
      → r < 2 ^ 20
      → read 1 b ≡ some (224 + r / 65536, b₁)
      → read 2 b₁ ≡ some (r % 65536, b₂)
      → read_delta checks b ≡ some ((if ltb 524287 r then bit_or (neg64 524287) r else r), b₂)
  unfolding read_delta
  read_long r h first second = rw first (ground (arith, second, long_form (r / 65536)))

  read_full :
      (v : ℕ)
      → read 1 b ≡ some (0, b₁)
      → read 8 b₁ ≡ some (v, b₂)
      → read_delta checks b ≡ some (v, b₂)
  unfolding read_delta
  read_full v first second = rw first second

split_two : (r : ℕ) → r < 8192 → bytes 2 (0xc000 + r) ≡ bytes 1 (192 + r / 256) ++ bytes 1 (r % 256)
unfolding bytes
split_two r h = ground arith

split_three :
    (r : ℕ)
    → r < 2 ^ 20
    → bytes 3 (0xe0_0000 + r) ≡ bytes 1 (224 + r / 65536) ++ bytes 2 (r % 65536)
unfolding bytes
split_three r h = ground arith

module _ (checks : Bool) (rest : List ℕ) (b : ByteBuffer) (valid : IsBuffer b) where
  in_short :
      (r : ℕ)
      → r < 64
      → Ahead b (bytes 1 (128 + r) ++ rest)
      → read_delta checks b ≡ some ((if ltb 32 r then neg64 64 + r else r), skip 1 b)
  in_short r h ahead =
      read_short checks b (skip 1 b) b r h (read-Ahead 1 (128 + r) rest b valid (omega arith) ahead)

  in_middle :
      (r : ℕ)
      → r < 8192
      → Ahead b (bytes 2 (0xc000 + r) ++ rest)
      → read_delta checks b ≡ some ((if ltb 4096 r then neg64 8192 + r else r), skip 2 b)
  in_middle r h ahead =
      let (first, second) =
        read_twice 1 1 (192 + r / 256) (r % 256) rest b valid (omega arith) (omega arith)
          (rw (split_two r h) at ahead) in
      read_middle checks b (skip 1 b) (skip 2 b) r h first second

  in_long :
      (r : ℕ)
      → r < 2 ^ 20
      → Ahead b (bytes 3 (0xe0_0000 + r) ++ rest)
      → read_delta checks b ≡ some ((if ltb 524287 r then bit_or (neg64 524287) r else r), skip 3 b)
  in_long r h ahead =
      let (first, second) =
        read_twice 1 2 (224 + r / 65536) (r % 65536) rest b valid (omega arith) (omega arith)
          (rw (split_three r h) at ahead) in
      read_long checks b (skip 1 b) (skip 3 b) r h first second

  in_full :
      (d : ℕ)
      → IsU64 d
      → Ahead b ((bytes 1 0 ++ bytes 8 d) ++ rest)
      → read_delta checks b ≡ some (d, skip 9 b)
  in_full d h ahead =
      let (first, second) = read_twice 1 8 0 d rest b valid (omega arith) (omega arith) ahead in
      read_full checks b (skip 1 b) (skip 9 b) d first second

  -- On a valid buffer that holds the encoding of a 64-bit difference, the reading branches return
  -- that difference, or its successor if it is even and from -524287 to -4096, and move past the
  -- encoding exactly.
  pub read_delta-encoding :
      (d : ℕ)
      → IsU64 d
      → Ahead b (encoding d ++ rest)
      → read_delta checks b ≡ some (decoded d, skip (length (encoding d)) b)
  unfolding encoding decoded
  read_delta-encoding d h ahead = ground (
    arith,
    length-bytes 1 (128 + d % 64),
    length-bytes 2 (0xc000 + d % 8192),
    length-bytes 3 (0xe0_0000 + d % 2 ^ 20),
    length-append {0} (bytes 1 0) (bytes 8 d),
    length-bytes 1 0,
    length-bytes 8 d,
    in_short (d % 64),
    in_middle (d % 8192),
    in_long (d % 2 ^ 20),
    in_full d,
    extend_20 (d % 2 ^ 20),
  )
