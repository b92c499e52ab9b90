-- ===== src/Compression/Xor.antt =====
-- compression/xor.h and xor.cpp, utils/cz.h: values as differences of their 64 bits. A `double` is
-- its bit pattern, which is what `flat_double_to_int` and `flat_int_to_double` reinterpret.
pub mod Counts
pub mod Encoding
pub mod Decoding
pub mod RoundTrip
use memseries.Base.{ℕ, zero, suc, ◌+◌, ◌-◌, ◌*◌, ◌/◌, ◌%◌, ◌^◌, Bool, true, false, ◌==◌, bit_xor}
use memseries.Base.{List, [], ◌∷◌, get_elem?, set, replicate, ltb, leb, if◌then◌else◌}
use memseries.Base.{Option, none, some, ◌>>=◌, ◌>>◌, ensure}
use memseries.Compression.Buffer.{ByteBuffer, free_size, write, read}

-- `clz` and `ctz` of the lowest `n` bits; both are `n` at 0.
unfoldable pub clz_from : ℕ → ℕ → ℕ
clz_from zero x = 0
clz_from (suc n) x = let rest = clz_from n x in if ltb x (2 ^ n) then suc rest else 0

unfoldable pub ctz_from : ℕ → ℕ → ℕ
ctz_from zero x = 0
ctz_from (suc n) x = let rest = ctz_from n (x / 2) in if x % 2 == 0 then suc rest else 0

unfoldable pub clz : ℕ → ℕ
clz x = clz_from 64 x

unfoldable pub ctz : ℕ → ℕ
ctz x = ctz_from 64 x

abbrev pub u64_buffer_size : ℕ
u64_buffer_size = 8

-- The bytes of a number in memory, lowest first, and back.
unfoldable pub to_buff : ℕ → ℕ → List ℕ
to_buff zero v = []
to_buff (suc n) v = (v % 256) ∷ to_buff n (v / 256)

unfoldable pub from_buff : List ℕ → ℕ
from_buff [] = 0
from_buff (x ∷ xs) = x + 256 * from_buff xs

pub record XorCompressor : Type 0 where
  pub is_first : Bool
  pub first : ℕ
  pub prev_value : ℕ

abbrev pub new_compressor : XorCompressor
new_compressor = record { is_first = true; first = 0; prev_value = 0 }

-- The loop that writes `n` bytes of the array from index `i` on; `none` is an index past its end.
unfoldable pub write_buff : ℕ → ℕ → List ℕ → ByteBuffer → Option ByteBuffer
write_buff zero i buff b = some b
write_buff (suc n) i buff b = do
  x ← get_elem? buff i
  b' ← write 1 x b
  write_buff n (i + 1) buff b'

-- `(total_bits - lead - tail) / 8 + 1`; the sum of the counts is below 64 for a value that is not 0.
unfoldable pub count_of_bytes : ℕ → ℕ
count_of_bytes xor_val = ((64 - clz xor_val - ctz xor_val) / 8 + 1) % 2 ^ 8

-- What follows the test for equal values.
unfoldable pub write_xor : Bool → ℕ → ByteBuffer → Option (Bool × ByteBuffer)
write_xor checks xor_val b = do
  let count = count_of_bytes xor_val
  let tail = ctz xor_val
  ensure checks (leb count u64_buffer_size)
  if ltb (free_size b) (count + 2) then some (false, b) else (do
    b₁ ← write 1 count b
    b₂ ← write 1 tail b₁
    b₃ ← write_buff count 0 (to_buff u64_buffer_size (xor_val / 2 ^ tail)) b₂
    some (true, b₃))

unfoldable pub append :
    Bool → ℕ → XorCompressor → ByteBuffer → Option (Bool × XorCompressor × ByteBuffer)
append checks flat c b =
    if c.is_first
    then some (true, record { is_first = false; first = flat; prev_value = flat }, b)
    else (let xor_val = bit_xor c.prev_value flat in
        if xor_val == 0
        then if ltb (free_size b) 1
          then some (false, c, b)
          else (do b' ← write 1 0 b; some (true, c, b'))
        else (do
          (done, b') ← write_xor checks xor_val b
          some (done, (if done then record c { prev_value = flat } else c), b')))

pub record XorDeCompressor : Type 0 where
  pub prev_value : ℕ

-- The loop that reads `n` bytes into the array from index `i` on; `none` is an index past its end.
unfoldable pub read_buff : ℕ → ℕ → List ℕ → ByteBuffer → Option (List ℕ × ByteBuffer)
read_buff zero i buff b = some (buff, b)
read_buff (suc n) i buff b = do
  (x, b') ← read 1 b
  let rest = read_buff n (i + 1) (set buff i x) b'
  if ltb i u64_buffer_size then rest else none

-- A shift of a `uint64_t` by 64 or more is undefined.
unfoldable pub shift_left : ℕ → ℕ → Option ℕ
shift_left v count = if ltb count 64 then some (v * 2 ^ count % 2 ^ 64) else none

unfoldable pub value_read :
    Bool → XorDeCompressor → ByteBuffer → Option (ℕ × XorDeCompressor × ByteBuffer)
value_read checks c b = do
  (flag_byte, b₁) ← read 1 b
  if flag_byte == 0 then some (c.prev_value, c, b₁) else (do
    (move_count, b₂) ← read 1 b₁
    ensure checks (leb flag_byte u64_buffer_size)
    (buff, b₃) ← read_buff flag_byte 0 (replicate u64_buffer_size 0) b₂
    moved ← shift_left (from_buff buff) move_count
    let ret = bit_xor moved c.prev_value
    some (ret, record { prev_value = ret }, b₃))
