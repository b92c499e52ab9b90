-- ===== src/Compression/Buffer.antt =====
-- compression/bytebuffer.h and bytebuffer.cpp: a buffer that is filled from its end to its start.
pub mod Memory
pub mod Stream
use memseries.Base.{ℕ, zero, suc, ◌+◌, ◌-◌, ◌*◌, ◌/◌, ◌%◌, ◌^◌}
use memseries.Base.{Bool, ◌==◌, List, Option, none, some, get_elem?, set, length}
use memseries.Base.{◌>>=◌, if◌then◌else◌, ltb}

-- `mem` is the memory from `_begin` to `_end`, each cell a byte. `_cap` and `_pos` are `uint32_t`.
pub record ByteBuffer : Type 0 where
  pub mem : List ℕ
  pub cap : ℕ
  pub pos : ℕ

-- `_pos = _cap - 1`, in 32 bits.
unfoldable pub reset_pos : ByteBuffer → ByteBuffer
reset_pos b = record b { pos = (b.cap + 2 ^ 32 - 1) % 2 ^ 32 }

-- The constructor: `_cap` is the distance from begin to end, cut to 32 bits.
unfoldable pub create : List ℕ → ByteBuffer
unfolding reset_pos
create range = reset_pos (record { mem = range; cap = length range % 2 ^ 32; pos = 0 })

unfoldable pub set_pos : ℕ → ByteBuffer → ByteBuffer
set_pos p b = record b { pos = p }

abbrev pub free_size : ByteBuffer → ℕ
free_size b = b.pos

unfoldable pub is_full : ByteBuffer → Bool
is_full b = b.pos == 0

-- `BaseCompressor::used_space`: `cap() - pos()`, in `size_t`.
unfoldable pub used_space : ByteBuffer → ℕ
used_space b = (b.cap + 2 ^ 64 - b.pos) % 2 ^ 64

-- `_pos -= count`, in 32 bits.
unfoldable pub move_pos : ℕ → ByteBuffer → ByteBuffer
move_pos n b = record b { pos = (b.pos + 2 ^ 32 - n) % 2 ^ 32 }

-- `*target = v` for a value of `n` bytes, lowest first; `none` is a store outside of the memory.
unfoldable pub store : ℕ → ℕ → ℕ → List ℕ → Option (List ℕ)
store zero a v m = some m
store (suc n) a v m =
    let rest = store n (a + 1) (v / 256) (set m a (v % 256)) in
    if ltb a (length m) then rest else none

-- `*target` for a value of `n` bytes, lowest first; `none` is a load outside of the memory.
unfoldable pub load : ℕ → ℕ → List ℕ → Option ℕ
load zero a m = some 0
load (suc n) a m = do x ← get_elem? m a; rest ← load n (a + 1) m; some (x + 256 * rest)

-- `write<T>(v)` with `sizeof(T)` the number `n`, by `offset_off`.
unfoldable pub write : ℕ → ℕ → ByteBuffer → Option ByteBuffer
unfolding move_pos store
write n v b = do let b' = move_pos n b; m ← store n b'.pos v b'.mem; some (record b' { mem = m })

-- `read<T>()`: the value, and the buffer at its new position.
unfoldable pub read : ℕ → ByteBuffer → Option (ℕ × ByteBuffer)
unfolding move_pos load
read n b = do let b' = move_pos n b; v ← load n b'.pos b'.mem; some (v, b')
