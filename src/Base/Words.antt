-- ===== src/Base/Words.antt =====
-- Machine words as bit patterns, numbers below a power of two.
use Prim.Native.Nat.{ℕ, ◌+◌, ◌-◌, ◌%◌, ◌^◌, ◌<◌, compare, Ordering}
use mathlib.Core.Bool.{Bool, true, false}

abbrev pub IsU64 : ℕ → Type 0
IsU64 n = n < 2 ^ 64

abbrev pub IsU32 : ℕ → Type 0
IsU32 n = n < 2 ^ 32

abbrev pub add64 : ℕ → ℕ → ℕ
add64 a b = (a + b) % 2 ^ 64

abbrev pub sub64 : ℕ → ℕ → ℕ
sub64 a b = (a + 2 ^ 64 - b) % 2 ^ 64

-- The pattern of the `int64_t` -n.
abbrev pub neg64 : ℕ → ℕ
neg64 n = 2 ^ 64 - n

-- `<` of two `int64_t`: their patterns are moved by half the range, which makes the order unsigned.
abbrev pub slt64 : ℕ → ℕ → Bool
slt64 a b = elim (compare ((a + 2 ^ 63) % 2 ^ 64) ((b + 2 ^ 63) % 2 ^ 64)) [
  | Ordering.lt ↦ true
  | _ ↦ false
]
