-- ===== src/Base/Masks.antt =====
-- `|` as a union of sets of bits: it is associative, and a mask that is inside stays inside.
use memseries.Base.Bits.{bit_or_step, bit_and_step, zero-bit_or}
use Prim.Native.Nat.{ℕ, zero, suc, ◌+◌, ◌/◌, ◌≤◌, bit_and, bit_or}
use mathlib.Core.Path.{◌≡◌}
use native.Mathlib.Omega.{arith}

covers_below : (n a h : ℕ) → a ≤ n → h ≤ n → bit_and (bit_or a h) h ≡ h
covers_below zero a h p q = ground (arith, zero-bit_or 0)
covers_below (suc n) a h p q = ground (
  arith,
  bit_or_step a h,
  bit_and_step (bit_or a h) h,
  covers_below n (a / 2) (h / 2) (omega arith) (omega arith),
)

pub bit_or-covers : (a h : ℕ) → bit_and (bit_or a h) h ≡ h
bit_or-covers a h = covers_below (a + h) a h (omega arith) (omega arith)

keeps_below : (n a g h : ℕ) → a ≤ n → g ≤ n → h ≤ n → bit_and a h ≡ h → bit_and (bit_or a g) h ≡ h
keeps_below zero a g h p q r e = ground (arith, zero-bit_or 0)
keeps_below (suc n) a g h p q r e = ground (
  arith,
  bit_or_step a g,
  bit_and_step a h,
  bit_and_step (bit_or a g) h,
  keeps_below n (a / 2) (g / 2) (h / 2) (omega arith) (omega arith) (omega arith),
)

pub bit_or-keeps : (a g h : ℕ) → bit_and a h ≡ h → bit_and (bit_or a g) h ≡ h
bit_or-keeps a g h e = keeps_below (a + g + h) a g h (omega arith) (omega arith) (omega arith) e

assoc_below : (n a b c : ℕ) → a ≤ n → b ≤ n → c ≤ n → bit_or (bit_or a b) c ≡ bit_or a (bit_or b c)
assoc_below zero a b c p q r = ground (arith, zero-bit_or 0)
assoc_below (suc n) a b c p q r = ground (
  arith,
  bit_or_step a b,
  bit_or_step b c,
  bit_or_step (bit_or a b) c,
  bit_or_step a (bit_or b c),
  assoc_below n (a / 2) (b / 2) (c / 2) (omega arith) (omega arith) (omega arith),
)

pub bit_or_assoc : (a b c : ℕ) → bit_or (bit_or a b) c ≡ bit_or a (bit_or b c)
bit_or_assoc a b c = assoc_below (a + b + c) a b c (omega arith) (omega arith) (omega arith)
