-- ===== src/Base/Bits.antt =====
-- Bit operations on numbers of any width, as arithmetic.
mod Step
pub use Step.{bit_or_step, bit_and_step, bit_xor_step}
use Prim.Native.Nat.{ℕ, zero, suc, ◌+◌, ◌-◌, ◌*◌, ◌/◌, ◌%◌, ◌^◌, ◌≤◌, ◌<◌, min, max, differ}
use Prim.Native.Nat.{bit_and, bit_or, bit_xor, bit_and-bitwise, bit_or-bitwise, bit_xor-bitwise}
use mathlib.Core.Path.{◌≡◌, refl, ap}
use native.Mathlib.Omega.{arith}
use native.Mathlib.Nat.{pow-suc, one-le-pow}

pub zero-bit_and : (b : ℕ) → bit_and 0 b ≡ 0
zero-bit_and b = bit_and-bitwise 0 b

pub zero-bit_or : (b : ℕ) → bit_or 0 b ≡ b
zero-bit_or b = bit_or-bitwise 0 b

pub zero-bit_xor : (b : ℕ) → bit_xor 0 b ≡ b
zero-bit_xor b = bit_xor-bitwise 0 b

-- Induction on a bound of both numbers, since a step goes from halves to wholes.
bit_and_comm_below : (n a b : ℕ) → a ≤ n → b ≤ n → bit_and a b ≡ bit_and b a
bit_and_comm_below n zero zero p q = refl
bit_and_comm_below zero zero (suc b) p q = absurd (omega arith)
bit_and_comm_below zero (suc a) b p q = absurd (omega arith)
bit_and_comm_below (suc n) a b p q = omega (
  arith,
  bit_and_step a b,
  bit_and_step b a,
  bit_and_comm_below n (a / 2) (b / 2) (omega arith) (omega arith),
)

pub bit_and_comm : (a b : ℕ) → bit_and a b ≡ bit_and b a
bit_and_comm a b = bit_and_comm_below (a + b) a b (omega arith) (omega arith)

bit_or_comm_below : (n a b : ℕ) → a ≤ n → b ≤ n → bit_or a b ≡ bit_or b a
bit_or_comm_below n zero zero p q = refl
bit_or_comm_below zero zero (suc b) p q = absurd (omega arith)
bit_or_comm_below zero (suc a) b p q = absurd (omega arith)
bit_or_comm_below (suc n) a b p q = omega (
  arith,
  bit_or_step a b,
  bit_or_step b a,
  bit_or_comm_below n (a / 2) (b / 2) (omega arith) (omega arith),
)

pub bit_or_comm : (a b : ℕ) → bit_or a b ≡ bit_or b a
bit_or_comm a b = bit_or_comm_below (a + b) a b (omega arith) (omega arith)

mul-two-pow_suc : (q k : ℕ) → q * 2 ^ suc k ≡ 2 * (q * 2 ^ k)
mul-two-pow_suc q k = omega (arith, ap (λ (t : ℕ). q * t) (pow-suc 2 k))

-- The operations work on the fields above and below any bit.
pub bit_or_fields :
    (k p q r s : ℕ)
    → r < 2 ^ k
    → s < 2 ^ k
    → bit_or (p * 2 ^ k + r) (q * 2 ^ k + s) ≡ bit_or p q * 2 ^ k + bit_or r s
bit_or_fields zero p q r s u v = ground (arith, zero-bit_or 0)
bit_or_fields (suc k) p q r s u v = ground (
  arith,
  bit_or_step (p * 2 ^ suc k + r) (q * 2 ^ suc k + s),
  bit_or_step r s,
  mul-two-pow_suc p k,
  mul-two-pow_suc q k,
  mul-two-pow_suc (bit_or p q) k,
  bit_or_fields k p q (r / 2) (s / 2) (omega arith) (omega arith),
)

pub bit_and_fields :
    (k p q r s : ℕ)
    → r < 2 ^ k
    → s < 2 ^ k
    → bit_and (p * 2 ^ k + r) (q * 2 ^ k + s) ≡ bit_and p q * 2 ^ k + bit_and r s
bit_and_fields zero p q r s u v = ground (arith, zero-bit_and 0)
bit_and_fields (suc k) p q r s u v = ground (
  arith,
  bit_and_step (p * 2 ^ suc k + r) (q * 2 ^ suc k + s),
  bit_and_step r s,
  mul-two-pow_suc p k,
  mul-two-pow_suc q k,
  mul-two-pow_suc (bit_and p q) k,
  bit_and_fields k p q (r / 2) (s / 2) (omega arith) (omega arith),
)

pub bit_xor_fields :
    (k p q r s : ℕ)
    → r < 2 ^ k
    → s < 2 ^ k
    → bit_xor (p * 2 ^ k + r) (q * 2 ^ k + s) ≡ bit_xor p q * 2 ^ k + bit_xor r s
bit_xor_fields zero p q r s u v = ground (arith, zero-bit_xor 0)
bit_xor_fields (suc k) p q r s u v = ground (
  arith,
  bit_xor_step (p * 2 ^ suc k + r) (q * 2 ^ suc k + s),
  bit_xor_step r s,
  mul-two-pow_suc p k,
  mul-two-pow_suc q k,
  mul-two-pow_suc (bit_xor p q) k,
  bit_xor_fields k p q (r / 2) (s / 2) (omega arith) (omega arith),
)

pub bit_or-zero : (a : ℕ) → bit_or a 0 ≡ a
bit_or-zero a = omega (arith, bit_or_comm a 0, zero-bit_or a)

pub bit_and-zero : (a : ℕ) → bit_and a 0 ≡ 0
bit_and-zero a = omega (arith, bit_and_comm a 0, zero-bit_and a)

-- `|` of a field and a value below it is a sum.
pub bit_or_below : (k p r : ℕ) → r < 2 ^ k → bit_or (p * 2 ^ k) r ≡ p * 2 ^ k + r
bit_or_below k p r h = ground (
  arith,
  one-le-pow k 2,
  bit_or_fields k p 0 0 r (omega (arith, one-le-pow k 2)) h,
  bit_or-zero p,
  zero-bit_or r,
)

-- A mask of `k` low ones takes the remainder by `2 ^ k`.
bit_and_ones : (k p r : ℕ) → r < 2 ^ k → bit_and (p * 2 ^ k + r) (2 ^ k - 1) ≡ r
bit_and_ones zero p r h = ground (arith, bit_and-zero (p * 2 ^ 0 + r))
bit_and_ones (suc k) p r h = ground (
  arith,
  bit_and_step (p * 2 ^ suc k + r) (2 ^ suc k - 1),
  mul-two-pow_suc p k,
  pow-suc 2 k,
  one-le-pow k 2,
  bit_and_ones k p (r / 2) (omega (arith, pow-suc 2 k)),
)

pub bit_and_mask : (k a : ℕ) → bit_and a (2 ^ k - 1) ≡ a % 2 ^ k
bit_and_mask k a = ground (arith, one-le-pow k 2, bit_and_ones k (a / 2 ^ k) (a % 2 ^ k))

pub mask-bit_and : (k a : ℕ) → bit_and (2 ^ k - 1) a ≡ a % 2 ^ k
mask-bit_and k a = omega (arith, bit_and_comm (2 ^ k - 1) a, bit_and_mask k a)

-- `^` on one digit.
differ_digits : (x y : ℕ) → x < 2 → y < 2 → differ (differ x y) x ≡ y
differ_digits zero y h g = zero_right y
  where
    zero_right : (y : ℕ) → differ y 0 ≡ y
    zero_right zero = refl
    zero_right (suc y) = refl
differ_digits (suc zero) zero h g = refl
differ_digits (suc zero) (suc zero) h g = refl
differ_digits (suc zero) (suc (suc y)) h g = absurd (omega arith)
differ_digits (suc (suc x)) y h g = absurd (omega arith)

differ-lt : (x y : ℕ) → x < 2 → y < 2 → differ x y < 2
differ-lt zero y h g = g
differ-lt (suc zero) zero h g = h
differ-lt (suc zero) (suc zero) h g = omega arith
differ-lt (suc zero) (suc (suc y)) h g = absurd (omega arith)
differ-lt (suc (suc x)) y h g = absurd (omega arith)

bit_xor_cancel_below : (n p f : ℕ) → p ≤ n → f ≤ n → bit_xor (bit_xor p f) p ≡ f
bit_xor_cancel_below n zero zero u v = refl
bit_xor_cancel_below zero zero (suc f) u v = absurd (omega arith)
bit_xor_cancel_below zero (suc p) f u v = absurd (omega arith)
bit_xor_cancel_below (suc n) p f u v = ground (
  arith,
  bit_xor_step p f,
  bit_xor_step (bit_xor p f) p,
  differ-lt (p % 2) (f % 2) (omega arith) (omega arith),
  differ_digits (p % 2) (f % 2) (omega arith) (omega arith),
  bit_xor_cancel_below n (p / 2) (f / 2) (omega arith) (omega arith),
)

-- A value is had back from its difference to a known one.
pub bit_xor_cancel : (p f : ℕ) → bit_xor (bit_xor p f) p ≡ f
bit_xor_cancel p f = bit_xor_cancel_below (p + f) p f (omega arith) (omega arith)

pub bit_xor-lt : (k p f : ℕ) → p < 2 ^ k → f < 2 ^ k → bit_xor p f < 2 ^ k
bit_xor-lt zero p f u v = ground (arith, zero-bit_xor 0)
bit_xor-lt (suc k) p f u v = ground (
  arith,
  bit_xor_step p f,
  pow-suc 2 k,
  differ-lt (p % 2) (f % 2) (omega arith) (omega arith),
  bit_xor-lt k (p / 2) (f / 2) (omega (arith, pow-suc 2 k)) (omega (arith, pow-suc 2 k)),
)

max-lt : (x y n : ℕ) → x < n → y < n → max x y < n
max-lt x y n h g = ground arith

pub bit_or-lt : (k p f : ℕ) → p < 2 ^ k → f < 2 ^ k → bit_or p f < 2 ^ k
bit_or-lt zero p f u v = ground (arith, zero-bit_or 0)
bit_or-lt (suc k) p f u v = ground (
  arith,
  bit_or_step p f,
  pow-suc 2 k,
  max-lt (p % 2) (f % 2) 2 (omega arith) (omega arith),
  bit_or-lt k (p / 2) (f / 2) (omega (arith, pow-suc 2 k)) (omega (arith, pow-suc 2 k)),
)

-- No difference means the same value.
pub bit_xor-eq-zero : (p f : ℕ) → bit_xor p f ≡ 0 → f ≡ p
bit_xor-eq-zero p f h = ground (arith, bit_xor_cancel p f, zero-bit_xor p)
