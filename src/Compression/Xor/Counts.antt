-- ===== src/Compression/Xor/Counts.antt =====
-- The counts of leading and trailing zeros, and the bytes that they leave.
use memseries.Base.{ℕ, zero, suc, ◌+◌, ◌-◌, ◌*◌, ◌/◌, ◌%◌, ◌^◌, ◌≤◌, ◌<◌, ◌≡◌, arith, ap, ltb, ◌==◌}
use memseries.Base.{Bool-cases, inl, inr, IsU64, refl}
use memseries.Compression.Xor.{clz_from, ctz_from, clz, ctz, count_of_bytes}
use memseries.Base.{ltb→lt, ◌↔◌, sym}
use native.Mathlib.Decide.{dec_lt}
use native.Mathlib.Nat.{
  add-suc, sub-zero, pow-suc, one-le-pow, pow-le-pow_right, mul-suc, div-eq_of_eq-mul_left,
}

pub pow-add : (a b : ℕ) → 2 ^ (a + b) ≡ 2 ^ a * 2 ^ b
pow-add a zero = ground arith
pow-add a (suc b) = omega (
  arith,
  ap (λ (t : ℕ). 2 ^ t) (add-suc a b),
  pow-suc 2 (a + b),
  pow-suc 2 b,
  ap (λ (t : ℕ). t * 2) (pow-add a b),
  ap (λ (t : ℕ). 2 ^ a * t) (pow-suc 2 b),
)

pub ctz_from_lem :
    (n x : ℕ)
    → 0 < x
    → x < 2 ^ n
    → (ctz_from n x < n) × (q : ℕ) × (x ≡ q * 2 ^ ctz_from n x) × (q % 2 ≡ 1)
unfolding ctz_from
ctz_from_lem zero x pos h = absurd (omega arith)
ctz_from_lem (suc n) x pos h = elim (Bool-cases (x % 2 == 0)) [
  | inl even ↦
      let (below, q, whole, odd) =
        ctz_from_lem n (x / 2) (ground arith) (omega (arith, pow-suc 2 n)) in
      rw even (
        omega arith,
        q,
        ground (arith, ap (λ (t : ℕ). q * t) (pow-suc 2 (ctz_from n (x / 2)))),
        odd,
      )
  | inr odd ↦ rw odd (omega arith, x, omega arith, ground arith)
]

pub clz_from_lem :
    (n x : ℕ)
    → 0 < x
    → x < 2 ^ n
    → (clz_from n x < n) × (x < 2 ^ (n - clz_from n x)) × (2 ^ (n - clz_from n x) ≤ 2 * x)
unfolding clz_from
clz_from_lem zero x pos h = absurd (omega arith)
clz_from_lem (suc n) x pos h = elim (Bool-cases (ltb x (2 ^ n))) [
  | inl small ↦ rw small (suc_sub n x (clz_from_lem n x pos (ltb→lt x (2 ^ n) small)))
  | inr large ↦ rw large (omega arith, rw sub-zero h, ground (arith, pow-suc 2 n))
]
  where
    suc_sub :
        (n x : ℕ)
        → (clz_from n x < n) × (x < 2 ^ (n - clz_from n x)) × (2 ^ (n - clz_from n x) ≤ 2 * x)
        → (suc (clz_from n x) < suc n)
          × (x < 2 ^ (suc n - suc (clz_from n x)))
          × (2 ^ (suc n - suc (clz_from n x)) ≤ 2 * x)
    suc_sub n x (a, b, c) =
        let same : suc n - suc (clz_from n x) ≡ n - clz_from n x = omega arith in
        (omega arith, rw same b, rw same c)

ctz_from-eq-zero_iff : (n x : ℕ) → (ctz_from (suc n) x ≡ 0) ↔ (x % 2 ≡ 1)
unfolding ctz_from
ctz_from-eq-zero_iff n x = ground arith

clz_from-eq-zero_iff : (n x : ℕ) → (clz_from (suc n) x ≡ 0) ↔ (2 ^ n ≤ x)
unfolding clz_from
clz_from-eq-zero_iff n x = ground arith

le_of_odd : (q p : ℕ) → q % 2 ≡ 1 → p ≤ q * p
le_of_odd q p h = grind arith

pow-256 : (n : ℕ) → 256 ^ n ≡ 2 ^ (8 * n)
pow-256 zero = refl
pow-256 (suc n) =
    omega (arith, pow-suc 256 n, pow-256 n, ap (λ (t : ℕ). 2 ^ t) (mul-suc 8 n), pow-add (8 * n) 8)

lt-of_mul_lt : (a b c : ℕ) → 0 < c → a * c < b * c → a < b
lt-of_mul_lt a b c pos h = grind arith

-- A value that is not 0, without its trailing zeros.
module _ (x : ℕ) (pos : 0 < x) (fits : IsU64 x) where
  ctz_lem : (ctz x < 64) × (q : ℕ) × (x ≡ q * 2 ^ ctz x) × (q % 2 ≡ 1)
  unfolding ctz
  ctz_lem = ctz_from_lem 64 x pos fits

  clz_lem : (clz x < 64) × (x < 2 ^ (64 - clz x)) × (2 ^ (64 - clz x) ≤ 2 * x)
  unfolding clz
  clz_lem = clz_from_lem 64 x pos fits

  ctz-eq-zero_iff : (ctz x ≡ 0) ↔ (x % 2 ≡ 1)
  unfolding ctz
  ctz-eq-zero_iff = ctz_from-eq-zero_iff 63 x

  clz-eq-zero_iff : (clz x ≡ 0) ↔ (2 ^ 63 ≤ x)
  unfolding clz
  clz-eq-zero_iff = clz_from-eq-zero_iff 63 x

  quotient : x / 2 ^ ctz x ≡ ctz_lem.1
  quotient = div-eq_of_eq-mul_left (one-le-pow (ctz x) 2 (omega arith)) ctz_lem.2

  pub shift_back : x / 2 ^ ctz x * 2 ^ ctz x ≡ x
  shift_back = rw quotient (sym ctz_lem.2)

  pub shifted_odd : x / 2 ^ ctz x % 2 ≡ 1
  shifted_odd = rw quotient ctz_lem.3

  pub ctz-lt : ctz x < 64
  ctz-lt = ctz_lem.0

  pow_lt : 2 ^ ctz x < 2 ^ (64 - clz x)
  pow_lt = omega (arith, le_of_odd ctz_lem.1 (2 ^ ctz x) ctz_lem.3, ctz_lem.2, clz_lem.1)

  pub counts-lt : clz x + ctz x < 64
  counts-lt = elim (dec_lt (clz x + ctz x) 64) [
    | yes h ↦ h
    | no h ↦ absurd (
        omega (
          arith,
          pow_lt,
          pow-le-pow_right {n = 2} (omega arith) {i = 64 - clz x} {j = ctz x} (omega arith),
        ))
  ]

  shifted-lt : x / 2 ^ ctz x < 2 ^ (64 - clz x - ctz x)
  shifted-lt = lt-of_mul_lt (x / 2 ^ ctz x) _ (2 ^ ctz x) (one-le-pow (ctz x) 2 (omega arith)) (
      omega (
        arith,
        shift_back,
        clz_lem.1,
        counts-lt,
        pow-add (64 - clz x - ctz x) (ctz x),
        ap (λ (t : ℕ). 2 ^ t) regroup,
      ))
    where
      regroup : 64 - clz x - ctz x + ctz x ≡ 64 - clz x
      regroup = omega (arith, counts-lt)

  pub shifted_fits : x / 2 ^ ctz x < 256 ^ count_of_bytes x
  unfolding count_of_bytes
  shifted_fits = omega (
    arith,
    shifted-lt,
    pow-256 (((64 - clz x - ctz x) / 8 + 1) % 2 ^ 8),
    pow-le-pow_right {n = 2} (omega arith) {i = 64 - clz x - ctz x}
        {j = 8 * (((64 - clz x - ctz x) / 8 + 1) % 2 ^ 8)} (omega arith),
  )

  pub count_of_bytes_bounds : (1 ≤ count_of_bytes x) × (count_of_bytes x ≤ 9)
  unfolding count_of_bytes
  count_of_bytes_bounds = omega arith

  -- For a 64-bit difference that is not 0, the count of bytes is 9, one more than the array
  -- holds, exactly if both the highest and the lowest bits are set.
  pub count_of_bytes_nine_iff : (count_of_bytes x ≡ 9) ↔ ((2 ^ 63 ≤ x) × (x % 2 ≡ 1))
  unfolding count_of_bytes
  count_of_bytes_nine_iff = ground (arith, ctz-eq-zero_iff, clz-eq-zero_iff)
