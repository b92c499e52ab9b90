-- ===== src/Compression/Xor/Decoding.antt =====
-- What the value decompressor makes of the bytes of a difference.
use memseries.Base.{ℕ, zero, suc, ◌+◌, ◌/◌, ◌%◌, ◌^◌, ◌≤◌, ◌<◌, ◌≡◌, arith, ap, ◌∙◌}
use memseries.Base.{
  inl, inr, ==_iff, Bool, Bool-cases, lt→ltb, if◌then◌else◌, IsU64, refl, ◌==◌, bit_xor,
}
use memseries.Base.{List, [], ◌∷◌, ◌++◌, length, set, replicate, some}
use memseries.Base.Bits.{bit_xor_cancel, bit_xor-lt, bit_xor-eq-zero}
use memseries.Compression.Xor.{
  ctz, count_of_bytes, to_buff, from_buff, read_buff, shift_left, value_read,
}
use memseries.Compression.Xor.Counts.{
  count_of_bytes_bounds, count_of_bytes_nine_iff, ctz-lt, shift_back, shifted_fits,
}
use memseries.Compression.Xor.Encoding.{encoding, length-encoding}
use memseries.Compression.Buffer.{ByteBuffer, read}
use memseries.Compression.Buffer.Stream.{
  Ahead, skip, IsBuffer, read_one, skip_one, skip-IsBuffer, skip-suc,
}
use native.Mathlib.Nat.{pow-suc}

-- The array after `xs` is stored from index `i` on.
overwrite : ℕ → List ℕ → List ℕ → List ℕ
overwrite i [] buff = buff
overwrite i (x ∷ xs) buff = overwrite (i + 1) xs (set buff i x)

overwrite-suc :
    (i y : ℕ) (xs buff : List ℕ) → overwrite (suc i) xs (y ∷ buff) ≡ y ∷ overwrite i xs buff
unfolding overwrite
overwrite-suc i y [] buff = refl
overwrite-suc i y (x ∷ xs) buff =
    let next : suc i + 1 ≡ suc (i + 1) = omega arith in
    rw next (overwrite-suc (i + 1) y xs (set buff i x))

overwrite_zero :
    (x : ℕ) (xs buff : List ℕ) → overwrite 0 (x ∷ xs) (0 ∷ buff) ≡ x ∷ overwrite 0 xs buff
unfolding overwrite
overwrite_zero x xs buff = overwrite-suc 0 x xs buff

from_buff-zeros : (n : ℕ) → from_buff (replicate n 0) ≡ 0
unfolding from_buff
from_buff-zeros zero = refl
from_buff-zeros (suc n) = omega (arith, from_buff-zeros n)

-- The bytes of a number over zeros are the number.
from_buff-overwrite :
    (k n w : ℕ) → k ≤ n → w < 256 ^ k → from_buff (overwrite 0 (to_buff k w) (replicate n 0)) ≡ w
unfolding to_buff from_buff
from_buff-overwrite zero n w h fits = unfold overwrite in omega (arith, from_buff-zeros n)
from_buff-overwrite (suc k) zero w h fits = absurd (omega arith)
from_buff-overwrite (suc k) (suc n) w h fits =
    rw (overwrite_zero (w % 256) (to_buff k (w / 256)) (replicate n 0)) (
      omega (arith, from_buff-overwrite k n (w / 256) (omega arith) (omega (arith, pow-suc 256 k))))

read_buff-Ahead :
    (n i w : ℕ) (buff rest : List ℕ) (b : ByteBuffer)
    → IsBuffer b
    → i + n ≤ 8
    → Ahead b (to_buff n w ++ rest)
    → read_buff n i buff b ≡ some (overwrite i (to_buff n w) buff, skip n b)
unfolding read_buff to_buff overwrite
read_buff-Ahead zero i w buff rest b valid h ahead = unfold skip in ground arith
read_buff-Ahead (suc n) i w buff rest b valid h ahead =
    let small : w % 256 < 256 = omega arith in
    let first : read 1 b ≡ some (w % 256, skip 1 b) =
      read_one (w % 256) (to_buff n (w / 256) ++ rest) b valid small ahead in
    let others =
      read_buff-Ahead n (i + 1) (w / 256) (set buff i (w % 256)) rest (skip 1 b)
        (skip-IsBuffer 1 b valid) (omega arith)
        (skip_one (w % 256) (to_buff n (w / 256) ++ rest) b valid small ahead) in
    rw (first, lt→ltb i 8 (omega arith), others)
      (ap (λ t. some (overwrite (i + 1) (to_buff n (w / 256)) (set buff i (w % 256)), t))
        (skip-suc n b))

-- The bytes that follow a known value, for the next one.
unfoldable pub value_encoding : ℕ → ℕ → List ℕ
value_encoding p f = if bit_xor p f == 0 then 0 ∷ [] else encoding (bit_xor p f)

module _ (checks : Bool) (p f : ℕ) (rest : List ℕ) (b : ByteBuffer) (valid : IsBuffer b) where
  read_equal :
      bit_xor p f ≡ 0
      → Ahead b (0 ∷ rest)
      → value_read checks (record { prev_value = p }) b
        ≡ some (f, record { prev_value = f }, skip 1 b)
  unfolding value_read
  read_equal same ahead =
      let e : f ≡ p = bit_xor-eq-zero p f same in
      rw (e, read_one 0 rest b valid (omega arith) ahead) refl

  module _ (pos : 0 < bit_xor p f) (fits : IsU64 (bit_xor p f))
      (small : count_of_bytes (bit_xor p f) ≤ 8)
      (ahead : Ahead b (encoding (bit_xor p f) ++ rest)) where
    abbrev x : ℕ
    x = bit_xor p f

    abbrev k : ℕ
    k = count_of_bytes x

    abbrev array : List ℕ
    array = to_buff k (x / 2 ^ ctz x)

    ahead' : Ahead b (k ∷ ctz x ∷ (array ++ rest))
    ahead' = unfold encoding in ahead

    first : read 1 b ≡ some (k, skip 1 b)
    first = read_one k (ctz x ∷ (array ++ rest)) b valid (omega arith) ahead'

    ahead₁ : Ahead (skip 1 b) (ctz x ∷ (array ++ rest))
    ahead₁ = skip_one k (ctz x ∷ (array ++ rest)) b valid (omega arith) ahead'

    valid₁ : IsBuffer (skip 1 b)
    valid₁ = skip-IsBuffer 1 b valid

    tail_lt : ctz x < 256
    tail_lt = omega (arith, ctz-lt x pos fits)

    second : read 1 (skip 1 b) ≡ some (ctz x, skip 1 (skip 1 b))
    second = read_one (ctz x) (array ++ rest) (skip 1 b) valid₁ tail_lt ahead₁

    third :
        read_buff k 0 (replicate 8 0) (skip 1 (skip 1 b))
        ≡ some (overwrite 0 array (replicate 8 0), skip (length (encoding x)) b)
    third =
        read_buff-Ahead k 0 (x / 2 ^ ctz x) (replicate 8 0) rest (skip 1 (skip 1 b))
          (skip-IsBuffer 1 (skip 1 b) valid₁) (omega arith)
          (skip_one (ctz x) (array ++ rest) (skip 1 b) valid₁ tail_lt ahead₁)
        ∙ ap (λ t. some (overwrite 0 array (replicate 8 0), t)) whole_length
      where
        whole_length : skip k (skip 1 (skip 1 b)) ≡ skip (length (encoding x)) b
        whole_length =
            skip-suc k (skip 1 b)
            ∙ skip-suc (suc k) b
            ∙ ap (λ (t : ℕ). skip t b) (omega (arith, length-encoding checks x b pos fits valid))

    shifted : shift_left (from_buff (overwrite 0 array (replicate 8 0))) (ctz x) ≡ some x
    unfolding shift_left
    shifted = ground (
      arith,
      from_buff-overwrite k 8 (x / 2 ^ ctz x) small (shifted_fits x pos fits),
      shift_back x pos fits,
      ctz-lt x pos fits,
    )

    read_different :
        value_read checks (record { prev_value = p }) b
        ≡ some (f, record { prev_value = f }, skip (length (encoding x)) b)
    unfolding value_read
    read_different = ground (
      arith,
      Bool-cases checks,
      first,
      second,
      third,
      shifted,
      count_of_bytes_bounds x pos fits,
      bit_xor_cancel p f,
    )

-- The highest and the lowest bits of two values differ.
abbrev pub SpansWord : ℕ → ℕ → Type 0
SpansWord p f = (2 ^ 63 ≤ bit_xor p f) × (bit_xor p f % 2 ≡ 1)

module _ (checks : Bool) (p f : ℕ) (hp : IsU64 p) (hf : IsU64 f) (narrow : ¬ (SpansWord p f)) where
  pub count_small : 0 < bit_xor p f → count_of_bytes (bit_xor p f) ≤ 8
  count_small pos = ground (
    arith,
    count_of_bytes_bounds (bit_xor p f) pos (bit_xor-lt 64 p f hp hf),
    count_of_bytes_nine_iff (bit_xor p f) pos (bit_xor-lt 64 p f hp hf),
  )

  pub value_read-encoding :
      (rest : List ℕ) (b : ByteBuffer)
      → IsBuffer b
      → Ahead b (value_encoding p f ++ rest)
      → value_read checks (record { prev_value = p }) b
        ≡ some (f, record { prev_value = f }, skip (length (value_encoding p f)) b)
  unfolding value_encoding
  value_read-encoding rest b valid ahead = elim (Bool-cases (bit_xor p f == 0)) [
    | inl same ↦
        rw same (read_equal checks p f rest b valid ((==_iff _ 0).0 same) (rw same at ahead))
    | inr other ↦
        let pos : 0 < bit_xor p f = ground arith in
        rw other (
          read_different checks p f rest b valid pos (bit_xor-lt 64 p f hp hf) (count_small pos)
            (rw other at ahead))
  ]
