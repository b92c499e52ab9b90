-- ===== src/Compression/Flag/Encoding.antt =====
-- What the flag compressor writes, in plain arithmetic.
use memseries.Base.{ℕ, zero, suc, ◌+◌, ◌-◌, ◌/◌, ◌%◌, ◌^◌, ◌≤◌, ◌<◌, ◌≡◌, arith, ap, ◌∙◌}
use memseries.Base.{Bool, false, leb, ◌==◌, if◌then◌else◌, refl, bit_and, bit_or}
use memseries.Base.{List, [], ◌∷◌, length, take, some}
use memseries.Base.Bits.{bit_and_mask, bit_or_below, bit_or_comm}
use native.Mathlib.Decide.{dec_lt}
use native.Mathlib.Nat.{pow-suc}
use memseries.Compression.Flag.{write_groups}
use memseries.Compression.Buffer.{ByteBuffer, write}
use memseries.Compression.Buffer.Stream.{
  put, put_nil, IsBuffer, write-put, put-append, put-IsBuffer, bytes-one,
}

-- The groups of `x`, lowest first, for `x` below `128 ^ rounds`.
unfoldable pub groups : ℕ → ℕ → List ℕ
groups zero x = []
groups (suc rounds) x =
    let rest = groups rounds (x / 128) in if x / 128 == 0 then x ∷ [] else (x % 128 + 128) ∷ rest

last_group : (x : ℕ) → x / 128 ≡ 0 → bit_and x 0x7f % 256 ≡ x
last_group x h = ground (arith, bit_and_mask 7 x)

inner_group : (x : ℕ) → bit_or (bit_and x 0x7f) 0x80 % 256 ≡ x % 128 + 128
inner_group x =
    ground (arith, bit_and_mask 7 x, bit_or_comm (x % 128) 0x80, bit_or_below 7 1 (x % 128))

write_one :
    (x : ℕ) (b : ByteBuffer)
    → IsBuffer b
    → 1 ≤ b.pos
    → x < 256
    → write 1 x b ≡ some (put (x ∷ []) b)
write_one x b valid room h = write-put 1 x b valid room ∙ ap (λ xs. some (put xs b)) (bytes-one x h)

take_none : (n : ℕ) (xs : List ℕ) → n ≡ 0 → take n xs ≡ []
take_none zero xs h = refl
take_none (suc n) xs h = absurd (omega arith)

take_some : (n x : ℕ) (xs : List ℕ) → 1 ≤ n → take n (x ∷ xs) ≡ x ∷ take (n - 1) xs
take_some zero x xs h = absurd (omega arith)
take_some (suc n) x xs h = ap (λ (k : ℕ). x ∷ take k xs) (omega arith)

take_nil : (n : ℕ) → ◌≡◌ {A = List ℕ} (take n []) []
take_nil zero = refl
take_nil (suc n) = refl

pub length-groups_pos : (rounds x : ℕ) → 1 ≤ length (groups (suc rounds) x)
unfolding groups
length-groups_pos rounds x = ground arith

-- The bytes that fit are written, and the result says whether they are all.
abbrev pub outcome : List ℕ → ByteBuffer → Bool × ByteBuffer
outcome xs b = (leb (length xs) b.pos, put (take b.pos xs) b)

outcome_none :
    (xs : List ℕ) (b : ByteBuffer) → b.pos ≡ 0 → 1 ≤ length xs → outcome xs b ≡ (false, b)
outcome_none xs b e h = ground (arith, take_none b.pos xs e, put_nil b)

outcome_some :
    (x : ℕ) (xs : List ℕ) (b : ByteBuffer)
    → 1 ≤ b.pos
    → outcome (x ∷ xs) b ≡ outcome xs (put (x ∷ []) b)
outcome_some x xs b h =
    ground (arith, take_some b.pos x xs h, put-append (x ∷ []) (take (b.pos - 1) xs) b, pos_after)
  where
    pos_after : (put (x ∷ []) b).pos ≡ b.pos - 1
    pos_after = unfold put in refl

module _ (rounds x : ℕ) (b : ByteBuffer) (valid : IsBuffer b) where
  write_last : x / 128 ≡ 0 → write_groups (suc rounds) x b ≡ some (outcome (x ∷ []) b)
  unfolding write_groups
  write_last last = elim (dec_lt b.pos 1) [
    | yes h ↦ rw (outcome_none (x ∷ []) b (omega arith) (omega arith)) (ground arith)
    | no h ↦
        rw (outcome_some x [] b (omega arith), take_nil, put_nil)
          (ground (arith, last_group x last, write_one x b valid))
  ]

  write_inner :
      (xs : List ℕ)
      → 0 < x / 128
      → (1 ≤ b.pos
          → write_groups rounds (x / 128) (put ((x % 128 + 128) ∷ []) b)
            ≡ some (outcome xs (put ((x % 128 + 128) ∷ []) b)))
      → write_groups (suc rounds) x b ≡ some (outcome ((x % 128 + 128) ∷ xs) b)
  unfolding write_groups
  write_inner xs more rest = elim (dec_lt b.pos 1) [
    | yes h ↦ rw (outcome_none ((x % 128 + 128) ∷ xs) b (omega arith) (omega arith)) (ground arith)
    | no h ↦
        rw (outcome_some (x % 128 + 128) xs b (omega arith))
          (ground (arith, inner_group x, write_one (x % 128 + 128) b valid, rest (omega arith)))
  ]

pub groups_last : (rounds x : ℕ) → x / 128 ≡ 0 → groups (suc rounds) x ≡ x ∷ []
unfolding groups
groups_last rounds x h = ground arith

pub groups_inner :
    (rounds x : ℕ) → 0 < x / 128 → groups (suc rounds) x ≡ (x % 128 + 128) ∷ groups rounds (x / 128)
unfolding groups
groups_inner rounds x h = ground arith

pub write_groups-groups :
    (rounds x : ℕ) (b : ByteBuffer)
    → IsBuffer b
    → x < 128 ^ suc rounds
    → write_groups (suc rounds) x b ≡ some (outcome (groups (suc rounds) x) b)
write_groups-groups zero x b valid fits =
    rw (groups_last 0 x (omega arith)) (write_last 0 x b valid (omega arith))
write_groups-groups (suc rounds) x b valid fits = elim (dec_lt 0 (x / 128)) [
  | yes h ↦ rw (groups_inner (suc rounds) x h) (
      write_inner (suc rounds) x b valid (groups (suc rounds) (x / 128)) h (λ _.
        write_groups-groups rounds (x / 128) (put ((x % 128 + 128) ∷ []) b)
          (put-IsBuffer ((x % 128 + 128) ∷ []) b valid) (omega (arith, pow-suc 128 (suc rounds)))))
  | no h ↦
      rw (groups_last (suc rounds) x (omega arith))
        (write_last (suc rounds) x b valid (omega arith))
]
