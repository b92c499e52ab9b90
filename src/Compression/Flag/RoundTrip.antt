-- ===== src/Compression/Flag/RoundTrip.antt =====
-- Appending a flag, and reading it back.
use memseries.Base.{ℕ, zero, suc, ◌+◌, ◌*◌, ◌/◌, ◌%◌, ◌^◌, ◌≤◌, ◌<◌, ◌≡◌, arith, ap, ap₂, ◌∙◌}
use memseries.Base.{Bool, true, false, leb, ◌==◌, refl, bit_and, bit_or, IsU32}
use memseries.Base.{List, [], ◌∷◌, ◌++◌, length, take, some}
use memseries.Base.Bits.{bit_and_mask, bit_or_below, bit_or_comm}
use memseries.Compression.Flag.{FlagCompressor, FlagDeCompressor, append, read_groups, flag_read}
use memseries.Compression.Flag.Encoding.{groups, groups_last, groups_inner, write_groups-groups}
use memseries.Compression.Buffer.{ByteBuffer, set_pos}
use memseries.Compression.Buffer.Stream.{
  put, skip, skip-suc, Ahead, IsBuffer, rewound_Ahead, rewound_skip, rewound_IsBuffer, read_one,
  skip_one, skip-IsBuffer,
}
use native.Mathlib.Decide.{dec_lt}
use native.Mathlib.Nat.{pow-suc, div-add-mod}
use memseries.Compression.Xor.Counts.{pow-add}
use memseries.Base.{all_below, all_below→at, ◌&&◌}

abbrev top_test : ℕ → Bool
top_test r = (bit_and r 0x80 == 0) && (bit_and (r + 128) 0x80 == 128)

top_bit : (r : ℕ) → r < 128 → top_test r ≡ true
unfolding all_below
top_bit r h = all_below→at 128 top_test r refl h

inner_top : (g : ℕ) → g < 128 → bit_and (g + 128) 0x80 ≡ 128
inner_top g h = ground (arith, top_bit g h)

shift_seven : (i : ℕ) → 2 ^ (7 * (i + 1)) ≡ 128 * 2 ^ (7 * i)
shift_seven i = ap (λ (t : ℕ). 2 ^ t) regroup ∙ pow-add (7 * i) 7 ∙ omega arith
  where
    regroup : 7 * (i + 1) ≡ 7 * i + 7
    regroup = omega arith

-- The lowest group of `x` and the rest, in place.
split_group : (x i : ℕ) → x * 2 ^ (7 * i) ≡ x % 128 * 2 ^ (7 * i) + x / 128 * 2 ^ (7 * (i + 1))
split_group x i = omega (
  arith,
  ap (λ (t : ℕ). t * 2 ^ (7 * i)) (div-add-mod x 128),
  ap (λ (t : ℕ). x / 128 * t) (shift_seven i),
)

group_bound : (g i : ℕ) → g < 128 → g * 2 ^ (7 * i) + 2 ^ (7 * i) ≤ 2 ^ (7 * (i + 1))
group_bound g i h = omega (arith, shift_seven i, bound g (2 ^ (7 * i)) h)
  where
    bound : (g p : ℕ) → g < 128 → g * p ≤ 127 * p
    bound g p h = grind arith

-- One round joins the group `g` on top of the result.
joined :
    (r g i result : ℕ)
    → bit_and r 0x7f ≡ g
    → result < 2 ^ (7 * i)
    → result + g * 2 ^ (7 * i) < 2 ^ 32
    → bit_or result (bit_and r 0x7f * 2 ^ (7 * i) % 2 ^ 64) % 2 ^ 32 ≡ result + g * 2 ^ (7 * i)
joined r g i result e below total =
    ground (arith, bit_or_comm result (g * 2 ^ (7 * i)), bit_or_below (7 * i) g result below)

module _ (fuel i result : ℕ) (rest : List ℕ) (b : ByteBuffer) (valid : IsBuffer b)
    (below : result < 2 ^ (7 * i)) where
  read_last :
      (x : ℕ)
      → x < 128
      → result + x * 2 ^ (7 * i) < 2 ^ 32
      → Ahead b (x ∷ rest)
      → read_groups (suc fuel) i result b ≡ some (result + x * 2 ^ (7 * i), skip 1 b)
  unfolding read_groups
  read_last x small total ahead =
      rw (read_one x rest b valid (omega arith) ahead)
        (ground (arith, top_bit x, joined x x i result (bit_and_mask 7 x ∙ omega arith) below))

  read_inner :
      (g : ℕ)
      → g < 128
      → result + g * 2 ^ (7 * i) < 2 ^ 32
      → Ahead b ((g + 128) ∷ rest)
      → read_groups (suc fuel) i result b
        ≡ read_groups fuel (i + 1) (result + g * 2 ^ (7 * i)) (skip 1 b)
  unfolding read_groups
  read_inner g small total ahead =
      rw
        (
          read_one (g + 128) rest b valid (omega arith) ahead,
          inner_top g small,
          joined (g + 128) g i result (bit_and_mask 7 (g + 128) ∙ omega arith) below total,
        )
        refl

-- `x` is what is left to read after `i` groups, which made `result`.
read_groups-groups :
    (rounds fuel i x result : ℕ) (rest : List ℕ) (b : ByteBuffer)
    → IsBuffer b
    → rounds < fuel
    → x < 128 ^ suc rounds
    → result < 2 ^ (7 * i)
    → result + x * 2 ^ (7 * i) < 2 ^ 32
    → Ahead b (groups (suc rounds) x ++ rest)
    → read_groups fuel i result b
      ≡ some (result + x * 2 ^ (7 * i), skip (length (groups (suc rounds) x)) b)
read_groups-groups rounds zero i x result rest b valid enough fits below total ahead =
    absurd (omega arith)
read_groups-groups zero (suc fuel) i x result rest b valid enough fits below total ahead =
    let e : groups 1 x ≡ x ∷ [] = groups_last 0 x (omega arith) in
    rw e (read_last fuel i result rest b valid below x (omega arith) total (rw e at ahead))
read_groups-groups (suc rounds) (suc fuel) i x result rest b valid enough fits below total ahead =
    elim (dec_lt 0 (x / 128)) [
      | yes h ↦
          let e = groups_inner (suc rounds) x h in
          let xs : List ℕ = groups (suc rounds) (x / 128) in
          let ahead' : Ahead b ((x % 128 + 128) ∷ (xs ++ rest)) = rw e at ahead in
          let part : result + x % 128 * 2 ^ (7 * i) < 2 ^ 32 = omega (arith, split_group x i) in
          let next =
            read_groups-groups rounds fuel (i + 1) (x / 128) (result + x % 128 * 2 ^ (7 * i)) rest
              (skip 1 b) (skip-IsBuffer 1 b valid) (omega arith)
              (omega (arith, pow-suc 128 (suc rounds)))
              (omega (arith, group_bound (x % 128) i (omega arith)))
              (omega (arith, split_group x i))
              (skip_one (x % 128 + 128) (xs ++ rest) b valid (omega arith) ahead') in
          rw
            (
              e,
              read_inner fuel i result (xs ++ rest) b valid below (x % 128) (omega arith) part
                  ahead',
            )
            (next
              ∙ ap₂ (λ v u. some (v, u)) (omega (arith, split_group x i)) (skip-suc (length xs) b))
      | no h ↦
          let e : groups (suc (suc rounds)) x ≡ x ∷ [] = groups_last (suc rounds) x (omega arith) in
          rw e (read_last fuel i result rest b valid below x (omega arith) total (rw e at ahead))
    ]

take_all : (n : ℕ) (xs : List ℕ) → length xs ≤ n → take n xs ≡ xs
take_all zero [] h = refl
take_all zero (x ∷ xs) h = absurd (omega arith)
take_all (suc n) [] h = refl
take_all (suc n) (x ∷ xs) h = ap (λ t. x ∷ t) (take_all n xs (omega arith))

-- The bytes of a flag.
abbrev pub flag_encoding : ℕ → List ℕ
flag_encoding v = groups 5 v

module _ (v : ℕ) (c : FlagCompressor) (hv : IsU32 v) where
  -- On a valid buffer and a compressor behind its first flag, the append of a 32-bit flag keeps
  -- the compressor, puts as many of the bytes of the flag as there is room for, and reports
  -- success exactly if they are all of them.
  pub append-groups :
      (b : ByteBuffer)
      → IsBuffer b
      → c.is_first ≡ false
      → append v c b
        ≡ some (leb (length (flag_encoding v)) b.pos, c, put (take b.pos (flag_encoding v)) b)
  unfolding append
  append-groups b valid later = ground (arith, write_groups-groups 4 v b valid (omega arith))

  pub flag_read_exact :
      (r : FlagDeCompressor) (rest : List ℕ) (b : ByteBuffer)
      → IsBuffer b
      → Ahead b (flag_encoding v ++ rest)
      → flag_read r b ≡ some (v, r, skip (length (flag_encoding v)) b)
  unfolding flag_read
  flag_read_exact r rest b valid ahead =
      rw
        (read_groups-groups 4 10 0 v 0 rest b valid (omega arith) (omega arith) (omega arith)
          (omega arith) ahead)
        (ap (λ (t : ℕ). some (t, r, skip (length (flag_encoding v)) b)) (omega arith))

  pub append_room :
      (b : ByteBuffer)
      → IsBuffer b
      → c.is_first ≡ false
      → length (flag_encoding v) ≤ b.pos
      → append v c b ≡ some (true, c, put (flag_encoding v) b)
  append_room b valid later room =
      append-groups b valid later ∙ ground (arith, take_all b.pos (flag_encoding v) room)

  pub append_done :
      (b : ByteBuffer) {c' : FlagCompressor} {b' : ByteBuffer}
      → IsBuffer b
      → c.is_first ≡ false
      → append v c b ≡ some (true, c', b')
      → (length (flag_encoding v) ≤ b.pos) × (c ≡ c') × (put (flag_encoding v) b ≡ b')
  append_done b {c'} {b'} valid later h =
      let room : length (flag_encoding v) ≤ b.pos = ground (arith, append-groups b valid later) in
      let done = append_room b valid later room in (room, cc (done), cc (done))

  -- On a valid buffer and a compressor behind its first flag, if the append of a 32-bit flag
  -- succeeds, a decompressor reads it back from where the append began and ends at the buffer
  -- that the append left.
  pub flag_read-append :
      (r : FlagDeCompressor) (b : ByteBuffer) {c' : FlagCompressor} {b' : ByteBuffer}
      → IsBuffer b
      → c.is_first ≡ false
      → append v c b ≡ some (true, c', b')
      → flag_read r (set_pos b.pos b') ≡ some (v, r, b')
  flag_read-append r b {b' = b'} valid later h =
      let (room, state, buffer) = append_done b valid later h in
      rw (← buffer) (
        flag_read_exact r [] (set_pos b.pos (put (flag_encoding v) b))
          (rewound_IsBuffer (flag_encoding v) b valid room)
          (rewound_Ahead (flag_encoding v) b valid room)
        ∙ ap (λ u. some (v, r, u)) (rewound_skip (flag_encoding v) b valid room))

length-groups : (rounds x : ℕ) → length (groups rounds x) ≤ rounds
unfolding groups
length-groups zero x = omega arith
length-groups (suc rounds) x = ground (arith, length-groups rounds (x / 128))

pub length-flag_encoding : (v : ℕ) → length (flag_encoding v) ≤ 5
length-flag_encoding v = length-groups 5 v
