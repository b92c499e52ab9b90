-- ===== src/Compression/Xor/Encoding.antt =====
-- What the value compressor writes: the count of bytes, the shift, and the bytes of the shifted
-- difference, lowest first.
use memseries.Base.{ℕ, zero, suc, ◌+◌, ◌/◌, ◌%◌, ◌^◌, ◌≤◌, ◌<◌, ◌≡◌, arith, ap, sym, ◌∙◌}
use memseries.Base.{Bool, Bool-cases, ◌||◌, true, false, ltb, leb, if◌then◌else◌, IsU64, refl}
use memseries.Base.{List, [], ◌∷◌, length, get_elem?, none, some}
use native.Mathlib.Nat.{div-one, div-div-eq-div-mul, pow-suc, pow-succ'}
use native.Mathlib.Numerals.{add-one}
use memseries.Compression.Xor.{ctz, count_of_bytes, to_buff, write_buff, write_xor}
use memseries.Compression.Xor.Counts.{count_of_bytes_bounds, ctz-lt}
use memseries.Compression.Buffer.{ByteBuffer, write}
use memseries.Compression.Buffer.Stream.{
  put, put_mem, IsBuffer, write-put, put-append, put-IsBuffer, bytes-one,
}

pub length-to_buff : (n v : ℕ) → length (to_buff n v) ≡ n
unfolding to_buff
length-to_buff zero v = refl
length-to_buff (suc n) v = ap suc (length-to_buff n (v / 256))

-- The bytes of a difference that is not 0.
unfoldable pub encoding : ℕ → List ℕ
encoding x = count_of_bytes x ∷ ctz x ∷ to_buff (count_of_bytes x) (x / 2 ^ ctz x)

pub write_one :
    (x : ℕ) (b : ByteBuffer)
    → IsBuffer b
    → 1 ≤ b.pos
    → x < 256
    → write 1 x b ≡ some (put (x ∷ []) b)
write_one x b valid room h = write-put 1 x b valid room ∙ ap (λ xs. some (put xs b)) (bytes-one x h)

shift_suc : (i v : ℕ) → v / 256 / 256 ^ i ≡ v / 256 ^ suc i
shift_suc i v = div-div-eq-div-mul v 256 (256 ^ i) ∙ ap (λ (t : ℕ). v / t) (sym (pow-succ' 256 i))

shift_next : (i v : ℕ) → v / 256 ^ i / 256 ≡ v / 256 ^ (i + 1)
shift_next i v =
    div-div-eq-div-mul v (256 ^ i) 256
    ∙ ap (λ (t : ℕ). v / t) (sym (pow-suc 256 i) ∙ ap (λ (t : ℕ). 256 ^ t) (sym (add-one i)))

get_elem?-to_buff : (n i v : ℕ) → i < n → get_elem? (to_buff n v) i ≡ some (v / 256 ^ i % 256)
unfolding to_buff
get_elem?-to_buff zero i v h = absurd (omega arith)
get_elem?-to_buff (suc n) zero v h = ground arith
get_elem?-to_buff (suc n) (suc i) v h =
    get_elem?-to_buff n i (v / 256) (omega arith) ∙ ap (λ (t : ℕ). some (t % 256)) (shift_suc i v)

get_elem?-to_buff_end : (n v : ℕ) → get_elem? (to_buff n v) n ≡ none
unfolding to_buff
get_elem?-to_buff_end zero v = refl
get_elem?-to_buff_end (suc n) v = get_elem?-to_buff_end n (v / 256)

to_buff-suc :
    (n i v : ℕ)
    → to_buff (suc n) (v / 256 ^ i) ≡ (v / 256 ^ i % 256) ∷ to_buff n (v / 256 ^ (i + 1))
unfolding to_buff
to_buff-suc n i v = ap (λ t. (v / 256 ^ i % 256) ∷ to_buff n t) (shift_next i v)

-- The loop writes a stretch of the array.
write_buff-put :
    (n i m v : ℕ) (b : ByteBuffer)
    → IsBuffer b
    → n ≤ b.pos
    → i + n ≤ m
    → write_buff n i (to_buff m v) b ≡ some (put (to_buff n (v / 256 ^ i)) b)
unfolding write_buff
write_buff-put zero i m v b valid room h = unfold put put_mem to_buff in ground arith
write_buff-put (suc n) i m v b valid room h =
    let x : ℕ = v / 256 ^ i % 256 in
    let b' : ByteBuffer = put (x ∷ []) b in
    let rest : write_buff n (i + 1) (to_buff m v) b'
        ≡ some (put (to_buff n (v / 256 ^ (i + 1))) b') =
      write_buff-put n (i + 1) m v b' (put-IsBuffer (x ∷ []) b valid) (unfold put in omega arith)
        (omega arith) in
    rw (get_elem?-to_buff m i v (omega arith), write_one x b valid (omega arith) (omega arith))
      (rest
        ∙ ap some (
            sym (put-append (x ∷ []) (to_buff n (v / 256 ^ (i + 1))) b)
            ∙ ap (λ xs. put xs b) (sym (to_buff-suc n i v))))

-- A run past the end of the array faults once it is there, whatever was written before.
write_buff_past :
    (n i m v : ℕ) (b : ByteBuffer)
    → IsBuffer b
    → n + 1 ≤ b.pos
    → i + n ≡ m
    → write_buff (suc n) i (to_buff m v) b ≡ none
unfolding write_buff
write_buff_past zero i m v b valid room e =
    let here : i ≡ m = omega arith in rw (here, get_elem?-to_buff_end m v) refl
write_buff_past (suc n) i m v b valid room e =
    let x : ℕ = v / 256 ^ i % 256 in
    rw (get_elem?-to_buff m i v (omega arith), write_one x b valid (omega arith) (omega arith))
      (write_buff_past n (i + 1) m v (put (x ∷ []) b) (put-IsBuffer (x ∷ []) b valid)
        (unfold put in omega arith) (omega arith))

write_buff_nine :
    (k v : ℕ) (b : ByteBuffer)
    → k ≡ 9
    → IsBuffer b
    → 9 ≤ b.pos
    → write_buff k 0 (to_buff 8 v) b ≡ none
write_buff_nine k v b e valid room = rw e (write_buff_past 8 0 8 v b valid room (omega arith))

module _ (checks : Bool) (x : ℕ) (b : ByteBuffer) (pos : 0 < x) (fits : IsU64 x)
    (valid : IsBuffer b) where
  abbrev tail : ℕ
  tail = ctz x

  abbrev after_head : ByteBuffer
  after_head = put (tail ∷ []) (put (count_of_bytes x ∷ []) b)

  head_IsBuffer : IsBuffer (put (count_of_bytes x ∷ []) b)
  head_IsBuffer = put-IsBuffer (count_of_bytes x ∷ []) b valid

  count_lt : count_of_bytes x < 256
  count_lt = omega (arith, count_of_bytes_bounds x pos fits)

  write_count : 1 ≤ b.pos → write 1 (count_of_bytes x) b ≡ some (put (count_of_bytes x ∷ []) b)
  write_count room = write_one (count_of_bytes x) b valid room count_lt

  write-tail : 2 ≤ b.pos → write 1 tail (put (count_of_bytes x ∷ []) b) ≡ some after_head
  write-tail room =
      write_one tail (put (count_of_bytes x ∷ []) b) head_IsBuffer (unfold put in omega arith)
        (omega (arith, ctz-lt x pos fits))

  after_head-IsBuffer : IsBuffer after_head
  after_head-IsBuffer = put-IsBuffer (tail ∷ []) _ head_IsBuffer

  joined : put (to_buff (count_of_bytes x) (x / 2 ^ tail)) after_head ≡ put (encoding x) b
  unfolding encoding
  joined =
      ap (put (to_buff (count_of_bytes x) (x / 2 ^ tail)))
        (sym (put-append (count_of_bytes x ∷ []) (tail ∷ []) b))
      ∙ sym
          (put-append (count_of_bytes x ∷ tail ∷ []) (to_buff (count_of_bytes x) (x / 2 ^ tail)) b)

  write_rest :
      count_of_bytes x + 2 ≤ b.pos
      → count_of_bytes x ≤ 8
      → write_buff (count_of_bytes x) 0 (to_buff 8 (x / 2 ^ tail)) after_head
        ≡ some (put (encoding x) b)
  write_rest room small =
      write_buff-put (count_of_bytes x) 0 8 (x / 2 ^ tail) after_head after_head-IsBuffer
        (unfold put in omega arith) (omega arith)
      ∙ ap (λ v. some (put (to_buff (count_of_bytes x) v) after_head)) (div-one (x / 2 ^ tail))
      ∙ ap some joined

  write_rest_past :
      count_of_bytes x ≡ 9
      → 11 ≤ b.pos
      → write_buff (count_of_bytes x) 0 (to_buff 8 (x / 2 ^ tail)) after_head ≡ none
  write_rest_past whole room =
      write_buff_nine (count_of_bytes x) (x / 2 ^ tail) after_head whole after_head-IsBuffer
        (unfold put in omega arith)

  pub length-encoding : length (encoding x) ≡ count_of_bytes x + 2
  unfolding encoding
  length-encoding = omega (arith, length-to_buff (count_of_bytes x) (x / 2 ^ tail))

  pub write_xor-encoding :
      count_of_bytes x ≤ 8
      → write_xor checks x b
        ≡ some (if ltb b.pos (length (encoding x)) then (false, b) else (true, put (encoding x) b))
  unfolding write_xor
  write_xor-encoding small = ground (arith, length-encoding, write_count, write-tail, write_rest)

  -- A difference of the whole word stops at the check, or reads past the array if there is room.
  pub write_xor_past :
      count_of_bytes x ≡ 9
      → write_xor checks x b ≡ (if checks || leb 11 b.pos then none else some (false, b))
  unfolding write_xor
  write_xor_past whole =
      ground (arith, Bool-cases checks, write_count, write-tail, write_rest_past whole)
