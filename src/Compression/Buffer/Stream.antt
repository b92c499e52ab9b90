-- ===== src/Compression/Buffer/Stream.antt =====
-- The buffer as a stream: what is written and read, in the order of falling addresses.
use memseries.Base.{ℕ, suc, ◌+◌, ◌-◌, ◌%◌, ◌^◌, ◌≤◌, ◌<◌}
use memseries.Base.{◌≡◌, refl, ap, ◌∙◌, arith, List, [], ◌∷◌, ◌++◌, some}
use mathlib.Core.List.{append_assoc, append-nil}
use memseries.Base.{length, length-append}
use memseries.Compression.Buffer.{ByteBuffer, set_pos, move_pos, load, write, read}
unfoldable pub use memseries.Compression.Buffer.Memory.{bytes, put_mem}
pub use memseries.Compression.Buffer.Memory.{
  Holds, length-bytes, length-put_mem, put_mem-append, store-put_mem, Holds-append, Holds-put_mem,
  Holds-put_mem_below, load-Holds, length-le_Holds,
}

unfoldable pub put : List ℕ → ByteBuffer → ByteBuffer
put xs b = record b { mem = put_mem xs b.pos b.mem; pos = b.pos - length xs }

pub record IsBuffer (b : ByteBuffer) : Type 0 where
  pub capacity : b.cap ≡ length b.mem
  pub in_32_bits : b.cap < 2 ^ 32
  pub within : b.pos < b.cap

pub put_nil : (b : ByteBuffer) → put [] b ≡ b
unfolding put put_mem
put_nil b = ground arith

pub put-append : (xs ys : List ℕ) (b : ByteBuffer) → put (xs ++ ys) b ≡ put ys (put xs b)
unfolding put
put-append xs ys b = ground (arith, put_mem-append xs ys b.pos b.mem, length-append {0} xs ys)

module _ (n v : ℕ) (b : ByteBuffer) (valid : IsBuffer b) (room : n ≤ b.pos) where
  -- Within the room the position moves without wrapping.
  pub move_pos_lem : move_pos n b ≡ record b { pos = b.pos - n }
  unfolding move_pos
  move_pos_lem = ground arith

  pub write-put : write n v b ≡ some (put (bytes n v) b)
  unfolding write put
  write-put =
      rw (wrap, store-put_mem n (b.pos - n) v b.mem (omega arith), back, length-bytes n v) refl
    where
      wrap : (b.pos + 2 ^ 32 - n) % 2 ^ 32 ≡ b.pos - n
      wrap = omega arith

      back : b.pos - n + n ≡ b.pos
      back = omega arith

pub put-IsBuffer : (xs : List ℕ) (b : ByteBuffer) → IsBuffer b → IsBuffer (put xs b)
unfolding put
put-IsBuffer xs b valid = record {
  capacity = omega (arith, length-put_mem xs b.pos b.mem);
  in_32_bits = valid.in_32_bits;
  within = omega arith;
}

-- Past `n` bytes of the stream.
unfoldable pub skip : ℕ → ByteBuffer → ByteBuffer
skip n b = record b { pos = b.pos - n }

-- What the buffer holds next.
abbrev pub Ahead : ByteBuffer → List ℕ → Type 0
Ahead b xs = Holds b.mem b.pos xs

module _ (n v : ℕ) (rest : List ℕ) (b : ByteBuffer) (valid : IsBuffer b) (fits : v < 256 ^ n)
    (ahead : Ahead b (bytes n v ++ rest)) where
  room : n ≤ b.pos
  room = omega (
    arith,
    length-le_Holds (bytes n v ++ rest) b.pos b.mem ahead,
    length-append {0} (bytes n v) rest,
    length-bytes n v,
  )

  pub read-Ahead : read n b ≡ some (v, skip n b)
  unfolding read skip
  read-Ahead = rw (wrap, found) refl
    where
      wrap : (b.pos + 2 ^ 32 - n) % 2 ^ 32 ≡ b.pos - n
      wrap = omega (arith, room)

      back : b.pos ≡ b.pos - n + n
      back = omega (arith, room)

      found : load n (b.pos - n) b.mem ≡ some v
      found =
          load-Holds n (b.pos - n) v b.mem fits
            (rw back at ((Holds-append (bytes n v) rest b.pos b.mem ahead).0))

  pub skip-Ahead : Ahead (skip n b) rest
  unfolding skip
  skip-Ahead = rw length-bytes at ((Holds-append (bytes n v) rest b.pos b.mem ahead).1)

pub skip-IsBuffer : (n : ℕ) (b : ByteBuffer) → IsBuffer b → IsBuffer (skip n b)
unfolding skip
skip-IsBuffer n b v = omega arith

pub skip-Ahead_all :
    (xs rest : List ℕ) (b : ByteBuffer) → Ahead b (xs ++ rest) → Ahead (skip (length xs) b) rest
unfolding skip
skip-Ahead_all xs rest b h = (Holds-append xs rest b.pos b.mem h).1

pub skip-skip : (n m : ℕ) (b : ByteBuffer) → skip m (skip n b) ≡ skip (n + m) b
unfolding skip
skip-skip n m b = ground arith

pub skip-suc : (n : ℕ) (b : ByteBuffer) → skip n (skip 1 b) ≡ skip (suc n) b
skip-suc n b = skip-skip 1 n b ∙ ap (λ (t : ℕ). skip t b) (omega arith)

-- Two reads of what two writes put.
pub read_twice :
    (n m v w : ℕ) (rest : List ℕ) (b : ByteBuffer)
    → IsBuffer b
    → v < 256 ^ n
    → w < 256 ^ m
    → Ahead b ((bytes n v ++ bytes m w) ++ rest)
    → (read n b ≡ some (v, skip n b)) × (read m (skip n b) ≡ some (w, skip (n + m) b))
read_twice n m v w rest b valid hv hw ahead =
    let ahead' : Ahead b (bytes n v ++ (bytes m w ++ rest)) = rw append_assoc at ahead in
    (
      read-Ahead n v (bytes m w ++ rest) b valid hv ahead',
      read-Ahead m w rest (skip n b) (skip-IsBuffer n b valid) hw
            (skip-Ahead n v (bytes m w ++ rest) b valid hv ahead')
          ∙ ap (λ t. some (w, t)) (skip-skip n m b),
    )

pub bytes-one : (x : ℕ) → x < 256 → bytes 1 x ≡ x ∷ []
unfolding bytes
bytes-one x h = ground arith

module _ (x : ℕ) (rest : List ℕ) (b : ByteBuffer) (valid : IsBuffer b) (small : x < 256)
    (ahead : Ahead b (x ∷ rest)) where
  as_bytes : Ahead b (bytes 1 x ++ rest)
  as_bytes = rw (bytes-one x small) ahead

  pub read_one : read 1 b ≡ some (x, skip 1 b)
  read_one = read-Ahead 1 x rest b valid small as_bytes

  pub skip_one : Ahead (skip 1 b) rest
  skip_one = skip-Ahead 1 x rest b valid small as_bytes

-- The buffer that has been written to, at its position from before.
module _ (xs : List ℕ) (b : ByteBuffer) (valid : IsBuffer b) (room : length xs ≤ b.pos) where
  pub rewound_Ahead : Ahead (set_pos b.pos (put xs b)) (xs ++ [])
  unfolding set_pos put
  rewound_Ahead = rw append-nil (Holds-put_mem xs b.pos b.mem room (omega arith))

  pub rewound_skip : skip (length xs) (set_pos b.pos (put xs b)) ≡ put xs b
  unfolding set_pos put skip
  rewound_skip = refl

  pub rewound_IsBuffer : IsBuffer (set_pos b.pos (put xs b))
  unfolding set_pos put
  rewound_IsBuffer = record {
    capacity = omega (arith, length-put_mem xs b.pos b.mem);
    in_32_bits = valid.in_32_bits;
    within = valid.within;
  }

pub put_pos : (xs : List ℕ) (b b' : ByteBuffer) → put xs b ≡ b' → b'.pos ≡ b.pos - length xs
unfolding put
put_pos xs b b' e = rw (← e) refl
