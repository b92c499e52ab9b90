-- ===== src/Compression/Delta/RoundTrip.antt =====
-- Appending a timestamp, and reading it back.
use memseries.Base.{ℕ, ◌+◌, ◌^◌, ◌%◌, ◌≤◌, ◌≡◌, arith, ap, sym, ◌∙◌, refl, IsU64}
use memseries.Base.{Bool, true, false, ltb, if◌then◌else◌, add64, sub64, neg64}
use memseries.Base.{List, [], ◌++◌, length, length-append, some}
use memseries.Compression.Delta.{DeltaCompressor, DeltaDeCompressor, append, time_read}
use memseries.Compression.Delta.Encoding.{encoding, write_delta-encoding}
use memseries.Compression.Delta.Decoding.{decoded, read_delta-encoding}
use memseries.Compression.Outcome.{had_room}
use memseries.Compression.Buffer.{ByteBuffer, set_pos}
use memseries.Compression.Buffer.Stream.{
  put, skip, Ahead, IsBuffer, rewound_Ahead, rewound_skip, rewound_IsBuffer, bytes, length-bytes,
}

-- The difference that `append` writes for a time.
abbrev pub delta : DeltaCompressor → ℕ → ℕ
delta c t = sub64 (sub64 t c.prev_time) c.prev_delta

-- An even negative difference in the range of the three-byte form.
abbrev pub IsLossy : ℕ → Type 0
IsLossy d = (neg64 524287 ≤ d) × (d ≤ neg64 4096) × (d % 2 ≡ 0)

abbrev pub state_after : DeltaCompressor → ℕ → DeltaCompressor
state_after c t = record c { prev_delta = delta c t; prev_time = t }

decoded_exact : (d : ℕ) → ¬ (IsLossy d) → decoded d ≡ d
unfolding decoded
decoded_exact d h = ground arith

decoded_lossy : (d : ℕ) → IsLossy d → decoded d ≡ d + 1
unfolding decoded
decoded_lossy d h = ground arith

-- `append` after the first time: the encoding goes to the buffer, or nothing at all.
pub append-encoding :
    (t : ℕ) (c : DeltaCompressor) (b : ByteBuffer)
    → IsBuffer b
    → c.is_first ≡ false
    → append t c b
      ≡ some (
          if ltb b.pos (length (encoding (delta c t)))
          then (false, c, b)
          else (true, state_after c t, put (encoding (delta c t)) b))
unfolding append
append-encoding t c b valid later = ground (arith, write_delta-encoding (delta c t) b valid)

pub append_done :
    (t : ℕ) (c : DeltaCompressor) (b : ByteBuffer) {c' : DeltaCompressor} {b' : ByteBuffer}
    → IsBuffer b
    → c.is_first ≡ false
    → append t c b ≡ some (true, c', b')
    → (length (encoding (delta c t)) ≤ b.pos)
      × (state_after c t ≡ c')
      × (put (encoding (delta c t)) b ≡ b')
append_done t c b {c'} {b'} valid later h =
    let (fits, state, buffer) =
      had_room (ltb b.pos (length (encoding (delta c t)))) c (state_after c t) c' b
        (put (encoding (delta c t)) b) b' (sym (append-encoding t c b valid later) ∙ h) in
    (ground arith, state, buffer)

module _ (checks : Bool) (t : ℕ) (c : DeltaCompressor) (ht : IsU64 t) (hp : IsU64 c.prev_time)
    (hd : IsU64 c.prev_delta) where
  time_read-encoding :
      (shift : ℕ) (rest : List ℕ) (b : ByteBuffer)
      → IsBuffer b
      → shift ≤ 1
      → decoded (delta c t) ≡ delta c t + shift
      → Ahead b (encoding (delta c t) ++ rest)
      → time_read checks (record { prev_delta = c.prev_delta; prev_time = c.prev_time }) b
        ≡ some (
          add64 t shift,
          record { prev_delta = delta c t + shift; prev_time = add64 t shift },
          skip (length (encoding (delta c t))) b,
        )
  unfolding time_read
  time_read-encoding shift rest b valid hs e ahead =
      rw (read_delta-encoding checks rest b valid (delta c t) (omega arith) ahead, e, total shift)
        refl
    where
      total :
          (shift : ℕ) → add64 (add64 c.prev_time (delta c t + shift)) c.prev_delta ≡ add64 t shift
      total shift = omega arith

  -- What is not lossy is read exactly, before any other bytes.
  pub time_read_exact :
      (rest : List ℕ) (b : ByteBuffer)
      → IsBuffer b
      → ¬ (IsLossy (delta c t))
      → Ahead b (encoding (delta c t) ++ rest)
      → time_read checks (record { prev_delta = c.prev_delta; prev_time = c.prev_time }) b
        ≡ some (
          t,
          record { prev_delta = delta c t; prev_time = t },
          skip (length (encoding (delta c t))) b,
        )
  time_read_exact rest b valid exact ahead =
      let e : decoded (delta c t) ≡ delta c t + 0 = decoded_exact (delta c t) exact ∙ omega arith in
      let same : add64 t 0 ≡ t = omega arith in
      let plain : delta c t + 0 ≡ delta c t = omega arith in
      rw (same, plain) at (time_read-encoding 0 rest b valid (omega arith) e ahead)

  module _ (b : ByteBuffer) (valid : IsBuffer b) (later : c.is_first ≡ false) (c' : DeltaCompressor)
      (b' : ByteBuffer) (appended : append t c b ≡ some (true, c', b')) where
    inverted :
        (length (encoding (delta c t)) ≤ b.pos)
        × (state_after c t ≡ c')
        × (put (encoding (delta c t)) b ≡ b')
    inverted = append_done t c b valid later appended

    read_shifted :
        (shift : ℕ)
        → shift ≤ 1
        → decoded (delta c t) ≡ delta c t + shift
        → time_read checks
            (record { prev_delta = c.prev_delta; prev_time = c.prev_time })
            (set_pos b.pos b')
          ≡ some (
            add64 t shift,
            record { prev_delta = delta c t + shift; prev_time = add64 t shift },
            b',
          )
    read_shifted shift hs e =
        let room : length (encoding (delta c t)) ≤ b.pos = inverted.0 in
        let before = rewound_IsBuffer (encoding (delta c t)) b valid room in
        rw (← inverted.2) (
          time_read-encoding shift [] (set_pos b.pos (put (encoding (delta c t)) b)) before hs e
            (rewound_Ahead (encoding (delta c t)) b valid room)
          ∙ ap
              (λ u. some (
                add64 t shift,
                record { prev_delta = delta c t + shift; prev_time = add64 t shift },
                u,
              ))
              (rewound_skip (encoding (delta c t)) b valid room))

    -- On a valid buffer and a compressor behind its first time, if the append of a 64-bit time
    -- succeeds and its difference of differences is not IsLossy, a decompressor in the state of
    -- the compressor before reads that time back from where the append began, ends at the buffer
    -- that the append left, and in the state of the compressor after.
    pub time_read-append :
        ¬ (IsLossy (delta c t))
        → (time_read checks
              (record { prev_delta = c.prev_delta; prev_time = c.prev_time })
              (set_pos b.pos b')
            ≡ some (t, record { prev_delta = c'.prev_delta; prev_time = c'.prev_time }, b'))
          × (c'.prev_time ≡ t)
    time_read-append exact =
        let e : decoded (delta c t) ≡ delta c t + 0 =
          decoded_exact (delta c t) exact ∙ omega arith in
        let same : add64 t 0 ≡ t = omega arith in
        let plain : delta c t + 0 ≡ delta c t = omega arith in
        (
          rw (← inverted.1) (rw (same, plain) at (read_shifted 0 (omega arith) e)),
          rw (← inverted.1) refl,
        )

    -- On a valid buffer and a compressor behind its first time, if the append of a 64-bit time
    -- succeeds and its difference of differences IsLossy (even, from -524287 to -4096), a
    -- decompressor in the state of the compressor before reads back that time plus one, modulo
    -- 2^64.
    pub time_read-append_lossy :
        IsLossy (delta c t)
        → (r : DeltaDeCompressor) × (time_read checks
              (record { prev_delta = c.prev_delta; prev_time = c.prev_time })
              (set_pos b.pos b')
            ≡ some (add64 t 1, r, b'))
    time_read-append_lossy lossy = (
      record { prev_delta = delta c t + 1; prev_time = add64 t 1 },
      read_shifted 1 (omega arith) (decoded_lossy (delta c t) lossy),
    )

pub append_room :
    (t : ℕ) (c : DeltaCompressor) (b : ByteBuffer)
    → IsBuffer b
    → c.is_first ≡ false
    → length (encoding (delta c t)) ≤ b.pos
    → append t c b ≡ some (true, state_after c t, put (encoding (delta c t)) b)
append_room t c b valid later room = rw (append-encoding t c b valid later) (ground arith)

pub length-encoding : (d : ℕ) → length (encoding d) ≤ 9
unfolding encoding
length-encoding d = ground (
  arith,
  length-bytes 1 (128 + d % 64),
  length-bytes 2 (0xc000 + d % 8192),
  length-bytes 3 (0xe0_0000 + d % 2 ^ 20),
  length-append {0} (bytes 1 0) (bytes 8 d),
  length-bytes 1 0,
  length-bytes 8 d,
)
