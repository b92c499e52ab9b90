-- ===== src/Compression/Xor/RoundTrip.antt =====
-- Appending a value, and reading it back.
use memseries.Base.{ℕ, ◌≤◌, ◌<◌, ◌≡◌, arith, ap, sym, ◌∙◌, IsU64, bit_xor}
use memseries.Base.{Bool, Bool-cases, true, false, ltb, leb, ◌||◌, ◌==◌, ==_iff, if◌then◌else◌}
use memseries.Base.{List, [], ◌∷◌, length, none, some, inl, inr}
use memseries.Base.Bits.{bit_xor-lt, bit_xor-eq-zero}
use memseries.Compression.Xor.{XorCompressor, append, value_read}
use memseries.Compression.Xor.Counts.{count_of_bytes_nine_iff}
use memseries.Compression.Xor.Encoding.{
  encoding, length-encoding, write_xor-encoding, write_xor_past, write_one,
}
use memseries.Compression.Xor.Decoding.{value_encoding, SpansWord, count_small, value_read-encoding}
use memseries.Compression.Outcome.{had_room}
use memseries.Compression.Buffer.{ByteBuffer, set_pos}
use memseries.Compression.Buffer.Stream.{
  put, IsBuffer, rewound_Ahead, rewound_skip, rewound_IsBuffer,
}

-- `append` after the first value: the encoding goes to the buffer, or nothing at all.
module _ (checks : Bool) (f : ℕ) (c : XorCompressor) (b : ByteBuffer) (valid : IsBuffer b)
    (later : c.is_first ≡ false) (hp : IsU64 c.prev_value) (hf : IsU64 f) where
  append_equal :
      bit_xor c.prev_value f ≡ 0
      → append checks f c b
        ≡ some (
            if ltb b.pos 1
            then (false, c, b)
            else (true, record c { prev_value = f }, put (0 ∷ []) b))
  unfolding append
  append_equal same = ground (arith, write_one 0 b valid, bit_xor-eq-zero c.prev_value f same)

  append_different :
      0 < bit_xor c.prev_value f
      → ¬ (SpansWord c.prev_value f)
      → append checks f c b
        ≡ some (
            if ltb b.pos (length (encoding (bit_xor c.prev_value f)))
            then (false, c, b)
            else (true, record c { prev_value = f }, put (encoding (bit_xor c.prev_value f)) b))
  unfolding append
  append_different pos narrow = ground (
    arith,
    write_xor-encoding checks (bit_xor c.prev_value f) b pos (bit_xor-lt 64 c.prev_value f hp hf)
        valid (count_small checks c.prev_value f hp hf narrow pos),
  )

  -- On a valid buffer and a compressor behind its first value, the append of a 64-bit value that
  -- does not differ from the previous one in both the highest and the lowest bits puts its
  -- encoding and remembers it if there is room, and otherwise reports failure with buffer and
  -- state unchanged.
  pub append-encoding :
      ¬ (SpansWord c.prev_value f)
      → append checks f c b
        ≡ some (
            if ltb b.pos (length (value_encoding c.prev_value f))
            then (false, c, b)
            else (true, record c { prev_value = f }, put (value_encoding c.prev_value f) b))
  unfolding value_encoding
  append-encoding narrow = elim (Bool-cases (bit_xor c.prev_value f == 0)) [
    | inl same ↦ rw same (append_equal ((==_iff _ 0).0 same))
    | inr other ↦ rw other (append_different (ground arith) narrow)
  ]

  -- On a valid buffer and a compressor behind its first value, the append of a 64-bit value that
  -- differs from the previous one in both the highest and the lowest bits faults if the checks
  -- are on or there is room for 11 bytes, and otherwise reports that it is full and changes
  -- nothing.
  pub append_spanning :
      SpansWord c.prev_value f
      → append checks f c b ≡ (if checks || leb 11 b.pos then none else some (false, c, b))
  unfolding append
  append_spanning wide = ground (
    arith,
    Bool-cases checks,
    write_xor_past checks (bit_xor c.prev_value f) b (omega arith)
        (bit_xor-lt 64 c.prev_value f hp hf) valid
        ((count_of_bytes_nine_iff (bit_xor c.prev_value f) (omega arith)
            (bit_xor-lt 64 c.prev_value f hp hf)).1
          wide),
  )

  pub append_done :
      {c' : XorCompressor} {b' : ByteBuffer}
      → ¬ (SpansWord c.prev_value f)
      → append checks f c b ≡ some (true, c', b')
      → (length (value_encoding c.prev_value f) ≤ b.pos)
        × (record c { prev_value = f } ≡ c')
        × (put (value_encoding c.prev_value f) b ≡ b')
  append_done {c'} {b'} narrow h =
      let xs : List ℕ = value_encoding c.prev_value f in
      let (fits, state, buffer) =
        had_room (ltb b.pos (length xs)) c (record c { prev_value = f }) c' b (put xs b) b'
          (sym (append-encoding narrow) ∙ h) in
      (ground arith, state, buffer)

  pub append_room :
      ¬ (SpansWord c.prev_value f)
      → length (value_encoding c.prev_value f) ≤ b.pos
      → append checks f c b
        ≡ some (true, record c { prev_value = f }, put (value_encoding c.prev_value f) b)
  append_room narrow room = rw (append-encoding narrow) (ground arith)

  pub length-value_encoding :
      ¬ (SpansWord c.prev_value f) → length (value_encoding c.prev_value f) ≤ 10
  unfolding value_encoding
  length-value_encoding narrow = ground (
    arith,
    length-encoding checks (bit_xor c.prev_value f) b,
    bit_xor-lt 64 c.prev_value f hp hf,
    count_small checks c.prev_value f hp hf narrow,
  )

  -- On a valid buffer and a compressor behind its first value, if the append of a 64-bit value
  -- succeeds and does not differ from the previous one in both the highest and the lowest bits, a
  -- decompressor in the state of the compressor before reads it back from where the append began,
  -- ends at the buffer that the append left, and both sides hold that value.
  pub value_read-append :
      {c' : XorCompressor} {b' : ByteBuffer}
      → ¬ (SpansWord c.prev_value f)
      → append checks f c b ≡ some (true, c', b')
      → (value_read checks (record { prev_value = c.prev_value }) (set_pos b.pos b')
          ≡ some (f, record { prev_value = c'.prev_value }, b'))
        × (c'.prev_value ≡ f)
  value_read-append {c'} {b'} narrow h =
      let xs : List ℕ = value_encoding c.prev_value f in
      let (room, state, buffer) = append_done narrow h in
      let known : f ≡ c'.prev_value = ap (λ (s : XorCompressor). s.prev_value) state in
      (
        rw (← buffer, ← known)
            (value_read-encoding checks c.prev_value f hp hf narrow [] (set_pos b.pos (put xs b))
                (rewound_IsBuffer xs b valid room) (rewound_Ahead xs b valid room)
              ∙ ap (λ t. some (f, record { prev_value = f }, t)) (rewound_skip xs b valid room)),
        sym known,
      )
