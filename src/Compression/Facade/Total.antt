-- ===== src/Compression/Facade/Total.antt =====
-- compression/compression.cpp: an append of a measurement that can be stored always returns.
use memseries.Base.{ℕ, ◌≡◌, refl, ap, ◌∙◌, Bool, true, false, not, ◌||◌, ltb, leb, if◌then◌else◌}
use memseries.Base.{some, List, length, take}
use memseries.Meas.{Meas}
use memseries.Compression.Buffer.{ByteBuffer}
use memseries.Compression.Buffer.Stream.{IsBuffer, put, put-IsBuffer}
use memseries.Compression.Delta
use memseries.Compression.Delta.{DeltaCompressor}
use memseries.Compression.Delta.Encoding
use memseries.Compression.Delta.RoundTrip as DeltaTrip
use memseries.Compression.Delta.RoundTrip.{delta, state_after}
use memseries.Compression.Xor
use memseries.Compression.Xor.{XorCompressor}
use memseries.Compression.Xor.Decoding.{value_encoding}
use memseries.Compression.Xor.RoundTrip as XorTrip
use memseries.Compression.Flag.RoundTrip as FlagTrip
use memseries.Compression.Flag.RoundTrip.{flag_encoding}
use memseries.Compression.Facade.{CompressedWriter, append}
use memseries.Compression.Facade.Stream.{IsStarted, IsExact, last_of}

-- A call that puts a piece or nothing leaves a valid buffer.
either_way {ℓ} :
    {S : Type ℓ} (full : Bool) (s₀ s : S) (xs : List ℕ) (b : ByteBuffer)
    → IsBuffer b
    → (r : Bool × S × ByteBuffer) × ((if full then (false, s₀, b) else (true, s, put xs b)) ≡ r)
      × IsBuffer r.2
either_way true s₀ s xs b valid = ((false, s₀, b), refl, valid)
either_way false s₀ s xs b valid = ((true, s, put xs b), refl, put-IsBuffer xs b valid)

module _ (checks : Bool) (m : Meas) (w : CompressedWriter) (started : IsStarted w)
    (exact : IsExact (last_of w) m) where
  time_total :
      (r : Bool × DeltaCompressor × ByteBuffer) × (Delta.append m.time w.time_comp w.bb ≡ some r)
      × IsBuffer r.2
  time_total =
      let xs : List ℕ = Encoding.encoding (delta w.time_comp m.time) in
      let (r, same, valid) =
        either_way (ltb w.bb.pos (length xs)) w.time_comp (state_after w.time_comp m.time) xs w.bb
          started.buffer in
      (
        r,
        DeltaTrip.append-encoding m.time w.time_comp w.bb started.buffer started.time
            ∙ ap some same,
        valid,
      )

  value_total :
      (b : ByteBuffer)
      → IsBuffer b
      → (r : Bool × XorCompressor × ByteBuffer) × (Xor.append checks m.value w.value_comp b
          ≡ some r)
        × IsBuffer r.2
  value_total b valid =
      let xs : List ℕ = value_encoding w.value_comp.prev_value m.value in
      let (r, same, valid') =
        either_way (ltb b.pos (length xs)) w.value_comp
          (record w.value_comp { prev_value = m.value }) xs b valid in
      (
        r,
        XorTrip.append-encoding checks m.value w.value_comp b valid started.value
              started.last.value_fits exact.is_meas.value_fits exact.exact_value
            ∙ ap some same,
        valid',
      )

  concluded :
      (b : Bool) (w₁ : CompressedWriter)
      → (r : Bool × CompressedWriter) × ((if b
            then (false, record w₁ { is_full = true })
            else (true, w₁))
          ≡ r)
        × (r.0 ≡ false → r.1.is_full ≡ true)
  concluded true w₁ = ((false, record w₁ { is_full = true }), refl, (λ e. refl))
  concluded false w₁ = ((true, w₁), refl, (λ e. cc))

  pub append_total :
      (r : Bool × CompressedWriter) × (append checks m w ≡ some r)
      × (r.0 ≡ false → r.1.is_full ≡ true)
  unfolding append
  append_total =
      let ((t_f, tc, b₁), e₁, valid₁) = time_total in
      let ((f_f, vc, b₂), e₂, valid₂) = value_total b₁ valid₁ in
      let e₃ =
        FlagTrip.append-groups m.flag w.flag_comp exact.is_meas.flag_fits b₂ valid₂ started.flag in
      let v_f = leb (length (flag_encoding m.flag)) b₂.pos in
      let w₀ : CompressedWriter =
        if w.is_first then record w { first = m; is_first = false } else w in
      let (r, same, full) = concluded (not t_f || not f_f || not v_f) (record w₀ {
        bb = put (take b₂.pos (flag_encoding m.flag)) b₂;
        time_comp = tc;
        value_comp = vc;
        flag_comp = w.flag_comp;
      }) in
      (r, rw (e₁, e₂, e₃) (ap some same), full)
