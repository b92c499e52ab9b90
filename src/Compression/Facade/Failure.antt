-- ===== src/Compression/Facade/Failure.antt =====
-- An `append` of the facade that may fail half way, and what is read after it.
use memseries.Base.{ℕ, ◌^◌, ◌%◌, ◌≤◌, ◌<◌, ◌≡◌, arith, ap, sym, ◌∙◌, refl, subst}
use memseries.Base.{
  Bool, Bool-cases, true, false, not, ◌||◌, ◌&&◌, leb, ltb, ◌==◌, if◌then◌else◌, Option, none, some,
  inl, inr,
}
use memseries.Base.{List, [], ◌∷◌, ◌++◌, length, length-append, length-take, take, bit_xor}
use memseries.Meas.{Meas, IsMeas}
use memseries.Compression.Buffer.{ByteBuffer, create, set_pos}
use memseries.Compression.Buffer.Stream.{
  rewound_Ahead, rewound_IsBuffer, Ahead, put, put_nil, put-append, put_pos, put-IsBuffer, IsBuffer,
}
use memseries.Compression.Delta
use memseries.Compression.Delta.{DeltaCompressor}
use memseries.Compression.Delta.Encoding
use memseries.Compression.Delta.RoundTrip as DeltaTrip
use memseries.Compression.Delta.RoundTrip.{delta, state_after}
use memseries.Compression.Xor
use memseries.Compression.Xor.{XorCompressor}
use memseries.Compression.Xor.Decoding.{value_encoding}
use memseries.Compression.Xor.RoundTrip as XorTrip
use memseries.Compression.Flag
use memseries.Compression.Flag.{FlagCompressor}
use memseries.Compression.Flag.RoundTrip as FlagTrip
use memseries.Compression.Flag.RoundTrip.{flag_encoding}
use memseries.Compression.Facade.{CompressedWriter, append, new_writer, new_reader}
use memseries.Compression.Facade.Series.{
  append_all, append_all-cons, append_all-series_bytes, read_all, read_all-series_bytes, AreExact,
  start, with_id, series_bytes, rewound, started_writer, started_writer-IsStarted, append_first,
  create-IsBuffer,
}
use mathlib.Core.List.{append_assoc}
use memseries.Base.{map}
use memseries.Compression.Facade.Stream.{IsStarted, append_parts, with_all}

-- The second buffer is the first one with more bytes put.
abbrev pub Extends : ByteBuffer → ByteBuffer → Type 0
Extends b b' = (xs : List ℕ) × (length xs ≤ b.pos) × (put xs b ≡ b')

Extends-refl : (b b' : ByteBuffer) → b ≡ b' → Extends b b'
Extends-refl b b' e = ([], omega arith, put_nil b ∙ e)

Extends-trans : (a b c : ByteBuffer) → Extends a b → Extends b c → Extends a c
Extends-trans a b c (xs, room, e) (ys, more, f) = (
  xs ++ ys,
  omega (arith, length-append {0} xs ys, put_pos xs a b e),
  put-append xs ys a ∙ ap (put ys) e ∙ f,
)

Extends-IsBuffer : (a b : ByteBuffer) → IsBuffer a → Extends a b → IsBuffer b
Extends-IsBuffer a b valid (xs, room, e) = subst IsBuffer e (put-IsBuffer xs a valid)

-- The two shapes of a call: nothing, or a piece put, and a piece put in any case.
Extends-if :
    {S : Type 0} (full : Bool) (s₀ s s' : S) (xs : List ℕ) (b b' : ByteBuffer) (done : Bool)
    → (full ≡ false → length xs ≤ b.pos)
    → ◌≡◌ {A = Option (Bool × S × ByteBuffer)}
        (some (if full then (false, s₀, b) else (true, s, put xs b)))
        (some (done, s', b'))
    → Extends b b'
Extends-if true s₀ s s' xs b b' done room e = Extends-refl b b' cc
Extends-if false s₀ s s' xs b b' done room e = (xs, room refl, cc)

module _ (checks : Bool) (m : Meas) (w : CompressedWriter) (started : IsStarted w)
    (h : IsMeas m) where
  time_Extends :
      {done : Bool} {tc : DeltaCompressor} {b' : ByteBuffer}
      → Delta.append m.time w.time_comp w.bb ≡ some (done, tc, b')
      → Extends w.bb b'
  time_Extends {done} {tc} {b'} e =
      let xs : List ℕ = Encoding.encoding (delta w.time_comp m.time) in
      Extends-if (ltb w.bb.pos (length xs)) w.time_comp (state_after w.time_comp m.time) tc xs w.bb
        b' done (λ room. ground arith)
        (sym (DeltaTrip.append-encoding m.time w.time_comp w.bb started.buffer started.time) ∙ e)

  module _ (b : ByteBuffer) (valid : IsBuffer b) where
    value_Extends_spanning :
        {done : Bool} {vc : XorCompressor} {b' : ByteBuffer} (stops : Bool)
        → ◌≡◌ {A = Option (Bool × XorCompressor × ByteBuffer)}
            (if stops then none else some (false, w.value_comp, b))
            (some (done, vc, b'))
        → Extends b b'
    value_Extends_spanning true e = cc
    value_Extends_spanning {b' = b'} false e = Extends-refl b b' cc

    value_Extends :
        {done : Bool} {vc : XorCompressor} {b' : ByteBuffer}
        → Xor.append checks m.value w.value_comp b ≡ some (done, vc, b')
        → Extends b b'
    value_Extends {done} {vc} {b'} e =
        let x : ℕ = bit_xor w.value_comp.prev_value m.value in
        let xs : List ℕ = value_encoding w.value_comp.prev_value m.value in
        elim (Bool-cases (leb (2 ^ 63) x && (x % 2 == 1))) [
          | inl wide ↦ value_Extends_spanning (checks || leb 11 b.pos) (
              sym (
                XorTrip.append_spanning checks m.value w.value_comp b valid started.value
                  started.last.value_fits h.value_fits (ground arith))
              ∙ e)
          | inr narrow ↦
              Extends-if (ltb b.pos (length xs)) w.value_comp
                (record w.value_comp { prev_value = m.value }) vc xs b b' done
                (λ room. ground arith)
                (sym (
                    XorTrip.append-encoding checks m.value w.value_comp b valid started.value
                      started.last.value_fits h.value_fits (ground arith))
                  ∙ e)
        ]

    flag_Extends :
        {done : Bool} {fc : FlagCompressor} {b' : ByteBuffer}
        → Flag.append m.flag w.flag_comp b ≡ some (done, fc, b')
        → Extends b b'
    flag_Extends {b' = b'} e =
        let xs : List ℕ = take b.pos (flag_encoding m.flag) in
        let same =
          sym (FlagTrip.append-groups m.flag w.flag_comp h.flag_fits b valid started.flag) ∙ e in
        (xs, omega (arith, length-take b.pos (flag_encoding m.flag)), cc (same))

  all_buffer :
      (t_f f_f v_f : Bool) (tc : DeltaCompressor) (vc : XorCompressor) (fc : FlagCompressor)
      (b : ByteBuffer) {done : Bool} {w' : CompressedWriter}
      → with_all checks m w t_f tc f_f vc (v_f, fc, b) ≡ some (done, w')
      → b ≡ w'.bb
  all_buffer t_f f_f v_f tc vc fc b e =
      split (not t_f || not f_f || not v_f) (rw started.writer at e)
    where
      w₁ : CompressedWriter
      w₁ = record w { bb = b; is_first = false; time_comp = tc; value_comp = vc; flag_comp = fc }

      split :
          (failed : Bool) {done : Bool} {w' : CompressedWriter}
          → ◌≡◌ {A = Option (Bool × CompressedWriter)}
              (some (if failed then (false, record w₁ { is_full = true }) else (true, w₁)))
              (some (done, w'))
          → b ≡ w'.bb
      split true e = cc
      split false e = cc

  pub append-Extends :
      {done : Bool} {w' : CompressedWriter}
      → append checks m w ≡ some (done, w')
      → Extends w.bb w'.bb
  append-Extends {w' = w'} e =
      let ((t_f, tc, b₁), (f_f, vc, b₂), (v_f, fc, b₃), e₁, e₂, e₃, whole) =
        append_parts checks m w e in
      let one = time_Extends e₁ in
      let valid₁ = Extends-IsBuffer w.bb b₁ started.buffer one in
      let two = value_Extends b₁ valid₁ e₂ in
      let valid₂ = Extends-IsBuffer b₁ b₂ valid₁ two in
      let three = flag_Extends b₂ valid₂ e₃ in
      subst (Extends w.bb) (all_buffer t_f f_f v_f tc vc fc b₃ whole)
        (Extends-trans w.bb b₂ b₃ (Extends-trans w.bb b₁ b₂ one two) three)

-- A reader on a fresh memory that holds a series and then anything.
read_all-put :
    (checks : Bool) (mem : List ℕ) (first : Meas) (ms : List Meas) (ys : List ℕ)
    → 1 ≤ length mem
    → length mem < 2 ^ 32
    → IsMeas first
    → AreExact (start first) ms
    → length (series_bytes (start first) ms ++ ys) ≤ (create mem).pos
    → read_all checks
        (length ms)
        (new_reader (create (put (series_bytes (start first) ms ++ ys) (create mem)).mem) first)
      ≡ some (map (with_id first.id) ms)
read_all-put checks mem first ms ys some_room fits h exact room =
    let b : ByteBuffer = create mem in
    let s : List ℕ = series_bytes (start first) ms in
    let valid : IsBuffer b = create-IsBuffer mem some_room fits in
    let ahead : Ahead (set_pos b.pos (put (s ++ ys) b)) (s ++ (ys ++ [])) =
      rw append_assoc at (rewound_Ahead (s ++ ys) b valid room) in
    rw (rewound (s ++ ys) mem) (
      unfold new_reader in
      (read_all-series_bytes checks ms (start first) first _ (ys ++ [])
        (set_pos b.pos (put (s ++ ys) b)) (rewound_IsBuffer (s ++ ys) b valid room) (omega arith)
        exact ahead))

-- After a first measurement and further ones that AreExact were appended to a fresh buffer (of at
-- least one and fewer than 2^32 bytes), one more append of any measurement that fits its types,
-- whether it succeeds or fails half way, leaves memory from which a reader still returns the
-- further measurements.
pub read_all-append :
    (checks : Bool) (mem : List ℕ) (first : Meas) (ms : List Meas) (w w' : CompressedWriter)
    (m : Meas) (done : Bool)
    → 1 ≤ length mem
    → length mem < 2 ^ 32
    → IsMeas first
    → AreExact (start first) ms
    → IsMeas m
    → append_all checks (first ∷ ms) (new_writer (create mem)) ≡ some w
    → append checks m w ≡ some (done, w')
    → read_all checks (length ms) (new_reader (create w'.bb.mem) first)
      ≡ some (map (with_id first.id) ms)
read_all-append checks mem first ms w w' m done some_room fits h exact hm written e =
    let b : ByteBuffer = create mem in
    let valid : IsBuffer b = create-IsBuffer mem some_room fits in
    let begun = append_first checks first b valid h in
    let rest = sym (append_all-cons checks first ms (new_writer b) _ begun) ∙ written in
    let s : List ℕ = series_bytes (start first) ms in
    let (room, buffer, started) =
      append_all-series_bytes checks ms (started_writer checks first b valid h) w
        (started_writer-IsStarted checks first b valid h) exact rest in
    let (ys, more, extended) = append-Extends checks m w started hm e in
    let whole : put (s ++ ys) b ≡ w'.bb = put-append s ys b ∙ ap (put ys) buffer ∙ extended in
    subst
      (λ x.
        read_all checks (length ms) (new_reader (create x.mem) first)
        ≡ some (map (with_id first.id) ms))
      whole
      (read_all-put checks mem first ms ys some_room fits h exact
        (omega (arith, length-append {0} s ys, put_pos s b w.bb buffer)))
