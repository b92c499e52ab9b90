-- ===== src/Compression/Facade/Stream.antt =====
-- One measurement behind the first, as the bytes that the writer puts and the reader takes.
use memseries.Base.{ℕ, ◌≤◌, ◌≡◌, arith, ap, ap₂, sym, ◌∙◌, refl, subst, IsU64}
use memseries.Base.{Bool, true, false, not, ◌||◌, if◌then◌else◌, Option, some, bind_some, sub64}
use memseries.Base.{◌>>=◌, List, ◌++◌, length, length-append}
use memseries.Meas.{Meas, IsMeas}
use memseries.Compression.Buffer.{ByteBuffer}
use memseries.Compression.Buffer.Stream.{put, IsBuffer, put-append, put-IsBuffer, put_pos}
use memseries.Compression.Delta
use memseries.Compression.Delta.{DeltaCompressor}
use memseries.Compression.Delta.Encoding
use memseries.Compression.Delta.RoundTrip as DeltaTrip
use memseries.Compression.Delta.RoundTrip.{delta, IsLossy}
use memseries.Compression.Xor
use memseries.Compression.Xor.{XorCompressor}
use memseries.Compression.Xor.Decoding.{SpansWord, value_encoding}
use memseries.Compression.Xor.RoundTrip as XorTrip
use memseries.Compression.Flag
use memseries.Compression.Flag.{FlagCompressor, FlagDeCompressor, new_compressor as new_flag}
use memseries.Compression.Flag.RoundTrip as FlagTrip
use memseries.Compression.Flag.RoundTrip.{flag_encoding}
use memseries.Compression.Facade.{CompressedWriter, append}

-- What both sides remember of the measurement before.
pub record Last : Type 0 where
  pub time : ℕ
  pub delta : ℕ
  pub value : ℕ

pub record IsLast (l : Last) : Type 0 where
  pub time_fits : IsU64 l.time
  pub delta_fits : IsU64 l.delta
  pub value_fits : IsU64 l.value

abbrev pub step : Last → ℕ → ℕ
step l t = sub64 (sub64 t l.time) l.delta

abbrev pub after : Last → Meas → Last
after l m = record { time = m.time; delta = step l m.time; value = m.value }

-- The measurement can be stored without loss after `l`.
pub record IsExact (l : Last) (m : Meas) : Type 0 where
  pub is_meas : IsMeas m
  pub exact_time : ¬ (IsLossy (step l m.time))
  pub exact_value : ¬ (SpansWord l.value m.value)

unfoldable pub step_bytes : Last → Meas → List ℕ
step_bytes l m =
    Encoding.encoding (step l m.time) ++ (value_encoding l.value m.value ++ flag_encoding m.flag)

abbrev pub last_of : CompressedWriter → Last
last_of w = record {
  time = w.time_comp.prev_time;
  delta = w.time_comp.prev_delta;
  value = w.value_comp.prev_value;
}

-- A writer behind its first measurement.
pub record IsStarted (w : CompressedWriter) : Type 0 where
  pub writer : w.is_first ≡ false
  pub time : w.time_comp.is_first ≡ false
  pub value : w.value_comp.is_first ≡ false
  pub flag : w.flag_comp.is_first ≡ false
  pub buffer : IsBuffer w.bb
  pub last : IsLast (last_of w)

pub after-IsLast : (l : Last) (m : Meas) → IsMeas m → IsLast (after l m)
after-IsLast l m h = omega arith

some-injective_pair {ℓ} :
    {A : Type ℓ} {a b : A} → ◌≡◌ {A = Option (Bool × A)} (some (true, a)) (some (true, b)) → a ≡ b
some-injective_pair h = cc

-- `append` from its second and its third call on.
module _ (checks : Bool) (m : Meas) (w : CompressedWriter) where
  abbrev pub with_all :
      Bool
      → DeltaCompressor
      → Bool
      → XorCompressor
      → Bool × FlagCompressor × ByteBuffer
      → Option (Bool × CompressedWriter)
  with_all t_f tc f_f vc (v_f, fc, b₃) =
      let w₀ = if w.is_first then record w { first = m; is_first = false } else w in
      let w₁ = record w₀ { bb = b₃; time_comp = tc; value_comp = vc; flag_comp = fc } in
      some (
        if not t_f || not f_f || not v_f then (false, record w₁ { is_full = true }) else (true, w₁))

  abbrev pub with_value :
      Bool → DeltaCompressor → Bool × XorCompressor × ByteBuffer → Option (Bool × CompressedWriter)
  with_value t_f tc (f_f, vc, b₂) =
      Flag.append m.flag w.flag_comp b₂ >>= λ x. with_all t_f tc f_f vc x

  abbrev pub with_time : Bool × DeltaCompressor × ByteBuffer → Option (Bool × CompressedWriter)
  with_time (t_f, tc, b₁) = Xor.append checks m.value w.value_comp b₁ >>= λ x. with_value t_f tc x

  -- The calls that an `append` is made of.
  pub append_parts :
      {done : Bool} {w' : CompressedWriter}
      → append checks m w ≡ some (done, w')
      → (x : Bool × DeltaCompressor × ByteBuffer) × (y : Bool × XorCompressor × ByteBuffer)
        × (z : Bool × FlagCompressor × ByteBuffer) × (Delta.append m.time w.time_comp w.bb ≡ some x)
        × (Xor.append checks m.value w.value_comp x.2 ≡ some y)
        × (Flag.append m.flag w.flag_comp y.2 ≡ some z)
        × (with_all x.0 x.1 y.0 y.1 z ≡ some (done, w'))
  unfolding append
  append_parts h =
      let (x, e, h₁) = bind_some (Delta.append m.time w.time_comp w.bb) with_time h in
      let (y, f, h₂) =
        bind_some (Xor.append checks m.value w.value_comp x.2) (with_value x.0 x.1) h₁ in
      let (z, g, h₃) =
        bind_some (Flag.append m.flag w.flag_comp y.2) (with_all x.0 x.1 y.0 y.1) h₂ in
      (x, y, z, e, f, g, h₃)

  -- A success of the whole is one of each.
  all_done :
      (t_f f_f v_f : Bool) (tc : DeltaCompressor) (vc : XorCompressor) (fc : FlagCompressor)
      (b : ByteBuffer) (w' : CompressedWriter)
      → w.is_first ≡ false
      → with_all t_f tc f_f vc (v_f, fc, b) ≡ some (true, w')
      → (t_f ≡ true)
        × (f_f ≡ true)
        × (v_f ≡ true)
        × (record w { bb = b; is_first = false; time_comp = tc; value_comp = vc; flag_comp = fc }
            ≡ w')
  all_done true true true tc vc fc b w' later h =
      (refl, refl, refl, some-injective_pair (rw later at h))
  all_done true true false tc vc fc b w' later h = cc
  all_done true false v_f tc vc fc b w' later h = cc
  all_done false f_f v_f tc vc fc b w' later h = cc

-- Three calls that succeed put the bytes of the measurement, and remember it.
module _ (checks : Bool) (m : Meas) (w : CompressedWriter) (started : IsStarted w)
    (exact : IsExact (last_of w) m) where
  abbrev t_bytes : List ℕ
  t_bytes = Encoding.encoding (step (last_of w) m.time)

  abbrev v_bytes : List ℕ
  v_bytes = value_encoding w.value_comp.prev_value m.value

  abbrev f_bytes : List ℕ
  f_bytes = flag_encoding m.flag

  abbrev Outcome : CompressedWriter → Type 0
  Outcome w' =
      (length (step_bytes (last_of w) m) ≤ w.bb.pos)
      × (put (step_bytes (last_of w) m) w.bb ≡ w'.bb)
      × (last_of w' ≡ after (last_of w) m)
      × IsStarted w'

  chain :
      (tc : DeltaCompressor) (vc : XorCompressor) (fc : FlagCompressor) (b₁ b₂ b₃ : ByteBuffer)
      → Delta.append m.time w.time_comp w.bb ≡ some (true, tc, b₁)
      → Xor.append checks m.value w.value_comp b₁ ≡ some (true, vc, b₂)
      → Flag.append m.flag w.flag_comp b₂ ≡ some (true, fc, b₃)
      → Outcome
          (record w { bb = b₃; is_first = false; time_comp = tc; value_comp = vc; flag_comp = fc })
  unfolding step_bytes
  chain tc vc fc b₁ b₂ b₃ e f g =
      let (room₁, t_state, t_put) =
        DeltaTrip.append_done m.time w.time_comp w.bb started.buffer started.time e in
      let valid₁ : IsBuffer b₁ = rw t_put at (put-IsBuffer t_bytes w.bb started.buffer) in
      let (room₂, v_state, v_put) =
        XorTrip.append_done checks m.value w.value_comp b₁ valid₁ started.value
          started.last.value_fits exact.is_meas.value_fits exact.exact_value f in
      let valid₂ : IsBuffer b₂ = rw v_put at (put-IsBuffer v_bytes b₁ valid₁) in
      let (room₃, f_state, f_put) =
        FlagTrip.append_done m.flag w.flag_comp exact.is_meas.flag_fits b₂ valid₂ started.flag g in
      let valid₃ : IsBuffer b₃ = rw f_put at (put-IsBuffer f_bytes b₂ valid₂) in
      let kept : last_of (record w {
        bb = b₃;
        is_first = false;
        time_comp = tc;
        value_comp = vc;
        flag_comp = fc;
      })
          ≡ after (last_of w) m =
        ap₂
          (λ (x : DeltaCompressor) (y : XorCompressor). record {
            time = x.prev_time;
            delta = x.prev_delta;
            value = y.prev_value;
          })
          (sym t_state) (sym v_state) in
      (
        omega (
          arith,
          length-append {0} t_bytes (v_bytes ++ f_bytes),
          length-append {0} v_bytes f_bytes,
          put_pos t_bytes w.bb b₁ t_put,
          put_pos v_bytes b₁ b₂ v_put,
        ),
        put-append t_bytes (v_bytes ++ f_bytes) w.bb
            ∙ put-append v_bytes f_bytes (put t_bytes w.bb)
            ∙ ap (λ b. put f_bytes (put v_bytes b)) t_put
            ∙ ap (put f_bytes) v_put
            ∙ f_put,
        kept,
        record {
          writer = refl;
          time = ap (λ (x : DeltaCompressor). x.is_first) (sym t_state) ∙ started.time;
          value = ap (λ (x : XorCompressor). x.is_first) (sym v_state) ∙ started.value;
          flag = ap (λ (x : FlagCompressor). x.is_first) (sym f_state) ∙ started.flag;
          buffer = valid₃;
          last = rw (← kept) at (after-IsLast (last_of w) m exact.is_meas);
        },
      )

  -- A measurement that was appended stands in the buffer as its bytes, and is the last one.
  pub append_lem : (w' : CompressedWriter) → append checks m w ≡ some (true, w') → Outcome w'
  append_lem w' appended =
      let ((t_f, tc, b₁), (f_f, vc, b₂), (v_f, fc, b₃), e, f, g, h) =
        append_parts checks m w appended in
      let (et, ef, ev, whole) = all_done checks m w t_f f_f v_f tc vc fc b₃ w' started.writer h in
      subst Outcome whole (
        chain tc vc fc b₁ b₂ b₃ (e ∙ ap (λ t. some (t, tc, b₁)) et)
          (f ∙ ap (λ t. some (t, vc, b₂)) ef) (g ∙ ap (λ t. some (t, fc, b₃)) ev))
