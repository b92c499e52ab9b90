-- ===== src/Compression/Facade/Room.antt =====
-- The room that an append of the facade needs.
use memseries.Base.{ℕ, ◌*◌, ◌^◌, ◌≤◌, ◌<◌, ◌≡◌, arith, sym, subst, ◌∙◌, refl}
use memseries.Base.{Bool, true, false, some, List, [], ◌∷◌, ◌++◌, length, length-append, map}
use memseries.Meas.{Meas, IsMeas}
use memseries.Compression.Buffer.{ByteBuffer, create}
use memseries.Compression.Buffer.Stream.{put, put_pos, put-IsBuffer}
use memseries.Compression.Delta.Encoding
use memseries.Compression.Delta.RoundTrip as DeltaTrip
use memseries.Compression.Xor.Decoding.{value_encoding}
use memseries.Compression.Xor.RoundTrip as XorTrip
use memseries.Compression.Flag.RoundTrip as FlagTrip
use memseries.Compression.Flag.RoundTrip.{flag_encoding}
use memseries.Compression.Facade.{CompressedWriter, append, new_writer, new_reader}
use memseries.Compression.Facade.Stream.{IsExact, step, step_bytes, last_of, IsStarted, append_lem}
use memseries.Compression.Facade.Series.{
  append_all, append_all-cons, read_all, AreExact, start, started_writer, started_writer-IsStarted,
  append_first, create-IsBuffer, with_id, read_all-append_all,
}

module _ (checks : Bool) (m : Meas) (w : CompressedWriter) (started : IsStarted w)
    (exact : IsExact (last_of w) m) where
  length-step_bytes : length (step_bytes (last_of w) m) ≤ 24
  unfolding step_bytes
  length-step_bytes = omega (
    arith,
    length-append {0} (Encoding.encoding (step (last_of w) m.time))
        (value_encoding w.value_comp.prev_value m.value ++ flag_encoding m.flag),
    length-append {0} (value_encoding w.value_comp.prev_value m.value) (flag_encoding m.flag),
    DeltaTrip.length-encoding (step (last_of w) m.time),
    XorTrip.length-value_encoding checks m.value w.value_comp w.bb started.buffer started.value
        started.last.value_fits exact.is_meas.value_fits exact.exact_value,
    FlagTrip.length-flag_encoding m.flag,
  )

  append_room :
      length (step_bytes (last_of w) m) ≤ w.bb.pos
      → (w' : CompressedWriter) × (append checks m w ≡ some (true, w'))
  unfolding append step_bytes
  append_room room =
      let t_bytes : List ℕ = Encoding.encoding (step (last_of w) m.time) in
      let v_bytes : List ℕ = value_encoding w.value_comp.prev_value m.value in
      let f_bytes : List ℕ = flag_encoding m.flag in
      let b₁ : ByteBuffer = put t_bytes w.bb in
      let b₂ : ByteBuffer = put v_bytes b₁ in
      let sizes = length-append {0} t_bytes (v_bytes ++ f_bytes) in
      let sizes' = length-append {0} v_bytes f_bytes in
      let pos₁ = put_pos t_bytes w.bb b₁ refl in
      let pos₂ = put_pos v_bytes b₁ b₂ refl in
      let valid₁ = put-IsBuffer t_bytes w.bb started.buffer in
      let valid₂ = put-IsBuffer v_bytes b₁ valid₁ in
      (
        record w {
          bb = put f_bytes b₂;
          is_first = false;
          time_comp = DeltaTrip.state_after w.time_comp m.time;
          value_comp = record w.value_comp { prev_value = m.value };
        },
        rw
            (
              DeltaTrip.append_room m.time w.time_comp w.bb started.buffer started.time
                  (omega arith),
              XorTrip.append_room checks m.value w.value_comp b₁ valid₁ started.value
                  started.last.value_fits exact.is_meas.value_fits exact.exact_value (omega arith),
              FlagTrip.append_room m.flag w.flag_comp exact.is_meas.flag_fits b₂ valid₂ started.flag
                  (omega arith),
              started.writer,
            )
            refl,
      )

append_all_room :
    (checks : Bool) (ms : List Meas) (w : CompressedWriter)
    → IsStarted w
    → AreExact (last_of w) ms
    → 24 * length ms ≤ w.bb.pos
    → (w' : CompressedWriter) × (append_all checks ms w ≡ some w')
unfolding append_all
append_all_room checks [] w started exact room = (w, refl)
append_all_room checks (m ∷ ms) w started (here, later) room =
    let size = length-step_bytes checks m w started here in
    let (w₁, e) = append_room checks m w started here (omega arith) in
    let (fits, put_one, kept, started₁) = append_lem checks m w started here w₁ e in
    let (w', rest) =
      append_all_room checks ms w₁ started₁ (subst (λ l. AreExact l ms) (sym kept) later)
        (omega (arith, put_pos (step_bytes (last_of w) m) w.bb w₁.bb put_one)) in
    (w', rw e rest)

-- A first measurement and any list of further ones that AreExact (each fits its types, no time
-- difference IsLossy, no two neighbouring values differ in both their highest and lowest bits),
-- in a fresh buffer of fewer than 2^32 bytes with more than 24 bytes for each further
-- measurement: every append succeeds, and a reader on the same memory returns the further
-- measurements in order, each with the id of the first.
pub series_roundtrip :
    (checks : Bool) (mem : List ℕ) (first : Meas) (ms : List Meas)
    → 24 * length ms < length mem
    → length mem < 2 ^ 32
    → IsMeas first
    → AreExact (start first) ms
    → (w : CompressedWriter) × (append_all checks (first ∷ ms) (new_writer (create mem)) ≡ some w)
      × (read_all checks (length ms) (new_reader (create w.bb.mem) first)
          ≡ some (map (with_id first.id) ms))
series_roundtrip checks mem first ms room fits h exact =
    let b : ByteBuffer = create mem in
    let valid = create-IsBuffer mem (omega arith) fits in
    let (w, rest) =
      append_all_room checks ms (started_writer checks first b valid h)
        (started_writer-IsStarted checks first b valid h) exact (unfold create in omega arith) in
    let written : append_all checks (first ∷ ms) (new_writer b) ≡ some w =
      append_all-cons checks first ms (new_writer b) _ (append_first checks first b valid h)
      ∙ rest in
    (w, written, read_all-append_all checks mem first ms w (omega arith) fits h exact written)
