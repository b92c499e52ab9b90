-- ===== src/Compression/Facade/Reading.antt =====
-- One measurement, as the reader takes it back.
use memseries.Base.{ℕ, ◌+◌, ◌≡◌, arith, ap, ◌∙◌}
use memseries.Base.{Bool, false, some}
use memseries.Base.{List, ◌++◌, length, length-append}
use memseries.Meas.{Meas}
use memseries.Compression.Buffer.{ByteBuffer}
use memseries.Compression.Buffer.Stream.{
  skip, skip-skip, skip-IsBuffer, skip-Ahead_all, Ahead, IsBuffer,
}
use memseries.Compression.Delta.{DeltaCompressor}
use memseries.Compression.Delta.Encoding
use memseries.Compression.Delta.RoundTrip as DeltaTrip
use memseries.Compression.Delta.RoundTrip.{delta, IsLossy}
use memseries.Compression.Xor.Decoding.{value_encoding, value_read-encoding}
use memseries.Compression.Flag.{FlagDeCompressor, new_compressor as new_flag}
use mathlib.Core.List.{append_assoc}
use memseries.Compression.Flag.RoundTrip as FlagTrip
use memseries.Compression.Flag.RoundTrip.{flag_encoding}
use memseries.Compression.Facade.{CompressedReader, read}
use memseries.Compression.Facade.Stream.{Last, IsLast, after, step, IsExact, step_bytes}

-- A reader that remembers `l` and keeps the id of `first`.
abbrev pub reader : ByteBuffer → Meas → Last → FlagDeCompressor → CompressedReader
reader b first l fd = record {
  bw = b;
  first = first;
  time_dcomp = record { prev_delta = l.delta; prev_time = l.time };
  value_dcomp = record { prev_value = l.value };
  flag_dcomp = fd;
}

-- The bytes of a measurement are read as the measurement, with the id of the first one.
pub read_lem :
    (checks : Bool) (l : Last) (m first : Meas) (fd : FlagDeCompressor) (rest : List ℕ)
    (b : ByteBuffer)
    → IsBuffer b
    → IsLast l
    → IsExact l m
    → Ahead b (step_bytes l m ++ rest)
    → read checks (reader b first l fd)
      ≡ some (
        record m { id = first.id },
        reader (skip (length (step_bytes l m)) b) first (after l m) fd,
      )
unfolding read step_bytes
read_lem checks l m first fd rest b valid known exact ahead =
    let t_bytes : List ℕ = Encoding.encoding (step l m.time) in
    let v_bytes : List ℕ = value_encoding l.value m.value in
    let f_bytes : List ℕ = flag_encoding m.flag in
    let c : DeltaCompressor = record {
      is_first = false;
      first = 0;
      prev_delta = l.delta;
      prev_time = l.time;
    } in
    let b₁ : ByteBuffer = skip (length t_bytes) b in
    let b₂ : ByteBuffer = skip (length v_bytes) b₁ in
    let ahead₀ : Ahead b (t_bytes ++ (v_bytes ++ (f_bytes ++ rest))) = simp append_assoc at ahead in
    let ahead₁ = skip-Ahead_all t_bytes (v_bytes ++ (f_bytes ++ rest)) b ahead₀ in
    let ahead₂ = skip-Ahead_all v_bytes (f_bytes ++ rest) b₁ ahead₁ in
    let valid₁ : IsBuffer b₁ = skip-IsBuffer (length t_bytes) b valid in
    let valid₂ : IsBuffer b₂ = skip-IsBuffer (length v_bytes) b₁ valid₁ in
    rw
      (
        DeltaTrip.time_read_exact checks m.time c exact.is_meas.time_fits known.time_fits
            known.delta_fits (v_bytes ++ (f_bytes ++ rest)) b valid exact.exact_time ahead₀,
        value_read-encoding checks l.value m.value known.value_fits exact.is_meas.value_fits
            exact.exact_value (f_bytes ++ rest) b₁ valid₁ ahead₁,
        FlagTrip.flag_read_exact m.flag new_flag exact.is_meas.flag_fits fd rest b₂ valid₂ ahead₂,
      )
      (ap (λ b'. some (record m { id = first.id }, reader b' first (after l m) fd)) whole_skip)
  where
    n : ℕ
    n = length (Encoding.encoding (step l m.time))

    k : ℕ
    k = length (value_encoding l.value m.value)

    j : ℕ
    j = length (flag_encoding m.flag)

    whole_skip : skip j (skip k (skip n b)) ≡ skip (length (step_bytes l m)) b
    whole_skip =
        ap (skip j) (skip-skip n k b)
        ∙ skip-skip (n + k) j b
        ∙ ap (λ (i : ℕ). skip i b)
            (omega (
              arith,
              length-append {0} (Encoding.encoding (step l m.time))
                  (value_encoding l.value m.value ++ flag_encoding m.flag),
              length-append {0} (value_encoding l.value m.value) (flag_encoding m.flag),
            ))
