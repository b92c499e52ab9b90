-- ===== src/Examples.antt =====
-- The main theorems at concrete inputs, and runs of the definitions.
mod Runs
mod Storage
mod Sorting
mod Cursors
mod Memory
mod Tracks
mod Maps
mod Pools
mod Logs
mod Pages
use memseries.Base.{
  ℕ, ◌+◌, ◌*◌, ◌^◌, ◌%◌, ◌<◌, ◌≤◌, ◌≡◌, ◌↔◌, arith, refl, Bool, true, false, IsU64,
}
use memseries.Base.{
  Option, none, some, List, [], ◌∷◌, ◌++◌, length, replicate, map, add64, neg64, ltb, leb, ◌||◌,
  if◌then◌else◌, take,
}
use memseries.Meas.{Meas, IsMeas}
use memseries.Compression.Buffer.{ByteBuffer, create, set_pos}
use memseries.Compression.Buffer.Stream.{
  put, put_nil, skip, IsBuffer, rewound_Ahead, rewound_IsBuffer, Ahead,
}
use memseries.Compression.Delta
use memseries.Compression.Delta.{
  DeltaCompressor, DeltaDeCompressor, write_delta, read_delta, time_read,
}
use memseries.Compression.Delta.Encoding
use memseries.Compression.Delta.Encoding.{write_delta-encoding}
use memseries.Compression.Delta.Decoding.{decoded, read_delta-encoding}
use memseries.Compression.Delta.RoundTrip as DeltaTrip
use memseries.Compression.Delta.RoundTrip.{IsLossy, delta, state_after}
use memseries.Compression.Xor
use memseries.Compression.Xor.{XorCompressor, value_read, count_of_bytes}
use memseries.Compression.Xor.Counts.{count_of_bytes_nine_iff}
use memseries.Compression.Xor.Decoding.{SpansWord, value_encoding}
use memseries.Compression.Xor.RoundTrip as XorTrip
use memseries.Compression.Flag
use memseries.Compression.Flag.{FlagCompressor, flag_read}
use memseries.Compression.Flag.RoundTrip as FlagTrip
use memseries.Compression.Flag.RoundTrip.{flag_encoding}
use memseries.Compression.Facade.{CompressedWriter, new_writer, new_reader}
use memseries.Compression.Facade.Series.{
  append_all, read_all, AreExact, start, with_id, read_all-append_all, create-IsBuffer,
}
use memseries.Compression.Facade.Room.{series_roundtrip}

abbrev cells : List ℕ
cells = replicate 100 0

abbrev buffer : ByteBuffer
buffer = create cells

buffer-IsBuffer : IsBuffer buffer
buffer-IsBuffer = create-IsBuffer cells (omega arith) (omega arith)

abbrev sample : ℕ → ℕ → ℕ → Meas
sample t v f = record { id = 7; time = t; value = v; flag = f }

abbrev first : Meas
first = sample 1000 12 0

abbrev later : List Meas
later = sample 1010 12 1 ∷ sample 5000 44 300 ∷ []

later-AreExact : AreExact (start first) later
later-AreExact = (
  record { is_meas = omega arith; exact_time = omega arith; exact_value = omega arith },
  (record { is_meas = omega arith; exact_time = omega arith; exact_value = omega arith }, tt),
)

series_roundtrip_example :
    (w : CompressedWriter) × (append_all true (first ∷ later) (new_writer (create cells)) ≡ some w)
    × (read_all true 2 (new_reader (create w.bb.mem) first) ≡ some later)
series_roundtrip_example =
    series_roundtrip true cells first later (omega arith) (omega arith) (omega arith) later-AreExact

abbrev timed : DeltaCompressor
timed = record { is_first = false; first = 1000; prev_delta = 0; prev_time = 1000 }

buffer_room : 20 ≤ buffer.pos
unfolding create
buffer_room = omega arith

abbrev timed_done : ByteBuffer
timed_done = put (Encoding.encoding (delta timed 1010)) buffer

time_read-append_example :
    (time_read true (record { prev_delta = 0; prev_time = 1000 }) (set_pos buffer.pos timed_done)
      ≡ some (1010, record { prev_delta = 10; prev_time = 1010 }, timed_done))
    × (◌≡◌ {A = ℕ} 1010 1010)
time_read-append_example =
    DeltaTrip.time_read-append true 1010 timed (omega arith) (omega arith) (omega arith) buffer
      buffer-IsBuffer refl (state_after timed 1010) timed_done
      (DeltaTrip.append_room 1010 timed buffer buffer-IsBuffer refl
        (omega (arith, buffer_room, DeltaTrip.length-encoding (delta timed 1010))))
      (omega arith)

abbrev late : DeltaCompressor
late = record { is_first = false; first = 0; prev_delta = 0; prev_time = 10_000 }

abbrev late_done : ByteBuffer
late_done = put (Encoding.encoding (delta late 5000)) buffer

time_read-append_lossy_example :
    (r : DeltaDeCompressor) × (time_read true
        (record { prev_delta = 0; prev_time = 10_000 })
        (set_pos buffer.pos late_done)
      ≡ some (5001, r, late_done))
time_read-append_lossy_example =
    DeltaTrip.time_read-append_lossy true 5000 late (omega arith) (omega arith) (omega arith) buffer
      buffer-IsBuffer refl (state_after late 5000) late_done
      (DeltaTrip.append_room 5000 late buffer buffer-IsBuffer refl
        (omega (arith, buffer_room, DeltaTrip.length-encoding (delta late 5000))))
      (omega arith)

ten_fits : length (Encoding.encoding 10) ≤ buffer.pos
ten_fits = omega (arith, buffer_room, DeltaTrip.length-encoding 10)

abbrev valued : XorCompressor
valued = record { is_first = false; first = 12; prev_value = 12 }

abbrev valued_after : XorCompressor
valued_after = record valued { prev_value = 44 }

abbrev valued_done : ByteBuffer
valued_done = put (value_encoding 12 44) buffer

valued_fits : length (value_encoding 12 44) ≤ buffer.pos
valued_fits = omega (
  arith,
  buffer_room,
  XorTrip.length-value_encoding true 44 valued buffer buffer-IsBuffer refl (omega arith)
      (omega arith) (omega arith),
)

value_read-append_example :
    (value_read true (record { prev_value = 12 }) (set_pos buffer.pos valued_done)
      ≡ some (44, record { prev_value = 44 }, valued_done))
    × (◌≡◌ {A = ℕ} 44 44)
value_read-append_example =
    XorTrip.value_read-append true 44 valued buffer buffer-IsBuffer refl (omega arith) (omega arith)
      {c' = valued_after} {b' = valued_done} (omega arith)
      (XorTrip.append_room true 44 valued buffer buffer-IsBuffer refl (omega arith) (omega arith)
        (omega arith) valued_fits)

-- 1 and -1 differ in their highest and in their lowest bits.
append_spanning_example :
    Xor.append false (2 ^ 63) (record { is_first = false; first = 1; prev_value = 1 }) buffer ≡ (
      if false || leb 11 buffer.pos
      then none
      else some (false, record { is_first = false; first = 1; prev_value = 1 }, buffer))
append_spanning_example =
    XorTrip.append_spanning false (2 ^ 63) (record { is_first = false; first = 1; prev_value = 1 })
      buffer buffer-IsBuffer refl (omega arith) (omega arith) (omega arith)

abbrev flagged : FlagCompressor
flagged = record { is_first = false; first = 0 }

abbrev flagged_done : ByteBuffer
flagged_done = put (flag_encoding 300) buffer

flag_read-append_example :
    flag_read (Flag.new_decompressor 0) (set_pos buffer.pos flagged_done)
    ≡ some (300, Flag.new_decompressor 0, flagged_done)
flag_read-append_example =
    FlagTrip.flag_read-append 300 flagged (omega arith) (Flag.new_decompressor 0) buffer
      {c' = flagged} {b' = flagged_done} buffer-IsBuffer refl
      (FlagTrip.append_room 300 flagged (omega arith) buffer buffer-IsBuffer refl
        (omega (arith, buffer_room, FlagTrip.length-flag_encoding 300)))
