-- ===== src/Examples/Storage.antt =====
-- The theorems on chunks and statistics at concrete inputs.
use memseries.Base.{◌≡◌, arith, refl, true, false, ltb, ◌>>=◌}
use memseries.Base.{some, [], ◌∷◌, length, drop}
use memseries.Compression.Buffer as Buffer
use memseries.Base.{ap}
use memseries.Compression.Delta
use memseries.Compression.Delta.{write_delta}
use memseries.Compression.Xor
use memseries.Compression.Flag
use memseries.Compression.Flag.{write_groups}
use memseries.Compression.Facade
use memseries.Compression.Facade.{CompressedReader, CompressedWriter, new_writer, new_reader}
use memseries.Compression.Facade.Series as Series
use memseries.Compression.Facade.Series.{read_all, create-IsBuffer, append_all-cons, append_first}
use memseries.Compression.Facade.Failure.{read_all-append}
use memseries.Storage.Statistic.{Doubles, new_statistic, update_by}
use memseries.Storage.Statistic.Laws.{collect, update_by-collect, Agrees}
use memseries.Storage.Chunk
use memseries.Storage.FullCursor.{new_full_cursor}
use memseries.Storage.FullCursor.Drain.{full_drain, full_drain-firsts}
use memseries.Storage.Chunk.{Chunk, ChunkHeader, MeasData, compact}
use memseries.Storage.Chunk.Run.{append_all, created_header, create_lem}
use memseries.Storage.Chunk.Reader.{ChunkReader, raw_reader}
use memseries.Storage.Chunk.Reader.Drain.{drain, drain_lem, kept, Stands}
use memseries.Storage.Chunk.RoundTrip.{chunk_roundtrip}
use memseries.Storage.Chunk.Failure.{drain-append_failed}
use memseries.Storage.Chunk.Compact.{read_all-compact}
use memseries.Examples.{cells, first, later, later-AreExact, sample, series_roundtrip_example}

-- Bit patterns of doubles from 0 on are in the order of the numbers; sums are left out.
abbrev pub doubles : Doubles
doubles = record { lt = ltb; plus = λ a b. a }

abbrev pub blank : MeasData
blank = record { id = 0; time = 0; value = 0; flag = 0 }

abbrev pub header : ChunkHeader
header = record {
  id = 1;
  meas_id = 0;
  data_first = blank;
  data_last = blank;
  bw_pos = 0;
  size = 0;
  crc = 0;
  offset_in_page = 0;
  stat = new_statistic;
  is_sorted = 0;
}

chunk_roundtrip_example :
    (c : Chunk) × ((Chunk.create doubles true header cells 60 first
        >>= append_all doubles true later)
      ≡ some c)
    × (c.header.stat ≡ collect doubles (first ∷ later) new_statistic)
    × (c.header.is_sorted ≡ 1)
    × ((raw_reader true c >>= drain true 4) ≡ some (kept first later))
chunk_roundtrip_example =
    chunk_roundtrip doubles true first later header cells 60 (omega arith) (omega arith)
      (omega arith) (omega arith) later-AreExact

update_by-collect_example :
    Agrees doubles
      (update_by doubles (collect doubles later new_statistic) new_statistic)
      (collect doubles later new_statistic)
update_by-collect_example =
    update_by-collect doubles later new_statistic (omega arith) (omega arith)

abbrev filled_header : ChunkHeader
filled_header = record header { size = 100; bw_pos = series_roundtrip_example.0.bb.pos }

read_all-compact_example :
    (length (drop (compact filled_header).0 series_roundtrip_example.0.bb.mem)
      ≡ (compact filled_header).1.size)
    × (read_all true 2 (
          new_reader
            (Buffer.create (drop (compact filled_header).0 series_roundtrip_example.0.bb.mem))
            first)
        ≡ some later)
read_all-compact_example =
    read_all-compact true cells first later series_roundtrip_example.0 filled_header (omega arith)
      (omega arith) (omega arith) later-AreExact series_roundtrip_example.1 refl refl

-- A chunk of one byte has no room behind its first measurement.
abbrev tiny : Chunk
tiny = record {
  header = created_header doubles true header (0 ∷ []) 1 first;
  writer = record {
    bb = record { mem = 0 ∷ []; cap = 1; pos = 0 };
    first = first;
    is_first = false;
    is_full = false;
    time_comp = record { is_first = false; first = 1000; prev_delta = 0; prev_time = 1000 };
    value_comp = record { is_first = false; first = 12; prev_value = 12 };
    flag_comp = record { is_first = false; first = 0 };
  };
}

abbrev tiny_full : Chunk
tiny_full = record tiny { writer = record tiny.writer { is_full = true } }

tiny_filled :
    (Chunk.create doubles true header (0 ∷ []) 1 first >>= append_all doubles true []) ≡ some tiny
unfolding append_all Buffer.create
tiny_filled =
    ap (λ o. o >>= append_all doubles true [])
      (create_lem doubles true header (0 ∷ []) 1 first
        (create-IsBuffer (0 ∷ []) (omega arith) (omega arith)) (omega arith))

tiny_failed : Chunk.append doubles true (sample 1010 12 1) tiny ≡ some (false, tiny_full)
unfolding Chunk.append Facade.append Delta.append write_delta Xor.append Flag.append write_groups
tiny_failed = refl

drain-append_failed_example :
    (tiny.header ≡ tiny.header) × ((raw_reader true tiny_full >>= drain true 2) ≡ some (first ∷ []))
drain-append_failed_example =
    drain-append_failed doubles true first [] header (0 ∷ []) 1 (omega arith) (omega arith)
      (omega arith) (omega arith) (omega arith) tt tiny tiny_filled (sample 1010 12 1) tiny_full
      (omega arith) tiny_failed

-- Of two measurements of one time at the end of a chunk both are returned.
twins : kept first (first ∷ []) ≡ first ∷ first ∷ []
twins = refl

tiny_written :
    Series.append_all true (first ∷ []) (new_writer (Buffer.create (0 ∷ []))) ≡ some tiny.writer
unfolding Series.append_all Buffer.create
tiny_written = append_all-cons true first [] (new_writer (Buffer.create (0 ∷ []))) tiny.writer (
    append_first true first (Buffer.create (0 ∷ []))
      (create-IsBuffer (0 ∷ []) (omega arith) (omega arith)) (omega arith))

tiny_writer_failed :
    Facade.append true (sample 1010 12 1) tiny.writer ≡ some (false, tiny_full.writer)
unfolding Facade.append Delta.append write_delta Xor.append Flag.append write_groups
tiny_writer_failed = refl

read_all-append_example :
    read_all true 0 (new_reader (Buffer.create tiny_full.writer.bb.mem) first) ≡ some []
read_all-append_example =
    read_all-append true (0 ∷ []) first [] tiny.writer tiny_full.writer (sample 1010 12 1) false
      (omega arith) (omega arith) (omega arith) tt (omega arith) tiny_written tiny_writer_failed

-- A reader at the start of the series in `Examples`.
abbrev reader : ChunkReader
reader = record {
  values_count = 3;
  top_value_exists = true;
  top_value = first;
  count = 2;
  chunk = tiny;
  compressed_rdr = new_reader (Buffer.create series_roundtrip_example.0.bb.mem) first;
}

reader-Stands : Stands true reader first later
reader-Stands = record {
  exists = refl;
  shown = refl;
  count = refl;
  rest = series_roundtrip_example.2;
}

drain_lem_example : drain true 4 reader ≡ some (kept first later)
drain_lem_example = drain_lem true 4 reader first later reader-Stands (omega arith)

full_drain-firsts_example :
    (new_full_cursor true (first ∷ first ∷ later) >>= full_drain true 5) ≡ some (first ∷ later)
full_drain-firsts_example = full_drain-firsts true first (first ∷ later) (omega arith)
