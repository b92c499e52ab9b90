-- ===== src/Storage/Chunk/RoundTrip.antt =====
-- storage/chunk.cpp: a chunk that is filled, and read by the cursor of `getReader`.
use memseries.Base.{ℕ, ◌+◌, ◌-◌, ◌*◌, ◌%◌, ◌^◌, ◌≤◌, ◌<◌, ◌≡◌, arith, refl, ap, sym, ◌∙◌, subst}
use memseries.Base.{Bool, Bool-cases, true, if◌then◌else◌, some, ◌>>=◌}
use memseries.Base.{List, ◌∷◌, length, map, take, length-map, length-take}
use memseries.Meas.{Meas, IsMeas}
use memseries.Compression.Buffer
use memseries.Compression.Facade.{CompressedWriter, new_reader, new_writer}
use memseries.Compression.Facade.Series.{
  AreExact, start, with_id, read_all, append_all-cons, append_first, create-IsBuffer,
}
use memseries.Compression.Facade.Room.{series_roundtrip}
use memseries.Storage.Statistic.{Doubles, Statistic, new_statistic}
use memseries.Storage.Statistic.Laws.{collect, collect-KnowsAll, count-collect}
use memseries.Storage.Chunk.{Chunk, ChunkHeader, header_first, create}
use memseries.Storage.Chunk.Run.{append_all, append_all-writer, create_lem, in_order}
use memseries.Storage.Chunk.Reader.{ChunkReader, new_chunk_reader, raw_reader}
use memseries.Storage.Chunk.Reader.Drain.{drain, drain_lem, kept}

-- The memory of a new chunk.
pub length-cleared :
    (size : ℕ) (buffer : List ℕ)
    → size ≤ length buffer
    → length {A = ℕ} (map (λ _. 0) (take size buffer)) ≡ size
length-cleared size buffer inside =
    let clear : ℕ → ℕ = λ _. 0 in
    omega (arith, length-map (take size buffer) clear, length-take size buffer)

module _ (d : Doubles) (checks : Bool) (first : Meas) (ms : List Meas) where
  -- The reader of a chunk whose statistic and whose memory are those of the measurements.
  pub raw_reader-drain :
      (c : Chunk) (seen : List Meas)
      → length seen ≡ length ms
      → length ms + 1 < 2 ^ 32
      → c.header.stat ≡ collect d (first ∷ ms) new_statistic
      → header_first c.header ≡ first
      → read_all checks (length ms) (new_reader (Buffer.create c.writer.bb.mem) first) ≡ some seen
      → (raw_reader checks c >>= drain checks (length ms + 2)) ≡ some (kept first seen)
  unfolding raw_reader new_chunk_reader
  raw_reader-drain c seen same small stat begin stream =
      let knows = (collect-KnowsAll d (first ∷ ms) new_statistic).0 in
      let total = count-collect d (first ∷ ms) new_statistic in
      let count : (c.header.stat.count + 2 ^ 32 - 1) % 2 ^ 32 ≡ length seen =
        omega (arith, ap (λ (s : Statistic). s.count) stat) in
      let ordered : c.header.stat.min_time ≤ c.header.stat.max_time = omega (
        arith,
        knows.from,
        knows.to,
        ap (λ (s : Statistic). s.min_time) stat,
        ap (λ (s : Statistic). s.max_time) stat,
      ) in
      passed ordered
      ∙ drain_lem checks (length ms + 2) opened first seen
          (record { exists = refl; shown = begin; count = count; rest = rw (begin, same) stream })
          (omega arith)
    where
      opened : ChunkReader
      opened = record {
        values_count = ((c.header.stat.count + 2 ^ 32 - 1) % 2 ^ 32 + 1) % 2 ^ 64;
        top_value_exists = true;
        top_value = header_first c.header;
        count = (c.header.stat.count + 2 ^ 32 - 1) % 2 ^ 32;
        chunk = c;
        compressed_rdr = new_reader (Buffer.create c.writer.bb.mem) (header_first c.header);
      }

      passed :
          c.header.stat.min_time ≤ c.header.stat.max_time
          → (raw_reader checks c >>= drain checks (length ms + 2))
            ≡ drain checks (length ms + 2) opened
      passed h = ground (arith, Bool-cases checks)

  module _ (hdr : ChunkHeader) (buffer : List ℕ) (size : ℕ) (inside : size ≤ length buffer)
      (fits : size < 2 ^ 32) (room : 24 * length ms < size) (h : IsMeas first)
      (exact : AreExact (start first) ms) where
    abbrev memory : List ℕ
    memory = map (λ _. 0) (take size buffer)

    memory_size : length memory ≡ size
    memory_size = length-cleared size buffer inside

    -- A new chunk of a size below 2^32 inside its buffer and above 24 bytes for each further
    -- measurement takes a first measurement (that fits its types) and all further ones that
    -- AreExact; its statistic is then that of all of them, it is marked as sorted exactly if the
    -- times never fall, and the cursor of its reader, read to its end, returns the first one and
    -- the further ones, with the id of the first, less those that kept leaves out: what repeats
    -- the time of the one before, but for the last of all.
    pub chunk_roundtrip :
        (c : Chunk) × ((create d checks hdr buffer size first >>= append_all d checks ms) ≡ some c)
        × (c.header.stat ≡ collect d (first ∷ ms) new_statistic)
        × (c.header.is_sorted ≡ (if in_order first.time ms then 1 else 0))
        × ((raw_reader checks c >>= drain checks (length ms + 2))
            ≡ some (kept first (map (with_id first.id) ms)))
    chunk_roundtrip =
        let valid =
          create-IsBuffer memory (omega (arith, memory_size)) (omega (arith, memory_size)) in
        let (w, run, seen) =
          series_roundtrip checks memory first ms (omega (arith, memory_size))
            (omega (arith, memory_size)) h exact in
        let begun = append_first checks first (Buffer.create memory) valid h in
        let (c, filled, (writer, same, stat, sorted)) = append_all-writer d checks ms _ w (
          sym (append_all-cons checks first ms (new_writer (Buffer.create memory)) _ begun)
          ∙ run) in
        (
          c,
          ap (λ o. o >>= append_all d checks ms) (create_lem d checks hdr buffer size first valid h)
              ∙ filled,
          unfold collect in stat,
          sorted,
          raw_reader-drain c (map (with_id first.id) ms) (length-map ms (with_id first.id))
              (omega arith) (unfold collect in stat) same
              (subst
                (λ (x : CompressedWriter).
                  read_all checks (length ms) (new_reader (Buffer.create x.bb.mem) first)
                  ≡ some (map (with_id first.id) ms))
                (sym writer) seen),
        )
