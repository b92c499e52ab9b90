-- ===== src/Storage/Pages/Compress.antt =====
-- storage/pages/helpers.cpp: what `compressValues` makes of a list of measurements.
use memseries.Base.{
  ℕ, zero, suc, ◌+◌, ◌%◌, ◌^◌, ◌≤◌, ◌<◌, ◌≡◌, arith, refl, ap, sym, ◌∙◌, subst, Bool, false,
}
use memseries.Base.{
  some, ◌>>=◌, List, [], ◌∷◌, ◌++◌, length, map, take, replicate, length-map, length-append,
  length-replicate,
}
use memseries.Meas.{Meas, IsMeas}
use memseries.Compression.Buffer
use memseries.Compression.Facade.{new_writer, new_reader}
use memseries.Compression.Facade.Series as Series
use memseries.Compression.Facade.Series.{
  AreExact, start, with_id, started_writer, started_writer-IsStarted, create-IsBuffer,
  read_all-append_all,
}
use memseries.Compression.Facade.Failure.{read_all-append}
use memseries.Storage.Statistic.{Doubles, new_statistic, update_by}
use memseries.Storage.Statistic.Laws.{collect}
use memseries.Storage.Chunk as Chunk
use memseries.Storage.Chunk.{ChunkHeader, header_first, create, append}
use memseries.Storage.Chunk.Run.{append_all, create_lem, created_header, cleared}
use memseries.Storage.Chunk.Failure.{described, append_inv}
use memseries.Storage.Chunk.Reader.{raw_reader}
use memseries.Storage.Chunk.Reader.Drain.{drain, kept}
use memseries.Storage.Chunk.RoundTrip.{raw_reader-drain, length-cleared}
use memseries.Storage.Pages.{
  HdrAndBuffer, PageFooter, fill_chunk, note_chunk, compress_rounds, compress_values,
}
use memseries.Storage.Pages.Fill.{EachExact, EachExact-append, Ends, fill_chunk-splits}

-- The counts of the chunks.
abbrev pub total : List HdrAndBuffer → ℕ
total [] = 0
total (hb ∷ hbs) = hb.hdr.stat.count + total hbs

module _ (d : Doubles) (checks : Bool) where
  -- The chunk that a reader finds in the memory of a header and a buffer.
  abbrev pub chunk_of : HdrAndBuffer → Chunk.Chunk
  chunk_of hb = record { header = hb.hdr; writer = new_writer (Buffer.create hb.buffer) }

  -- A header and a buffer that hold a first measurement and further ones: the statistic is that of all
  -- of them, and the cursor of a reader gives them, less what kept leaves out.
  pub record Holding (first : Meas) (xs : List Meas) (hb : HdrAndBuffer) : Type 0 where
    pub stat : hb.hdr.stat ≡ collect d (first ∷ xs) new_statistic
    pub begins : header_first hb.hdr ≡ first
    pub reads :
        (raw_reader checks (chunk_of hb) >>= drain checks (length xs + 2))
        ≡ some (kept first (map (with_id first.id) xs))

  -- A list that is cut into pieces, each of them in one of the results.
  pub data Compressed : List Meas → List HdrAndBuffer → Type 0 where
    nothing : Compressed [] []
    piece :
        (first : Meas) (xs rest : List Meas) (hb : HdrAndBuffer) (hbs : List HdrAndBuffer)
        → Holding first xs hb
        → Compressed rest hbs
        → Compressed (first ∷ xs ++ rest) (hb ∷ hbs)

  module _ (uninit : ChunkHeader) (size : ℕ) (positive : 1 ≤ size) (fits : size < 2 ^ 32) where
    abbrev room : List ℕ
    room = replicate size 0

    inside : size ≤ length room
    inside = omega (arith, length-replicate {A = ℕ} size 0)

    -- What the end of a chunk leaves of the run before it.
    ends_lem :
        (first : Meas) (xs rest : List Meas) (c₀ c' : Chunk.Chunk)
        → length xs + 1 < 2 ^ 32
        → IsMeas first
        → AreExact (start first) xs
        → EachExact rest
        → (create d checks uninit room size first >>= append_all d checks xs) ≡ some c₀
        → Ends d checks c₀ rest c'
        → (c'.header.stat ≡ collect d (first ∷ xs) new_statistic)
          × (header_first c'.header ≡ first)
          × (Series.read_all checks (length xs) (new_reader (Buffer.create c'.writer.bb.mem) first)
              ≡ some (map (with_id first.id) xs))
    ends_lem first xs [] c₀ c' few h exact later filled ends =
        let size_memory = length-cleared size room inside in
        let (run, begin, stat) =
          described d checks first xs uninit room size positive inside fits few h exact c₀ filled in
        subst
          (λ (c : Chunk.Chunk).
            (c.header.stat ≡ collect d (first ∷ xs) new_statistic)
            × (header_first c.header ≡ first)
            × (Series.read_all checks (length xs) (new_reader (Buffer.create c.writer.bb.mem) first)
                ≡ some (map (with_id first.id) xs)))
          ends
          (
            stat,
            begin,
            read_all-append_all checks (map (λ _. 0) (take size room)) first xs c₀.writer
                (omega arith) (omega arith) h exact run,
          )
    ends_lem first xs (m ∷ rest) c₀ c' few h exact (hm, further, later) filled ends =
        let size_memory = length-cleared size room inside in
        let (run, begin, stat) =
          described d checks first xs uninit room size positive inside fits few h exact c₀ filled in
        let (call, header) = append_inv d checks m c₀ ends in
        let same = header refl in
        (
          ap (λ (x : ChunkHeader). x.stat) (sym same) ∙ stat,
          ap header_first (sym same) ∙ begin,
          read_all-append checks (map (λ _. 0) (take size room)) first xs c₀.writer c'.writer m
              false (omega arith) (omega arith) h exact hm run call,
        )

    -- One round of the outer loop.
    round_lem :
        (first : Meas) (ms : List Meas)
        → length ms + 1 < 2 ^ 32
        → EachExact (first ∷ ms)
        → (new : Chunk.Chunk) × (c' : Chunk.Chunk) × (xs : List Meas) × (rest : List Meas) × (create
              d checks uninit room size first
            ≡ some new)
          × (fill_chunk d checks new ms ≡ some (c', rest))
          × (xs ++ rest ≡ ms)
          × ((phdr : PageFooter) → Holding first xs (note_chunk d checks c' phdr).0)
    unfolding note_chunk Buffer.create new_writer
    round_lem first ms few (h, exact, later) =
        let size_memory = length-cleared size room inside in
        let valid =
          create-IsBuffer (map (λ _. 0) (take size room)) (omega (arith, size_memory))
            (omega (arith, size_memory)) in
        let made = create_lem d checks uninit room size first valid h in
        let new : Chunk.Chunk = record {
          header = created_header d checks uninit room size first;
          writer = started_writer checks first (cleared d checks uninit room size first) valid h;
        } in
        let (xs, rest, c₀, c', run, split, appended, exact', ends) =
          fill_chunk-splits d checks ms new
            (started_writer-IsStarted checks first (cleared d checks uninit room size first) valid
              h)
            exact in
        let shorter : length xs + 1 < 2 ^ 32 =
          omega (arith, length-append xs rest, ap (λ r. length r) split) in
        let behind : EachExact rest =
          EachExact-append xs rest (subst EachExact (sym split) later) in
        let filled : (create d checks uninit room size first >>= append_all d checks xs) ≡ some c₀ =
          ap (λ o. o >>= append_all d checks xs) made ∙ appended in
        let (stat, begin, reads) =
          ends_lem first xs rest c₀ c' shorter h exact' behind filled ends in
        (
          new,
          c',
          xs,
          rest,
          made,
          run,
          split,
          (λ phdr. record {
            stat = stat;
            begins = begin;
            reads =
                raw_reader-drain d checks first xs (chunk_of (note_chunk d checks c' phdr).0)
                  (map (with_id first.id) xs) (length-map xs (with_id first.id)) shorter stat begin
                  reads;
          }),
        )

    compress_rounds-Compressed :
        (rounds : ℕ) (ms : List Meas) (phdr : PageFooter)
        → length ms ≤ rounds
        → length ms < 2 ^ 32
        → EachExact ms
        → (results : List HdrAndBuffer) × (phdr' : PageFooter) × (compress_rounds d checks uninit
              size rounds ms phdr
            ≡ some (results, phdr'))
          × Compressed ms results
          × (phdr'.max_chunk_id % 2 ^ 64 ≡ (phdr.max_chunk_id + length results) % 2 ^ 64)
          × (phdr'.stat.count % 2 ^ 32 ≡ (phdr.stat.count + total results) % 2 ^ 32)
    unfolding compress_rounds note_chunk update_by
    compress_rounds-Compressed zero [] phdr enough few h =
        ([], phdr, refl, nothing, omega arith, omega arith)
    compress_rounds-Compressed zero (m ∷ ms) phdr enough few h = absurd (omega arith)
    compress_rounds-Compressed (suc rounds) [] phdr enough few h =
        ([], phdr, refl, nothing, omega arith, omega arith)
    compress_rounds-Compressed (suc rounds) (m ∷ ms) phdr enough few h =
        let (new, c', xs, rest, made, run, split, holding) = round_lem m ms (omega arith) h in
        let noted = note_chunk d checks c' phdr in
        let sum : length xs + length rest ≡ length ms =
          omega (arith, length-append xs rest, ap (λ r. length r) split) in
        let behind : EachExact rest = EachExact-append xs rest (subst EachExact (sym split) h.2) in
        let (results, phdr', more, parts, ids, counts) =
          compress_rounds-Compressed rounds rest noted.1 (omega arith) (omega arith) behind in
        (
          noted.0 ∷ results,
          phdr',
          rw (made, run, more) refl,
          subst (λ r. Compressed (m ∷ r) (noted.0 ∷ results)) split
              (piece m xs rest noted.0 results (holding phdr) parts),
          omega (arith, ids),
          omega (arith, counts),
        )

    -- For chunks of 1 to 2 ^ 32 - 1 bytes and fewer than 2 ^ 32 measurements, each of which the
    -- ones behind it can be stored after without loss (EachExact), compressValues returns, with
    -- fuel for as many chunks as there are measurements. The list is cut into pieces in its
    -- order, one for each header and buffer: the header has the statistic of the piece, and a
    -- reader on the buffer gives the piece, with the id of its first measurement, less what kept
    -- leaves out. The last chunk id grows by the number of chunks, in 64 bits, and the count of
    -- the footer by the sum of theirs, in 32 bits.
    pub compress_values-Compressed :
        (ms : List Meas) (phdr : PageFooter)
        → length ms < 2 ^ 32
        → EachExact ms
        → (results : List HdrAndBuffer) × (phdr' : PageFooter) × (compress_values d checks uninit ms
              phdr size
            ≡ some (results, phdr'))
          × Compressed ms results
          × (phdr'.max_chunk_id % 2 ^ 64 ≡ (phdr.max_chunk_id + length results) % 2 ^ 64)
          × (phdr'.stat.count % 2 ^ 32 ≡ (phdr.stat.count + total results) % 2 ^ 32)
    unfolding compress_values
    compress_values-Compressed ms phdr few h =
        compress_rounds-Compressed (length ms) ms phdr (omega arith) few h
