-- ===== src/Storage/Pages/Count.antt =====
-- storage/pages/helpers.cpp: what the footer of a page counts.
use memseries.Base.{ℕ, ◌+◌, ◌*◌, ◌%◌, ◌^◌, ◌≤◌, ◌<◌, ◌≡◌, arith, refl, ap, Bool, false}
use memseries.Base.{some, List, [], ◌∷◌, length, length-append}
use memseries.Meas.{Meas}
use memseries.Storage.Statistic.{Doubles, Statistic, new_statistic, update_by}
use memseries.Storage.Statistic.Laws.{count-collect}
use memseries.Storage.Chunk.{ChunkHeader}
use memseries.Storage.Pages.{
  PageFooter, IndexFooter, HdrAndBuffer, new_page_footer, compress_values, init_chunk_index_rec,
}
use memseries.Storage.Pages.Fill.{EachExact}
use memseries.Storage.Pages.Compress.{Compressed, nothing, piece, total, compress_values-Compressed}
use memseries.Storage.Pages.Write.{
  PageWriter, write_chunk, write_chunks, write_to_file, double_check,
}

module _ (d : Doubles) where
  total-Compressed :
      (checks : Bool) (ms : List Meas) (hbs : List HdrAndBuffer)
      → Compressed d checks ms hbs
      → total hbs % 2 ^ 32 ≡ length ms % 2 ^ 32
  total-Compressed checks _ _ nothing = refl
  total-Compressed checks _ _ (piece first xs rest hb hbs holding parts) = omega (
    arith,
    total-Compressed checks rest hbs parts,
    count-collect d (first ∷ xs) new_statistic,
    ap (λ (s : Statistic). s.count) holding.stat,
    length-append xs rest,
  )

  module _ (le : ℕ → ℕ → Bool) (crc32 : List ℕ → ℕ → ℕ) (sort : List Meas → List Meas)
      (sizeof : ℕ) where
    -- The loop of writeToFile without checks.
    write_chunks-total :
        (hbs : List HdrAndBuffer) (w : PageWriter)
        → (w' : PageWriter) × (write_chunks d le crc32 sort sizeof false hbs w ≡ some w')
          × (w'.phdr.stat.count % 2 ^ 32 ≡ (w.phdr.stat.count + total hbs) % 2 ^ 32)
          × (w'.phdr.addeded_chunks % 2 ^ 32 ≡ (w.phdr.addeded_chunks + length hbs) % 2 ^ 32)
          × (length w'.ireccords ≡ length hbs + length w.ireccords)
    unfolding write_chunks write_chunk double_check init_chunk_index_rec update_by
    write_chunks-total [] w = (w, refl, omega arith, omega arith, omega arith)
    write_chunks-total (hb ∷ hbs) w =
        let (w', run, counts, added, records) = write_chunks-total hbs _ in
        (w', run, omega (arith, counts), omega (arith, added), omega (arith, records))

    -- Without DOUBLE_CHECKS, for chunks of 1 to 2 ^ 32 - 1 bytes and fewer than 2 ^ 31
    -- measurements that are EachExact, compressValues for a new footer and then writeToFile
    -- return, with one index record for each chunk and the same statistic in both footers, whose
    -- count is twice the number of the measurements.
    pub write_to_file-count_twice :
        (uninit : ChunkHeader) (size : ℕ) (ms : List Meas) (lvl chunk_id file_size : ℕ)
        (ihdr : IndexFooter)
        → 1 ≤ size
        → size < 2 ^ 32
        → length ms < 2 ^ 31
        → EachExact ms
        → (results : List HdrAndBuffer) × (phdr : PageFooter) × (w : PageWriter) × (compress_values
              d false uninit ms
              (new_page_footer lvl chunk_id)
              size
            ≡ some (results, phdr))
          × (write_to_file d le crc32 sort sizeof false phdr ihdr results file_size ≡ some w)
          × (w.phdr.stat.count % 2 ^ 32 ≡ 2 * length ms)
          × (w.ihdr.stat ≡ w.phdr.stat)
          × (length w.ireccords ≡ length results)
    unfolding write_to_file
    write_to_file-count_twice uninit size ms lvl chunk_id file_size ihdr positive fits few exact =
        let (results, phdr, compressed, parts, ids, counts) =
          compress_values-Compressed d false uninit size positive fits ms
            (new_page_footer lvl chunk_id) (omega arith) exact in
        let (w, run, twice, added, records) =
          write_chunks-total results (record {
            blocks = [];
            ireccords = [];
            offset = file_size;
            phdr = phdr;
            ihdr = ihdr;
          }) in
        let none_yet : (new_page_footer lvl chunk_id).stat.count ≡ 0 =
          unfold new_page_footer in refl in
        (
          results,
          phdr,
          record w { ihdr = record w.ihdr { stat = w.phdr.stat } },
          compressed,
          rw run refl,
          omega (arith, twice, counts, none_yet, total-Compressed false ms results parts),
          refl,
          omega (arith, records),
        )
