-- ===== src/Storage/Pages/Write.antt =====
-- storage/pages/helpers.cpp: `writeToFile`. What goes to the file is a list of headers and buffers.
use memseries.Base.{ℕ, zero, suc, ◌+◌, ◌%◌, ◌^◌, Bool, if◌then◌else◌}
use memseries.Base.{Option, none, some, ◌>>=◌, ◌>>◌, ensure, List, [], ◌∷◌, take, drop}
use memseries.Meas.{Meas}
use memseries.Storage.Statistic.{Doubles, update_by}
use memseries.Storage.Chunk.{ChunkHeader, open_chunk, update_checksum, check_checksum, compact}
use memseries.Storage.Select.{SomeReader, some_reader, get_reader}
use memseries.Storage.Pages.{
  PageFooter, IndexFooter, IndexReccord, HdrAndBuffer, init_chunk_index_rec,
}

-- The loop that reads a chunk to its end, with fuel.
unfoldable pub read_out : Bool → ℕ → SomeReader → Option (Unit {0})
read_out checks zero r = none
read_out checks (suc rounds) r =
    let more = (do (m, r') ← some_reader.read_next checks r; read_out checks rounds r') in
    if some_reader.is_end r then some tt else more

-- What a page file has got, and what stands in memory beside it.
pub record PageWriter : Type 0 where
  pub blocks : List HdrAndBuffer
  pub ireccords : List IndexReccord
  pub offset : ℕ
  pub phdr : PageFooter
  pub ihdr : IndexFooter

-- `crc32` and `sort` are a library's, `le` is `<=` of two doubles, and `sizeof` the size of a header.
module _ (d : Doubles) (le : ℕ → ℕ → Bool) (crc32 : List ℕ → ℕ → ℕ) (sort : List Meas → List Meas)
    (sizeof : ℕ) (checks : Bool) where
  -- The block in a build with `DOUBLE_CHECKS`.
  unfoldable pub double_check : ChunkHeader → List ℕ → Option (Unit {0})
  unfolding read_out
  double_check hdr buffer =
      let checked = (do
        ch ← open_chunk checks hdr buffer
        ensure checks (check_checksum crc32 ch)
        rdr ← get_reader sort checks ch
        read_out checks (ch.header.stat.count + 2) rdr) in
      if checks then checked else some tt

  -- A round of the loop.
  unfoldable pub write_chunk : HdrAndBuffer → PageWriter → Option PageWriter
  unfolding double_check
  write_chunk hb w = do
    let phdr = record w.phdr {
      addeded_chunks = (w.phdr.addeded_chunks + 1) % 2 ^ 32;
      stat = update_by d hb.hdr.stat w.phdr.stat;
    }
    let compacted = compact hb.hdr
    let buffer = drop compacted.0 hb.buffer
    let chunk_header =
        update_checksum crc32 (record compacted.1 { offset_in_page = w.offset }) buffer
    double_check chunk_header buffer
    (index_reccord, ihdr) ← init_chunk_index_rec le checks chunk_header w.ihdr
    some (record {
      blocks = record { hdr = chunk_header; buffer = take chunk_header.size buffer } ∷ w.blocks;
      ireccords = index_reccord ∷ w.ireccords;
      offset = (w.offset + (sizeof + chunk_header.size)) % 2 ^ 64;
      phdr = phdr;
      ihdr = ihdr;
    })

  unfoldable pub write_chunks : List HdrAndBuffer → PageWriter → Option PageWriter
  unfolding write_chunk
  write_chunks [] w = some w
  write_chunks (hb ∷ compressed_results) w = do
    w' ← write_chunk hb w
    write_chunks compressed_results w'

  -- The blocks and the records stand with the last one first.
  unfoldable pub write_to_file :
      PageFooter → IndexFooter → List HdrAndBuffer → ℕ → Option PageWriter
  unfolding write_chunks
  write_to_file phdr ihdr compressed_results file_size = do
    w ←
        write_chunks compressed_results
          (record { blocks = []; ireccords = []; offset = file_size; phdr = phdr; ihdr = ihdr })
    some (record w { ihdr = record w.ihdr { stat = w.phdr.stat } })
