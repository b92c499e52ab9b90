-- ===== src/Examples/Pages.antt =====
-- The theorems on pages at concrete inputs.
use memseries.Base.{
  ℕ, ◌+◌, ◌%◌, ◌^◌, ◌≡◌, arith, true, false, leb, some, List, [], ◌∷◌, length, take, get_elem?,
}
use memseries.Base.{◌≤◌, ◌<◌, none, replicate, length-replicate}
use memseries.Meas.{Meas}
use memseries.Storage.Statistic.{new_statistic}
use memseries.Storage.Pages.{
  PageFooter, IndexFooter, IndexReccord, ChunkLink, HdrAndBuffer, new_page_footer, compress_values,
  get_chunks_links,
}
use memseries.Storage.Pages.Fill.{EachExact}
use memseries.Storage.Pages.Compress.{Compressed, total, compress_values-Compressed}
use memseries.Storage.Pages.Endless.{get_chunks_links_endless}
use memseries.Storage.Pages.Search.{link_at, wanted_link, get_chunks_links-wanted}
use memseries.Storage.Pages.Write.{PageWriter, write_to_file}
use memseries.Storage.Pages.Count.{write_to_file-count_twice}
use memseries.Examples.{first, sample}
use memseries.Examples.Storage.{doubles, header}

-- Two measurements, for chunks that have room for one each.
abbrev two : List Meas
two = first ∷ sample 1010 12 1 ∷ []

two-EachExact : EachExact two
two-EachExact = (
  omega arith,
  (record { is_meas = omega arith; exact_time = omega arith; exact_value = omega arith }, tt),
  (omega arith, tt, tt),
)

abbrev footer : PageFooter
footer = new_page_footer 0 5

compress_values-Compressed_example :
    (results : List HdrAndBuffer) × (phdr : PageFooter) × (compress_values doubles true header two
        footer 1
      ≡ some (results, phdr))
    × Compressed doubles true two results
    × (phdr.max_chunk_id % 2 ^ 64 ≡ (footer.max_chunk_id + length results) % 2 ^ 64)
    × (phdr.stat.count % 2 ^ 32 ≡ (footer.stat.count + total results) % 2 ^ 32)
compress_values-Compressed_example =
    compress_values-Compressed doubles true header 1 (omega arith) (omega arith) two footer
      (omega arith) two-EachExact

abbrev index_footer : IndexFooter
index_footer = record { target_id = 0; stat = new_statistic; recs_count = 0; level = 0 }

write_to_file-count_twice_example :
    (results : List HdrAndBuffer) × (phdr : PageFooter) × (w : PageWriter) × (compress_values
        doubles false header two
        (new_page_footer 0 5)
        1
      ≡ some (results, phdr))
    × (write_to_file doubles leb (λ buffer n. n) (λ s. s) 120 false phdr index_footer results 0
        ≡ some w)
    × (w.phdr.stat.count % 2 ^ 32 ≡ 4)
    × (w.ihdr.stat ≡ w.phdr.stat)
    × (length w.ireccords ≡ length results)
write_to_file-count_twice_example =
    write_to_file-count_twice doubles leb (λ buffer n. n) (λ s. s) 120 header 1 two 0 5 0
      index_footer (omega arith) (omega arith) (omega arith) two-EachExact

abbrev reccord_of : ℕ → ℕ → ℕ → IndexReccord
reccord_of id from to = record {
  target_id = id;
  chunk_id = from;
  offset = 0;
  stat = record new_statistic { min_time = from; max_time = to };
}

abbrev reccords : List IndexReccord
reccords = reccord_of 1 10 20 ∷ reccord_of 2 15 30 ∷ reccord_of 1 40 50 ∷ []

get_chunks_links-wanted_example :
    (links : List ChunkLink) × (get_chunks_links reccords
        (record index_footer { recs_count = 3 })
        4
        (1 ∷ [])
        20
        40
        0
      ≡ some links)
    × ((pos : ℕ)
        → link_at pos links ≡ wanted_link (1 ∷ []) 20 40 0 pos (get_elem? (take 3 reccords) pos))
get_chunks_links-wanted_example =
    get_chunks_links-wanted (1 ∷ []) 20 40 0 (omega arith) reccords
      (record index_footer { recs_count = 3 }) 4 (omega arith) (omega arith) (omega arith)
      (omega arith, (omega arith, (omega arith, tt)))

-- As many records as a counter of 32 bits has values.
unfoldable copies_of : ℕ → List IndexReccord
copies_of n = replicate n (reccord_of 1 10 20)

length-copies_of : (n : ℕ) → length (copies_of n) ≡ n
unfolding copies_of
length-copies_of n = length-replicate n (reccord_of 1 10 20)

copies_enough : (n : ℕ) → 2 ^ 32 ≤ n → n ≤ length (copies_of n)
copies_enough n h = omega (arith, length-copies_of n)

get_chunks_links_endless_example :
    ((pos : ℕ)
      → pos < 2 ^ 32
      → (it : IndexReccord) × (get_elem? (take (2 ^ 32) (copies_of (2 ^ 32))) pos ≡ some it))
    × (get_chunks_links
          (copies_of (2 ^ 32))
          (record index_footer { recs_count = 2 ^ 32 })
          9
          []
          0
          100
          0
        ≡ none)
get_chunks_links_endless_example =
    get_chunks_links_endless (copies_of (2 ^ 32)) (record index_footer { recs_count = 2 ^ 32 }) 9 []
      0 100 0 (omega arith) (copies_enough (2 ^ 32) (omega arith))
