-- ===== src/Storage/Pages.antt =====
-- storage/pages/helpers.cpp, page.h, index.h and index.cpp: the chunks of a page, and the search in its
-- index. The magic numbers and the fields that are not used are left out.
pub mod Fill
pub mod Compress
pub mod Search
pub mod Endless
pub mod Write
pub mod Count
use memseries.Base.{
  ℕ, zero, suc, ◌+◌, ◌-◌, ◌%◌, ◌^◌, Bool, true, false, not, ◌&&◌, ◌||◌, ◌==◌, ltb, leb,
  if◌then◌else◌,
}
use memseries.Base.{
  Option, none, some, ◌>>=◌, ◌>>◌, ensure, List, [], ◌∷◌, length, take, get_elem?, replicate,
}
use memseries.Meas.{Meas, in_interval_of, intervals_intersection}
use memseries.Storage.Bloom.{bloom_check}
use memseries.Storage.Statistic.{Doubles, Statistic, new_statistic, update_by}
use memseries.Storage.Chunk as Chunk
use memseries.Storage.Chunk.{ChunkHeader, create, append}

pub record PageFooter : Type 0 where
  pub addeded_chunks : ℕ
  pub filesize : ℕ
  pub stat : Statistic
  pub max_chunk_id : ℕ
  pub level : ℕ

-- The constructor sets `max_chunk_id` to its argument, and then to 0.
unfoldable pub new_page_footer : ℕ → ℕ → PageFooter
new_page_footer lvl chunk_id = record {
  addeded_chunks = 0;
  filesize = 0;
  stat = new_statistic;
  max_chunk_id = 0;
  level = lvl;
}

pub record IndexFooter : Type 0 where
  pub target_id : ℕ
  pub stat : Statistic
  pub recs_count : ℕ
  pub level : ℕ

pub record IndexReccord : Type 0 where
  pub target_id : ℕ
  pub chunk_id : ℕ
  pub offset : ℕ
  pub stat : Statistic

-- chunkcontainer.h. The name of the page is left out.
pub record ChunkLink : Type 0 where
  pub id : ℕ
  pub index_rec_number : ℕ
  pub min_time : ℕ
  pub max_time : ℕ
  pub meas_id : ℕ

pub record HdrAndBuffer : Type 0 where
  pub hdr : ChunkHeader
  pub buffer : List ℕ

module _ (d : Doubles) (checks : Bool) where
  -- The inner loop of `compressValues`: the chunk, and the measurements that are left.
  unfoldable pub fill_chunk : Chunk.Chunk → List Meas → Option (Chunk.Chunk × List Meas)
  fill_chunk ch [] = some (ch, [])
  fill_chunk ch (m ∷ ms) = do
    (done, ch') ← append d checks m ch
    let rest = fill_chunk ch' ms
    if done then rest else some (ch', m ∷ ms)

  -- The end of a round of the outer loop.
  unfoldable pub note_chunk : Chunk.Chunk → PageFooter → HdrAndBuffer × PageFooter
  note_chunk ch phdr =
      let id = (phdr.max_chunk_id + 1) % 2 ^ 64 in
      (
        record { hdr = record ch.header { id = id }; buffer = ch.writer.bb.mem },
        record phdr { max_chunk_id = id; stat = update_by d ch.header.stat phdr.stat },
      )

  -- `compressValues`. `uninit` is what a new header holds; each round of the outer loop takes a
  -- measurement at least, so that `rounds` are enough when they are as many as the measurements.
  unfoldable pub compress_rounds :
      ChunkHeader → ℕ → ℕ → List Meas → PageFooter → Option (List HdrAndBuffer × PageFooter)
  unfolding fill_chunk note_chunk
  compress_rounds uninit max_chunk_size zero [] phdr = some ([], phdr)
  compress_rounds uninit max_chunk_size zero (m ∷ ms) phdr = none
  compress_rounds uninit max_chunk_size (suc rounds) [] phdr = some ([], phdr)
  compress_rounds uninit max_chunk_size (suc rounds) (m ∷ ms) phdr = do
    new ← create d checks uninit (replicate max_chunk_size 0) max_chunk_size m
    (ch, rest) ← fill_chunk new ms
    let noted = note_chunk ch phdr
    (results, phdr') ← compress_rounds uninit max_chunk_size rounds rest noted.1
    some (noted.0 ∷ results, phdr')

  unfoldable pub compress_values :
      ChunkHeader → List Meas → PageFooter → ℕ → Option (List HdrAndBuffer × PageFooter)
  unfolding compress_rounds
  compress_values uninit to_compress phdr max_chunk_size =
      compress_rounds uninit max_chunk_size (length to_compress) to_compress phdr

-- `init_chunk_index_rec`; `le` is `<=` of two doubles.
unfoldable pub init_chunk_index_rec :
    (ℕ → ℕ → Bool) → Bool → ChunkHeader → IndexFooter → Option (IndexReccord × IndexFooter)
init_chunk_index_rec le checks cheader iheader = do
  ensure checks (leb cheader.stat.min_time cheader.stat.max_time)
  ensure checks (le cheader.stat.min_value cheader.stat.max_value)
  some (
    record {
      target_id = cheader.meas_id;
      chunk_id = cheader.id;
      offset = cheader.offset_in_page;
      stat = cheader.stat;
    },
    record iheader { target_id = cheader.meas_id; recs_count = (iheader.recs_count + 1) % 2 ^ 64 },
  )

unfoldable pub check_index_rec : IndexReccord → ℕ → ℕ → Bool
check_index_rec it from to =
    in_interval_of from to it.stat.min_time
    || in_interval_of from to it.stat.max_time
    || in_interval_of it.stat.min_time it.stat.max_time from
    || in_interval_of it.stat.min_time it.stat.max_time to

unfoldable pub check_blooms : IndexReccord → ℕ → ℕ → Bool
check_blooms it id flag =
    (it.target_id == id) && ((flag == 0) || bloom_check it.stat.flag_bloom flag)

-- The loop over the ids.
unfoldable pub any_blooms : IndexReccord → List ℕ → ℕ → Bool
unfolding check_blooms
any_blooms it [] flag = false
any_blooms it (i ∷ ids) flag = check_blooms it i flag || any_blooms it ids flag

unfoldable pub link_of : IndexReccord → ℕ → ChunkLink
link_of it pos = record {
  id = it.chunk_id;
  index_rec_number = pos;
  min_time = it.stat.min_time;
  max_time = it.stat.max_time;
  meas_id = it.target_id;
}

-- The body of the loop of `get_chunks_links`: the link that it adds to those of the later rounds.
unfoldable pub add_link : List ℕ → ℕ → ℕ → ℕ → ℕ → IndexReccord → List ChunkLink → List ChunkLink
unfolding check_index_rec any_blooms link_of
add_link ids from to flag pos it more =
    let bloom_result = if length ids == 0 then true else any_blooms it ids flag in
    if check_index_rec it from to && bloom_result then link_of it pos ∷ more else more

-- The loop, with `pos` in 32 bits against a `recs_count` in 64. `rounds` is fuel; a read outside of
-- `records` is `none`.
unfoldable pub links_from :
    List ℕ → ℕ → ℕ → ℕ → List IndexReccord → ℕ → ℕ → ℕ → Option (List ChunkLink)
unfolding add_link
links_from ids from to flag records recs_count zero pos = none
links_from ids from to flag records recs_count (suc rounds) pos =
    let more = (do
      it ← get_elem? records pos
      links ← links_from ids from to flag records recs_count rounds ((pos + 1) % 2 ^ 32)
      some (add_link ids from to flag pos it links)) in
    if ltb pos recs_count then more else some []

-- `file` is what the index file holds; too few records are an exception.
unfoldable pub get_chunks_links :
    List IndexReccord → IndexFooter → ℕ → List ℕ → ℕ → ℕ → ℕ → Option (List ChunkLink)
unfolding links_from
get_chunks_links file iheader rounds ids from to flag =
    let records = take iheader.recs_count file in
    if ltb (length file) iheader.recs_count
    then none
    else links_from ids from to flag records iheader.recs_count rounds 0

-- `have_overlap`: the inner loop from a position on, and the outer one.
unfoldable pub overlaps_any : ChunkLink → ℕ → ℕ → List ChunkLink → Bool
overlaps_any l i j [] = false
overlaps_any l i j (r ∷ links) =
    let rest = overlaps_any l i (j + 1) links in
    if i == j
    then rest
    else if intervals_intersection l.min_time l.max_time r.min_time r.max_time
    then true
    else rest

unfoldable pub overlaps_from : ℕ → List ChunkLink → List ChunkLink → Bool
unfolding overlaps_any
overlaps_from i links [] = false
overlaps_from i links (l ∷ rest) =
    let later = overlaps_from (i + 1) links rest in if overlaps_any l i 0 links then true else later

unfoldable pub have_overlap : List ChunkLink → Bool
unfolding overlaps_from
have_overlap links = overlaps_from 0 links links
