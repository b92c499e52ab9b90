-- ===== src/Storage/Chunk/Run.antt =====
-- A chunk that is filled: what its header and its writer become.
use memseries.Base.{ℕ, ◌≡◌, arith, refl, ◌∙◌}
use memseries.Base.{Bool, Bool-cases, true, false, ◌&&◌, leb, ltb, if◌then◌else◌}
use memseries.Base.{Option, none, some, ◌>>=◌, List, [], ◌∷◌, map, take}
use memseries.Meas.{Meas, IsMeas}
use memseries.Compression.Buffer
use memseries.Compression.Buffer.{ByteBuffer, reset_pos}
use memseries.Compression.Buffer.Stream.{IsBuffer}
use memseries.Compression.Facade
use memseries.Compression.Facade.{CompressedWriter, new_writer}
use memseries.Compression.Facade.Series
use memseries.Compression.Facade.Series.{
  append_all_inv, append_first, started_writer, create-IsBuffer,
}
use memseries.Storage.Statistic.{Doubles, new_statistic, update}
use memseries.Storage.Statistic.Laws.{collect}
use memseries.Storage.Chunk.{Chunk, ChunkHeader, header_first, set_first, set_last, create, append}

-- A caller that appends until one fails.
unfoldable pub append_all : Doubles → Bool → List Meas → Chunk → Option Chunk
append_all d checks [] c = some c
append_all d checks (m ∷ ms) c = do
  (done, c') ← append d checks m c
  let rest = append_all d checks ms c'
  if done then rest else none

-- The times never fall, from `t` on.
abbrev pub in_order : ℕ → List Meas → Bool
in_order t [] = true
in_order t (m ∷ ms) = leb t m.time && in_order m.time ms

module _ (d : Doubles) (checks : Bool) where
  abbrev pub advanced : Meas → Chunk → CompressedWriter → Chunk
  advanced m c w = record {
    header = set_last m (record c.header {
      is_sorted = if ltb m.time c.header.data_last.time then 0 else c.header.is_sorted;
      bw_pos = w.bb.pos;
      stat = update d m c.header.stat;
    });
    writer = w;
  }

  pub append-advanced :
      (m : Meas) (c : Chunk) (w : CompressedWriter)
      → Facade.append checks m c.writer ≡ some (true, w)
      → append d checks m c ≡ some (true, advanced m c w)
  unfolding append
  append-advanced m c w e = rw e refl

  pub append_all-cons_lem :
      (m : Meas) (ms : List Meas) (c c' : Chunk)
      → append d checks m c ≡ some (true, c')
      → append_all d checks (m ∷ ms) c ≡ append_all d checks ms c'
  unfolding append_all
  append_all-cons_lem m ms c c' e = rw e refl

  -- What the appends make of a chunk, from what they make of its writer.
  abbrev Filled : List Meas → Chunk → CompressedWriter → Chunk → Type 0
  Filled ms c w c' =
      (c'.writer ≡ w)
      × (header_first c'.header ≡ header_first c.header)
      × (c'.header.stat ≡ collect d ms c.header.stat)
      × (c'.header.is_sorted
          ≡ (if in_order c.header.data_last.time ms then c.header.is_sorted else 0))

  pub append_all-writer :
      (ms : List Meas) (c : Chunk) (w : CompressedWriter)
      → Series.append_all checks ms c.writer ≡ some w
      → (c' : Chunk) × (append_all d checks ms c ≡ some c') × Filled ms c w c'
  unfolding append_all Series.append_all collect
  append_all-writer [] c w h = (c, refl, (cc, refl, refl, refl))
  append_all-writer (m ∷ ms) c w h =
      let (w₁, e, h₁) = append_all_inv checks m ms c.writer w h in
      let (c', run, (writer, first, stat, sorted)) = append_all-writer ms (advanced m c w₁) w h₁ in
      (
        c',
        append_all-cons_lem m ms c (advanced m c w₁) (append-advanced m c w₁ e) ∙ run,
        (writer, first, stat, sorted ∙ order (in_order m.time ms)),
      )
    where
      order :
          (rest : Bool)
          → (if rest
              then (if ltb m.time c.header.data_last.time then 0 else c.header.is_sorted)
              else 0)
            ≡ (if leb c.header.data_last.time m.time && rest then c.header.is_sorted else 0)
      order true = ground arith
      order false = ground arith

  -- A new chunk, by the theorem on the first append.
  module _ (hdr : ChunkHeader) (buffer : List ℕ) (size : ℕ) (first : Meas) where
    abbrev pub cleared : ByteBuffer
    cleared = Buffer.create (map (λ _. 0) (take size buffer))

    abbrev pub created_header : ChunkHeader
    created_header = record (set_last first (set_first first (record hdr { size = size }))) {
      stat = update d first new_statistic;
      is_sorted = 1;
      bw_pos = cleared.pos;
    }

    pub create_lem :
        (valid : IsBuffer cleared) (h : IsMeas first)
        → create d checks hdr buffer size first
          ≡ some (record {
            header = created_header;
            writer = started_writer checks first cleared valid h;
          })
    unfolding create
    create_lem valid h =
        rw (same, append_first checks first cleared valid h) (ground (arith, Bool-cases checks))
      where
        same : reset_pos cleared ≡ cleared
        same = unfold reset_pos Buffer.create in refl
