-- ===== src/Storage/Pages/Fill.antt =====
-- storage/pages/helpers.cpp: where the inner loop of `compressValues` ends a chunk.
use memseries.Base.{◌≡◌, refl, ap, sym, ◌∙◌, subst, Bool, Bool-cases, true, false}
use memseries.Base.{some, ensure-true, List, [], ◌∷◌, ◌++◌, inl, inr}
use memseries.Meas.{Meas, IsMeas}
use memseries.Compression.Facade
use memseries.Compression.Facade.{CompressedWriter, new_writer, new_reader}
use memseries.Compression.Facade.Stream.{IsStarted, last_of, append_lem}
use memseries.Compression.Facade.Total.{append_total}
use memseries.Compression.Facade.Series.{AreExact, start}
use memseries.Storage.Statistic.{Doubles}
use memseries.Storage.Chunk as Chunk
use memseries.Storage.Chunk.{ChunkHeader, header_first, create, append}
use memseries.Storage.Chunk.Run.{append_all, advanced, append-advanced, append_all-cons_lem}
use memseries.Storage.Pages.{fill_chunk}

-- From each measurement on, those that follow can be stored behind it without loss.
abbrev pub EachExact : List Meas → Type 0
EachExact [] = Unit
EachExact (m ∷ ms) = IsMeas m × AreExact (start m) ms × EachExact ms

pub EachExact-append : (xs ys : List Meas) → EachExact (xs ++ ys) → EachExact ys
EachExact-append [] ys h = h
EachExact-append (x ∷ xs) ys (m, a, h) = EachExact-append xs ys h

module _ (d : Doubles) (checks : Bool) where
  append_failed :
      (m : Meas) (c : Chunk.Chunk) (w : CompressedWriter)
      → Facade.append checks m c.writer ≡ some (false, w)
      → w.is_full ≡ true
      → append d checks m c ≡ some (false, record c { writer = w })
  unfolding append
  append_failed m c w e full = rw (e, ensure-true checks w.is_full full) refl

  -- How a chunk ends: with the list, or at a measurement that finds no room.
  abbrev pub Ends : Chunk.Chunk → List Meas → Chunk.Chunk → Type 0
  Ends c [] c' = c ≡ c'
  Ends c (m ∷ rest) c' = append d checks m c ≡ some (false, c')

  pub fill_chunk-splits :
      (ms : List Meas) (c : Chunk.Chunk)
      → IsStarted c.writer
      → AreExact (last_of c.writer) ms
      → (xs : List Meas) × (rest : List Meas) × (c₀ : Chunk.Chunk) × (c' : Chunk.Chunk)
        × (fill_chunk d checks c ms ≡ some (c', rest))
        × (xs ++ rest ≡ ms)
        × (append_all d checks xs c ≡ some c₀)
        × AreExact (last_of c.writer) xs
        × Ends c₀ rest c'
  unfolding fill_chunk append_all
  fill_chunk-splits [] c started exact = ([], [], c, c, refl, refl, refl, tt, refl)
  fill_chunk-splits (m ∷ ms) c started (here, later) =
      let ((done, w), e, full) = append_total checks m c.writer started here in
      elim (Bool-cases done) [
        | inr stop ↦
            let e' : Facade.append checks m c.writer ≡ some (false, w) =
              e ∙ ap (λ b. some (b, w)) stop in
            let failed = append_failed m c w e' (full stop) in
            ([], m ∷ ms, c, record c { writer = w }, rw failed refl, refl, refl, tt, failed)
        | inl more ↦
            let e' : Facade.append checks m c.writer ≡ some (true, w) =
              e ∙ ap (λ b. some (b, w)) more in
            let (room, bytes, kept_last, started') =
              append_lem checks m c.writer started here w e' in
            let next = append-advanced d checks m c w e' in
            let (xs, rest, c₀, c', run, split, appended, exact', ends) =
              fill_chunk-splits ms (advanced d checks m c w) started'
                (subst (λ l. AreExact l ms) (sym kept_last) later) in
            (
              m ∷ xs,
              rest,
              c₀,
              c',
              rw next run,
              ap (λ r. m ∷ r) split,
              append_all-cons_lem d checks m xs c (advanced d checks m c w) next ∙ appended,
              (here, subst (λ l. AreExact l xs) kept_last exact'),
              ends,
            )
      ]
