-- ===== src/Storage/Chunk/Failure.antt =====
-- storage/chunk.cpp: an append to a chunk that is full, and what is read from the chunk after it.
use memseries.Base.{ℕ, ◌+◌, ◌^◌, ◌≤◌, ◌<◌, ◌≡◌, arith, refl, ap, sym, ◌∙◌, subst}
use memseries.Base.{
  Bool, Bool-cases, true, false, not, if◌then◌else◌, Option, none, some, ◌>>=◌, ◌>>◌, ensure,
  bind_some,
}
use memseries.Base.{List, [], ◌∷◌, length, map, take, length-map, inl, inr}
use memseries.Meas.{Meas, IsMeas}
use memseries.Compression.Buffer
use memseries.Compression.Facade
use memseries.Compression.Facade.{CompressedWriter, new_writer, new_reader}
use memseries.Compression.Facade.Series as Series
use memseries.Compression.Facade.Series.{
  AreExact, start, with_id, read_all, append_all-cons, append_first, create-IsBuffer,
}
use memseries.Compression.Facade.Failure.{read_all-append}
use memseries.Storage.Statistic.{Doubles, new_statistic}
use memseries.Storage.Statistic.Laws.{collect}
use memseries.Storage.Chunk.{Chunk, ChunkHeader, header_first, create, append}
use memseries.Storage.Chunk.Run.{append_all, append_all-writer, advanced, create_lem}
use memseries.Storage.Chunk.Reader.{raw_reader}
use memseries.Storage.Chunk.Reader.Drain.{drain, kept}
use memseries.Storage.Chunk.RoundTrip.{raw_reader-drain, length-cleared}

pair_parts {ℓ} :
    {A : Type ℓ} {x y : Bool} {a b : A}
    → ◌≡◌ {A = Option (Bool × A)} (some (x, a)) (some (y, b))
    → (x ≡ y) × (a ≡ b)
pair_parts e = (cc, cc)

module _ (d : Doubles) (checks : Bool) (m : Meas) (c : Chunk) where
  abbrev conclude : Bool × CompressedWriter → Option (Bool × Chunk)
  conclude (t_f, w) =
      if not t_f
      then (ensure checks w.is_full >> some (false, record c { writer = w }))
      else some (true, advanced d checks m c w)

  append_call :
      {done : Bool} {c' : Chunk}
      → append d checks m c ≡ some (done, c')
      → (x : Bool × CompressedWriter) × (Facade.append checks m c.writer ≡ some x)
        × (conclude x ≡ some (done, c'))
  unfolding append
  append_call h = bind_some (Facade.append checks m c.writer) conclude h

  conclude_done :
      (t_f : Bool) (w : CompressedWriter) (done : Bool) (c' : Chunk)
      → conclude (t_f, w) ≡ some (done, c')
      → (t_f ≡ done) × (w ≡ c'.writer) × (done ≡ false → c.header ≡ c'.header)
  conclude_done true w done c' h =
      let (same, e) = pair_parts h in (same, ap (λ (x : Chunk). x.writer) e, λ no'. cc)
  conclude_done false w done c' h =
      let (u, passed, f) =
        bind_some (ensure checks w.is_full) (λ _. some (false, record c { writer = w })) h in
      let (same, e) = pair_parts f in
      (same, ap (λ (x : Chunk). x.writer) e, λ _. ap (λ (x : Chunk). x.header) e)

  -- The call of the writer behind an append, and the header that a failure keeps.
  pub append_inv :
      {done : Bool} {c' : Chunk}
      → append d checks m c ≡ some (done, c')
      → (Facade.append checks m c.writer ≡ some (done, c'.writer))
        × (done ≡ false → c.header ≡ c'.header)
  append_inv {done} {c'} h =
      let ((t_f, w), e, f) = append_call h in
      let (same, writer, header) = conclude_done t_f w done c' f in (e ∙ cc, header)

-- The writer's run behind a run of appends.
append_all_run :
    (d : Doubles) (checks : Bool) (ms : List Meas) (c c' : Chunk)
    → append_all d checks ms c ≡ some c'
    → (w : CompressedWriter) × (Series.append_all checks ms c.writer ≡ some w)
append_all_run d checks [] c c' h = (c.writer, unfold Series.append_all in refl)
append_all_run d checks (m ∷ ms) c c' h =
    let opened : (append d checks m c >>= go_on) ≡ some c' = unfold append_all in h in
    let ((done, c₁), e, h₁) = bind_some (append d checks m c) go_on opened in
    elim (Bool-cases done) [
      | inl yes' ↦
          let e' = e ∙ ap (λ t. some (t, c₁)) yes' in
          let (run, header) = append_inv d checks m c e' in
          let (w, rest) =
            append_all_run d checks ms c₁ c'
              (subst (λ t. (if t then append_all d checks ms c₁ else none) ≡ some c') yes' h₁) in
          (w, append_all-cons checks m ms c.writer c₁.writer run ∙ rest)
      | inr no' ↦
          absurd
            (failed (subst (λ t. (if t then append_all d checks ms c₁ else none) ≡ some c') no' h₁))
    ]
  where
    go_on : Bool × Chunk → Option Chunk
    go_on (done, c₁) = if done then append_all d checks ms c₁ else none

    failed : ◌≡◌ {A = Option Chunk} none (some c') → ⊥
    failed e = cc

same_chunk : {a b : Chunk} → ◌≡◌ {A = Option Chunk} (some a) (some b) → a ≡ b
same_chunk e = cc

module _ (d : Doubles) (checks : Bool) (first : Meas) (ms : List Meas) (hdr : ChunkHeader)
    (buffer : List ℕ) (size : ℕ) (positive : 1 ≤ size) (inside : size ≤ length buffer)
    (fits : size < 2 ^ 32) (few : length ms + 1 < 2 ^ 32) (h : IsMeas first)
    (exact : AreExact (start first) ms) (c : Chunk)
    (filled : (create d checks hdr buffer size first >>= append_all d checks ms) ≡ some c) where
  abbrev pub memory : List ℕ
  memory = map (λ _. 0) (take size buffer)

  -- The chunk as `append_all-writer` describes it, and the run of its writer.
  pub described :
      (Series.append_all checks (first ∷ ms) (new_writer (Buffer.create memory)) ≡ some c.writer)
      × (header_first c.header ≡ first)
      × (c.header.stat ≡ collect d (first ∷ ms) new_statistic)
  described =
      let size_memory = length-cleared size buffer inside in
      let valid = create-IsBuffer memory (omega arith) (omega arith) in
      let run =
        ap (λ o. o >>= append_all d checks ms)
          (sym (create_lem d checks hdr buffer size first valid h))
        ∙ filled in
      let (w, written) = append_all_run d checks ms _ c run in
      let (c'', again, (writer, begin, stat, sorted)) = append_all-writer d checks ms _ w written in
      let same = same_chunk (sym again ∙ run) in
      (
        append_all-cons checks first ms (new_writer (Buffer.create memory)) _
              (append_first checks first (Buffer.create memory) valid h)
            ∙ written
            ∙ ap some (sym writer ∙ ap (λ (x : Chunk). x.writer) same),
        ap (λ (x : Chunk). header_first x.header) (sym same) ∙ begin,
        ap (λ (x : Chunk). x.header.stat) (sym same) ∙ unfold collect in stat,
      )

  -- If a new chunk (at least one byte, below 2^32, inside its buffer) took a first measurement
  -- and fewer than 2^32 - 1 further ones that AreExact, then an append of any measurement that
  -- fits its types and reports failure leaves the header as it was, and the cursor of the reader
  -- still returns what was appended before, less what kept leaves out.
  pub drain-append_failed :
      (m : Meas) (c' : Chunk)
      → IsMeas m
      → append d checks m c ≡ some (false, c')
      → (c.header ≡ c'.header)
        × ((raw_reader checks c' >>= drain checks (length ms + 2))
            ≡ some (kept first (map (with_id first.id) ms)))
  drain-append_failed m c' hm failed =
      let size_memory = length-cleared size buffer inside in
      let (run, begin, stat) = described in
      let (call, header) = append_inv d checks m c failed in
      let kept_header = header refl in
      (
        kept_header,
        raw_reader-drain d checks first ms c' (map (with_id first.id) ms)
            (length-map ms (with_id first.id)) few
            (ap (λ (x : ChunkHeader). x.stat) (sym kept_header) ∙ stat)
            (ap header_first (sym kept_header) ∙ begin)
            (read_all-append checks memory first ms c.writer c'.writer m false (omega arith)
              (omega arith) h exact hm run call),
      )
