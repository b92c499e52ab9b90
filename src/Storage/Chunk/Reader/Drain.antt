-- ===== src/Storage/Chunk/Reader/Drain.antt =====
-- What a caller gets who reads a chunk to its end.
use memseries.Base.{ℕ, zero, suc, ◌+◌, ◌≤◌, ◌≡◌, ◌≢◌, arith, refl, ap, sym, ◌∙◌}
use memseries.Base.{Bool, Bool-cases, true, false, ◌==◌, if◌then◌else◌, inl, inr}
use memseries.Base.{Option, none, some, ◌>>=◌, bind_some, List, [], ◌∷◌, length}
use memseries.Meas.{Meas}
use memseries.Compression.Facade
use memseries.Compression.Facade.{CompressedReader}
use memseries.Compression.Facade.Series.{read_all}
use memseries.Storage.Chunk.Reader.{ChunkReader, is_end, skip_loop, skip_duplicates, read_next}

-- `while (!is_end()) readNext()`, with fuel for the rounds.
unfoldable pub drain : Bool → ℕ → ChunkReader → Option (List Meas)
drain checks zero r = none
drain checks (suc rounds) r =
    let more = (do (m, r') ← read_next checks r; ms ← drain checks rounds r'; some (m ∷ ms)) in
    if is_end r then some [] else more

-- The measurements behind one of time `t`, of which `m` is the first: those with the time of the
-- one before are skipped, but for the last of all.
abbrev pub behind : ℕ → Meas → List Meas → List Meas
behind t m [] = m ∷ []
behind t m (n ∷ ns) = if m.time == t then behind t n ns else m ∷ behind m.time n ns

abbrev pub kept : Meas → List Meas → List Meas
kept first [] = first ∷ []
kept first (m ∷ ms) = first ∷ behind first.time m ms

-- No measurement has the time of the one before it.
abbrev pub Changes : ℕ → List Meas → Type 0
Changes t [] = Unit {0}
Changes t (m ∷ ms) = (m.time ≢ t) × Changes m.time ms

behind-Changes : (t : ℕ) (m : Meas) (ms : List Meas) → Changes t (m ∷ ms) → behind t m ms ≡ m ∷ ms
behind-Changes t m [] h = refl
behind-Changes t m (n ∷ ns) (new, h) = ground (arith, behind-Changes m.time n ns h)

pub kept-Changes :
    (first : Meas) (ms : List Meas) → Changes first.time ms → kept first ms ≡ first ∷ ms
kept-Changes first [] h = refl
kept-Changes first (m ∷ ms) h = ap (λ xs. first ∷ xs) (behind-Changes first.time m ms h)

module _ (checks : Bool) where
  -- One measurement off a stream.
  read_all_inv :
      (m : Meas) (ms : List Meas) (rdr : CompressedReader)
      → read_all checks (suc (length ms)) rdr ≡ some (m ∷ ms)
      → (rdr' : CompressedReader) × (Facade.read checks rdr ≡ some (m, rdr'))
        × (read_all checks (length ms) rdr' ≡ some ms)
  unfolding read_all
  read_all_inv m ms rdr h =
      let ((m₁, rdr'), e, h₁) = bind_some (Facade.read checks rdr) go_on h in
      let (ms₁, f, g) = bind_some (read_all checks (length ms) rdr') (λ xs. some (m₁ ∷ xs)) h₁ in
      (rdr', e ∙ cc, f ∙ cc)
    where
      go_on : Meas × CompressedReader → Option (List Meas)
      go_on (x, r) = read_all checks (length ms) r >>= λ xs. some (x ∷ xs)

  -- The reader shows `m`, and has `ms` to read.
  pub record Stands (r : ChunkReader) (m : Meas) (ms : List Meas) : Type 0 where
    pub exists : r.top_value_exists ≡ true
    pub shown : r.top_value ≡ m
    pub count : r.count ≡ length ms
    pub rest : read_all checks (length ms) r.compressed_rdr ≡ some ms

  abbrev Skipped : ℕ → Meas → List Meas → ChunkReader → Type 0
  Skipped t m ms r =
      (r' : ChunkReader) × (n : Meas) × (ns : List Meas) × (skip_loop checks t (suc (length ms)) r
        ≡ some r')
      × Stands r' n ns
      × (behind t m ms ≡ kept n ns)
      × (length ns ≤ length ms)

  abbrev shows : Meas → List Meas → CompressedReader → ChunkReader → ChunkReader
  shows m ms rdr r = record r {
    top_value_exists = true;
    count = length ms;
    top_value = m;
    compressed_rdr = rdr;
  }

  loop_new :
      (t : ℕ) (m : Meas) (ms : List Meas) (r : ChunkReader) (rdr : CompressedReader)
      → Facade.read checks r.compressed_rdr ≡ some (m, rdr)
      → (m.time == t) ≡ false
      → skip_loop checks t (suc (length ms)) r ≡ some (shows m ms rdr r)
  unfolding skip_loop
  loop_new t m ms r rdr e new = rw (e, new) refl

  loop_same :
      (t : ℕ) (m : Meas) (ms : List Meas) (r : ChunkReader) (rdr : CompressedReader)
      → Facade.read checks r.compressed_rdr ≡ some (m, rdr)
      → (m.time == t) ≡ true
      → skip_loop checks t (suc (length ms)) r ≡ skip_loop checks t (length ms) (shows m ms rdr r)
  unfolding skip_loop
  loop_same t m ms r rdr e same = rw (e, same) refl

  behind_new :
      (t : ℕ) (m : Meas) (ms : List Meas) → (m.time == t) ≡ false → behind t m ms ≡ kept m ms
  behind_new t m [] new = refl
  behind_new t m (n ∷ ns) new = rw new refl

  stopped :
      (t : ℕ) (m : Meas) (ms : List Meas) (r : ChunkReader) (rdr : CompressedReader)
      → read_all checks (length ms) rdr ≡ some ms
      → skip_loop checks t (suc (length ms)) r ≡ some (shows m ms rdr r)
      → behind t m ms ≡ kept m ms
      → Skipped t m ms r
  stopped t m ms r rdr more found seen = (
    shows m ms rdr r,
    m,
    ms,
    found,
    record { exists = refl; shown = refl; count = refl; rest = more },
    seen,
    omega arith,
  )

  pub skip_lem :
      (t : ℕ) (m : Meas) (ms : List Meas) (r : ChunkReader)
      → read_all checks (suc (length ms)) r.compressed_rdr ≡ some (m ∷ ms)
      → Skipped t m ms r
  skip_lem t m [] r h =
      let (rdr, e, more) = read_all_inv m [] r.compressed_rdr h in
      stopped t m [] r rdr more
        (elim (Bool-cases (m.time == t)) [
          | inl same ↦ loop_same t m [] r rdr e same ∙ unfold skip_loop in refl
          | inr new ↦ loop_new t m [] r rdr e new
        ])
        refl
  skip_lem t m (n ∷ ns) r h =
      let (rdr, e, more) = read_all_inv m (n ∷ ns) r.compressed_rdr h in
      elim (Bool-cases (m.time == t)) [
        | inl same ↦
            let (r', x, xs, found, stands, seen, fewer) =
              skip_lem t n ns (shows m (n ∷ ns) rdr r) more in
            (
              r',
              x,
              xs,
              loop_same t m (n ∷ ns) r rdr e same ∙ found,
              stands,
              rw same seen,
              omega arith,
            )
        | inr new ↦
            stopped t m (n ∷ ns) r rdr more (loop_new t m (n ∷ ns) r rdr e new)
              (behind_new t m (n ∷ ns) new)
      ]

  drain_end :
      (fuel : ℕ) (r : ChunkReader)
      → r.count ≡ 0
      → r.top_value_exists ≡ false
      → drain checks (suc fuel) r ≡ some []
  unfolding drain is_end
  drain_end fuel r e f = rw (e, f) refl

  pub next_last :
      (r : ChunkReader)
      → r.count ≡ 0
      → r.top_value_exists ≡ true
      → read_next checks r ≡ some (r.top_value, record r { top_value_exists = false })
  unfolding read_next is_end
  next_last r e f = rw (e, f) (ground (arith, Bool-cases checks))

  pub next_skips :
      (n : ℕ) (r r' : ChunkReader)
      → r.count ≡ suc n
      → r.top_value_exists ≡ true
      → skip_loop checks r.top_value.time (suc n) r ≡ some r'
      → read_next checks r ≡ some (r.top_value, r')
  unfolding read_next is_end skip_duplicates
  next_skips n r r' e f found = rw (e, f, found) (ground (arith, Bool-cases checks))

  drain_next :
      (fuel : ℕ) (r r' : ChunkReader) (m : Meas) (ms : List Meas)
      → r.top_value_exists ≡ true
      → read_next checks r ≡ some (m, r')
      → drain checks fuel r' ≡ some ms
      → drain checks (suc fuel) r ≡ some (m ∷ ms)
  unfolding drain is_end
  drain_next fuel r r' m ms f e g = rw (e, g) (rw f (ground arith))

  -- A chunk reader that shows a measurement and has a stream of others to read, read until its
  -- end with fuel for two rounds more than these, returns the shown one and the others, less
  -- those that repeat the time of the one before; the last of all is returned even if it repeats
  -- it.
  pub drain_lem :
      (fuel : ℕ) (r : ChunkReader) (m : Meas) (ms : List Meas)
      → Stands r m ms
      → length ms + 2 ≤ fuel
      → drain checks fuel r ≡ some (kept m ms)
  drain_lem zero r m ms h enough = absurd (omega arith)
  drain_lem (suc zero) r m ms h enough = absurd (omega arith)
  drain_lem (suc (suc fuel)) r m [] h enough =
      drain_next (suc fuel) r _ r.top_value [] h.exists (next_last r h.count h.exists)
        (drain_end fuel (record r { top_value_exists = false }) h.count refl)
      ∙ ap (λ x. some (x ∷ [])) h.shown
  drain_lem (suc (suc fuel)) r m (x ∷ xs) h enough =
      let (r', n, ns, found, stands, seen, fewer) = skip_lem r.top_value.time x xs r h.rest in
      drain_next (suc fuel) r r' r.top_value (kept n ns) h.exists
        (next_skips (length xs) r r' h.count h.exists found)
        (drain_lem (suc fuel) r' n ns stands (omega arith))
      ∙ ap (λ l. some (r.top_value ∷ l)) (sym seen)
      ∙ ap (λ (y : Meas). some (y ∷ behind y.time x xs)) h.shown
