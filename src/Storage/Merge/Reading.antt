-- ===== src/Storage/Merge/Reading.antt =====
-- storage/cursors.cpp: `MergeSortCursor` against the union of what its readers give.
use memseries.Base.{
  ℕ, suc, ◌+◌, ◌<◌, ◌≡◌, arith, refl, ap, sym, ◌∙◌, subst, Bool, Bool-cases, true, false, ◌==◌,
  ==_iff,
}
use memseries.Base.{some, List, [], ◌∷◌, map, inl, inr}
use memseries.Meas.{Meas, max_time}
use memseries.Storage.Cursor.{ICursor, Gives}
use memseries.Storage.Merge.{get_top_time, skip_time, skip_reader}
use memseries.Storage.Merge.Union.{without}
use memseries.Storage.Merge.Least.{head_time, HeadsBelow}

abbrev pub null : List Meas → Bool
null [] = true
null (m ∷ ms) = false

-- Times that rise strictly and stay before `MAX_TIME`.
abbrev pub RisesFrom : ℕ → List Meas → Type 0
RisesFrom t [] = Unit {0}
RisesFrom t (m ∷ ms) = (t < m.time) × (m.time < max_time) × RisesFrom m.time ms

abbrev pub IsRising : List Meas → Type 0
IsRising [] = Unit {0}
IsRising (m ∷ ms) = (m.time < max_time) × RisesFrom m.time ms

abbrev pub AreRising : List (List Meas) → Type 0
AreRising [] = Unit {0}
AreRising (l ∷ ls) = IsRising l × AreRising ls

pub RisesFrom-IsRising : (t : ℕ) (l : List Meas) → RisesFrom t l → IsRising l
RisesFrom-IsRising t [] h = tt
RisesFrom-IsRising t (m ∷ ms) (up, below, h) = (below, h)

without-IsRising : (t : ℕ) (l : List Meas) → IsRising l → IsRising (without t l)
without-IsRising t [] h = tt
without-IsRising t (m ∷ ms) (below, h) = elim (Bool-cases (m.time == t)) [
  | inl same ↦ rw same (RisesFrom-IsRising m.time ms h)
  | inr new ↦ rw new (below, h)
]

pub without-AreRising :
    (t : ℕ) (ls : List (List Meas)) → AreRising ls → AreRising (map (without t) ls)
without-AreRising t [] h = tt
without-AreRising t (l ∷ ls) (here, h) = (without-IsRising t l here, without-AreRising t ls h)

pub AreRising-HeadsBelow : (ls : List (List Meas)) → AreRising ls → HeadsBelow ls
AreRising-HeadsBelow [] h = tt
AreRising-HeadsBelow ([] ∷ ls) (here, h) = AreRising-HeadsBelow ls h
AreRising-HeadsBelow ((m ∷ ms) ∷ ls) (here, h) = (here.0, AreRising-HeadsBelow ls h)

module _ {S : Type 0} (o : ICursor S) (checks : Bool) where
  pub is_end-Gives : (r : S) (l : List Meas) → Gives o checks r l → o.is_end r ≡ null l
  is_end-Gives r [] g = g
  is_end-Gives r (m ∷ ms) g = g.0

  pub get_top_time-Gives :
      (r : S) (l : List Meas) → Gives o checks r l → get_top_time o r ≡ some (head_time l)
  unfolding get_top_time
  get_top_time-Gives r [] g = rw g refl
  get_top_time-Gives r (m ∷ ms) (going, top, g) = rw (going, top) refl

  skip_time_end : (t n : ℕ) (r : S) → o.is_end r ≡ true → skip_time o checks t (suc n) r ≡ some r
  unfolding skip_time
  skip_time_end t n r e = rw e refl

  skip_time_new :
      (t n : ℕ) (r : S) (m : Meas)
      → o.is_end r ≡ false
      → o.top r ≡ some m
      → (m.time == t) ≡ false
      → skip_time o checks t (suc n) r ≡ some r
  unfolding skip_time
  skip_time_new t n r m e f new = rw (e, f, new) refl

  skip_time_same :
      (t n : ℕ) (r r' : S) (m : Meas)
      → o.is_end r ≡ false
      → o.top r ≡ some m
      → (m.time == t) ≡ true
      → o.read_next checks r ≡ some (m, r')
      → skip_time o checks t (suc n) r ≡ skip_time o checks t n r'
  unfolding skip_time
  skip_time_same t n r r' m e f same g = rw (e, f, same, g) refl

  -- A reader of rising times stands behind the time `t` after at most one read.
  skip_stops :
      (t n : ℕ) (r : S) (ms : List Meas)
      → RisesFrom t ms
      → Gives o checks r ms
      → skip_time o checks t (suc n) r ≡ some r
  skip_stops t n r [] h g = skip_time_end t n r g
  skip_stops t n r (m ∷ ms) (up, below, h) (going, top, g) =
      skip_time_new t n r m going top (ground arith)

  skip_time-Gives :
      (t n : ℕ) (r : S) (m : Meas) (ms : List Meas)
      → (m.time == t) ≡ true
      → IsRising (m ∷ ms)
      → Gives o checks r (m ∷ ms)
      → (r' : S) × (skip_time o checks t (n + 2) r ≡ some r') × Gives o checks r' ms
  skip_time-Gives t n r m ms same (below, h) (going, top, (r', e, g)) =
      let at_t : m.time ≡ t = (==_iff m.time t).0 same in
      let fuel : suc (suc n) ≡ n + 2 = omega arith in
      (
        r',
        ap (λ (k : ℕ). skip_time o checks t k r) (sym fuel)
            ∙ skip_time_same t (suc n) r r' m going top same e
            ∙ skip_stops t n r' ms (subst (λ (k : ℕ). RisesFrom k ms) at_t h) g,
        g,
      )

  abbrev Skipped : ℕ → S → List Meas → Type 0
  Skipped t r l =
      (r' : S) × (skip_reader o checks t r (head_time l) (null l)
        ≡ some (r', head_time (without t l), null (without t l)))
      × Gives o checks r' (without t l)

  pub skip_reader-Gives :
      (t : ℕ) (r : S) (l : List Meas) → IsRising l → Gives o checks r l → Skipped t r l
  unfolding skip_reader
  skip_reader-Gives t r [] h g = (r, rw g (ground (arith, Bool-cases checks)), g)
  skip_reader-Gives t r (m ∷ ms) h g = elim (Bool-cases (m.time == t)) [
    | inl same ↦
        let (r', run, g') = skip_time-Gives t (o.count r) r m ms same h g in
        (
          r',
          rw (g.0, same, run, get_top_time-Gives r' ms g', is_end-Gives r' ms g')
              (ground (arith, Bool-cases checks, Bool-cases (null ms))),
          rw same g',
        )
    | inr new ↦ (r, rw (g.0, new, g.0) (ground (arith, Bool-cases checks)), rw new g)
  ]
