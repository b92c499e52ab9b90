-- ===== src/Storage/FullCursor/Drain.antt =====
-- A `FullCursor` that is read to its end.
use memseries.Base.{ℕ, zero, suc, ◌+◌, ◌≤◌, ◌<◌, ◌≡◌, arith, refl, ap, sym, ◌∙◌, subst}
use memseries.Base.{Bool, Bool-cases, true, false, ◌==◌, ltb, if◌then◌else◌, inl, inr}
use memseries.Base.{Option, none, some, ◌>>=◌, List, [], ◌∷◌, length, get_elem?}
use memseries.Meas.{Meas, min_time, max_time}
use memseries.Storage.FullCursor.{
  FullCursor, new_full_cursor, full_is_end, skip_equal, full_read_next, least_time, greatest_time,
}
use memseries.Storage.Statistic.{min_by, max_by}

unfoldable pub full_drain : Bool → ℕ → FullCursor → Option (List Meas)
full_drain checks zero c = none
full_drain checks (suc rounds) c =
    let more = (do
      (m, c') ← full_read_next checks c
      ms ← full_drain checks rounds c'
      some (m ∷ ms)) in
    if full_is_end c then some [] else more

-- What follows the measurements of time `t` at the front.
abbrev pub past : ℕ → List Meas → List Meas
past t [] = []
past t (m ∷ ms) = if m.time == t then past t ms else m ∷ ms

-- The first measurement of each run of one time.
abbrev pub firsts_behind : ℕ → List Meas → List Meas
firsts_behind t [] = []
firsts_behind t (m ∷ ms) = if m.time == t then firsts_behind t ms else m ∷ firsts_behind m.time ms

abbrev pub firsts : List Meas → List Meas
firsts [] = []
firsts (m ∷ ms) = m ∷ firsts_behind m.time ms

pub firsts-past : (t : ℕ) (ms : List Meas) → firsts (past t ms) ≡ firsts_behind t ms
firsts-past t [] = refl
firsts-past t (m ∷ ms) = elim (Bool-cases (m.time == t)) [
  | inl same ↦ rw same (firsts-past t ms)
  | inr new ↦ rw new refl
]

pub length-past : (t : ℕ) (ms : List Meas) → length (past t ms) ≤ length ms
length-past t [] = omega arith
length-past t (m ∷ ms) = ground (arith, length-past t ms)

-- The array from an index on, as the list that is left.
abbrev pub Left : List Meas → ℕ → List Meas → Type 0
Left ma i [] = length ma ≡ i
Left ma i (m ∷ ms) = (get_elem? ma i ≡ some m) × Left ma (i + 1) ms

out_of_range : (ma : List Meas) (i : ℕ) → length ma ≤ i → get_elem? ma i ≡ none
out_of_range [] i h = refl
out_of_range (m ∷ ms) zero h = absurd (omega arith)
out_of_range (m ∷ ms) (suc i) h = out_of_range ms i (omega arith)

pub in_range : (ma : List Meas) (i : ℕ) {m : Meas} → get_elem? ma i ≡ some m → i < length ma
in_range [] i h = cc
in_range (m ∷ ms) zero h = omega arith
in_range (m ∷ ms) (suc i) h = omega (arith, in_range ms i h)

skip_equal_end :
    (rounds : ℕ) (ma : List Meas) (t i : ℕ)
    → get_elem? ma i ≡ none
    → skip_equal (suc rounds) ma t i ≡ i
unfolding skip_equal
skip_equal_end rounds ma t i e = rw e refl

skip_equal_new :
    (rounds : ℕ) (ma : List Meas) (t i : ℕ) (m : Meas)
    → get_elem? ma i ≡ some m
    → (m.time == t) ≡ false
    → skip_equal (suc rounds) ma t i ≡ i
unfolding skip_equal
skip_equal_new rounds ma t i m e new = rw (e, new) refl

skip_equal_same :
    (rounds : ℕ) (ma : List Meas) (t i : ℕ) (m : Meas)
    → get_elem? ma i ≡ some m
    → (m.time == t) ≡ true
    → skip_equal (suc rounds) ma t i ≡ skip_equal rounds ma t (i + 1)
unfolding skip_equal
skip_equal_same rounds ma t i m e same = rw (e, same) refl

pub skip_equal-past :
    (rounds : ℕ) (ma : List Meas) (t i : ℕ) (ms : List Meas)
    → Left ma i ms
    → length ms ≤ rounds
    → Left ma (skip_equal rounds ma t i) (past t ms)
skip_equal-past zero ma t i [] h enough = unfold skip_equal in h
skip_equal-past zero ma t i (m ∷ ms) h enough = absurd (omega arith)
skip_equal-past (suc rounds) ma t i [] h enough =
    h ∙ sym (skip_equal_end rounds ma t i (out_of_range ma i (omega arith)))
skip_equal-past (suc rounds) ma t i (m ∷ ms) (here, rest) enough = elim (Bool-cases (m.time == t)) [
  | inl same ↦ rw same (
      subst (λ (j : ℕ). Left ma j (past t ms)) (sym (skip_equal_same rounds ma t i m here same))
        (skip_equal-past rounds ma t (i + 1) ms rest (omega arith)))
  | inr new ↦ rw new (
      subst (λ (j : ℕ). Left ma j (m ∷ ms)) (sym (skip_equal_new rounds ma t i m here new))
        (here, rest))
]

pub length-Left :
    (ma : List Meas) (i : ℕ) (ms : List Meas) → Left ma i ms → length ms + i ≡ length ma
length-Left ma i [] h = omega arith
length-Left ma i (m ∷ ms) (here, rest) = omega (arith, length-Left ma (i + 1) ms rest)

module _ (checks : Bool) where
  pub full_read_next_lem :
      (c : FullCursor) (m : Meas) (ms : List Meas)
      → Left c.ma c.index (m ∷ ms)
      → full_read_next checks c
        ≡ some (m, record c { index = skip_equal (length c.ma) c.ma m.time (c.index + 1) })
  unfolding full_read_next full_is_end
  full_read_next_lem c m ms (here, rest) =
      let inside = in_range c.ma c.index here in rw here (ground (arith, Bool-cases checks))

  full_drain_lem :
      (fuel : ℕ) (c : FullCursor) (ms : List Meas)
      → Left c.ma c.index ms
      → length ms < fuel
      → full_drain checks fuel c ≡ some (firsts ms)
  unfolding full_drain full_is_end
  full_drain_lem zero c ms h enough = absurd (omega arith)
  full_drain_lem (suc fuel) c [] h enough = ground arith
  full_drain_lem (suc fuel) c (m ∷ ms) (here, rest) enough =
      let inside = in_range c.ma c.index here in
      let sizes = length-Left c.ma (c.index + 1) ms rest in
      let next : ℕ = skip_equal (length c.ma) c.ma m.time (c.index + 1) in
      let later =
        full_drain_lem fuel (record c { index = next }) (past m.time ms)
          (skip_equal-past (length c.ma) c.ma m.time (c.index + 1) ms rest (omega arith))
          (omega (arith, length-past m.time ms)) in
      rw (full_read_next_lem c m ms (here, rest), later, firsts-past m.time ms) (ground arith)

Left-suc :
    (x : Meas) (xs : List Meas) (i : ℕ) (ms : List Meas) → Left xs i ms → Left (x ∷ xs) (suc i) ms
Left-suc x xs i [] h = omega arith
Left-suc x xs i (m ∷ ms) (here, rest) =
    let next : suc (i + 1) ≡ suc i + 1 = omega arith in
    (here, subst (λ (j : ℕ). Left (x ∷ xs) j ms) next (Left-suc x xs (i + 1) ms rest))

pub Left-whole : (ma : List Meas) → Left ma 0 ma
Left-whole [] = refl
Left-whole (m ∷ ms) = (refl, Left-suc m ms 0 ms (Left-whole ms))

least_time_le : (ms : List Meas) (t : ℕ) → least_time ms t ≤ t
unfolding least_time
least_time_le [] t = omega arith
least_time_le (m ∷ ms) t = ground (arith, least_time_le ms (min_by ltb t m.time))

le_greatest_time : (ms : List Meas) (t : ℕ) → t ≤ greatest_time ms t
unfolding greatest_time
le_greatest_time [] t = omega arith
le_greatest_time (m ∷ ms) t = ground (arith, le_greatest_time ms (max_by ltb t m.time))

-- The checks of the constructor pass when the first time is before `MAX_TIME`.
pub new_full_cursor_lem :
    (checks : Bool) (m : Meas) (ms : List Meas)
    → m.time < max_time
    → new_full_cursor checks (m ∷ ms)
      ≡ some (record {
        ma = m ∷ ms;
        index = 0;
        min_time = least_time (m ∷ ms) max_time;
        max_time = greatest_time (m ∷ ms) min_time;
      })
unfolding new_full_cursor least_time greatest_time
new_full_cursor_lem checks m ms h = ground (
  arith,
  Bool-cases checks,
  least_time_le ms (min_by ltb max_time m.time),
  le_greatest_time ms (max_by ltb min_time m.time),
)

-- A new cursor over an array whose first time is before MAX_TIME passes its checks, and read
-- until its end, with fuel for one round more than the array has measurements, it returns the
-- first measurement of each run of neighbours of one time.
pub full_drain-firsts :
    (checks : Bool) (m : Meas) (ms : List Meas)
    → m.time < max_time
    → (new_full_cursor checks (m ∷ ms) >>= full_drain checks (length ms + 2))
      ≡ some (firsts (m ∷ ms))
full_drain-firsts checks m ms h =
    ap (λ o. o >>= full_drain checks (length ms + 2)) (new_full_cursor_lem checks m ms h)
    ∙ full_drain_lem checks (length ms + 2) _ (m ∷ ms) (Left-whole (m ∷ ms)) (omega arith)
