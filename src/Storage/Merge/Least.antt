-- ===== src/Storage/Merge/Least.antt =====
-- The scan of `get_cursor_with_min_time` finds the head that the union takes first.
use memseries.Base.{
  ℕ, suc, ◌+◌, ◌<◌, ◌≡◌, arith, refl, ap, ◌∙◌, Bool-cases, not, ◌&&◌, ◌==◌, ltb, ltb→lt, ==_iff,
  if◌then◌else◌,
}
use memseries.Base.{Option, none, some, List, [], ◌∷◌, map, inl, inr, get_elem?}
use memseries.Meas.{Meas, max_time}
use memseries.Storage.Merge.{least_loop}
use memseries.Storage.Merge.Union.{pick, earlier, HeadsFrom}

some_parts : {a b : Meas} → ◌≡◌ {A = Option Meas} (some a) (some b) → a ≡ b
some_parts e = cc

-- What `top_times` holds for a reader with these measurements to come.
abbrev pub head_time : List Meas → ℕ
head_time [] = max_time
head_time (m ∷ ms) = m.time

-- All heads are before `MAX_TIME`.
abbrev pub HeadsBelow : List (List Meas) → Type 0
HeadsBelow [] = Unit {0}
HeadsBelow ([] ∷ ls) = HeadsBelow ls
HeadsBelow ((m ∷ ms) ∷ ls) = (m.time < max_time) × HeadsBelow ls

least_kept :
    (ls : List (List Meas)) (i t k : ℕ)
    → HeadsFrom t ls
    → HeadsBelow ls
    → least_loop (map head_time ls) i t k ≡ (t, k)
unfolding least_loop
least_kept [] i t k h below = refl
least_kept ([] ∷ ls) i t k h below = ground (arith, least_kept ls (i + 1) t k h below)
least_kept ((x ∷ xs) ∷ ls) i t k (from, h) (here, below) =
    ground (arith, least_kept ls (i + 1) t k h below)

earlier_same :
    (x m : Meas) (p : Option Meas) → earlier (some x) p ≡ some m → x.time ≡ m.time → x ≡ m
earlier_same x m none e h = some_parts e
earlier_same x m (some n) e h = elim (Bool-cases (ltb n.time x.time)) [
  | inl less ↦
      let same : n ≡ m = some_parts (rw less at e) in
      absurd (omega (arith, ap (λ (y : Meas). y.time) same, ltb→lt n.time x.time less))
  | inr other ↦ some_parts (rw other at e)
]

earlier_other :
    (x m : Meas) (p : Option Meas) → earlier (some x) p ≡ some m → m.time < x.time → p ≡ some m
earlier_other x m none e h = absurd (omega (arith, ap (λ (y : Meas). y.time) (some_parts e)))
earlier_other x m (some n) e h = elim (Bool-cases (ltb n.time x.time)) [
  | inl less ↦ rw less at e
  | inr other ↦ absurd (omega (arith, ap (λ (y : Meas). y.time) (some_parts (rw other at e))))
]

abbrev pub FoundAt : List (List Meas) → Meas → ℕ → ℕ → ℕ → Type 0
FoundAt ls m i t k =
    (j : ℕ) × (ms : List Meas) × (get_elem? ls j ≡ some (m ∷ ms))
    × (least_loop (map head_time ls) i t k ≡ (m.time, i + j))

pub least_found :
    (ls : List (List Meas)) (m : Meas) (i t k : ℕ)
    → pick ls ≡ some m
    → HeadsFrom m.time ls
    → HeadsBelow ls
    → m.time < t
    → FoundAt ls m i t k
unfolding least_loop
least_found [] m i t k p from below h = cc
least_found ([] ∷ ls) m i t k p from below h =
    let (j, ms, place, found) = least_found ls m (i + 1) t k p from below h in
    (suc j, ms, place, ground (arith, found))
least_found ((x ∷ xs) ∷ ls) m i t k p (first, from) (here, below) h =
    elim (Bool-cases (x.time == m.time)) [
      | inl same ↦
          let e : x.time ≡ m.time = (==_iff x.time m.time).0 same in
          let it : x ≡ m = earlier_same x m (pick ls) p e in
          (
            0,
            xs,
            ap (λ y. some (y ∷ xs)) it,
            ground (arith, least_kept ls (i + 1) m.time i from below),
          )
      | inr new ↦
          let less : m.time < x.time = ground arith in
          let nearer : m.time < (if not (x.time == max_time) && ltb x.time t then x.time else t) =
            ground arith in
          let (j, ms, place, found) =
            least_found ls m (i + 1)
              (if not (x.time == max_time) && ltb x.time t then x.time else t)
              (if not (x.time == max_time) && ltb x.time t then i else k)
              (earlier_other x m (pick ls) p less) from below nearer in
          (suc j, ms, place, found ∙ ap (λ (n : ℕ). (m.time, n)) (omega arith))
    ]

pub pick_below :
    (ls : List (List Meas)) (m : Meas) → pick ls ≡ some m → HeadsBelow ls → m.time < max_time
pick_below [] m p below = cc
pick_below ([] ∷ ls) m p below = pick_below ls m p below
pick_below ((x ∷ xs) ∷ ls) m p (here, below) = elim (Bool-cases (ltb m.time x.time)) [
  | inl less ↦ pick_below ls m (earlier_other x m (pick ls) p (ltb→lt m.time x.time less)) below
  | inr other ↦ not_later x m (pick ls) p here below (λ n. pick_below ls n)
]
  where
    not_later :
        (x m : Meas) (o : Option Meas)
        → earlier (some x) o ≡ some m
        → x.time < max_time
        → HeadsBelow ls
        → ((n : Meas) → o ≡ some n → HeadsBelow ls → n.time < max_time)
        → m.time < max_time
    not_later x m none e h b f = omega (arith, ap (λ (y : Meas). y.time) (some_parts e))
    not_later x m (some n) e h b f = elim (Bool-cases (ltb n.time x.time)) [
      | inl less ↦ f m (rw less at e) b
      | inr other ↦ omega (arith, ap (λ (y : Meas). y.time) (some_parts (rw other at e)))
    ]
