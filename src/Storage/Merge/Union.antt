-- ===== src/Storage/Merge/Union.antt =====
-- The specification of a merge: the union of lists by time. Of two measurements of one time the one
-- of the earlier list is kept.
use memseries.Base.{
  ℕ, ◌≤◌, ◌<◌, ◌≡◌, ◌≢◌, arith, refl, ap, sym, ◌∙◌, Bool, Bool-cases, true, false, ◌==◌, ltb,
  if◌then◌else◌,
}
use memseries.Base.{Option, none, some, List, [], ◌∷◌, map, inl, inr, ◌⊎◌}
use memseries.Meas.{Meas}

-- The union of `m ∷ ms` with the second list, by the union of `ms` with any.
abbrev pub union_with : Meas → List Meas → (List Meas → List Meas) → List Meas → List Meas
union_with m ms rest [] = m ∷ ms
union_with m ms rest (n ∷ ns) =
    let later = union_with m ms rest ns in
    let both = rest ns in
    let first = rest (n ∷ ns) in
    if ltb m.time n.time then m ∷ first else if m.time == n.time then m ∷ both else n ∷ later

unfoldable pub union : List Meas → List Meas → List Meas
union [] ns = ns
union (m ∷ ms) ns = union_with m ms (union ms) ns

unfoldable pub union_all : List (List Meas) → List Meas
unfolding union
union_all [] = []
union_all (l ∷ ls) = union l (union_all ls)

-- A list without its head, if that is of time `t`.
abbrev pub without : ℕ → List Meas → List Meas
without t [] = []
without t (m ∷ ms) = if m.time == t then ms else m ∷ ms

-- The head that comes first: the least time, and the earliest list with it.
abbrev pub earlier : Option Meas → Option Meas → Option Meas
earlier none b = b
earlier (some m) none = some m
earlier (some m) (some n) = if ltb n.time m.time then some n else some m

abbrev pub head_of : List Meas → Option Meas
head_of [] = none
head_of (m ∷ ms) = some m

abbrev pub pick : List (List Meas) → Option Meas
pick [] = none
pick (l ∷ ls) = earlier (head_of l) (pick ls)

abbrev pub all_null : List (List Meas) → Bool
all_null [] = true
all_null ([] ∷ ls) = all_null ls
all_null ((m ∷ ms) ∷ ls) = false

-- No head is of time `t`.
abbrev pub NoHead : ℕ → List (List Meas) → Type 0
NoHead t [] = Unit {0}
NoHead t ([] ∷ ls) = NoHead t ls
NoHead t ((m ∷ ms) ∷ ls) = (m.time ≢ t) × NoHead t ls

pub union_nil : (l : List Meas) → union l [] ≡ l
unfolding union
union_nil [] = refl
union_nil (m ∷ ms) = refl

module _ (m n : Meas) (ms ns : List Meas) where
  pub union_before : m.time < n.time → union (m ∷ ms) (n ∷ ns) ≡ m ∷ union ms (n ∷ ns)
  unfolding union
  union_before h = ground arith

  pub union_same : m.time ≡ n.time → union (m ∷ ms) (n ∷ ns) ≡ m ∷ union ms ns
  unfolding union
  union_same h = ground arith

  pub union_after : n.time < m.time → union (m ∷ ms) (n ∷ ns) ≡ n ∷ union (m ∷ ms) ns
  unfolding union
  union_after h = ground arith

-- All heads are of time `t` or later.
abbrev pub HeadsFrom : ℕ → List (List Meas) → Type 0
HeadsFrom t [] = Unit {0}
HeadsFrom t ([] ∷ ls) = HeadsFrom t ls
HeadsFrom t ((m ∷ ms) ∷ ls) = (t ≤ m.time) × HeadsFrom t ls

HeadsFrom-NoHead : (t u : ℕ) (ls : List (List Meas)) → t < u → HeadsFrom u ls → NoHead t ls
HeadsFrom-NoHead t u [] h g = tt
HeadsFrom-NoHead t u ([] ∷ ls) h g = HeadsFrom-NoHead t u ls h g
HeadsFrom-NoHead t u ((m ∷ ms) ∷ ls) h (here, rest) =
    (λ e. absurd (omega arith), HeadsFrom-NoHead t u ls h rest)

HeadsFrom-le : (t u : ℕ) (ls : List (List Meas)) → t ≤ u → HeadsFrom u ls → HeadsFrom t ls
HeadsFrom-le t u [] h g = tt
HeadsFrom-le t u ([] ∷ ls) h g = HeadsFrom-le t u ls h g
HeadsFrom-le t u ((m ∷ ms) ∷ ls) h (here, rest) = (omega arith, HeadsFrom-le t u ls h rest)

pub map-without_none : (t : ℕ) (ls : List (List Meas)) → NoHead t ls → map (without t) ls ≡ ls
map-without_none t [] h = refl
map-without_none t ([] ∷ ls) h = ap (λ x. [] ∷ x) (map-without_none t ls h)
map-without_none t ((m ∷ ms) ∷ ls) (new, h) = rw (map-without_none t ls h) (ground arith)

pub union_all-nil : (ls : List (List Meas)) → union_all ls ≡ [] → all_null ls ≡ true
unfolding union_all union
union_all-nil [] e = refl
union_all-nil ([] ∷ ls) e = union_all-nil ls e
union_all-nil ((m ∷ ms) ∷ ls) e = absurd (not_nil (union_all ls) e)
  where
    not_nil : (ns : List Meas) → union (m ∷ ms) ns ≡ [] → ⊥
    not_nil [] e = cc
    not_nil (n ∷ ns) e = elim (Bool-cases (ltb m.time n.time)) [
      | inl h ↦ cc (rw h at e)
      | inr h ↦ elim (Bool-cases (m.time == n.time)) [
        | inl g ↦ cc (rw (h, g) at e)
        | inr g ↦ cc (rw (h, g) at e)
      ]
    ]

pub all_null-union_all : (ls : List (List Meas)) → all_null ls ≡ true → union_all ls ≡ []
unfolding union_all union
all_null-union_all [] e = refl
all_null-union_all ([] ∷ ls) e = all_null-union_all ls e
all_null-union_all ((m ∷ ms) ∷ ls) e = cc

null_facts :
    (t : ℕ) (ls : List (List Meas))
    → all_null ls ≡ true
    → (pick ls ≡ none) × NoHead t ls × HeadsFrom t ls
null_facts t [] e = (refl, tt, tt)
null_facts t ([] ∷ ls) e = null_facts t ls e
null_facts t ((m ∷ ms) ∷ ls) e = cc

compare_cases : (a b : ℕ) → (a < b) ⊎ ((a ≡ b) ⊎ (b < a))
compare_cases a b = elim (Bool-cases (ltb a b)) [
  | inl h ↦ inl (ground arith)
  | inr h ↦ elim (Bool-cases (a == b)) [
    | inl g ↦ inr (inl (ground arith))
    | inr g ↦ inr (inr (ground arith))
  ]
]

List-cases : (l : List Meas) → (l ≡ []) ⊎ ((m : Meas) × (ms : List Meas) × (l ≡ m ∷ ms))
List-cases [] = inl refl
List-cases (m ∷ ms) = inr (m, ms, refl)

-- The first of a union, and the union without the measurements of its time at the heads.
abbrev pub First : List (List Meas) → Meas → List Meas → Type 0
First ls m rest =
    (pick ls ≡ some m) × (union_all (map (without m.time) ls) ≡ rest) × HeadsFrom m.time ls

module _ (x : Meas) (xs : List Meas) (ls : List (List Meas)) where
  First-alone : union_all ls ≡ [] → First ((x ∷ xs) ∷ ls) x xs
  unfolding union_all
  First-alone e =
      let (picked, new, from) = null_facts x.time ls (union_all-nil ls e) in
      (
        rw picked refl,
        rw (map-without_none x.time ls new, e) (ground (arith, union_nil xs)),
        (omega arith, from),
      )

  module _ (y : Meas) (ys : List Meas) (e : union_all ls ≡ y ∷ ys) (f : First ls y ys) where
    First-before : x.time < y.time → First ((x ∷ xs) ∷ ls) x (union xs (y ∷ ys))
    unfolding union_all
    First-before h = (
      rw (f.0) (ground arith),
      rw (map-without_none x.time ls (HeadsFrom-NoHead x.time y.time ls h (f.2)), e) (ground arith),
      (omega arith, HeadsFrom-le x.time y.time ls (omega arith) (f.2)),
    )

    First-same : x.time ≡ y.time → First ((x ∷ xs) ∷ ls) x (union xs ys)
    unfolding union_all
    First-same h =
        let tail : union_all (map (without x.time) ls) ≡ ys =
          ap (λ (t : ℕ). union_all (map (without t) ls)) h ∙ f.1 in
        (
          rw (f.0) (ground arith),
          rw tail (ground arith),
          (omega arith, HeadsFrom-le x.time y.time ls (omega arith) (f.2)),
        )

    First-after : y.time < x.time → First ((x ∷ xs) ∷ ls) y (union (x ∷ xs) ys)
    unfolding union_all
    First-after h = (rw (f.0) (ground arith), rw (f.1) (ground arith), (omega arith, f.2))

cons_parts {ℓ} : {A : Type ℓ} {a b : A} {xs ys : List A} → a ∷ xs ≡ b ∷ ys → (a ≡ b) × (xs ≡ ys)
cons_parts e = (cc, cc)

same_First :
    (ls : List (List Meas)) (x m : Meas) (xs rest : List Meas)
    → x ∷ xs ≡ m ∷ rest
    → First ls x xs
    → First ls m rest
same_First ls x m xs rest e f = let (a, b) = cons_parts e in rw (← a, ← b) f

pub union_all-First :
    (ls : List (List Meas)) (m : Meas) (rest : List Meas)
    → union_all ls ≡ m ∷ rest
    → First ls m rest
unfolding union_all
union_all-First [] m rest e = cc
union_all-First ([] ∷ ls) m rest e = unfold union in (union_all-First ls m rest (unfold union in e))
union_all-First ((x ∷ xs) ∷ ls) m rest e = elim (List-cases (union_all ls)) [
  | inl none_left ↦
      same_First ((x ∷ xs) ∷ ls) x m xs rest
        (sym (union_nil (x ∷ xs)) ∙ ap (union (x ∷ xs)) (sym none_left) ∙ e)
        (First-alone x xs ls none_left)
  | inr (y, ys, some_left) ↦
      let f = union_all-First ls y ys some_left in
      let whole : union (x ∷ xs) (y ∷ ys) ≡ m ∷ rest = ap (union (x ∷ xs)) (sym some_left) ∙ e in
      elim (compare_cases x.time y.time) [
        | inl h ↦
            same_First ((x ∷ xs) ∷ ls) x m (union xs (y ∷ ys)) rest
              (sym (union_before x y xs ys h) ∙ whole) (First-before x xs ls y ys some_left f h)
        | inr (inl h) ↦
            same_First ((x ∷ xs) ∷ ls) x m (union xs ys) rest (sym (union_same x y xs ys h) ∙ whole)
              (First-same x xs ls y ys some_left f h)
        | inr (inr h) ↦
            same_First ((x ∷ xs) ∷ ls) y m (union (x ∷ xs) ys) rest
              (sym (union_after x y xs ys h) ∙ whole) (First-after x xs ls y ys some_left f h)
      ]
]
