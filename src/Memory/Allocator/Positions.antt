-- ===== src/Memory/Allocator/Positions.antt =====
-- Positions of a region: how often one stands in a list.
use memseries.Base.{ℕ, zero, suc, ◌+◌, ◌≤◌, ◌≡◌, ◌≢◌, arith, refl, ap, sym, ◌∙◌, subst}
use memseries.Base.{Bool-cases, ◌==◌, ltb, leb, ◌&&◌, if◌then◌else◌, inl, inr, ◌⊎◌}
use memseries.Base.{List, [], ◌∷◌, ◌++◌, length}

-- How often a position stands in a list.
abbrev pub times : ℕ → List ℕ → ℕ
times p [] = 0
times p (x ∷ xs) = (if x == p then 1 else 0) + times p xs

abbrev pub drop_one : ℕ → List ℕ → List ℕ
drop_one p [] = []
drop_one p (x ∷ xs) = if x == p then xs else x ∷ drop_one p xs

pub times-append : (p : ℕ) (xs ys : List ℕ) → times p (xs ++ ys) ≡ times p xs + times p ys
times-append p [] ys = omega arith
times-append p (x ∷ xs) ys = ground (arith, times-append p xs ys)

times-drop_one_self :
    (p : ℕ) (xs : List ℕ) → 1 ≤ times p xs → times p xs ≡ suc (times p (drop_one p xs))
times-drop_one_self p [] h = absurd (omega arith)
times-drop_one_self p (x ∷ xs) h = ground (arith, times-drop_one_self p xs)

times-drop_one_other : (p q : ℕ) (xs : List ℕ) → p ≢ q → times p (drop_one q xs) ≡ times p xs
times-drop_one_other p q [] h = refl
times-drop_one_other p q (x ∷ xs) h = ground (arith, times-drop_one_other p q xs h)

pub length-drop_one :
    (p : ℕ) (xs : List ℕ) → 1 ≤ times p xs → length xs ≡ suc (length (drop_one p xs))
length-drop_one p [] h = absurd (omega arith)
length-drop_one p (x ∷ xs) h = ground (arith, length-drop_one p xs)

same_or_not : (p x : ℕ) → (p ≡ x) ⊎ (p ≢ x)
same_or_not p x = elim (Bool-cases (p == x)) [
  | inl e ↦ inl (grind arith)
  | inr ne ↦ inr (λ e. grind arith)
]

times-one_self : (x : ℕ) → times x (x ∷ []) ≡ 1
times-one_self x = ground arith

times-one_other : (p x : ℕ) → p ≢ x → times p (x ∷ []) ≡ 0
times-one_other p x ne = ground arith

-- `i`, `i + 1` and so on.
abbrev pub positions : ℕ → ℕ → List ℕ
positions zero i = []
positions (suc n) i = i ∷ positions n (i + 1)

times-positions :
    (p n i : ℕ) → times p (positions n i) ≡ (if leb i p && ltb p (i + n) then 1 else 0)
times-positions p zero i = ground arith
times-positions p (suc n) i = let rest = times-positions p n (i + 1) in ground arith

pub times-positions_zero : (p n : ℕ) → times p (positions n 0) ≡ (if ltb p n then 1 else 0)
times-positions_zero p n = times-positions p n 0 ∙ ground arith

pub length-positions : (n i : ℕ) → length (positions n i) ≡ n
length-positions zero i = refl
length-positions (suc n) i = ap suc (length-positions n (i + 1))

pub times-give :
    (p x : ℕ) (held xs : List ℕ)
    → 1 ≤ times x held
    → times p (drop_one x held) + times p (xs ++ (x ∷ [])) ≡ times p held + times p xs
times-give p x held xs h = elim (same_or_not p x) [
  | inl e ↦
      subst (λ y. times y (drop_one x held) + times y (xs ++ (x ∷ [])) ≡ times y held + times y xs)
        (sym e)
        (omega (arith, times-append x xs (x ∷ []), times-drop_one_self x held h, times-one_self x))
  | inr ne ↦
      omega (
        arith,
        times-append p xs (x ∷ []),
        times-drop_one_other p x held ne,
        times-one_other p x ne,
      )
]
