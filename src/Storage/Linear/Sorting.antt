-- ===== src/Storage/Linear/Sorting.antt =====
-- storage/cursors.cpp: what `LinearCursor` relies on of `std::sort`, for the comparator of a key.
use memseries.Base.{ℕ, suc, ◌≤◌, ◌≡◌, refl, ap, ap₂, ◌∙◌, Bool, ltb, List, [], ◌∷◌, length, map}

-- The elements of a list in another order.
pub data Reordered {ℓ} {A : Type ℓ} : List A → List A → Type ℓ where
  nil : Reordered [] []
  skip : {a : A} {xs ys : List A} → Reordered xs ys → Reordered (a ∷ xs) (a ∷ ys)
  swap : {a b : A} {xs : List A} → Reordered (a ∷ b ∷ xs) (b ∷ a ∷ xs)
  trans : {xs ys zs : List A} → Reordered xs ys → Reordered ys zs → Reordered xs zs

module _ {ℓ} {A : Type ℓ} where
  -- The keys do not fall, from a bound on.
  abbrev pub KeysRise : (A → ℕ) → ℕ → List A → Type 0
  KeysRise key k [] = Unit {0}
  KeysRise key k (x ∷ xs) = (k ≤ key x) × KeysRise key (key x) xs

  -- The law of `std::sort`: it reorders, and with the comparator of a key the keys rise.
  abbrev pub IsSort : ((A → A → Bool) → List A → List A) → Type ℓ
  IsSort sort =
      (key : A → ℕ) (xs : List A)
      → Reordered xs (sort (λ l r. ltb (key l) (key r)) xs)
        × KeysRise key 0 (sort (λ l r. ltb (key l) (key r)) xs)

  pub reordered_refl : (xs : List A) → Reordered xs xs
  reordered_refl [] = Reordered.nil
  reordered_refl (x ∷ xs) = Reordered.skip (reordered_refl xs)

  pub length-Reordered : {xs ys : List A} → Reordered xs ys → length xs ≡ length ys
  length-Reordered Reordered.nil = refl
  length-Reordered (Reordered.skip p) = ap suc (length-Reordered p)
  length-Reordered Reordered.swap = refl
  length-Reordered (Reordered.trans p q) = length-Reordered p ∙ length-Reordered q

-- An order of the first components is one of the pairs.
pub Reordered-of_firsts {ℓ κ} :
    {A : Type ℓ} {B : Type κ} {xs ys : List A}
    → Reordered xs ys
    → (ps : List (A × B)) → map (λ p. p.0) ps ≡ xs
    → (qs : List (A × B)) × (map (λ p. p.0) qs ≡ ys) × Reordered ps qs
Reordered-of_firsts Reordered.nil [] e = ([], refl, Reordered.nil)
Reordered-of_firsts Reordered.nil (p ∷ ps) e = cc
Reordered-of_firsts (Reordered.skip r) [] e = cc
Reordered-of_firsts (Reordered.skip {a = a} {xs = xs} {ys = ys} r) (p ∷ ps) e =
    let head : p.0 ≡ a = cc in
    let tail : map (λ q. q.0) ps ≡ xs = cc in
    let (qs, e', r') = Reordered-of_firsts r ps tail in (p ∷ qs, ap₂ ◌∷◌ head e', Reordered.skip r')
Reordered-of_firsts Reordered.swap [] e = cc
Reordered-of_firsts Reordered.swap (p ∷ []) e = cc
Reordered-of_firsts (Reordered.swap {a = a} {b = b} {xs = xs}) (p ∷ q ∷ ps) e =
    let first : p.0 ≡ a = cc in
    let second : q.0 ≡ b = cc in
    let tail : map (λ z. z.0) ps ≡ xs = cc in
    (q ∷ p ∷ ps, rw (first, second, tail) refl, Reordered.swap)
Reordered-of_firsts (Reordered.trans r s) ps e =
    let (qs, e', r') = Reordered-of_firsts r ps e in
    let (zs, e'', s') = Reordered-of_firsts s qs e' in (zs, e'', Reordered.trans r' s')
