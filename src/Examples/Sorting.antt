-- ===== src/Examples/Sorting.antt =====
-- A sort by insertion that keeps the law of `std::sort`, for the cursors of storage/cursors.cpp.
use memseries.Base.{ℕ, ◌≤◌, arith, Bool, Bool-cases, ltb, if◌then◌else◌, inl, inr, List, [], ◌∷◌}
use memseries.Storage.Linear.Sorting.{Reordered, KeysRise, IsSort, reordered_refl}

unfoldable insert_by {ℓ} : {A : Type ℓ} → (A → A → Bool) → A → List A → List A
insert_by less x [] = x ∷ []
insert_by less x (y ∷ ys) =
    let later = y ∷ insert_by less x ys in if less y x then later else x ∷ y ∷ ys

unfoldable pub sort_by {ℓ} : {A : Type ℓ} → (A → A → Bool) → List A → List A
unfolding insert_by
sort_by less [] = []
sort_by less (x ∷ xs) = insert_by less x (sort_by less xs)

insert_by-Reordered {ℓ} :
    {A : Type ℓ} (less : A → A → Bool) (x : A) (xs : List A)
    → Reordered (x ∷ xs) (insert_by less x xs)
unfolding insert_by
insert_by-Reordered less x [] = reordered_refl (x ∷ [])
insert_by-Reordered less x (y ∷ ys) = elim (Bool-cases (less y x)) [
  | inl h ↦ rw h (Reordered.trans Reordered.swap (Reordered.skip (insert_by-Reordered less x ys)))
  | inr h ↦ rw h (reordered_refl (x ∷ y ∷ ys))
]

insert_by-KeysRise {ℓ} :
    {A : Type ℓ} (key : A → ℕ) (x : A) (xs : List A) (k : ℕ)
    → k ≤ key x
    → KeysRise key k xs
    → KeysRise key k (insert_by (λ l r. ltb (key l) (key r)) x xs)
unfolding insert_by
insert_by-KeysRise key x [] k h g = (h, tt)
insert_by-KeysRise key x (y ∷ ys) k h (low, g) = elim (Bool-cases (ltb (key y) (key x))) [
  | inl e ↦ rw e (low, insert_by-KeysRise key x ys (key y) (ground arith) g)
  | inr e ↦ rw e (h, (ground arith, g))
]

pub sort_by-IsSort {ℓ} : {A : Type ℓ} → IsSort {A = A} sort_by
unfolding sort_by
sort_by-IsSort {A} key [] = (Reordered.nil, tt)
sort_by-IsSort {A} key (x ∷ xs) =
    let less : A → A → Bool = λ l r. ltb (key l) (key r) in
    let (reordered, rising) = sort_by-IsSort key xs in
    (
      Reordered.trans (Reordered.skip reordered) (insert_by-Reordered less x (sort_by less xs)),
      insert_by-KeysRise key x (sort_by less xs) 0 (omega arith) rising,
    )
