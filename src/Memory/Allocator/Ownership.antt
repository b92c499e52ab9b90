-- ===== src/Memory/Allocator/Ownership.antt =====
-- storage/memstorage/allocators.cpp: which positions of a region clients hold, and which are free.
use memseries.Base.{ℕ, ◌+◌, ◌-◌, ◌%◌, ◌^◌, ◌≤◌, ◌≡◌, arith, refl, ap, sym, ◌∙◌, subst}
use memseries.Base.{ltb, if◌then◌else◌}
use memseries.Base.{List, [], ◌∷◌, ◌++◌, length, length-append}
use memseries.Memory.Allocator.Positions.{
  times, drop_one, positions, length-drop_one, times-give, times-positions_zero, length-positions,
}

-- Every position below the capacity is held once or free once, and no other is.
pub record Owned (capacity room allocated : ℕ) (held free_positions : List ℕ) : Type 0 where
  pub once : (p : ℕ) → times p held + times p free_positions ≡ (if ltb p capacity then 1 else 0)
  pub whole : length held + length free_positions ≡ capacity
  pub room_is : room ≡ capacity
  pub counted : allocated ≡ length held % 2 ^ 64

pub Owned-new :
    {capacity room : ℕ}
    → {xs : List ℕ} → xs ≡ positions capacity 0
    → room ≡ capacity
    → Owned capacity room 0 [] xs
Owned-new {capacity} {xs} e e' = record {
  once = λ p. omega (arith, ap (times p) e, times-positions_zero p capacity);
  whole = omega (arith, ap length e, length-positions capacity 0);
  room_is = e';
  counted = refl;
}

pub Owned-take :
    {capacity room room' allocated x : ℕ}
    → {held xs : List ℕ} → Owned capacity room allocated held (x ∷ xs)
    → room' ≡ room
    → Owned capacity room' ((allocated + 1) % 2 ^ 64) (x ∷ held) xs
Owned-take o e = record {
  once = λ p. omega (arith, o.once p);
  whole = omega (arith, o.whole);
  room_is = e ∙ o.room_is;
  counted = omega (arith, o.counted);
}

pub Owned-give :
    {capacity room room' allocated : ℕ} (x : ℕ)
    → {held xs : List ℕ} → Owned capacity room allocated held xs
    → 1 ≤ times x held
    → room' ≡ room
    → Owned capacity room' ((allocated + 2 ^ 64 - 1) % 2 ^ 64) (drop_one x held) (xs ++ (x ∷ []))
Owned-give x {held} {xs} o h e = record {
  once = λ p. times-give p x held xs h ∙ o.once p;
  whole = omega (arith, o.whole, length-drop_one x held h, length-append xs (x ∷ []));
  room_is = e ∙ o.room_is;
  counted = omega (arith, o.counted, length-drop_one x held h);
}

pub Owned-along :
    {c c' r n n' : ℕ}
    → {h xs xs' : List ℕ} → c' ≡ c
    → n' ≡ n
    → xs' ≡ xs
    → Owned c r n h xs
    → Owned c' r n' h xs'
Owned-along {c} {c'} {r} {n} {n'} {h} {xs} {xs'} ec en exs o =
    subst (λ x. Owned x r n' h xs') (sym ec)
      (subst (λ x. Owned c r x h xs') (sym en) (subst (λ x. Owned c r n h x) (sym exs) o))
