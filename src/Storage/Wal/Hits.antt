-- ===== src/Storage/Wal/Hits.antt =====
-- storage/wal/walfile.cpp: when as many ids were read as are asked for, all were read.
use memseries.Base.{
  ℕ, ◌+◌, ◌<◌, ◌≤◌, ◌≡◌, arith, refl, sym, subst, Bool, Bool-cases, true, false, ◌==◌, ◌||◌,
  if◌then◌else◌,
}
use memseries.Base.{List, [], ◌∷◌, length, inl, inr}
use memseries.Meas.{contains}
use memseries.Storage.Wal.Points.{Distinct, empty, further, eq_sound, eq_self}

-- How many of the ids are in a list.
abbrev hits : List ℕ → List ℕ → ℕ
hits xs [] = 0
hits xs (id ∷ ids) = (if contains xs id then 1 else 0) + hits xs ids

hits-le : (xs ids : List ℕ) → hits xs ids ≤ length ids
hits-le xs [] = omega arith
hits-le xs (id ∷ ids) = ground (arith, hits-le xs ids)

pub hits-lt :
    (xs ids : List ℕ) (id : ℕ)
    → contains ids id ≡ true
    → contains xs id ≡ false
    → hits xs ids < length ids
unfolding contains
hits-lt xs [] id e h = cc
hits-lt xs (x ∷ ids) id e h = elim (Bool-cases (x == id)) [
  | inl here ↦
      let missed : contains xs x ≡ false =
        subst (λ k. contains xs k ≡ false) (sym (eq_sound x id here)) h in
      rw missed (omega (arith, hits-le xs ids))
  | inr later ↦ ground (arith, hits-lt xs ids id (rw later at e) h, hits-le xs ids)
]

-- One id more in the list is one hit more, if it is among the ids.
hits-further_le : (x : ℕ) (xs ids : List ℕ) → hits xs ids ≤ hits (x ∷ xs) ids
unfolding contains
hits-further_le x xs [] = omega arith
hits-further_le x xs (id ∷ ids) = ground (arith, hits-further_le x xs ids)

hits-further :
    (x : ℕ) (xs ids : List ℕ)
    → contains xs x ≡ false
    → contains ids x ≡ true
    → hits xs ids < hits (x ∷ xs) ids
unfolding contains
hits-further x xs [] h e = cc
hits-further x xs (id ∷ ids) h e = elim (Bool-cases (id == x)) [
  | inl here ↦
      let same = eq_sound id x here in
      let missed : contains xs id ≡ false = subst (λ k. contains xs k ≡ false) (sym same) h in
      let hit : (x == id) ≡ true = subst (λ k. (x == k) ≡ true) (sym same) (eq_self x) in
      rw (missed, hit) (omega (arith, hits-further_le x xs ids))
  | inr later ↦ ground (arith, hits-further x xs ids h (rw later at e))
]

or-true : (b : Bool) → (b || true) ≡ true
or-true true = refl
or-true false = refl

pub length-hits :
    (xs ids : List ℕ)
    → Distinct xs
    → ((id : ℕ) → contains xs id ≡ true → contains ids id ≡ true)
    → length xs ≤ hits xs ids
unfolding contains
length-hits _ ids empty h = omega arith
length-hits _ ids (further x xs new d) h =
    let fewer = length-hits xs ids d (λ id e. h id (rw e (or-true (x == id)))) in
    omega (arith, fewer, hits-further x xs ids new (h x (rw (eq_self x) refl)))
