-- ===== src/Container/StripedMap/Laws.antt =====
-- utils/striped_map.h: the map as a function from keys to values, through growth and changes.
use native.Mathlib.Nat.{mul_assoc, div-add-mod, mul-add-mod_self_left}
use memseries.Base.{
  ℕ, zero, suc, ◌+◌, ◌*◌, ◌%◌, ◌/◌, ◌<◌, ◌≡◌, arith, refl, sym, ap, ◌∙◌, subst, Bool-cases, ◌==◌,
  ltb, if◌then◌else◌,
}
use memseries.Base.{
  Option, none, some, List, [], ◌∷◌, length, replicate, length-replicate, set, get_or, inl, inr,
}
use memseries.Container.StripedMap.{
  Bucket, StripedMap, lookup, place_all, entries, update_chain, rehash, find, find_bucket, create,
}
use memseries.Container.StripedMap.Chains.{
  value_or, lookup-update_chain, update_chain-IsChain, length-update_chain,
}
use memseries.Container.StripedMap.Buckets.{
  PlacedFrom, lookup-entries, update_chain-AllHome, entries-Distinct,
}
use memseries.Container.StripedMap.Arrays.{
  or_else, view, view-set, IsArray, home_chain, home_inside, home_chain_lem, set-IsArray, AbsentAll,
  place_chain_lem, place_all-entries,
}

get_or-replicate {ℓ} : {A : Type ℓ} (k i : ℕ) → get_or (replicate {A = List A} k []) i [] ≡ []
get_or-replicate zero i = refl
get_or-replicate (suc k) zero = refl
get_or-replicate (suc k) (suc i) = get_or-replicate k i

or_else-none {ℓ} : {A : Type ℓ} (o : Option A) → or_else o none ≡ o
or_else-none none = refl
or_else-none (some a) = refl

pub mod_mod_mul : (h l q : ℕ) → (h % (l * q)) % l ≡ h % l
mod_mod_mul h l q = sym (
    ap (λ x. x % l) (sym (div-add-mod h (l * q)))
    ∙ ap (λ x. (x + h % (l * q)) % l) (mul_assoc l q (h / (l * q)))
    ∙ mul-add-mod_self_left l (q * (h / (l * q))) (h % (l * q)))

replicate-PlacedFrom :
    (V : Type 0) (hash : ℕ → ℕ) (n i k : ℕ)
    → PlacedFrom {V = V} hash n i (replicate k [])
      × (length (entries (replicate {A = List (Bucket V)} k [])) ≡ 0)
unfolding entries
replicate-PlacedFrom V hash n i zero = (tt, refl)
replicate-PlacedFrom V hash n i (suc k) =
    let (placed, counted) = replicate-PlacedFrom V hash n (suc i) k in ((tt, tt, placed), counted)

module _ {V : Type 0} (hash : ℕ → ℕ) where
  -- All buckets are in place, the size counts them, and the locks divide the chains.
  pub record IsTable (m : StripedMap V) : Type 0 where
    pub some_buckets : 0 < length m.buckets
    pub placed : PlacedFrom hash (length m.buckets) 0 m.buckets
    pub counted : length (entries m.buckets) ≡ m.size
    pub some_stripes : 0 < m.stripes
    pub striped : (k : ℕ) × (length m.buckets ≡ m.stripes * k)

  IsTable-IsArray :
      (m : StripedMap V) → IsTable m → IsArray hash (length m.buckets) m.size m.buckets
  IsTable-IsArray m t = (refl, t.placed, t.counted)

  view-replicate : (n k j : ℕ) → view {V = V} hash n (replicate k []) j ≡ none
  view-replicate n k j = unfold lookup in ap (lookup j) (get_or-replicate k (hash j % n))

  AbsentAll-replicate :
      (n k : ℕ) (pos : 0 < n) (xs : List (Bucket V)) → AbsentAll hash n pos xs (replicate k [])
  AbsentAll-replicate n k pos [] = tt
  AbsentAll-replicate n k pos (x ∷ xs) = (view-replicate n k x.key, AbsentAll-replicate n k pos xs)

  module _ (d : V) where
    grown_lem :
        (n total : ℕ) (bs : List (List (Bucket V)))
        → 0 < n
        → IsArray hash n total bs
        → IsArray hash (n * 2) total (place_all bs (replicate (n * 2) []))
          × ((j : ℕ) → view hash (n * 2) (place_all bs (replicate (n * 2) [])) j ≡ view hash n bs j)
    grown_lem n total bs pos (wide, placed, counted) =
        let empty : List (List (Bucket V)) = replicate (n * 2) [] in
        let pos₂ : 0 < n * 2 = omega arith in
        let (distinct, keyed) = entries-Distinct hash n 0 bs placed in
        let (placed₀, counted₀) = replicate-PlacedFrom V hash (n * 2) 0 (n * 2) in
        let (a, seen) =
          place_chain_lem hash (n * 2) pos₂ (entries bs) 0 empty distinct keyed
            (AbsentAll-replicate (n * 2) (n * 2) pos₂ (entries bs))
            (length-replicate (n * 2) [], placed₀, counted₀) in
        subst
          (λ r. IsArray hash (n * 2) total r × ((j : ℕ) → view hash (n * 2) r j ≡ view hash n bs j))
          (sym (place_all-entries hash bs empty))
          (
            (a.0, a.1, omega (arith, a.2, counted)),
            (λ j.
                seen j
                ∙ ap (or_else (lookup j (entries bs))) (view-replicate (n * 2) (n * 2) j)
                ∙ or_else-none (lookup j (entries bs))
                ∙ lookup-entries hash n j 0 (hash j % n) bs placed (omega arith)),
          )

    view_wide :
        (n : ℕ) (bs : List (List (Bucket V))) (j : ℕ)
        → length bs ≡ n
        → view hash (length bs) bs j ≡ view hash n bs j
    view_wide n bs j wide = ap (λ k. view hash k bs j) wide

    IsArray-IsTable :
        (n : ℕ) (m : StripedMap V)
        → IsArray hash n m.size m.buckets
        → 0 < n
        → 0 < m.stripes
        → (k : ℕ) × (n ≡ m.stripes * k)
        → IsTable m
    IsArray-IsTable n m (wide, placed, counted) pos some_stripes (k, e) = record {
      some_buckets = omega arith;
      placed = subst (λ x. PlacedFrom hash x 0 m.buckets) (sym wide) placed;
      counted = counted;
      some_stripes = some_stripes;
      striped = (k, wide ∙ e);
    }

    pub rehash_lem :
        (m : StripedMap V)
        → IsTable m
        → IsTable (rehash m) × ((j : ℕ) → find hash d j (rehash m) ≡ find hash d j m)
    unfolding rehash find
    rehash_lem m t = elim (Bool-cases (ltb (length m.buckets) m.size)) [
      | inr fits ↦ rw fits (t, λ j. refl)
      | inl full ↦
          let n : ℕ = length m.buckets in
          let (a, seen) = grown_lem n m.size m.buckets t.some_buckets (IsTable-IsArray m t) in
          let (k, e) = t.striped in
          rw full (
            IsArray-IsTable (n * 2)
                (record m { buckets = place_all m.buckets (replicate (n * 2) []) }) a
                (omega (arith, t.some_buckets)) t.some_stripes (k * 2, grind arith),
            (λ j. view_wide (n * 2) (place_all m.buckets (replicate (n * 2) [])) j a.0 ∙ seen j),
          )
    ]

    -- An update without the rehashing before it.
    change : ℕ → (V → V) → StripedMap V → StripedMap V
    change k f r =
        let i = hash k % length r.buckets in
        let new : Bucket V = record { hash = hash k; key = k; value = d } in
        let changed = update_chain new f (get_or r.buckets i []) in
        record r { buckets = set r.buckets i changed.0; size = r.size + changed.1 }

    change_lem :
        (k : ℕ) (f : V → V) (m : StripedMap V)
        → IsTable m
        → IsTable (change k f m)
          × ((j : ℕ)
              → find hash d j (change k f m)
                ≡ (if k == j then some (f (value_or d (find hash d k m))) else find hash d j m))
    unfolding change find
    change_lem k f m t =
        let n : ℕ = length m.buckets in
        let a = IsTable-IsArray m t in
        let new : Bucket V = record { hash = hash k; key = k; value = d } in
        let c = home_chain hash n m.buckets k in
        let (chain, home) = home_chain_lem hash n t.some_buckets k m.size m.buckets a in
        let b =
          set-IsArray hash n t.some_buckets k m.size (update_chain new f c).1 m.buckets
            (update_chain new f c).0 a (update_chain-IsChain new f c chain)
            (update_chain-AllHome hash n (hash k % n) new f c refl refl home)
            (length-update_chain new f c) in
        (
          IsArray-IsTable n (change k f m) b t.some_buckets t.some_stripes t.striped,
          (λ j.
              view_wide n (change k f m).buckets j b.0
              ∙ view-set hash n k j m.buckets (update_chain new f c).0
                  (some (f (value_or d (lookup k c))))
                  (home_inside hash n t.some_buckets k m.buckets refl)
                  (lookup-update_chain new f j c chain)),
        )

    -- If the map is a table (each bucket in the chain of its hash, the chains ordered behind
    -- their heads, each key once, the size the number of buckets, and the locks a divisor of the
    -- chains), then find_bucket with a change of the value leaves a table, in which find gives
    -- the changed value for that key, with the default value in place of a missing one, and for
    -- any other key what it gave before, whether the map grew or not.
    pub find-find_bucket :
        (k : ℕ) (f : V → V) (m : StripedMap V)
        → IsTable m
        → IsTable (find_bucket hash d k f m)
          × ((j : ℕ)
              → find hash d j (find_bucket hash d k f m)
                ≡ (if k == j then some (f (value_or d (find hash d k m))) else find hash d j m))
    unfolding find_bucket change
    find-find_bucket k f m t =
        let (t', same) = rehash_lem m t in
        let (t'', seen) = change_lem k f (rehash m) t' in
        (
          t'',
          (λ j.
              seen j
              ∙ ap (λ o. if k == j then some (f (value_or d o)) else find hash d j (rehash m))
                  (same k)
              ∙ ap (λ o. if k == j then some (f (value_or d (find hash d k m))) else o) (same j)),
        )

    pub create-IsTable :
        (n : ℕ) → 0 < n → IsTable (create n) × ((j : ℕ) → find hash d j (create n) ≡ none)
    unfolding create find
    create-IsTable n pos =
        let (placed, counted) = replicate-PlacedFrom V hash n 0 n in
        (
          IsArray-IsTable n (create n) (length-replicate n [], placed, counted) pos pos
              (1, omega arith),
          (λ j. view-replicate (length (replicate {A = List (Bucket V)} n [])) n j),
        )
