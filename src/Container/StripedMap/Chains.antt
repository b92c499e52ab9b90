-- ===== src/Container/StripedMap/Chains.antt =====
-- utils/striped_map.h: one chain of buckets. Its keys rise from the second bucket on.
use memseries.Base.{
  ℕ, suc, ◌+◌, ◌<◌, ◌≤◌, ◌≡◌, arith, refl, ◌∙◌, Bool-cases, ◌==◌, ltb, if◌then◌else◌,
}
use memseries.Base.{Option, none, some, List, [], ◌∷◌, length, inl, inr}
use memseries.Container.StripedMap.{Bucket, lookup, update_rest, update_chain, place_rest, place}

module _ {V : Type 0} where
  -- The keys rise strictly, and are above `k`.
  abbrev pub RisesAfter : ℕ → List (Bucket V) → Type 0
  RisesAfter k [] = Unit
  RisesAfter k (b ∷ bs) = (k < b.key) × RisesAfter b.key bs

  abbrev pub Rises : List (Bucket V) → Type 0
  Rises [] = Unit
  Rises (b ∷ bs) = RisesAfter b.key bs

  -- The first key is no other's, and the others rise.
  abbrev pub IsChain : List (Bucket V) → Type 0
  IsChain [] = Unit
  IsChain (b ∷ bs) = (lookup b.key bs ≡ none) × Rises bs

  pub lookup-RisesAfter :
      (k j : ℕ) (bs : List (Bucket V)) → RisesAfter k bs → j ≤ k → lookup j bs ≡ none
  unfolding lookup
  lookup-RisesAfter k j [] r h = refl
  lookup-RisesAfter k j (b ∷ bs) (low, r) h =
      let later = lookup-RisesAfter b.key j bs r (omega arith) in ground arith

  abbrev pub value_or : V → Option V → V
  value_or v none = v
  value_or v (some w) = w

  RisesAfter-Rises : (k : ℕ) (bs : List (Bucket V)) → RisesAfter k bs → Rises bs
  RisesAfter-Rises k [] r = tt
  RisesAfter-Rises k (b ∷ bs) (low, r) = r

  Rises-IsChain : (bs : List (Bucket V)) → Rises bs → IsChain bs
  Rises-IsChain [] r = tt
  Rises-IsChain (b ∷ bs) r =
      (lookup-RisesAfter b.key b.key bs r (omega arith), RisesAfter-Rises b.key bs r)

  module _ (new : Bucket V) (f : V → V) where
    lookup-update_rest :
        (j : ℕ) (bs : List (Bucket V))
        → Rises bs
        → lookup j (update_rest new f bs).0 ≡ (
            if new.key == j then some (f (value_or new.value (lookup new.key bs))) else lookup j bs)
    unfolding lookup update_rest
    lookup-update_rest j [] r = refl
    lookup-update_rest j (b ∷ bs) r =
        let later = lookup-update_rest j bs (RisesAfter-Rises b.key bs r) in
        ground (arith, lookup-RisesAfter b.key new.key bs r)

    update_rest-RisesAfter :
        (k : ℕ) (bs : List (Bucket V))
        → RisesAfter k bs
        → k < new.key
        → RisesAfter k (update_rest new f bs).0
    unfolding update_rest
    update_rest-RisesAfter k [] r h = (h, tt)
    update_rest-RisesAfter k (b ∷ bs) (low, r) h = elim (Bool-cases (ltb new.key b.key)) [
      | inl before ↦ rw before (h, (ground arith, r))
      | inr later ↦ elim (Bool-cases (b.key == new.key)) [
        | inl same ↦ rw (later, same) (low, r)
        | inr after ↦ rw (later, after) (low, update_rest-RisesAfter b.key bs r (ground arith))
      ]
    ]

    update_rest-Rises : (bs : List (Bucket V)) → Rises bs → Rises (update_rest new f bs).0
    unfolding update_rest
    update_rest-Rises [] r = tt
    update_rest-Rises (b ∷ bs) r = elim (Bool-cases (ltb new.key b.key)) [
      | inl before ↦ rw before (ground arith, r)
      | inr later ↦ elim (Bool-cases (b.key == new.key)) [
        | inl same ↦ rw (later, same) r
        | inr after ↦ rw (later, after) (update_rest-RisesAfter b.key bs r (ground arith))
      ]
    ]

    length-update_rest :
        (bs : List (Bucket V))
        → length (update_rest new f bs).0 ≡ length bs + (update_rest new f bs).1
    unfolding update_rest
    length-update_rest [] = refl
    length-update_rest (b ∷ bs) = ground (arith, length-update_rest bs)

    pub lookup-update_chain :
        (j : ℕ) (bs : List (Bucket V))
        → IsChain bs
        → lookup j (update_chain new f bs).0 ≡ (
            if new.key == j then some (f (value_or new.value (lookup new.key bs))) else lookup j bs)
    unfolding lookup update_chain
    lookup-update_chain j [] c = refl
    lookup-update_chain j (b ∷ bs) (new_key, r) =
        let later = lookup-update_rest j bs r in ground arith

    pub update_chain-IsChain :
        (bs : List (Bucket V)) → IsChain bs → IsChain (update_chain new f bs).0
    unfolding lookup update_chain
    update_chain-IsChain [] c = (refl, tt)
    update_chain-IsChain (b ∷ bs) (new_key, r) = elim (Bool-cases (b.key == new.key)) [
      | inl same ↦ rw same (new_key, r)
      | inr other ↦ rw other (lookup-update_rest b.key bs r ∙ ground arith, update_rest-Rises bs r)
    ]

    pub length-update_chain :
        (bs : List (Bucket V))
        → length (update_chain new f bs).0 ≡ length bs + (update_chain new f bs).1
    unfolding update_chain
    length-update_chain [] = refl
    length-update_chain (b ∷ bs) = ground (arith, length-update_rest bs)

  module _ (x : Bucket V) where
    lookup-place_rest :
        (j : ℕ) (bs : List (Bucket V))
        → lookup x.key bs ≡ none
        → lookup j (place_rest x bs) ≡ (if x.key == j then some x.value else lookup j bs)
    unfolding lookup place_rest
    lookup-place_rest j [] h = refl
    lookup-place_rest j (b ∷ bs) h = ground (arith, lookup-place_rest j bs)

    place_rest-RisesAfter :
        (k : ℕ) (bs : List (Bucket V))
        → RisesAfter k bs
        → k < x.key
        → lookup x.key bs ≡ none
        → RisesAfter k (place_rest x bs)
    unfolding place_rest lookup
    place_rest-RisesAfter k [] r h g = (h, tt)
    place_rest-RisesAfter k (b ∷ bs) (low, r) h g = elim (Bool-cases (ltb x.key b.key)) [
      | inl before ↦ rw before (h, (ground arith, r))
      | inr later ↦ rw later (low, place_rest-RisesAfter b.key bs r (ground arith) (ground arith))
    ]

    place_rest-Rises :
        (bs : List (Bucket V)) → Rises bs → lookup x.key bs ≡ none → Rises (place_rest x bs)
    unfolding place_rest lookup
    place_rest-Rises [] r g = tt
    place_rest-Rises (b ∷ bs) r g = elim (Bool-cases (ltb x.key b.key)) [
      | inl before ↦ rw before (ground arith, r)
      | inr later ↦ rw later (place_rest-RisesAfter b.key bs r (ground arith) (ground arith))
    ]

    length-place_rest : (bs : List (Bucket V)) → length (place_rest x bs) ≡ suc (length bs)
    unfolding place_rest
    length-place_rest [] = refl
    length-place_rest (b ∷ bs) = ground (arith, length-place_rest bs)

    pub lookup-place :
        (j : ℕ) (bs : List (Bucket V))
        → lookup x.key bs ≡ none
        → lookup j (place x bs) ≡ (if x.key == j then some x.value else lookup j bs)
    unfolding lookup place
    lookup-place j [] h = refl
    lookup-place j (b ∷ bs) h = ground (arith, lookup-place_rest j bs)

    pub place-IsChain :
        (bs : List (Bucket V)) → IsChain bs → lookup x.key bs ≡ none → IsChain (place x bs)
    unfolding lookup place
    place-IsChain [] c g = (refl, tt)
    place-IsChain (b ∷ bs) (new_key, r) g = (
      lookup-place_rest b.key bs (ground arith) ∙ ground arith,
      place_rest-Rises bs r (ground arith),
    )

    pub length-place : (bs : List (Bucket V)) → length (place x bs) ≡ suc (length bs)
    unfolding place
    length-place [] = refl
    length-place (b ∷ bs) = ground (arith, length-place_rest bs)
