-- ===== src/Container/StripedMap/Arrays.antt =====
-- utils/striped_map.h: arrays of chains, what is written to them, and the loops of `rehash`.
use memseries.Base.{
  ℕ, suc, ◌+◌, ◌%◌, ◌<◌, ◌≡◌, ◌≢◌, arith, refl, sym, ap, ◌∙◌, subst, Bool-cases, false, ◌==◌,
  if◌then◌else◌,
}
use memseries.Base.{
  Option, none, some, List, [], ◌∷◌, ◌++◌, length, length-set, set, get_or, inl, inr,
}
use memseries.Container.StripedMap.{Bucket, lookup, place, place_chain, place_all, entries}
use memseries.Container.StripedMap.Chains.{IsChain, lookup-place, place-IsChain, length-place}
use memseries.Container.StripedMap.Buckets.{
  get_or-set, length-entries-set, Distinct, AllHome, AllKeyed, PlacedFrom, IsChain-Placed,
  set-PlacedFrom, place-AllHome,
}

not_same : (k j : ℕ) → (k ≢ j) → (k == j) ≡ false
not_same k j h = ground arith

-- The first of two, or else the second.
abbrev pub or_else {ℓ} : {A : Type ℓ} → Option A → Option A → Option A
or_else none b = b
or_else (some a) b = some a

module _ {V : Type 0} (hash : ℕ → ℕ) where
  -- What a key finds in an array of `n` chains.
  abbrev pub view : ℕ → List (List (Bucket V)) → ℕ → Option V
  view n bs j = lookup j (get_or bs (hash j % n) [])

  pub view-set :
      (n k j : ℕ) (bs : List (List (Bucket V))) (c : List (Bucket V)) (r : Option V)
      → hash k % n < length bs
      → lookup j c ≡ (if k == j then r else lookup j (get_or bs (hash k % n) []))
      → view n (set bs (hash k % n) c) j ≡ (if k == j then r else view n bs j)
  view-set n k j bs c r inside found =
      let i : ℕ = hash k % n in
      let e : ℕ = hash j % n in
      elim (Bool-cases (i == e)) [
        | inl same ↦
            let at : i ≡ e = ground arith in
            ap (lookup j)
              (get_or-set bs i e c inside ∙ ap (λ b. if b then c else get_or bs e []) same)
            ∙ found
            ∙ ap (λ x. if k == j then r else lookup j (get_or bs x [])) at
        | inr other ↦
            let away : (k == j) ≡ false =
              not_same k j
                (λ eq. (let at : i ≡ e = ap (λ x. hash x % n) eq in absurd (ground arith))) in
            ap (lookup j)
              (get_or-set bs i e c inside ∙ ap (λ b. if b then c else get_or bs e []) other)
            ∙ sym (ap (λ b. if b then r else view n bs j) away)
      ]

  -- An array of `n` chains with `total` buckets, all in place.
  abbrev pub IsArray : ℕ → ℕ → List (List (Bucket V)) → Type 0
  IsArray n total bs = (length bs ≡ n) × PlacedFrom hash n 0 bs × (length (entries bs) ≡ total)

  -- The chain where a key belongs.
  abbrev pub home_chain : ℕ → List (List (Bucket V)) → ℕ → List (Bucket V)
  home_chain n bs k = get_or bs (hash k % n) []

  module _ (n : ℕ) (some_chains : 0 < n) where
    pub home_inside : (k : ℕ) (bs : List (List (Bucket V))) → length bs ≡ n → hash k % n < length bs
    home_inside k bs wide = grind arith

    pub home_chain_lem :
        (k total : ℕ) (bs : List (List (Bucket V)))
        → IsArray n total bs
        → IsChain (home_chain n bs k) × AllHome hash n (hash k % n) (home_chain n bs k)
    home_chain_lem k total bs (wide, placed, counted) =
        let (chain, home) = IsChain-Placed hash n 0 (hash k % n) bs placed in
        let e : 0 + hash k % n ≡ hash k % n = omega arith in
        (chain, subst (λ i. AllHome hash n i (home_chain n bs k)) e home)

    pub set-IsArray :
        (k total more : ℕ) (bs : List (List (Bucket V))) (c : List (Bucket V))
        → IsArray n total bs
        → IsChain c
        → AllHome hash n (hash k % n) c
        → length c ≡ length (home_chain n bs k) + more
        → IsArray n (total + more) (set bs (hash k % n) c)
    set-IsArray k total more bs c (wide, placed, counted) chain home longer =
        let e : hash k % n ≡ 0 + hash k % n = omega arith in
        (
          length-set bs (hash k % n) c ∙ wide,
          set-PlacedFrom hash n 0 (hash k % n) bs c placed chain
              (subst (λ i. AllHome hash n i c) e home),
          omega (
            arith,
            counted,
            longer,
            length-entries-set bs (hash k % n) c (home_inside k bs wide),
          ),
        )

    put : Bucket V → List (List (Bucket V)) → List (List (Bucket V))
    put x bs = set bs (hash x.key % n) (place x (home_chain n bs x.key))

    put-IsArray :
        (x : Bucket V) (total : ℕ) (bs : List (List (Bucket V)))
        → x.hash ≡ hash x.key
        → IsArray n total bs
        → view n bs x.key ≡ none
        → IsArray n (total + 1) (put x bs)
    unfolding put
    put-IsArray x total bs same a absent =
        let (chain, home) = home_chain_lem x.key total bs a in
        set-IsArray x.key total 1 bs (place x (home_chain n bs x.key)) a
          (place-IsChain x (home_chain n bs x.key) chain absent)
          (place-AllHome hash n (hash x.key % n) x (home_chain n bs x.key) same
            (ap (λ h. h % n) same) home)
          (omega (arith, length-place x (home_chain n bs x.key)))

    view-put :
        (x : Bucket V) (j : ℕ) (bs : List (List (Bucket V)))
        → length bs ≡ n
        → view n bs x.key ≡ none
        → view n (put x bs) j ≡ (if x.key == j then some x.value else view n bs j)
    unfolding put
    view-put x j bs wide absent =
        view-set n x.key j bs (place x (home_chain n bs x.key)) (some x.value)
          (home_inside x.key bs wide) (lookup-place x j (home_chain n bs x.key) absent)

    -- None of these keys is in the array.
    abbrev pub AbsentAll : List (Bucket V) → List (List (Bucket V)) → Type 0
    AbsentAll [] bs = Unit
    AbsentAll (x ∷ xs) bs = (view n bs x.key ≡ none) × AbsentAll xs bs

    AbsentAll-put :
        (x : Bucket V) (xs : List (Bucket V)) (bs : List (List (Bucket V)))
        → length bs ≡ n
        → view n bs x.key ≡ none
        → lookup x.key xs ≡ none
        → AbsentAll xs bs
        → AbsentAll xs (put x bs)
    unfolding lookup
    AbsentAll-put x [] bs wide absent new_key h = tt
    AbsentAll-put x (y ∷ ys) bs wide absent new_key (here, h) = (
      view-put x y.key bs wide absent ∙ ground arith,
      AbsentAll-put x ys bs wide absent (ground arith) h,
    )

    place_chain-put :
        (x : Bucket V) (xs : List (Bucket V)) (bs : List (List (Bucket V)))
        → x.hash ≡ hash x.key
        → length bs ≡ n
        → place_chain (x ∷ xs) bs ≡ place_chain xs (put x bs)
    unfolding put place_chain
    place_chain-put x xs bs same wide = rw (wide, same) refl

    seen_next :
        (x : Bucket V) (xs : List (Bucket V)) (j : ℕ) (o : Option V)
        → lookup x.key xs ≡ none
        → or_else (lookup j xs) (if x.key == j then some x.value else o)
          ≡ or_else (lookup j (x ∷ xs)) o
    unfolding lookup
    seen_next x xs j o new_key = elim (Bool-cases (x.key == j)) [
      | inl e ↦
          let key : x.key ≡ j = ground arith in
          let absent : lookup j xs ≡ none = ap (λ k. lookup k xs) (sym key) ∙ new_key in
          rw (e, absent) refl
      | inr e ↦ rw e refl
    ]

    pub place_chain_lem :
        (xs : List (Bucket V)) (total : ℕ) (bs : List (List (Bucket V)))
        → Distinct xs
        → AllKeyed hash xs
        → AbsentAll xs bs
        → IsArray n total bs
        → IsArray n (total + length xs) (place_chain xs bs)
          × ((j : ℕ) → view n (place_chain xs bs) j ≡ or_else (lookup j xs) (view n bs j))
    place_chain_lem [] total bs distinct keyed absent a =
        unfold place_chain in unfold lookup in ((a.0, a.1, omega (arith, a.2)), (λ j. refl))
    place_chain_lem (x ∷ xs) total bs (new_key, distinct) (same, keyed) (here, absent) a =
        let (a', seen) =
          place_chain_lem xs (total + 1) (put x bs) distinct keyed
            (AbsentAll-put x xs bs a.0 here new_key absent) (put-IsArray x total bs same a here) in
        let moved = place_chain-put x xs bs same a.0 in
        subst
          (λ r.
            IsArray n (total + suc (length xs)) r
            × ((j : ℕ) → view n r j ≡ or_else (lookup j (x ∷ xs)) (view n bs j)))
          (sym moved)
          (
            (a'.0, a'.1, omega (arith, a'.2)),
            (λ j.
                seen j
                ∙ ap (or_else (lookup j xs)) (view-put x j bs a.0 here)
                ∙ seen_next x xs j (view n bs j) new_key),
          )

  place_chain-append :
      (xs ys : List (Bucket V)) (bs : List (List (Bucket V)))
      → place_chain (xs ++ ys) bs ≡ place_chain ys (place_chain xs bs)
  unfolding place_chain
  place_chain-append [] ys bs = refl
  place_chain-append (x ∷ xs) ys bs = place_chain-append xs ys _

  pub place_all-entries :
      (cs bs : List (List (Bucket V))) → place_all cs bs ≡ place_chain (entries cs) bs
  unfolding place_all entries
  place_all-entries [] bs = unfold place_chain in refl
  place_all-entries (c ∷ cs) bs =
      place_all-entries cs (place_chain c bs) ∙ sym (place_chain-append c (entries cs) bs)
