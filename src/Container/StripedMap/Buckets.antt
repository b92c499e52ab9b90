-- ===== src/Container/StripedMap/Buckets.antt =====
-- utils/striped_map.h: the array of chains, and what each key finds in it.
use memseries.Base.{
  ℕ, zero, suc, ◌+◌, ◌%◌, ◌<◌, ◌≡◌, ◌≢◌, arith, refl, sym, ap, ◌∙◌, subst, Bool-cases, ◌==◌, ltb,
  if◌then◌else◌,
}
use memseries.Base.{none, List, [], ◌∷◌, ◌++◌, length, length-append, set, get_or, inl, inr}
use memseries.Container.StripedMap.{
  Bucket, lookup, place_rest, place, entries, update_chain, update_rest,
}
use memseries.Container.StripedMap.Chains.{lookup-RisesAfter, IsChain, RisesAfter}

module _ {V : Type 0} where
  pub get_or-set :
      (bs : List (List (Bucket V))) (d e : ℕ) (c : List (Bucket V))
      → d < length bs
      → get_or (set bs d c) e [] ≡ (if d == e then c else get_or bs e [])
  get_or-set [] d e c h = absurd (omega arith)
  get_or-set (b ∷ bs) zero zero c h = refl
  get_or-set (b ∷ bs) zero (suc e) c h = ground arith
  get_or-set (b ∷ bs) (suc d) zero c h = ground arith
  get_or-set (b ∷ bs) (suc d) (suc e) c h = get_or-set bs d e c (omega arith) ∙ ground arith

  pub lookup-append_none :
      (j : ℕ) (xs ys : List (Bucket V)) → lookup j xs ≡ none → lookup j (xs ++ ys) ≡ lookup j ys
  unfolding lookup
  lookup-append_none j [] ys h = refl
  lookup-append_none j (x ∷ xs) ys h = ground (arith, lookup-append_none j xs ys)

  pub lookup-append_later :
      (j : ℕ) (xs ys : List (Bucket V)) → lookup j ys ≡ none → lookup j (xs ++ ys) ≡ lookup j xs
  unfolding lookup
  lookup-append_later j [] ys h = h
  lookup-append_later j (x ∷ xs) ys h = ground (arith, lookup-append_later j xs ys)

  pub length-entries-set :
      (bs : List (List (Bucket V))) (i : ℕ) (c : List (Bucket V))
      → i < length bs
      → length (entries (set bs i c)) + length (get_or bs i []) ≡ length (entries bs) + length c
  unfolding entries
  length-entries-set [] i c h = absurd (omega arith)
  length-entries-set (b ∷ bs) zero c h =
      omega (arith, length-append c (entries bs), length-append b (entries bs))
  length-entries-set (b ∷ bs) (suc i) c h = omega (
    arith,
    length-append b (entries (set bs i c)),
    length-append b (entries bs),
    length-entries-set bs i c (omega arith),
  )

  -- No key stands twice.
  abbrev pub Distinct : List (Bucket V) → Type 0
  Distinct [] = Unit
  Distinct (b ∷ bs) = (lookup b.key bs ≡ none) × Distinct bs

  Rises-Distinct : (k : ℕ) (bs : List (Bucket V)) → RisesAfter k bs → Distinct bs
  Rises-Distinct k [] r = tt
  Rises-Distinct k (b ∷ bs) (low, r) =
      (lookup-RisesAfter b.key b.key bs r (omega arith), Rises-Distinct b.key bs r)

  Rises-Distinct_cons :
      (x : Bucket V) (bs : List (Bucket V)) → RisesAfter x.key bs → Distinct (x ∷ bs)
  Rises-Distinct_cons x bs r =
      (lookup-RisesAfter x.key x.key bs r (omega arith), Rises-Distinct x.key bs r)

  -- The buckets keep the hash of their key.
  abbrev pub AllKeyed : (ℕ → ℕ) → List (Bucket V) → Type 0
  AllKeyed hash [] = Unit
  AllKeyed hash (b ∷ bs) = (b.hash ≡ hash b.key) × AllKeyed hash bs

  module _ (hash : ℕ → ℕ) (n : ℕ) where
    -- The buckets keep the hash of their key, and stand where it points.
    abbrev pub AllHome : ℕ → List (Bucket V) → Type 0
    AllHome i [] = Unit
    AllHome i (b ∷ bs) = (b.hash ≡ hash b.key) × (b.hash % n ≡ i) × AllHome i bs

    abbrev pub PlacedFrom : ℕ → List (List (Bucket V)) → Type 0
    PlacedFrom i [] = Unit
    PlacedFrom i (c ∷ cs) = IsChain c × AllHome i c × PlacedFrom (suc i) cs

    pub IsChain-Placed :
        (i e : ℕ) (bs : List (List (Bucket V)))
        → PlacedFrom i bs
        → IsChain (get_or bs e []) × AllHome (i + e) (get_or bs e [])
    IsChain-Placed i e [] p = (tt, tt)
    IsChain-Placed i zero (c ∷ cs) (chain, home, p) =
        let e : i ≡ i + 0 = omega arith in (chain, subst (λ x. AllHome x c) e home)
    IsChain-Placed i (suc e) (c ∷ cs) (chain, home, p) =
        let at : suc i + e ≡ i + suc e = omega arith in
        let (is_chain, all_home) = IsChain-Placed (suc i) e cs p in
        (is_chain, subst (λ x. AllHome x (get_or cs e [])) at all_home)

    pub set-PlacedFrom :
        (i e : ℕ) (bs : List (List (Bucket V))) (c : List (Bucket V))
        → PlacedFrom i bs
        → IsChain c
        → AllHome (i + e) c
        → PlacedFrom i (set bs e c)
    set-PlacedFrom i e [] c p chain home = tt
    set-PlacedFrom i zero (b ∷ bs) c (old, at, p) chain home =
        let e : i + 0 ≡ i = omega arith in (chain, subst (λ x. AllHome x c) e home, p)
    set-PlacedFrom i (suc e) (b ∷ bs) c (old, at, p) chain home =
        let there : i + suc e ≡ suc i + e = omega arith in
        (old, at, set-PlacedFrom (suc i) e bs c p chain (subst (λ x. AllHome x c) there home))

    lookup-AllHome :
        (j i : ℕ) (bs : List (Bucket V)) → AllHome i bs → hash j % n ≢ i → lookup j bs ≡ none
    unfolding lookup
    lookup-AllHome j i [] h away = refl
    lookup-AllHome j i (b ∷ bs) (same, at, h) away = elim (Bool-cases (b.key == j)) [
      | inl e ↦ absurd (
          away (
            let key : b.key ≡ j = ground arith in
            ap (λ x. hash x % n) (sym key) ∙ ap (λ x. x % n) (sym same) ∙ at))
      | inr e ↦ rw e (lookup-AllHome j i bs h away)
    ]

    lookup-entries-none :
        (j i : ℕ) (bs : List (List (Bucket V)))
        → PlacedFrom i bs
        → hash j % n < i
        → lookup j (entries bs) ≡ none
    unfolding entries
    lookup-entries-none j i [] p h = unfold lookup in refl
    lookup-entries-none j i (c ∷ cs) (chain, home, p) h =
        lookup-append_none j c (entries cs) (lookup-AllHome j i c home (λ e. omega arith))
        ∙ lookup-entries-none j (suc i) cs p (omega arith)

    pub lookup-entries :
        (j i e : ℕ) (bs : List (List (Bucket V)))
        → PlacedFrom i bs
        → hash j % n ≡ i + e
        → lookup j (entries bs) ≡ lookup j (get_or bs e [])
    unfolding entries
    lookup-entries j i e [] p h = refl
    lookup-entries j i zero (c ∷ cs) (chain, home, p) h =
        lookup-append_later j c (entries cs) (lookup-entries-none j (suc i) cs p (omega arith))
    lookup-entries j i (suc e) (c ∷ cs) (chain, home, p) h =
        lookup-append_none j c (entries cs) (lookup-AllHome j i c home (λ e. omega arith))
        ∙ lookup-entries j (suc i) e cs p (omega arith)

    -- An update keeps what a chain is, and the buckets at home.
    update_rest-AllHome :
        (i : ℕ) (new : Bucket V) (f : V → V) (bs : List (Bucket V))
        → new.hash ≡ hash new.key
        → new.hash % n ≡ i
        → AllHome i bs
        → AllHome i (update_rest new f bs).0
    unfolding update_rest
    update_rest-AllHome i new f [] same at h = (same, at, tt)
    update_rest-AllHome i new f (b ∷ bs) same at (b_same, b_at, h) =
        elim (Bool-cases (ltb new.key b.key)) [
          | inl before ↦ rw before (same, at, (b_same, b_at, h))
          | inr later ↦ elim (Bool-cases (b.key == new.key)) [
            | inl e ↦ rw (later, e) (b_same, b_at, h)
            | inr e ↦ rw (later, e) (b_same, b_at, update_rest-AllHome i new f bs same at h)
          ]
        ]

    pub update_chain-AllHome :
        (i : ℕ) (new : Bucket V) (f : V → V) (bs : List (Bucket V))
        → new.hash ≡ hash new.key
        → new.hash % n ≡ i
        → AllHome i bs
        → AllHome i (update_chain new f bs).0
    unfolding update_chain
    update_chain-AllHome i new f [] same at h = (same, at, tt)
    update_chain-AllHome i new f (b ∷ bs) same at (b_same, b_at, h) =
        elim (Bool-cases (b.key == new.key)) [
          | inl e ↦ rw e (b_same, b_at, h)
          | inr e ↦ rw e (b_same, b_at, update_rest-AllHome i new f bs same at h)
        ]

    place_rest-AllHome :
        (i : ℕ) (x : Bucket V) (bs : List (Bucket V))
        → x.hash ≡ hash x.key
        → x.hash % n ≡ i
        → AllHome i bs
        → AllHome i (place_rest x bs)
    unfolding place_rest
    place_rest-AllHome i x [] same at h = (same, at, tt)
    place_rest-AllHome i x (b ∷ bs) same at (b_same, b_at, h) =
        elim (Bool-cases (ltb x.key b.key)) [
          | inl before ↦ rw before (same, at, (b_same, b_at, h))
          | inr later ↦ rw later (b_same, b_at, place_rest-AllHome i x bs same at h)
        ]

    pub place-AllHome :
        (i : ℕ) (x : Bucket V) (bs : List (Bucket V))
        → x.hash ≡ hash x.key
        → x.hash % n ≡ i
        → AllHome i bs
        → AllHome i (place x bs)
    unfolding place
    place-AllHome i x [] same at h = (same, at, tt)
    place-AllHome i x (b ∷ bs) same at (b_same, b_at, h) =
        (b_same, b_at, place_rest-AllHome i x bs same at h)

    AllHome-append :
        (xs ys : List (Bucket V)) → AllKeyed hash xs → AllKeyed hash ys → AllKeyed hash (xs ++ ys)
    AllHome-append [] ys h g = g
    AllHome-append (x ∷ xs) ys (same, h) g = (same, AllHome-append xs ys h g)

    AllHome-AllKeyed : (i : ℕ) (bs : List (Bucket V)) → AllHome i bs → AllKeyed hash bs
    AllHome-AllKeyed i [] h = tt
    AllHome-AllKeyed i (b ∷ bs) (same, at, h) = (same, AllHome-AllKeyed i bs h)

    IsChain-Distinct : (bs : List (Bucket V)) → IsChain bs → Distinct bs
    IsChain-Distinct [] c = tt
    IsChain-Distinct (b ∷ []) (new_key, r) = (new_key, tt)
    IsChain-Distinct (b ∷ x ∷ bs) (new_key, r) = (new_key, Rises-Distinct_cons x bs r)

    Distinct-append :
        (i : ℕ) (xs ys : List (Bucket V))
        → Distinct xs
        → AllHome i xs
        → ((j : ℕ) → hash j % n ≡ i → lookup j ys ≡ none)
        → Distinct ys
        → Distinct (xs ++ ys)
    Distinct-append i [] ys h home away g = g
    Distinct-append i (x ∷ xs) ys (new_key, h) (same, at, home) away g = (
      lookup-append_none x.key xs ys new_key ∙ away x.key (ap (λ y. y % n) (sym same) ∙ at),
      Distinct-append i xs ys h home away g,
    )

    -- All buckets of an array in place have their own keys, and the hashes of these.
    pub entries-Distinct :
        (i : ℕ) (bs : List (List (Bucket V)))
        → PlacedFrom i bs
        → Distinct (entries bs) × AllKeyed hash (entries bs)
    unfolding entries
    entries-Distinct i [] p = (tt, tt)
    entries-Distinct i (c ∷ cs) (chain, home, p) =
        let (rest, keyed) = entries-Distinct (suc i) cs p in
        (
          Distinct-append i c (entries cs) (IsChain-Distinct c chain) home
              (λ j e. lookup-entries-none j (suc i) cs p (omega arith)) rest,
          AllHome-append c (entries cs) (AllHome-AllKeyed i c home) keyed,
        )
