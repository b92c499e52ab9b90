-- ===== src/Memory/Track/Append/Keys.antt =====
-- storage/memstorage/timetrack.cpp: the index of a track through calls of `append`.
use memseries.Base.{
  ℕ, ◌+◌, ◌≤◌, ◌≡◌, arith, refl, sym, subst, Bool, Bool-cases, true, false, ◌||◌, ◌==◌, ltb, leb,
  if◌then◌else◌,
}
use memseries.Base.{Option, none, some, ◌>>=◌, List, [], ◌∷◌, length, replicate, inl, inr}
use memseries.Meas.{Meas}
use memseries.Storage.Statistic.{Doubles}
use memseries.Storage.Chunk as Chunk
use memseries.Storage.Chunk.{ChunkHeader, is_full}
use memseries.Memory.Allocator.{is_some}
use memseries.Memory.Track.{MemChunk, TimeTrack, from_of, to_of, insert_key, erase_key}
use memseries.Memory.Track.Append.{
  MemoryAllocator, MemoryChunkContainer, TrackState, create_new_chunk, rewrite, append_to_past,
  append, with_min_max, get_target_to_replace_from_index,
}

-- The keys rise from `k` on, and each is the maximum time of its chunk.
abbrev pub KeyedFrom : ℕ → List (ℕ × MemChunk) → Type 0
KeyedFrom k [] = Unit {0}
KeyedFrom k ((j, c) ∷ rest) = (k ≤ j) × (j ≡ to_of c) × KeyedFrom (j + 1) rest

insert_key-KeyedFrom :
    (k : ℕ) (c : MemChunk) (index : List (ℕ × MemChunk))
    → k ≤ to_of c
    → KeyedFrom k index
    → KeyedFrom k (insert_key (to_of c) c index)
unfolding insert_key
insert_key-KeyedFrom k c [] h g = (h, refl, tt)
insert_key-KeyedFrom k c ((j, x) ∷ rest) h (low, key, g) = elim (Bool-cases (ltb (to_of c) j)) [
  | inl before ↦ rw before (h, refl, (ground arith, key, g))
  | inr later ↦ elim (Bool-cases (to_of c == j)) [
    | inl same ↦ rw (later, same) (low, key, g)
    | inr after ↦ rw (later, after) (low, key, insert_key-KeyedFrom (j + 1) c rest (ground arith) g)
  ]
]

KeyedFrom-lower :
    (k l : ℕ) (index : List (ℕ × MemChunk)) → k ≤ l → KeyedFrom l index → KeyedFrom k index
KeyedFrom-lower k l [] h g = tt
KeyedFrom-lower k l ((j, x) ∷ rest) h (low, key, g) = (omega arith, key, g)

erase_key-KeyedFrom :
    (k t : ℕ) (index : List (ℕ × MemChunk)) → KeyedFrom k index → KeyedFrom k (erase_key t index)
unfolding erase_key
erase_key-KeyedFrom k t [] g = tt
erase_key-KeyedFrom k t ((j, x) ∷ rest) (low, key, g) = elim (Bool-cases (t == j)) [
  | inl same ↦ rw same (KeyedFrom-lower k (j + 1) rest (omega arith) g)
  | inr other ↦ rw other (low, key, erase_key-KeyedFrom (j + 1) t rest g)
]

-- What holds of a result, if there is one.
abbrev Sure {ℓ κ} : {A : Type ℓ} → (A → Type κ) → Option A → Type κ
Sure P none = Unit
Sure P (some a) = P a

Sure-bind {ℓ ℓ' κ} :
    {A : Type ℓ} {B : Type ℓ'} (P : B → Type κ) (m : Option A) (f : A → Option B)
    → ((a : A) → Sure P (f a))
    → Sure P (m >>= f)
Sure-bind P none f h = tt
Sure-bind P (some a) f h = h a

Sure-bind_from {ℓ ℓ' κ κ'} :
    {A : Type ℓ} {B : Type ℓ'} (P : B → Type κ) (Q : A → Type κ') (m : Option A) (f : A → Option B)
    → Sure Q m
    → ((a : A) → Q a → Sure P (f a))
    → Sure P (m >>= f)
Sure-bind_from P Q none f g h = tt
Sure-bind_from P Q (some a) f g h = h a g

Sure-elim {ℓ ℓ' κ} :
    {A : Type ℓ} {B : Type ℓ'} (P : B → Type κ) (o : Option A) (n : Option B) (f : A → Option B)
    → Sure P n
    → ((a : A) → Sure P (f a))
    → Sure P (elim o as (λ x. Option B) [ none ↦ n | some a ↦ f a ])
Sure-elim P none n f h g = h
Sure-elim P (some a) n f h g = g a

Sure-if {ℓ κ} :
    {A : Type ℓ} (P : A → Type κ) (b : Bool) (x y : Option A)
    → Sure P x
    → Sure P y
    → Sure P (if b then x else y)
Sure-if P true x y h g = h
Sure-if P false x y h g = g

module _ {A M : Type 0} (alloc : MemoryAllocator A) (container : MemoryChunkContainer M) where
  abbrev pub IsKeyed : TrackState A M → Type 0
  IsKeyed s = KeyedFrom 0 s.track.index

  abbrev KeyedAfter : Bool × TrackState A M → Type 0
  KeyedAfter r = IsKeyed r.1

  module _ (d : Doubles) (sort : List Meas → List Meas) (checks : Bool) (fresh : ChunkHeader) where
    moved-IsKeyed :
        (s : TrackState A M) (cur : Option MemChunk)
        → IsKeyed s
        → KeyedFrom 0
            (elim cur as (λ x. TimeTrack) [
              | none ↦ s.track
              | some c ↦ record s.track {
                index = insert_key (to_of c) c s.track.index;
                cur_chunk = none;
              }
            ]).index
    moved-IsKeyed s none g = g
    moved-IsKeyed s (some c) g = insert_key-KeyedFrom 0 c s.track.index (omega arith) g

    create_new_chunk-IsKeyed :
        (m : Meas) (s : TrackState A M)
        → IsKeyed s
        → Sure KeyedAfter (create_new_chunk alloc container d sort checks fresh m s)
    unfolding create_new_chunk
    create_new_chunk-IsKeyed m s g =
        let moved = moved-IsKeyed s s.track.cur_chunk g in
        Sure-if KeyedAfter (is_some (alloc.allocate s.allocator).0.header) _ _
          (Sure-bind KeyedAfter
            (Chunk.create d checks fresh
              (replicate (alloc.chunk_size (alloc.allocate s.allocator).1) 0)
              (alloc.chunk_size (alloc.allocate s.allocator).1) m)
            _ (λ c. moved))
          moved

    append_to_past-IsKeyed :
        (m : Meas) (s : TrackState A M)
        → IsKeyed s
        → Sure IsKeyed (append_to_past alloc container d sort checks fresh m s)
    unfolding append_to_past
    append_to_past-IsKeyed m s g = Sure-bind IsKeyed s.track.cur_chunk _ (λ cur.
        Sure-if IsKeyed (length s.track.index == 0 || leb (from_of cur) m.time) _ _
          (Sure-bind IsKeyed (rewrite alloc container d sort checks fresh m cur s.allocator s.mcc) _
            (λ r. g))
          (Sure-bind IsKeyed (get_target_to_replace_from_index m.time s.track.index) _ (λ target.
            Sure-bind IsKeyed
              (rewrite alloc container d sort checks fresh m target s.allocator s.mcc) _
              (λ r.
                insert_key-KeyedFrom 0 r.0 (erase_key (to_of target) s.track.index) (omega arith)
                  (erase_key-KeyedFrom 0 (to_of target) s.track.index g)))))

    created-IsKeyed :
        (m : Meas) (s : TrackState A M) (last : TrackState A M → TrackState A M)
        → ((s' : TrackState A M) → (last s').track.index ≡ s'.track.index)
        → IsKeyed s
        → Sure KeyedAfter (
            create_new_chunk alloc container d sort checks fresh m s >>= λ r.
            some (r.0, (if r.0 then last r.1 else r.1)))
    created-IsKeyed m s last same g =
        Sure-bind_from KeyedAfter KeyedAfter
          (create_new_chunk alloc container d sort checks fresh m s) _
          (create_new_chunk-IsKeyed m s g)
          (λ r k. elim (Bool-cases r.0) [
            | inl made ↦ rw made (subst (KeyedFrom 0) (sym (same r.1)) k)
            | inr failed ↦ rw failed k
          ])

    append-Sure :
        (m : Meas) (s : TrackState A M)
        → IsKeyed s
        → Sure KeyedAfter (append alloc container d sort checks fresh m s)
    unfolding append
    append-Sure m s g =
        let in_new =
          created-IsKeyed m s (with_min_max alloc container d sort checks fresh m) (λ s'. refl) g in
        Sure-elim KeyedAfter s.track.cur_chunk _ _ in_new (λ c.
          Sure-if KeyedAfter (is_full c.chunk) _ _ in_new (
            Sure-if KeyedAfter (ltb (to_of c) m.time) _ _
              (Sure-bind KeyedAfter (Chunk.append d checks m c.chunk) _ (λ r.
                Sure-if KeyedAfter r.0 _ _ g (
                  created-IsKeyed m
                    (record s {
                      track = record s.track { cur_chunk = some (record c { chunk = r.1 }) };
                    })
                    (λ s'.
                      with_min_max alloc container d sort checks fresh m
                        (with_min_max alloc container d sort checks fresh m s'))
                    (λ s'. refl) g)))
              (Sure-bind_from KeyedAfter IsKeyed
                (append_to_past alloc container d sort checks fresh m s) _
                (append_to_past-IsKeyed m s g) (λ s' k. k))))

    -- If the keys of the index of a track rise strictly and each is the maximum time of its
    -- chunk, then this still holds after any append that returns, whether it went to the current
    -- chunk, to a new one, to the past, or failed for lack of memory.
    pub append-IsKeyed :
        (m : Meas) (s s' : TrackState A M) (done : Bool)
        → IsKeyed s
        → append alloc container d sort checks fresh m s ≡ some (done, s')
        → IsKeyed s'
    append-IsKeyed m s s' done g e = subst (Sure KeyedAfter) e (append-Sure m s g)
