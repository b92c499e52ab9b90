-- ===== src/Memory/Track/Drop.antt =====
-- storage/memstorage/timetrack.h: the chunks that `drop_N` and `drop_Old` take.
use memseries.Base.{
  ℕ, zero, suc, ◌+◌, ◌-◌, ◌%◌, ◌^◌, ◌≤◌, ◌<◌, ◌≡◌, arith, refl, ap, sym, ◌∙◌, Bool, Bool-cases,
  true, false, ◌==◌, ltb, leb, if◌then◌else◌,
}
use memseries.Base.{none, some, List, [], ◌∷◌, ◌++◌, length, take, drop, inl, inr}
use memseries.Memory.Track.Ranges.{KeysFrom}
use memseries.Memory.Track.{
  MemChunk, TimeTrack, to_of, chunks_of, current, drop_loop, drop_n, drop_before, drop_old,
  reread_min_max,
}

drop_loop-take :
    (n : ℕ) (index : List (ℕ × MemChunk))
    → suc n < 2 ^ 64
    → drop_loop (suc n) index ≡ (chunks_of (take (suc n) index), drop (suc n) index)
unfolding drop_loop
drop_loop-take n [] h = refl
drop_loop-take zero ((k, c) ∷ rest) h = refl
drop_loop-take (suc n) ((k, c) ∷ rest) h =
    let less : (suc (suc n) + 2 ^ 64 - 1) % 2 ^ 64 ≡ suc n = omega arith in
    rw (less, drop_loop-take n rest (omega arith)) (ground arith)

-- A counter of 0 wraps around and does not reach 0 again while there are chunks.
drop_loop-whole :
    (n : ℕ) (index : List (ℕ × MemChunk))
    → length index < n
    → n < 2 ^ 64
    → drop_loop n index ≡ (chunks_of index, [])
unfolding drop_loop
drop_loop-whole n [] h g = refl
drop_loop-whole n ((k, c) ∷ rest) h g =
    let less : (n + 2 ^ 64 - 1) % 2 ^ 64 ≡ n - 1 = omega arith in
    rw (less, drop_loop-whole (n - 1) rest (omega arith) (omega arith)) (ground arith)

drop_loop_zero :
    (index : List (ℕ × MemChunk))
    → length index < 2 ^ 64
    → drop_loop 0 index ≡ (chunks_of index, [])
unfolding drop_loop
drop_loop_zero [] h = refl
drop_loop_zero ((k, c) ∷ rest) h =
    rw (drop_loop-whole (2 ^ 64 - 1) rest (omega arith) (omega arith)) refl

-- For a count and an index that fit 64 bits, and a count that reserve accepts, drop_N returns and
-- removes the first chunks of the index up to the count, and all of them when the count is 0, and
-- leaves the current chunk.
pub drop_n-take :
    (reserves : ℕ → Bool) (n : ℕ) (t : TimeTrack)
    → n < 2 ^ 64
    → length t.index < 2 ^ 64
    → reserves n ≡ true
    → (gone : List MemChunk) × (t' : TimeTrack) × (drop_n reserves n t ≡ some (gone, t'))
      × (gone ≡ (if n == 0 then chunks_of t.index else chunks_of (take n t.index)))
      × (t'.index ≡ (if n == 0 then [] else drop n t.index))
      × (t'.cur_chunk ≡ t.cur_chunk)
unfolding drop_n reread_min_max
drop_n-take reserves zero t h g room =
    let all = drop_loop_zero t.index g in
    (
      (drop_loop 0 t.index).0,
      reread_min_max (record t { index = (drop_loop 0 t.index).1 }),
      rw room refl,
      ap (λ r. r.0) all,
      ap (λ r. r.1) all,
      refl,
    )
drop_n-take reserves (suc n) t h g room =
    let first = drop_loop-take n t.index h in
    (
      (drop_loop (suc n) t.index).0,
      reread_min_max (record t { index = (drop_loop (suc n) t.index).1 }),
      rw room refl,
      ap (λ r. r.0) first ∙ ground arith,
      ap (λ r. r.1) first ∙ ground arith,
      refl,
    )

-- The chunks that do not end before a time.
abbrev pub kept_from : ℕ → List MemChunk → List MemChunk
kept_from t [] = []
kept_from t (c ∷ cs) = if leb t (to_of c) then c ∷ kept_from t cs else kept_from t cs

kept_from-append :
    (t : ℕ) (xs ys : List MemChunk) → kept_from t (xs ++ ys) ≡ kept_from t xs ++ kept_from t ys
kept_from-append t [] ys = refl
kept_from-append t (x ∷ xs) ys = elim (Bool-cases (leb t (to_of x))) [
  | inl h ↦ rw h (ap (λ zs. x ∷ zs) (kept_from-append t xs ys))
  | inr h ↦ rw h (kept_from-append t xs ys)
]

kept_from_all :
    (t k : ℕ) (index : List (ℕ × MemChunk))
    → t ≤ k
    → KeysFrom k index
    → kept_from t (chunks_of index) ≡ chunks_of index
kept_from_all t k [] h g = refl
kept_from_all t k ((j, c) ∷ rest) h (low, key, ordered, g) =
    let here : leb t (to_of c) ≡ true = ground arith in
    rw here (ap (λ cs. c ∷ cs) (kept_from_all t (j + 1) rest (omega arith) g))

drop_before-kept_from :
    (t k : ℕ) (index : List (ℕ × MemChunk))
    → KeysFrom k index
    → (chunks_of (drop_before t index).1 ≡ kept_from t (chunks_of index))
      × ((drop_before t index).0 + length (drop_before t index).1 ≡ length index)
unfolding drop_before
drop_before-kept_from t k [] g = (refl, refl)
drop_before-kept_from t k ((j, c) ∷ rest) (low, key, ordered, g) =
    elim (Bool-cases (ltb (to_of c) t)) [
      | inl h ↦
          let (kept, counted) = drop_before-kept_from t (j + 1) rest g in
          let out : leb t (to_of c) ≡ false = ground arith in rw (h, out) (kept, omega arith)
      | inr h ↦
          let here : leb t (to_of c) ≡ true = ground arith in
          rw (h, here)
            (ap (λ cs. c ∷ cs) (sym (kept_from_all t (j + 1) rest (ground arith) g)), omega arith)
    ]

-- If there is a current chunk, the keys of the index rise and each is the maximum time of its
-- chunk, which is not before its minimum time, then drop_Old succeeds, leaves of the chunks of
-- the index and the current one exactly those that do not end before the given time, in their
-- order, and returns the number of chunks that are gone.
pub drop_old-kept_from :
    (time : ℕ) (t : TimeTrack) (c : MemChunk)
    → KeysFrom 0 t.index
    → t.cur_chunk ≡ some c
    → (n : ℕ) × (t' : TimeTrack) × (drop_old time t ≡ some (n, t'))
      × (chunks_of t'.index ++ current t' ≡ kept_from time (chunks_of t.index ++ current t))
      × (n + (length t'.index + length (current t')) ≡ length t.index + 1)
unfolding drop_old
drop_old-kept_from time t c g is_current =
    let dropped : ℕ × List (ℕ × MemChunk) = drop_before time t.index in
    let (kept, counted) = drop_before-kept_from time 0 t.index g in
    let split : kept_from time (chunks_of t.index ++ (c ∷ []))
        ≡ chunks_of dropped.1 ++ kept_from time (c ∷ []) =
      kept_from-append time (chunks_of t.index) (c ∷ [])
      ∙ ap (λ cs. cs ++ kept_from time (c ∷ [])) (sym kept) in
    elim (Bool-cases (ltb (to_of c) time)) [
      | inl h ↦
          let out : leb time (to_of c) ≡ false = ground arith in
          (
            dropped.0 + 1,
            record t { index = dropped.1; cur_chunk = none },
            rw (is_current, h) refl,
            rw is_current (sym (split ∙ rw out refl)),
            omega arith,
          )
      | inr h ↦
          let here : leb time (to_of c) ≡ true = ground arith in
          (
            dropped.0,
            record t { index = dropped.1; cur_chunk = some c },
            rw (is_current, h) refl,
            rw is_current (sym (split ∙ rw here refl)),
            omega arith,
          )
    ]
