-- ===== src/Memory/Track/Ranges.antt =====
-- storage/memstorage/timetrack.cpp: which chunks of a track a query reads.
use memseries.Base.{
  ℕ, zero, suc, ◌+◌, ◌-◌, ◌≤◌, ◌<◌, ◌≡◌, arith, refl, ap, sym, ◌∙◌, Bool-cases, true, false, ltb,
  leb, if◌then◌else◌,
}
use memseries.Base.{List, [], ◌∷◌, ◌++◌, take, drop, inl, inr}
use memseries.Memory.Track.{
  MemChunk, TimeTrack, from_of, to_of, lower_bound, upper_bound, range, chunks_of, chunk_in_query,
  current,
}
use memseries.Memory.Track.Query.{interval_chunks, chunks_in_query}

-- The keys rise from `k` on, and each is the maximum time of its chunk, not before the minimum.
abbrev pub KeysFrom : ℕ → List (ℕ × MemChunk) → Type 0
KeysFrom k [] = Unit {0}
KeysFrom k ((j, c) ∷ rest) = (k ≤ j) × (j ≡ to_of c) × (from_of c ≤ to_of c) × KeysFrom (j + 1) rest

-- The chunks that end at `to` or before.
abbrev pub ended_by : ℕ → List MemChunk → List MemChunk
ended_by to [] = []
ended_by to (c ∷ cs) = if leb (to_of c) to then c ∷ ended_by to cs else ended_by to cs

chunks_in_query-append :
    (from to : ℕ) (xs ys : List MemChunk)
    → chunks_in_query from to (xs ++ ys) ≡ chunks_in_query from to xs ++ chunks_in_query from to ys
unfolding chunks_in_query
chunks_in_query-append from to [] ys = refl
chunks_in_query-append from to (x ∷ xs) ys = elim (Bool-cases (chunk_in_query from to x)) [
  | inl h ↦ rw h (ap (λ zs. x ∷ zs) (chunks_in_query-append from to xs ys))
  | inr h ↦ rw h (chunks_in_query-append from to xs ys)
]

ended_by_none :
    (to k : ℕ) (index : List (ℕ × MemChunk))
    → to < k
    → KeysFrom k index
    → ended_by to (chunks_of index) ≡ []
ended_by_none to k [] h g = refl
ended_by_none to k ((j, c) ∷ rest) h (low, key, ordered, g) =
    let none_left = ended_by_none to (j + 1) rest (omega arith) g in ground arith

chunks_of-take :
    (to k : ℕ) (index : List (ℕ × MemChunk))
    → KeysFrom k index
    → chunks_of (take (upper_bound to index) index) ≡ ended_by to (chunks_of index)
unfolding upper_bound
chunks_of-take to k [] g = refl
chunks_of-take to k ((j, c) ∷ rest) (low, key, ordered, g) = elim (Bool-cases (leb j to)) [
  | inl h ↦
      let here : leb (to_of c) to ≡ true = ap (λ x. leb x to) (sym key) ∙ h in
      rw (h, here) (ap (λ cs. c ∷ cs) (chunks_of-take to (j + 1) rest g))
  | inr h ↦
      let here : leb (to_of c) to ≡ false = ap (λ x. leb x to) (sym key) ∙ h in
      rw (h, here) (sym (ended_by_none to (j + 1) rest (ground arith) g))
]

not_in_query :
    (from to : ℕ) (c : MemChunk)
    → from ≤ to
    → from_of c ≤ to_of c
    → to_of c < from
    → chunk_in_query from to c ≡ false
unfolding chunk_in_query
not_in_query from to c h ordered before = ground arith

-- The chunks of the index that a loop visits.
abbrev slice : ℕ → ℕ → List (ℕ × MemChunk) → List MemChunk
slice begin end index = chunks_of (take (end - begin) (drop begin index))

slice-suc :
    (from to L U j : ℕ) (c : MemChunk) (rest : List (ℕ × MemChunk))
    → chunk_in_query from to c ≡ false
    → chunks_in_query from to (slice L (suc U) ((j, c) ∷ rest))
      ≡ chunks_in_query from to (slice (L - 1) U rest)
unfolding chunks_in_query
slice-suc from to zero U j c rest out =
    let all : suc U - 0 ≡ suc U = omega arith in
    let rest_of : U - (0 - 1) ≡ U = omega arith in rw (all, rest_of, out) refl
slice-suc from to (suc n) U j c rest out =
    let less : suc U - suc n ≡ U - n = omega arith in
    let pred : suc n - 1 ≡ n = omega arith in rw (less, pred) refl

ended_by_out :
    (from to : ℕ) (c : MemChunk) (cs : List MemChunk)
    → chunk_in_query from to c ≡ false
    → chunks_in_query from to (ended_by to (c ∷ cs)) ≡ chunks_in_query from to (ended_by to cs)
unfolding chunks_in_query
ended_by_out from to c cs out = elim (Bool-cases (leb (to_of c) to)) [
  | inl h ↦ rw (h, out) refl
  | inr h ↦ rw h refl
]

slice_whole :
    (to k : ℕ) (index : List (ℕ × MemChunk))
    → KeysFrom k index
    → slice (0 - 1) (upper_bound to index) index ≡ ended_by to (chunks_of index)
slice_whole to k index g =
    let all : upper_bound to index - 0 ≡ upper_bound to index = omega arith in
    ap (λ n. chunks_of (take n index)) all ∙ chunks_of-take to k index g

slice_lem :
    (from to k : ℕ) (index : List (ℕ × MemChunk))
    → from ≤ to
    → KeysFrom k index
    → chunks_in_query from to (slice (lower_bound from index - 1) (upper_bound to index) index)
      ≡ chunks_in_query from to (ended_by to (chunks_of index))
unfolding lower_bound upper_bound
slice_lem from to k [] h g = refl
slice_lem from to k ((j, c) ∷ rest) h (low, key, ordered, g) = elim (Bool-cases (ltb j from)) [
  | inl before ↦
      let early : leb j to ≡ true = ground arith in
      let out = not_in_query from to c h ordered (ground arith) in
      let pred : suc (lower_bound from rest) - 1 ≡ lower_bound from rest = omega arith in
      rw (before, early, pred)
        (slice-suc from to (lower_bound from rest) (upper_bound to rest) j c rest out
          ∙ slice_lem from to (j + 1) rest h g
          ∙ sym (ended_by_out from to c (chunks_of rest) out))
  | inr later ↦
      let low_end : lower_bound from ((j, c) ∷ rest) ≡ 0 = rw later refl in
      ap
        (λ b.
          chunks_in_query from to (slice (b - 1) (upper_bound to ((j, c) ∷ rest)) ((j, c) ∷ rest)))
        low_end
      ∙ ap (chunks_in_query from to) (slice_whole to k ((j, c) ∷ rest) (low, key, ordered, g))
]

lower_bound_le :
    (from to : ℕ) (index : List (ℕ × MemChunk))
    → from ≤ to
    → lower_bound from index ≤ upper_bound to index
unfolding lower_bound upper_bound
lower_bound_le from to [] h = omega arith
lower_bound_le from to ((j, c) ∷ rest) h = let later = lower_bound_le from to rest h in ground arith

range-slice :
    (begin end : ℕ) (index : List (ℕ × MemChunk))
    → begin ≤ end
    → range begin end index ≡ slice begin end index
unfolding range
range-slice begin end index h = ground arith

-- If the keys of the index rise and each is the maximum time of its chunk, which is not before
-- its minimum time, then for an interval that is not empty the chunks that intervalReader and
-- stat read are exactly those of the index that touch the interval and end inside or before it,
-- and the current chunk if it touches the interval.
pub interval_chunks-ended_by :
    (from to : ℕ) (t : TimeTrack)
    → from ≤ to
    → KeysFrom 0 t.index
    → chunks_in_query from to (interval_chunks from to t)
      ≡ chunks_in_query from to (ended_by to (chunks_of t.index) ++ current t)
unfolding interval_chunks
interval_chunks-ended_by from to t h g =
    let begin : ℕ = lower_bound from t.index - 1 in
    let end : ℕ = upper_bound to t.index in
    ap (λ cs. chunks_in_query from to (cs ++ current t))
      (range-slice begin end t.index (omega (arith, lower_bound_le from to t.index h)))
    ∙ chunks_in_query-append from to (slice begin end t.index) (current t)
    ∙ ap (λ cs. cs ++ chunks_in_query from to (current t)) (slice_lem from to 0 t.index h g)
    ∙ sym (chunks_in_query-append from to (ended_by to (chunks_of t.index)) (current t))
