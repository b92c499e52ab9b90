-- ===== src/Memory/Track/Spread.antt =====
-- storage/memstorage/timetrack.cpp: the times between which the chunks of a track lie, `minMaxTime`.
use memseries.Base.{
  ℕ, ◌≤◌, ◌≡◌, ◌⊎◌, arith, refl, ap, ◌∙◌, Bool, Bool-cases, true, false, ◌||◌, ◌==◌, ltb,
}
use memseries.Base.{some, List, [], ◌∷◌, ◌++◌, inl, inr}
use memseries.Storage.Statistic.{min_by, max_by}
use memseries.Meas.{max_time, min_time}
use memseries.Memory.Track.{
  MemChunk, TimeTrack, from_of, to_of, chunks_of, current, min_max_time, spread,
}

-- All chunks lie between two times.
abbrev pub AllWithin : ℕ → ℕ → List MemChunk → Type 0
AllWithin least greatest [] = Unit {0}
AllWithin least greatest (c ∷ cs) =
    (least ≤ from_of c) × (to_of c ≤ greatest) × AllWithin least greatest cs

-- One of the chunks begins at a time, or ends at it.
unfoldable pub begins_at : ℕ → List MemChunk → Bool
begins_at t [] = false
begins_at t (c ∷ cs) = (t == from_of c) || begins_at t cs

unfoldable pub ends_at : ℕ → List MemChunk → Bool
ends_at t [] = false
ends_at t (c ∷ cs) = (t == to_of c) || ends_at t cs

min_by_le : (a b : ℕ) → (min_by ltb a b ≤ a) × (min_by ltb a b ≤ b)
min_by_le a b = (ground arith, ground arith)

le_max_by : (a b : ℕ) → (a ≤ max_by ltb a b) × (b ≤ max_by ltb a b)
le_max_by a b = (ground arith, ground arith)

le_trans : {a b c : ℕ} → a ≤ b → b ≤ c → a ≤ c
le_trans h g = omega arith

spread_le :
    (cs : List MemChunk) (least greatest : ℕ)
    → ((spread cs (least, greatest)).0 ≤ least) × (greatest ≤ (spread cs (least, greatest)).1)
unfolding spread
spread_le [] least greatest = (omega arith, omega arith)
spread_le (c ∷ cs) least greatest =
    let (low, high) = spread_le cs (min_by ltb (from_of c) least) (max_by ltb (to_of c) greatest) in
    (le_trans low (min_by_le (from_of c) least).1, le_trans (le_max_by (to_of c) greatest).1 high)

spread-AllWithin :
    (cs : List MemChunk) (least greatest : ℕ)
    → AllWithin (spread cs (least, greatest)).0 (spread cs (least, greatest)).1 cs
unfolding spread
spread-AllWithin [] least greatest = tt
spread-AllWithin (c ∷ cs) least greatest =
    let least' : ℕ = min_by ltb (from_of c) least in
    let greatest' : ℕ = max_by ltb (to_of c) greatest in
    let (low, high) = spread_le cs least' greatest' in
    (
      le_trans low (min_by_le (from_of c) least).0,
      le_trans (le_max_by (to_of c) greatest).0 high,
      spread-AllWithin cs least' greatest',
    )

spread-append : (xs ys : List MemChunk) (r : ℕ × ℕ) → spread ys (spread xs r) ≡ spread (xs ++ ys) r
unfolding spread
spread-append [] ys r = refl
spread-append (x ∷ xs) ys (least, greatest) =
    spread-append xs ys (min_by ltb (from_of x) least, max_by ltb (to_of x) greatest)

min_by_cases : (a b : ℕ) → (min_by ltb a b ≡ a) ⊎ (min_by ltb a b ≡ b)
min_by_cases a b = elim (Bool-cases (ltb b a)) [ inl h ↦ ground arith | inr h ↦ ground arith ]

max_by_cases : (a b : ℕ) → (max_by ltb a b ≡ a) ⊎ (max_by ltb a b ≡ b)
max_by_cases a b = elim (Bool-cases (ltb a b)) [ inl h ↦ ground arith | inr h ↦ ground arith ]

-- Each answer is the value that the loop starts from, or that of a chunk.
spread-begins_at :
    (cs : List MemChunk) (least greatest : ℕ)
    → ((spread cs (least, greatest)).0 ≡ least)
      ⊎ (begins_at (spread cs (least, greatest)).0 cs ≡ true)
unfolding spread begins_at
spread-begins_at [] least greatest = inl refl
spread-begins_at (c ∷ cs) least greatest =
    let least' : ℕ = min_by ltb (from_of c) least in
    let greatest' : ℕ = max_by ltb (to_of c) greatest in
    let found : ℕ = (spread cs (least', greatest')).0 in
    elim (spread-begins_at cs least' greatest') [
      | inl h ↦ elim (min_by_cases (from_of c) least) [
        | inl e ↦
            let same : found ≡ from_of c = h ∙ e in
            let here : (found == from_of c) ≡ true = ground arith in inr (rw here refl)
        | inr e ↦ inl (h ∙ e)
      ]
      | inr h ↦ inr (rw h (ground (arith, Bool-cases (found == from_of c))))
    ]

spread-ends_at :
    (cs : List MemChunk) (least greatest : ℕ)
    → ((spread cs (least, greatest)).1 ≡ greatest)
      ⊎ (ends_at (spread cs (least, greatest)).1 cs ≡ true)
unfolding spread ends_at
spread-ends_at [] least greatest = inl refl
spread-ends_at (c ∷ cs) least greatest =
    let least' : ℕ = min_by ltb (from_of c) least in
    let greatest' : ℕ = max_by ltb (to_of c) greatest in
    let found : ℕ = (spread cs (least', greatest')).1 in
    elim (spread-ends_at cs least' greatest') [
      | inl h ↦ elim (max_by_cases (to_of c) greatest) [
        | inl e ↦
            let same : found ≡ to_of c = h ∙ e in
            let here : (found == to_of c) ≡ true = ground arith in inr (rw here refl)
        | inr e ↦ inl (h ∙ e)
      ]
      | inr h ↦ inr (rw h (ground (arith, Bool-cases (found == to_of c))))
    ]

-- minMaxTime for the id of the track gives two times between which all chunks of the index and
-- the current chunk lie; the first is at most MAX_TIME, and it is MAX_TIME or the minimum time of
-- one of those chunks; the second is MIN_TIME or the maximum time of one of them.
pub min_max_time-AllWithin :
    (t : TimeTrack)
    → (least : ℕ) × (greatest : ℕ) × (min_max_time t.meas_id t ≡ some (least, greatest))
      × AllWithin least greatest (chunks_of t.index ++ current t)
      × (least ≤ max_time)
      × ((least ≡ max_time) ⊎ (begins_at least (chunks_of t.index ++ current t) ≡ true))
      × ((greatest ≡ min_time) ⊎ (ends_at greatest (chunks_of t.index ++ current t) ≡ true))
unfolding min_max_time
min_max_time-AllWithin t =
    let cs : List MemChunk = chunks_of t.index ++ current t in
    let whole = spread-append (chunks_of t.index) (current t) (max_time, min_time) in
    let own : (t.meas_id == t.meas_id) ≡ true = ground arith in
    (
      (spread cs (max_time, min_time)).0,
      (spread cs (max_time, min_time)).1,
      rw own (ap some whole),
      spread-AllWithin cs max_time min_time,
      (spread_le cs max_time min_time).0,
      spread-begins_at cs max_time min_time,
      spread-ends_at cs max_time min_time,
    )
