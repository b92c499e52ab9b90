-- ===== src/Storage/Wal/Sets.antt =====
-- storage/wal/walfile.cpp: the sets that `intervalReader` collects, for each id by time.
use memseries.Base.{
  ℕ, suc, ◌<◌, ◌≤◌, ◌≡◌, arith, tests, refl, ap, sym, ◌∙◌, subst, Bool, Bool-cases, true, false,
  ltb, ◌==◌, ◌&&◌, if◌then◌else◌,
}
use memseries.Base.{Option, none, some, List, [], ◌∷◌, inl, inr}
use memseries.Meas.{Meas}
use memseries.Storage.Cursor.{QueryInterval}
use memseries.Storage.Cursor.Apply.{in_query_of}
use memseries.Storage.Wal.Intervals.{insert_meas, insert_in, interval_sets}
use memseries.Storage.Wal.Points.{or_else, or_else-none, or_else_assoc, first_or, eq_sound}

-- Each time is behind the ones before it.
abbrev pub AscendingFrom : ℕ → List Meas → Type 0
AscendingFrom lo [] = Unit
AscendingFrom lo (m ∷ ms) = (lo ≤ m.time) × AscendingFrom (suc m.time) ms

unfoldable pub at_time : ℕ → List Meas → Option Meas
at_time t [] = none
at_time t (m ∷ ms) = let later = at_time t ms in if m.time == t then some m else later

pub insert_meas-AscendingFrom :
    (lo : ℕ) (m : Meas) (s : List Meas)
    → lo ≤ m.time
    → AscendingFrom lo s
    → AscendingFrom lo (insert_meas m s)
unfolding insert_meas
insert_meas-AscendingFrom lo m [] h a = (h, tt)
insert_meas-AscendingFrom lo m (x ∷ xs) h (first, a) = elim (Bool-cases (ltb m.time x.time)) [
  | inl before ↦ rw before (h, ((grind tests), a))
  | inr behind ↦ elim (Bool-cases (ltb x.time m.time)) [
    | inl later ↦
        rw (behind, later) (first, insert_meas-AscendingFrom (suc x.time) m xs (grind tests) a)
    | inr same ↦ rw (behind, same) (first, a)
  ]
]

before_all : (t lo : ℕ) (s : List Meas) → t < lo → AscendingFrom lo s → at_time t s ≡ none
unfolding at_time
before_all t lo [] h a = refl
before_all t lo (m ∷ ms) h (first, a) =
    let other : (m.time == t) ≡ false = ground arith in
    rw other (before_all t (suc m.time) ms (omega arith) a)

at_time-insert_meas :
    (t lo : ℕ) (m : Meas) (s : List Meas)
    → AscendingFrom lo s
    → at_time t (insert_meas m s) ≡ or_else (at_time t s) (if m.time == t then some m else none)
unfolding insert_meas at_time
at_time-insert_meas t lo m [] a = refl
at_time-insert_meas t lo m (x ∷ xs) (first, a) = elim (Bool-cases (ltb m.time x.time)) [
  | inl before ↦ elim (Bool-cases (m.time == t)) [
    | inl here ↦
        let now = eq_sound m.time t here in
        let lower : m.time < x.time = grind tests in
        let other : (x.time == t) ≡ false = ground arith in
        rw (before, here, other, before_all t (suc x.time) xs (omega arith) a) refl
    | inr other ↦ rw (before, other) (sym (or_else-none _))
  ]
  | inr behind ↦ elim (Bool-cases (ltb x.time m.time)) [
    | inl later ↦
        rw (behind, later)
          (elim (Bool-cases (x.time == t)) [
            | inl here ↦ rw here refl
            | inr other ↦ rw other (at_time-insert_meas t (suc x.time) m xs a)
          ])
    | inr same ↦
        let equal : m.time ≡ x.time = grind tests in
        rw (behind, same)
          (elim (Bool-cases (x.time == t)) [
            | inl here ↦ rw here refl
            | inr other ↦
                let neither : (m.time == t) ≡ false =
                  subst (λ k. (k == t) ≡ false) (sym equal) other in
                rw (other, neither) (sym (or_else-none (at_time t xs)))
          ])
  ]
]

-- The keys of the map are in order.
abbrev pub KeysFrom : ℕ → List (ℕ × List Meas) → Type 0
KeysFrom lo [] = Unit
KeysFrom lo ((k, s) ∷ rest) = (lo ≤ k) × KeysFrom (suc k) rest

unfoldable pub set_of : ℕ → List (ℕ × List Meas) → List Meas
set_of id [] = []
set_of id ((k, s) ∷ rest) = let later = set_of id rest in if k == id then s else later

no_key :
    (id lo : ℕ) (sets : List (ℕ × List Meas)) → id < lo → KeysFrom lo sets → set_of id sets ≡ []
unfolding set_of
no_key id lo [] h a = refl
no_key id lo ((k, s) ∷ rest) h (first, a) =
    let other : (k == id) ≡ false = ground arith in
    rw other (no_key id (suc k) rest (omega arith) a)

insert_in-KeysFrom :
    (lo : ℕ) (m : Meas) (sets : List (ℕ × List Meas))
    → lo ≤ m.id
    → KeysFrom lo sets
    → KeysFrom lo (insert_in m sets)
unfolding insert_in
insert_in-KeysFrom lo m [] h a = (h, tt)
insert_in-KeysFrom lo m ((k, s) ∷ rest) h (first, a) = elim (Bool-cases (ltb m.id k)) [
  | inl before ↦ rw before (h, ((grind tests), a))
  | inr behind ↦ elim (Bool-cases (ltb k m.id)) [
    | inl later ↦ rw (behind, later) (first, insert_in-KeysFrom (suc k) m rest (grind tests) a)
    | inr same ↦ rw (behind, same) (first, a)
  ]
]

same_key :
    (b : Bool) (m : Meas) (s r : List Meas)
    → (if b then insert_meas m s else r)
      ≡ (if b then insert_meas m (if b then s else r) else if b then s else r)
same_key true m s r = refl
same_key false m s r = refl

set_of-insert_in :
    (id lo : ℕ) (m : Meas) (sets : List (ℕ × List Meas))
    → KeysFrom lo sets
    → set_of id (insert_in m sets)
      ≡ (if m.id == id then insert_meas m (set_of id sets) else set_of id sets)
unfolding insert_in set_of
set_of-insert_in id lo m [] a = refl
set_of-insert_in id lo m ((k, s) ∷ rest) (first, a) = elim (Bool-cases (ltb m.id k)) [
  | inl before ↦ elim (Bool-cases (m.id == id)) [
    | inl here ↦
        let now = eq_sound m.id id here in
        let lower : m.id < k = grind tests in
        let other : (k == id) ≡ false = ground arith in
        rw (before, here, other, no_key id (suc k) rest (omega arith) a) refl
    | inr other ↦ rw (before, other) refl
  ]
  | inr behind ↦ elim (Bool-cases (ltb k m.id)) [
    | inl later ↦
        rw (behind, later)
          (elim (Bool-cases (k == id)) [
            | inl here ↦
                let lower : k < m.id = grind tests in
                let now = eq_sound k id here in
                let other : (m.id == id) ≡ false = ground arith in rw (here, other) refl
            | inr other ↦ rw other (set_of-insert_in id (suc k) m rest a)
          ])
    | inr same ↦
        let equal : k ≡ m.id = grind tests in
        rw (behind, same)
          (subst
            (λ j. (if j == id then insert_meas m s else set_of id rest) ≡ (
              if m.id == id
              then insert_meas m (if j == id then s else set_of id rest)
              else (if j == id then s else set_of id rest)))
            (sym equal) (same_key (m.id == id) m s (set_of id rest)))
  ]
]

-- The first measurement of an id and a time that passes a test.
unfoldable pub first_at : (Meas → Bool) → ℕ → ℕ → List Meas → Option Meas
first_at test id t [] = none
first_at test id t (m ∷ ms) =
    let later = first_at test id t ms in
    if test m && ((m.id == id) && (m.time == t)) then some m else later

insert_in-Ascending :
    (id : ℕ) (m : Meas) (sets : List (ℕ × List Meas))
    → KeysFrom 0 sets
    → AscendingFrom 0 (set_of id sets)
    → AscendingFrom 0 (set_of id (insert_in m sets))
insert_in-Ascending id m sets keys a = elim (Bool-cases (m.id == id)) [
  | inl here ↦
      subst (AscendingFrom 0) (sym (set_of-insert_in id 0 m sets keys ∙ chosen here))
        (insert_meas-AscendingFrom 0 m (set_of id sets) (omega arith) a)
  | inr other ↦ subst (AscendingFrom 0) (sym (set_of-insert_in id 0 m sets keys ∙ chosen other)) a
]
  where
    chosen :
        {b : Bool}
        → (m.id == id) ≡ b
        → (if m.id == id then insert_meas m (set_of id sets) else set_of id sets)
          ≡ (if b then insert_meas m (set_of id sets) else set_of id sets)
    chosen e = rw e refl

at_time-insert_in :
    (id t : ℕ) (m : Meas) (sets : List (ℕ × List Meas))
    → KeysFrom 0 sets
    → AscendingFrom 0 (set_of id sets)
    → at_time t (set_of id (insert_in m sets))
      ≡ or_else
          (at_time t (set_of id sets))
          (if (m.id == id) && (m.time == t) then some m else none)
at_time-insert_in id t m sets keys a =
    ap (at_time t) (set_of-insert_in id 0 m sets keys) ∙ elim (Bool-cases (m.id == id)) [
      | inl here ↦ rw here (at_time-insert_meas t 0 m (set_of id sets) a)
      | inr other ↦ rw other (sym (or_else-none (at_time t (set_of id sets))))
    ]

-- What the first loop of `intervalReader` leaves for an id.
pub interval_sets-first :
    (q : QueryInterval) (id : ℕ) (ms : List Meas) (sets : List (ℕ × List Meas))
    → KeysFrom 0 sets
    → AscendingFrom 0 (set_of id sets)
    → KeysFrom 0 (interval_sets q ms sets)
      × AscendingFrom 0 (set_of id (interval_sets q ms sets))
      × ((t : ℕ)
          → at_time t (set_of id (interval_sets q ms sets))
            ≡ or_else (at_time t (set_of id sets)) (first_at (in_query_of q) id t ms))
unfolding interval_sets first_at
interval_sets-first q id [] sets keys a = (keys, a, (λ t. sym (or_else-none _)))
interval_sets-first q id (m ∷ ms) sets keys a = elim (Bool-cases (in_query_of q m)) [
  | inr fails ↦
      let (keys', a', found) = interval_sets-first q id ms sets keys a in
      rw fails (keys', a', found)
  | inl passes ↦
      let (keys', a', found) =
        interval_sets-first q id ms (insert_in m sets)
          (insert_in-KeysFrom 0 m sets (omega arith) keys) (insert_in-Ascending id m sets keys a) in
      rw passes (
        keys',
        a',
        (λ t.
            found t
            ∙ ap (λ o. or_else o (first_at (in_query_of q) id t ms))
                (at_time-insert_in id t m sets keys a)
            ∙ or_else_assoc (at_time t (set_of id sets))
                (if (m.id == id) && (m.time == t) then some m else none)
                (first_at (in_query_of q) id t ms)
            ∙ ap (or_else (at_time t (set_of id sets)))
                (first_or ((m.id == id) && (m.time == t)) m (first_at (in_query_of q) id t ms))),
      )
]
