-- ===== src/Storage/Wal/Reader.antt =====
-- storage/wal/walfile.cpp: what the cursors of `intervalReader` give.
use memseries.Base.{
  ℕ, suc, ◌<◌, ◌≤◌, ◌≡◌, arith, tests, refl, ap, ◌∙◌, subst, Bool, Bool-cases, true, false, ltb,
  leb, ◌==◌, if◌then◌else◌,
}
use memseries.Base.{Option, none, some, ensure, ensure-true, List, [], ◌∷◌, inl, inr}
use memseries.Meas.{Meas, max_time}
use memseries.Storage.Cursor.{QueryInterval, Gives}
use memseries.Storage.Cursor.Apply.{in_query_of}
use memseries.Storage.Cursor.Instances.{full_cursor, new_full_cursor-Gives}
use memseries.Storage.FullCursor.{FullCursor, new_full_cursor}
use memseries.Storage.FullCursor.Drain.{firsts_behind}
use memseries.Storage.Select.{ends_ordered, last_time}
use memseries.Storage.Wal.{WalFile, read_all}
use memseries.Storage.Wal.Intervals.{
  insert_meas, insert_in, interval_sets, cursors_of, interval_reader,
}
use memseries.Storage.Wal.Sets.{
  AscendingFrom, at_time, set_of, first_at, interval_sets-first, insert_meas-AscendingFrom,
}

-- A set that has a cursor: it is not empty, and begins before `MAX_TIME`.
abbrev Filled : List Meas → Type 0
Filled [] = ⊥
Filled (m ∷ ms) = (m.time < max_time) × AscendingFrom (suc m.time) ms

abbrev AllFilled : List (ℕ × List Meas) → Type 0
AllFilled [] = Unit
AllFilled ((k, s) ∷ rest) = Filled s × AllFilled rest

abbrev AllBefore : List Meas → Type 0
AllBefore [] = Unit
AllBefore (m ∷ ms) = (m.time < max_time) × AllBefore ms

insert_meas-Filled :
    (m : Meas) (s : List Meas) → m.time < max_time → Filled s → Filled (insert_meas m s)
unfolding insert_meas
insert_meas-Filled m [] h f = absurd f
insert_meas-Filled m (x ∷ xs) h (first, a) = elim (Bool-cases (ltb m.time x.time)) [
  | inl before ↦ rw before (h, ((grind tests), a))
  | inr behind ↦ elim (Bool-cases (ltb x.time m.time)) [
    | inl later ↦
        rw (behind, later) (first, insert_meas-AscendingFrom (suc x.time) m xs (grind tests) a)
    | inr same ↦ rw (behind, same) (first, a)
  ]
]

insert_in-AllFilled :
    (m : Meas) (sets : List (ℕ × List Meas))
    → m.time < max_time
    → AllFilled sets
    → AllFilled (insert_in m sets)
unfolding insert_in insert_meas
insert_in-AllFilled m [] h a = ((h, tt), tt)
insert_in-AllFilled m ((k, s) ∷ rest) h (f, a) = elim (Bool-cases (ltb m.id k)) [
  | inl before ↦ rw before ((h, tt), (f, a))
  | inr behind ↦ elim (Bool-cases (ltb k m.id)) [
    | inl later ↦ rw (behind, later) (f, insert_in-AllFilled m rest h a)
    | inr same ↦ rw (behind, same) (insert_meas-Filled m s h f, a)
  ]
]

interval_sets-AllFilled :
    (q : QueryInterval) (ms : List Meas) (sets : List (ℕ × List Meas))
    → AllBefore ms
    → AllFilled sets
    → AllFilled (interval_sets q ms sets)
unfolding interval_sets
interval_sets-AllFilled q [] sets h a = a
interval_sets-AllFilled q (m ∷ ms) sets (first, h) a = elim (Bool-cases (in_query_of q m)) [
  | inl passes ↦
      rw passes
        (interval_sets-AllFilled q ms (insert_in m sets) h (insert_in-AllFilled m sets first a))
  | inr fails ↦ rw fails (interval_sets-AllFilled q ms sets h a)
]

firsts_behind-Ascending :
    (t : ℕ) (ms : List Meas) → AscendingFrom (suc t) ms → firsts_behind t ms ≡ ms
firsts_behind-Ascending t [] a = refl
firsts_behind-Ascending t (m ∷ ms) (first, a) =
    let other : (m.time == t) ≡ false = ground arith in
    rw other (ap (λ r. m ∷ r) (firsts_behind-Ascending m.time ms a))

last_time-Ascending : (t : ℕ) (ms : List Meas) → AscendingFrom (suc t) ms → t ≤ last_time t ms
last_time-Ascending t [] a = omega arith
last_time-Ascending t (m ∷ ms) (first, a) = omega (arith, last_time-Ascending m.time ms a)

unfoldable pub cursor_at : ℕ → List (ℕ × FullCursor) → Option FullCursor
cursor_at id [] = none
cursor_at id ((k, c) ∷ rest) = let later = cursor_at id rest in if k == id then some c else later

-- The cursor of an id is that over its set.
abbrev pub CursorOver : Bool → List Meas → Option FullCursor → Type 0
CursorOver checks s none = s ≡ []
CursorOver checks s (some c) = Gives full_cursor checks c s

CursorOver-if :
    (checks b : Bool) (s s' : List Meas) (c : FullCursor) (o : Option FullCursor)
    → Gives full_cursor checks c s
    → CursorOver checks s' o
    → CursorOver checks (if b then s else s') (if b then some c else o)
CursorOver-if checks true s s' c o g h = g
CursorOver-if checks false s s' c o g h = h

module _ (checks : Bool) (sort : List Meas → List Meas)
    (sort_ascending : (s : List Meas) → AscendingFrom 0 s → sort s ≡ s) where
  cursor_of_set :
      (s : List Meas)
      → Filled s
      → (c : FullCursor) × (ensure checks (ends_ordered (sort s)) ≡ some tt)
        × (new_full_cursor checks (sort s) ≡ some c)
        × Gives full_cursor checks c s
  cursor_of_set [] f = absurd f
  cursor_of_set (m ∷ ms) (first, a) =
      let e = sort_ascending (m ∷ ms) ((omega arith), a) in
      let (c, made, gives) = new_full_cursor-Gives checks m ms first in
      let ends : leb m.time (last_time m.time ms) ≡ true =
        ground (arith, last_time-Ascending m.time ms a) in
      (
        c,
        ensure-true checks _ (ap ends_ordered e ∙ ends),
        (ap (new_full_cursor checks) e ∙ made),
        subst (Gives full_cursor checks c) (ap (λ r. m ∷ r) (firsts_behind-Ascending m.time ms a))
            gives,
      )

  cursors_of-CursorOver :
      (sets : List (ℕ × List Meas))
      → AllFilled sets
      → (r : List (ℕ × FullCursor)) × (cursors_of checks sort sets ≡ some r)
        × ((id : ℕ) → CursorOver checks (set_of id sets) (cursor_at id r))
  unfolding cursors_of set_of cursor_at
  cursors_of-CursorOver [] a = ([], refl, (λ id. refl))
  cursors_of-CursorOver ((k, s) ∷ rest) (f, a) =
      let (c, passes, made, gives) = cursor_of_set s f in
      let (r, run, over) = cursors_of-CursorOver rest a in
      (
        (k, c) ∷ r,
        rw (passes, made, run) refl,
        (λ id.
            CursorOver-if checks (k == id) s (set_of id rest) c (cursor_at id r) gives (over id)),
      )

  -- If the sort leaves a list of rising times as it is, then for a log that reads back
  -- measurements before MAX_TIME, intervalReader passes its checks, and for each id there is a
  -- list of rising times that the cursor of the id gives, or that is empty where there is no
  -- cursor: at each time it has the first measurement in the file of that id and that time that
  -- the query asks for.
  pub interval_reader-CursorOver :
      (q : QueryInterval) (w : WalFile) (ms : List Meas)
      → read_all w ≡ some ms
      → AllBefore ms
      → (r : List (ℕ × FullCursor)) × (interval_reader checks sort q w ≡ some r)
        × ((id : ℕ)
            → (s : List Meas) × CursorOver checks s (cursor_at id r)
              × AscendingFrom 0 s
              × ((t : ℕ) → at_time t s ≡ first_at (in_query_of q) id t ms))
  unfolding interval_reader set_of at_time
  interval_reader-CursorOver q w ms e before =
      let (r, run, over) =
        cursors_of-CursorOver (interval_sets q ms []) (interval_sets-AllFilled q ms [] before tt) in
      (
        r,
        rw e run,
        (λ id.
            let (keys, a, found) = interval_sets-first q id ms [] tt tt in
            (set_of id (interval_sets q ms []), over id, a, found)),
      )
