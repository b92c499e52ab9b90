-- ===== src/Storage/Merge/Creation.antt =====
-- storage/cursors.cpp: the constructor of `MergeSortCursor`, and what the cursor gives to its end.
use memseries.Base.{
  ℕ, ◌≤◌, ◌<◌, ◌≡◌, arith, refl, ap₂, sym, ◌∙◌, Bool, Bool-cases, true, false, ltb,
}
use memseries.Base.{none, some, List, [], ◌∷◌, length, map, inl, inr, replicate}
use memseries.Meas.{Meas, min_time, max_time}
use memseries.Storage.Statistic.{min_by, max_by}
use memseries.Storage.Cursor.{ICursor, Gives}
use memseries.Storage.Merge.{
  MergeSortCursor, fill_top_times, least_from, greatest_to, none_ended, unpack_readers,
  new_merge_cursor, sum_counts, merge_top, merge_cursor,
}
use memseries.Storage.Merge.Union.{
  union_all, without, union_all-First, union_all-nil, all_null, all_null-union_all,
}
use memseries.Storage.Merge.Least.{head_time}
use memseries.Storage.Merge.Reading.{null, AreRising, is_end-Gives, get_top_time-Gives}
use memseries.Storage.Merge.Refinement.{MergeStands, GiveAll, next_lem, found_lem, end_lem}

no_cons {ℓ} : {A : Type ℓ} {a : A} {xs : List A} → ◌≡◌ {A = List A} [] (a ∷ xs) → ⊥
no_cons e = cc

module _ {S : Type 0} (o : ICursor S) (checks : Bool) where
  merge_cursor-Gives :
      (us : List Meas) (c : MergeSortCursor S) (ls : List (List Meas))
      → MergeStands o checks c ls
      → union_all ls ≡ us
      → Gives (merge_cursor o checks) checks c us
  merge_cursor-Gives [] c ls h e = end_lem o checks c ls h ∙ union_all-nil ls e
  merge_cursor-Gives (m ∷ us) c ls h e = elim (Bool-cases (all_null ls)) [
    | inl empty ↦ absurd (no_cons (sym (all_null-union_all ls empty) ∙ e))
    | inr some_left ↦
        let f = union_all-First ls m us e in
        let (j, ms, r, place, g, found) = found_lem o checks c ls m us h f in
        let (c', read, h') = next_lem o checks c ls m us h some_left f in
        let going = end_lem o checks c ls h ∙ some_left in
        (
          going,
          unfold merge_top in rw (going, found, g.1) (ground (arith, Bool-cases checks)),
          (c', read, merge_cursor-Gives us c' (map (without m.time) ls) h' (f.1)),
        )
  ]

  -- Every list has a measurement.
  abbrev pub NoneNull : List (List Meas) → Type 0
  NoneNull [] = Unit {0}
  NoneNull (l ∷ ls) = (null l ≡ false) × NoneNull ls

  none_ended-GiveAll :
      (rs : List S) (ls : List (List Meas))
      → GiveAll o checks rs ls
      → NoneNull ls
      → none_ended o rs ≡ true
  unfolding none_ended
  none_ended-GiveAll [] [] g h = refl
  none_ended-GiveAll [] (l ∷ ls) g h = absurd g
  none_ended-GiveAll (r ∷ rs) [] g h = absurd g
  none_ended-GiveAll (r ∷ rs) (l ∷ ls) (here, g) (some_left, h) =
      rw (is_end-Gives o checks r l here, some_left, none_ended-GiveAll rs ls g h) refl

  fill_top_times-GiveAll :
      (rs : List S) (ls : List (List Meas))
      → GiveAll o checks rs ls
      → fill_top_times o rs ≡ some (map head_time ls)
  unfolding fill_top_times
  fill_top_times-GiveAll [] [] g = refl
  fill_top_times-GiveAll [] (l ∷ ls) g = absurd g
  fill_top_times-GiveAll (r ∷ rs) [] g = absurd g
  fill_top_times-GiveAll (r ∷ rs) (l ∷ ls) (here, g) =
      rw (get_top_time-Gives o checks r l here, fill_top_times-GiveAll rs ls g) refl

  replicate-false :
      (rs : List S) (ls : List (List Meas))
      → GiveAll o checks rs ls
      → NoneNull ls
      → replicate (length rs) false ≡ map null ls
  replicate-false [] [] g h = refl
  replicate-false [] (l ∷ ls) g h = absurd g
  replicate-false (r ∷ rs) [] g h = absurd g
  replicate-false (r ∷ rs) (l ∷ ls) (here, g) (some_left, h) =
      ap₂ ◌∷◌ (sym some_left) (replicate-false rs ls g h)

  pub unpack_plain :
      (rs : List S) → none_ended o rs ≡ true → unpack_readers o checks (λ _. none) rs ≡ some rs
  unfolding unpack_readers none_ended
  unpack_plain [] e = refl
  unpack_plain (r ∷ rs) e = elim (Bool-cases (o.is_end r)) [
    | inl ended ↦ cc (rw ended at e)
    | inr going ↦ rw (going, unpack_plain rs (rw going at e)) (ground (arith, Bool-cases checks))
  ]

  least_from_le : (rs : List S) (t : ℕ) → least_from o rs t ≤ t
  unfolding least_from
  least_from_le [] t = omega arith
  least_from_le (r ∷ rs) t = ground (arith, least_from_le rs (min_by ltb t (o.from_time r)))

  le_greatest_to : (rs : List S) (t : ℕ) → t ≤ greatest_to o rs t
  unfolding greatest_to
  le_greatest_to [] t = omega arith
  le_greatest_to (r ∷ rs) t = ground (arith, le_greatest_to rs (max_by ltb t (o.to_time r)))

  pub bounds :
      (r : S) (rs : List S)
      → o.from_time r < max_time
      → o.from_time r ≤ o.to_time r
      → (least_from o (r ∷ rs) max_time < max_time)
        × (least_from o (r ∷ rs) max_time ≤ greatest_to o (r ∷ rs) min_time)
  unfolding least_from greatest_to
  bounds r rs h g = ground (
    arith,
    least_from_le rs (min_by ltb max_time (o.from_time r)),
    le_greatest_to rs (max_by ltb min_time (o.to_time r)),
  )

  -- Over readers that give lists with times that rise strictly and stay below MAX_TIME, none of
  -- the lists empty, of which none is a MergeSortCursor and the first has a minimum time before
  -- MAX_TIME and not after its maximum time, the constructor of MergeSortCursor succeeds, and the
  -- cursor gives the union of the lists by time, where of several measurements of one time the
  -- one of the earliest list is kept.
  pub new_merge_cursor-union_all :
      (r : S) (rs : List S) (ls : List (List Meas))
      → GiveAll o checks (r ∷ rs) ls
      → AreRising ls
      → NoneNull ls
      → o.from_time r < max_time
      → o.from_time r ≤ o.to_time r
      → (c : MergeSortCursor S) × (new_merge_cursor o checks (λ _. none) (r ∷ rs) ≡ some c)
        × Gives (merge_cursor o checks) checks c (union_all ls)
  unfolding new_merge_cursor
  new_merge_cursor-union_all r rs ls g rising some_left before ordered =
      let going = none_ended-GiveAll (r ∷ rs) ls g some_left in
      let (low, high) = bounds r rs before ordered in
      (
        record {
          values_count = sum_counts o (r ∷ rs);
          readers = r ∷ rs;
          top_times = map head_time ls;
          is_end_status = replicate (length (r ∷ rs)) false;
          min_time = least_from o (r ∷ rs) max_time;
          max_time = greatest_to o (r ∷ rs) min_time;
        },
        rw (unpack_plain (r ∷ rs) going, going, fill_top_times-GiveAll (r ∷ rs) ls g)
            (ground (arith, Bool-cases checks)),
        merge_cursor-Gives (union_all ls) _ ls
            (record {
              readers = g;
              tops = refl;
              ends = replicate-false (r ∷ rs) ls g some_left;
              rising = rising;
            })
            refl,
      )
