-- ===== src/Examples/Cursors.antt =====
-- The theorems on cursors at concrete inputs.
use memseries.Base.{◌≡◌, arith, refl, true, false, some, none, List, [], ◌∷◌, map}
use memseries.Meas.{Meas, new_meas, intervals_intersection}
use memseries.Storage.FullCursor.{FullCursor, full_read_next, full_top, full_is_end, skip_equal}
use memseries.Storage.Cursor.{Gives, apply_query, read_time_point, QueryInterval, QueryTimePoint}
use memseries.Storage.Cursor.Apply.{
  apply_query-calls, read_time_point-last, calls, keep_if, in_query_of, at_point, last_or,
}
use memseries.Storage.Cursor.Instances.{full_cursor}
use memseries.Storage.Merge.{MergeSortCursor, new_merge_cursor, merge_cursor}
use memseries.Storage.Merge.Union.{union_all}
use memseries.Storage.Merge.Creation.{new_merge_cursor-union_all}
use memseries.Storage.Linear.{LinearCursor, new_linear_cursor, linear_cursor}
use memseries.Storage.Linear.Sorting.{Reordered, KeysRise}
use memseries.Storage.Linear.Reading.{joined, new_linear_cursor-joined}
use memseries.Storage.Collapse.{Span, is_linear_readers, collapse_groups}
use memseries.Storage.Collapse.Disjoint.{
  collapse_groups-DisjointFrom, collapse_groups_chain, positions,
}
use memseries.Examples.{sample}
use memseries.Examples.Sorting.{sort_by, sort_by-IsSort}

abbrev pub early_list : List Meas
early_list = sample 10 1 0 ∷ sample 30 2 0 ∷ []

abbrev late_list : List Meas
late_list = sample 20 3 0 ∷ sample 30 4 0 ∷ []

abbrev pub early : FullCursor
early = record { ma = early_list; index = 0; min_time = 10; max_time = 30 }

abbrev late : FullCursor
late = record { ma = late_list; index = 0; min_time = 20; max_time = 30 }

pub early-Gives : Gives full_cursor true early early_list
unfolding full_is_end full_top full_read_next skip_equal
early-Gives = (
  refl,
  refl,
  (record early { index = 1 }, refl, (refl, refl, (record early { index = 2 }, refl, refl))),
)

late-Gives : Gives full_cursor true late late_list
unfolding full_is_end full_top full_read_next skip_equal
late-Gives = (
  refl,
  refl,
  (record late { index = 1 }, refl, (refl, refl, (record late { index = 2 }, refl, refl))),
)

new_merge_cursor-union_all_example :
    (c : MergeSortCursor FullCursor) × (new_merge_cursor full_cursor true
        (λ _. none)
        (early ∷ late ∷ [])
      ≡ some c)
    × Gives (merge_cursor full_cursor true) true c (union_all (early_list ∷ late_list ∷ []))
new_merge_cursor-union_all_example =
    new_merge_cursor-union_all full_cursor true early (late ∷ []) (early_list ∷ late_list ∷ [])
      (early-Gives, (late-Gives, tt))
      (
        (omega arith, (omega arith, omega arith, tt)),
        ((omega arith, (omega arith, omega arith, tt)), tt),
      )
      (refl, (refl, tt)) (omega arith) (omega arith)

abbrev after_list : List Meas
after_list = sample 40 5 0 ∷ []

abbrev after : FullCursor
after = record { ma = after_list; index = 0; min_time = 40; max_time = 40 }

after-Gives : Gives full_cursor true after after_list
unfolding full_is_end full_top full_read_next skip_equal
after-Gives = (refl, refl, (record after { index = 1 }, refl, refl))

new_linear_cursor-joined_example :
    (zs : List (FullCursor × List Meas)) × Reordered
      ((after, after_list) ∷ (early, early_list) ∷ [])
      zs
    × KeysRise (λ r. r.min_time) 0 (map (λ p. p.0) zs)
    × ((c : LinearCursor FullCursor) × (new_linear_cursor full_cursor true
            (λ _. none)
            sort_by
            (after ∷ early ∷ [])
          ≡ some c)
        × Gives (linear_cursor full_cursor true) true c (joined (map (λ p. p.1) zs)))
new_linear_cursor-joined_example =
    new_linear_cursor-joined full_cursor true sort_by (after, after_list) ((early, early_list) ∷ [])
      sort_by-IsSort
      (
        after-Gives,
        refl,
        omega arith,
        omega arith,
        (early-Gives, refl, omega arith, omega arith, tt),
      )

abbrev interval : QueryInterval
interval = record { ids = 7 ∷ []; flag = 0; from = 10; to = 20; step = 0 }

apply_query-calls_example :
    (s' : FullCursor) × (apply_query full_cursor true
        (λ _. false)
        (λ m seen. m ∷ seen)
        interval
        3
        early
        []
      ≡ some (s', calls (λ m seen. m ∷ seen) (keep_if (in_query_of interval) early_list) []))
    × (full_is_end s' ≡ true)
apply_query-calls_example =
    apply_query-calls full_cursor true (λ m seen. m ∷ seen) interval 3 early early_list []
      early-Gives (omega arith)

abbrev point : QueryTimePoint
point = record { ids = 7 ∷ []; flag = 0; time_point = 25 }

read_time_point-last_example :
    read_time_point full_cursor true point 3 early
    ≡ some (last_or new_meas (keep_if (at_point point) early_list))
read_time_point-last_example =
    read_time_point-last full_cursor true point 3 early early_list early-Gives (omega arith)

abbrev left : Span
left = record { from = 1; to = 10 }

abbrev right : Span
right = record { from = 20; to = 30 }

abbrev middle : Span
middle = record { from = 5; to = 25 }

left-right : is_linear_readers left right ≡ true
unfolding is_linear_readers intervals_intersection
left-right = refl

right-left : is_linear_readers right left ≡ true
unfolding is_linear_readers intervals_intersection
right-left = refl

left-middle : is_linear_readers left middle ≡ false
unfolding is_linear_readers intervals_intersection
left-middle = refl

right-middle : is_linear_readers right middle ≡ false
unfolding is_linear_readers intervals_intersection
right-middle = refl

collapse_groups-DisjointFrom_example :
    collapse_groups (left ∷ right ∷ [])
    ≡ record { processed_pos = []; overlapped = []; result = positions 0 (left ∷ right ∷ []) }
collapse_groups-DisjointFrom_example = collapse_groups-DisjointFrom (left ∷ right ∷ []) (
  ((λ e. absurd (e refl)), ((λ e. left-right), tt)),
  (((λ e. right-left), ((λ e. absurd (e refl)), tt)), tt),
)

collapse_groups_chain_example :
    collapse_groups (left ∷ right ∷ middle ∷ [])
    ≡ record { processed_pos = 0 ∷ 1 ∷ 2 ∷ []; overlapped = (0, 1 ∷ 2 ∷ []) ∷ []; result = 1 ∷ [] }
collapse_groups_chain_example =
    collapse_groups_chain left right middle left-right left-middle right-middle
