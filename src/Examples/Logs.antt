-- ===== src/Examples/Logs.antt =====
-- The theorems on the write-ahead log at concrete inputs.
use memseries.Base.{ℕ, suc, ◌≡◌, arith, refl, Bool, true, false, ◌&&◌, leb, if◌then◌else◌}
use memseries.Base.{none, some, List, [], ◌∷◌, length, take, inr}
use memseries.Meas.{Meas, new_meas, in_query, MeasMinMax}
use memseries.Container.StripedMap.{StripedMap, find}
use memseries.Storage.FullCursor.{FullCursor}
use memseries.Storage.Cursor.{QueryInterval, QueryTimePoint}
use memseries.Storage.Cursor.Apply.{in_query_of}
use memseries.Storage.Wal.{
  WalFile, Status, status_of, create_file, open_file, content, append, append_range, read_all,
}
use memseries.Storage.Wal.Intervals.{interval_reader}
use memseries.Storage.Wal.Queries.{id_bloom, find_meas, read_time_point, load_min_max, new_min_max}
use memseries.Storage.Wal.Append.{IsLog, append_batches, joined, read_all-append_batches}
use memseries.Storage.Wal.Filter.{AllChecked, append-overflow, id_bloom-append_range}
use memseries.Storage.Wal.Answers.{answer, read_time_point-answer}
use memseries.Storage.Wal.Sets.{AscendingFrom, at_time, first_at}
use memseries.Storage.Wal.Reader.{CursorOver, cursor_at, interval_reader-CursorOver}
use memseries.Storage.Wal.MinMax.{has_id, latest_of, load_min_max-find}

abbrev early : Meas
early = record { id = 1; time = 10; value = 0; flag = 0 }

abbrev late : Meas
late = record { id = 1; time = 20; value = 0; flag = 0 }

abbrev other : Meas
other = record { id = 2; time = 15; value = 0; flag = 0 }

abbrev log : WalFile
log = open_file true (early ∷ other ∷ late ∷ [])

read_all-log : read_all log ≡ some (early ∷ other ∷ late ∷ [])
unfolding read_all open_file
read_all-log = refl

read_all-append_batches_example :
    (w : WalFile) × (append_batches true 2 ((early ∷ []) ∷ (other ∷ late ∷ []) ∷ []) create_file
      ≡ some w)
    × IsLog 2 w
    × (read_all w ≡ some (take 2 (joined ((early ∷ []) ∷ (other ∷ late ∷ []) ∷ []))))
read_all-append_batches_example =
    read_all-append_batches true 2 (early ∷ []) ((other ∷ late ∷ []) ∷ []) (omega arith)

-- A log of one measurement, where the limit is one.
abbrev full : WalFile
full = open_file false (early ∷ [])

full-IsLog : IsLog 1 full
unfolding open_file
full-IsLog = record { to_append = refl; counted = refl; within = omega arith }

full-writed : full.writed ≡ 1
unfolding open_file
full-writed = refl

append-overflow_example :
    (w : WalFile) × (append true 1 late full ≡ some (status_of 1, w))
    × (length (content w) ≡ suc 1)
    × (append_range true 1 (other ∷ []) w ≡ none)
append-overflow_example =
    append-overflow true 1 late (other ∷ []) full (omega arith) full-IsLog full-writed

full-file : full.file ≡ some (early ∷ [])
unfolding open_file
full-file = refl

full-id_bloom : full.id_bloom ≡ 0
unfolding open_file
full-id_bloom = refl

id_bloom-append_range_example :
    (w : WalFile) × (id_bloom full ≡ some (w.id_bloom, w))
    × AllChecked w.id_bloom (early ∷ [])
    × ((checks : Bool) (limit : ℕ) (ms : List Meas) (r : Status × WalFile)
        → append_range checks limit ms w ≡ some r
        → AllChecked r.1.id_bloom (content r.1))
id_bloom-append_range_example =
    id_bloom-append_range full (early ∷ []) full-file full-writed (inr full-id_bloom)

abbrev point : QueryTimePoint
point = record { ids = 1 ∷ 3 ∷ []; flag = 0; time_point = 20 }

read_time_point-answer_example :
    (r : List (ℕ × Meas)) × (read_time_point point log ≡ some r)
    × ((id : ℕ)
        → find_meas id r
          ≡ answer 20
              (1 ∷ 3 ∷ [])
              (λ m. in_query (1 ∷ 3 ∷ []) 0 m && leb m.time 20)
              (early ∷ other ∷ late ∷ [])
              id)
read_time_point-answer_example =
    read_time_point-answer point log (early ∷ other ∷ late ∷ []) read_all-log

abbrev query : QueryInterval
query = record { ids = 1 ∷ []; flag = 0; from = 0; to = 30; step = 0 }

interval_reader-CursorOver_example :
    (r : List (ℕ × FullCursor)) × (interval_reader true (λ s. s) query log ≡ some r)
    × ((id : ℕ)
        → (s : List Meas) × CursorOver true s (cursor_at id r)
          × AscendingFrom 0 s
          × ((t : ℕ) → at_time t s ≡ first_at (in_query_of query) id t (early ∷ other ∷ late ∷ [])))
interval_reader-CursorOver_example =
    interval_reader-CursorOver true (λ s. s) (λ s a. refl) query log (early ∷ other ∷ late ∷ [])
      read_all-log (omega arith, (omega arith, (omega arith, tt)))

load_min_max-find_example :
    (r : StripedMap MeasMinMax) × (load_min_max (λ k. k) log ≡ some r)
    × ((id : ℕ)
        → find (λ k. k) new_min_max id r ≡ (
            if has_id id (early ∷ other ∷ late ∷ [])
            then some
                (record { min = new_meas; max = latest_of id (early ∷ other ∷ late ∷ []) new_meas })
            else none))
load_min_max-find_example = load_min_max-find (λ k. k) log (early ∷ other ∷ late ∷ []) read_all-log
