-- ===== src/Storage/Wal/Queries.antt =====
-- storage/wal/walfile.cpp: what a log answers for a time and for an id, its filter and its times.
use memseries.Base.{ℕ, ◌-◌, ◌%◌, ◌^◌, Bool, true, false, not, ◌&&◌, ◌==◌, ltb, leb, if◌then◌else◌}
use memseries.Base.{Option, none, some, ◌>>=◌, List, [], ◌∷◌, length}
use memseries.Meas.{
  Meas, new_meas, min_time, max_time, contains, in_flag, in_ids, in_query, MeasMinMax, update_max,
  update_min,
}
use memseries.Storage.Bloom.{bloom_empty, bloom_add}
use memseries.Storage.Statistic.{min_by, max_by}
use memseries.Storage.Cursor.{QueryTimePoint}
use memseries.Container.StripedMap.{StripedMap, create, find_bucket}
use memseries.Storage.Wal.{WalFile, read_all}

-- `Id2Meas`: `find`, `emplace`, which leaves a key that is there, and the assignment.
unfoldable pub find_meas : ℕ → List (ℕ × Meas) → Option Meas
find_meas id [] = none
find_meas id ((k, m) ∷ rest) = let later = find_meas id rest in if k == id then some m else later

unfoldable pub emplace : ℕ → Meas → List (ℕ × Meas) → List (ℕ × Meas)
emplace id m [] = (id, m) ∷ []
emplace id m ((k, x) ∷ rest) =
    let later = (k, x) ∷ emplace id m rest in if k == id then (k, x) ∷ rest else later

unfoldable pub assign : ℕ → Meas → List (ℕ × Meas) → List (ℕ × Meas)
assign id m [] = (id, m) ∷ []
assign id m ((k, x) ∷ rest) =
    let later = (k, x) ∷ assign id m rest in if k == id then (k, m) ∷ rest else later

abbrev pub replace_found : Option Meas → Meas → List (ℕ × Meas) → List (ℕ × Meas)
replace_found none m s = emplace m.id m s
replace_found (some old) m s = if ltb old.time m.time then emplace m.id m s else s

unfoldable pub replace_if_older : Meas → List (ℕ × Meas) → List (ℕ × Meas)
unfolding find_meas emplace
replace_if_older m s = replace_found (find_meas m.id s) m s

-- `IdSet`.
unfoldable pub insert_id : ℕ → List ℕ → List ℕ
unfolding contains
insert_id id ids = if contains ids id then ids else id ∷ ids

-- The first loop of `readTimePoint` and `currentValue`: the measurements that pass are kept, with their ids.
unfoldable pub gather :
    (Meas → Bool) → List Meas → List (ℕ × Meas) × List ℕ → List (ℕ × Meas) × List ℕ
unfolding replace_if_older insert_id
gather test [] r = r
gather test (m ∷ ms) (s, readed_ids) =
    gather test ms
      (if test m then (replace_if_older m s, insert_id m.id readed_ids) else (s, readed_ids))

-- Their second loop: what stands for an id that was not read.
abbrev pub no_data : ℕ → ℕ → Meas
no_data time id = record new_meas { id = id; flag = 2 ^ 32 - 1; time = time }

unfoldable pub fill_missing : ℕ → List ℕ → List ℕ → List (ℕ × Meas) → List (ℕ × Meas)
unfolding assign contains
fill_missing time [] readed_ids s = s
fill_missing time (id ∷ ids) readed_ids s =
    fill_missing time ids readed_ids
      (if contains readed_ids id then s else assign id (no_data time id) s)

unfoldable pub answers : ℕ → List ℕ → List (ℕ × Meas) × List ℕ → List (ℕ × Meas)
unfolding fill_missing
answers time ids (s, readed_ids) =
    if not (length ids == 0) && not (length readed_ids == length ids)
    then fill_missing time ids readed_ids s
    else s

unfoldable pub read_time_point : QueryTimePoint → WalFile → Option (List (ℕ × Meas))
unfolding read_all gather answers
read_time_point q w = do
  all ← read_all w
  some (
      answers q.time_point q.ids
        (gather (λ m. in_query q.ids q.flag m && leb m.time q.time_point) all ([], [])))

unfoldable pub current_value : List ℕ → ℕ → WalFile → Option (List (ℕ × Meas))
unfolding read_all gather answers
current_value ids flag w = do
  all ← read_all w
  some (answers 0 ids (gather (λ m. in_flag flag m && in_ids ids m) all ([], [])))

-- `updateBloom` and `id_bloom`, which recomputes the filter when it is 0.
unfoldable pub bloom_of : List Meas → ℕ → ℕ
bloom_of [] bloom = bloom
bloom_of (m ∷ ms) bloom = bloom_of ms (bloom_add bloom m.id % 2 ^ 32)

unfoldable pub id_bloom : WalFile → Option (ℕ × WalFile)
unfolding read_all bloom_of
id_bloom w =
    let updated = (do
      all ← read_all w
      let bloom = bloom_of all bloom_empty
      some (bloom, record w { id_bloom = bloom })) in
    if w.id_bloom == 0 then updated else some (w.id_bloom, w)

unfoldable pub least_of : List Meas → ℕ → ℕ
least_of [] result = result
least_of (m ∷ ms) result = least_of ms (min_by ltb m.time result)

unfoldable pub greatest_of : List Meas → ℕ → ℕ
greatest_of [] result = result
greatest_of (m ∷ ms) result = greatest_of ms (max_by ltb m.time result)

unfoldable pub wal_min_time : WalFile → Option ℕ
unfolding read_all least_of
wal_min_time w = do all ← read_all w; some (least_of all max_time)

unfoldable pub wal_max_time : WalFile → Option ℕ
unfolding read_all greatest_of
wal_max_time w = do all ← read_all w; some (greatest_of all min_time)

-- `minMaxTime`: whether the id was seen, and the results.
unfoldable pub spread_of : ℕ → List Meas → Bool × ℕ × ℕ → Bool × ℕ × ℕ
spread_of id [] r = r
spread_of id (m ∷ ms) (result, least, greatest) = spread_of id ms (
    if m.id == id
    then (true, min_by ltb least m.time, max_by ltb greatest m.time)
    else (result, least, greatest))

unfoldable pub min_max_time : ℕ → WalFile → Option (Bool × ℕ × ℕ)
unfolding read_all spread_of
min_max_time id w = do all ← read_all w; some (spread_of id all (false, max_time, min_time))

abbrev pub new_min_max : MeasMinMax
new_min_max = record { min = new_meas; max = new_meas }

-- `loadMinMax`, with the hash of the ids; a map starts with `default_n` buckets.
abbrev pub default_n : ℕ
default_n = 1000

unfoldable pub load_all : (ℕ → ℕ) → List Meas → StripedMap MeasMinMax → StripedMap MeasMinMax
unfolding find_bucket update_max update_min
load_all hash [] result = result
load_all hash (m ∷ ms) result =
    load_all hash ms (find_bucket hash new_min_max m.id (λ v. update_min m (update_max m v)) result)

unfoldable pub load_min_max : (ℕ → ℕ) → WalFile → Option (StripedMap MeasMinMax)
unfolding read_all load_all create
load_min_max hash w = do all ← read_all w; some (load_all hash all (create default_n))

unfoldable pub id_from_first : WalFile → Option ℕ
unfolding read_all
id_from_first w = do all ← read_all w; elim all [ [] ↦ some (2 ^ 32 - 1) | m ∷ ms ↦ some m.id ]
