-- ===== src/Storage/Wal/Intervals.antt =====
-- storage/wal/walfile.cpp: `stat`, `intervalReader` and `foreach` of a log.
use memseries.Base.{ℕ, ◌+◌, Bool, ltb, if◌then◌else◌}
use memseries.Base.{Option, some, ◌>>=◌, ◌>>◌, ensure, List, [], ◌∷◌, length}
use memseries.Meas.{Meas, in_query_interval}
use memseries.Storage.Statistic.{Doubles, Statistic, new_statistic, update}
use memseries.Storage.Select.{ends_ordered}
use memseries.Storage.FullCursor.{FullCursor, new_full_cursor}
use memseries.Storage.Cursor.{QueryInterval, apply}
use memseries.Storage.Cursor.Instances.{full_cursor}
use memseries.Storage.Wal.{WalFile, read_all}

unfoldable pub stat_all : Doubles → ℕ → ℕ → ℕ → List Meas → Statistic → Statistic
stat_all d id from to [] result = result
stat_all d id from to (m ∷ ms) result =
    stat_all d id from to ms
      (if in_query_interval (id ∷ []) 0 from to m then update d m result else result)

unfoldable pub stat : Doubles → ℕ → ℕ → ℕ → WalFile → Option Statistic
unfolding read_all stat_all
stat d id from to w = do all ← read_all w; some (stat_all d id from to all new_statistic)

-- `MeasSet`, by time: of two measurements of one time, the first stays.
unfoldable pub insert_meas : Meas → List Meas → List Meas
insert_meas m [] = m ∷ []
insert_meas m (x ∷ xs) =
    let later = x ∷ insert_meas m xs in
    if ltb m.time x.time then m ∷ x ∷ xs else if ltb x.time m.time then later else x ∷ xs

-- `Id2MSet`, by id: `subresult[val.id].insert(val)`.
unfoldable pub insert_in : Meas → List (ℕ × List Meas) → List (ℕ × List Meas)
unfolding insert_meas
insert_in m [] = (m.id, insert_meas m []) ∷ []
insert_in m ((k, s) ∷ rest) =
    let later = (k, s) ∷ insert_in m rest in
    if ltb m.id k
    then (m.id, insert_meas m []) ∷ (k, s) ∷ rest
    else if ltb k m.id
    then later
    else (k, insert_meas m s) ∷ rest

-- The first loop of `intervalReader`.
unfoldable pub interval_sets :
    QueryInterval → List Meas → List (ℕ × List Meas) → List (ℕ × List Meas)
unfolding insert_in
interval_sets q [] subresult = subresult
interval_sets q (m ∷ ms) subresult =
    interval_sets q ms
      (if in_query_interval q.ids q.flag q.from q.to m then insert_in m subresult else subresult)

-- The second loop; `sort` is `std::sort` by time.
unfoldable pub cursors_of :
    Bool → (List Meas → List Meas) → List (ℕ × List Meas) → Option (List (ℕ × FullCursor))
cursors_of checks sort [] = some []
cursors_of checks sort ((k, s) ∷ rest) = do
  ensure checks (ends_ordered (sort s))
  fr ← new_full_cursor checks (sort s)
  result ← cursors_of checks sort rest
  some ((k, fr) ∷ result)

unfoldable pub interval_reader :
    Bool → (List Meas → List Meas) → QueryInterval → WalFile → Option (List (ℕ × FullCursor))
unfolding read_all interval_sets cursors_of
interval_reader checks sort q w = do
  all ← read_all w
  cursors_of checks sort (interval_sets q all [])

-- `foreach`: one cursor after the other, on the state `C` of the callback. A cursor returns at most as
-- many measurements as its array has.
unfoldable pub apply_each :
    {C : Type 0} → Bool → (C → Bool) → (Meas → C → C) → List (ℕ × FullCursor) → C → Option C
apply_each checks canceled call [] c = some c
apply_each checks canceled call ((k, fr) ∷ rest) c = do
  (fr', c') ← apply full_cursor checks canceled call (length fr.ma + 2) fr c
  apply_each checks canceled call rest c'

unfoldable pub foreach :
    {C : Type 0}
    → Bool
    → (List Meas → List Meas)
    → (C → Bool)
    → (Meas → C → C)
    → QueryInterval
    → WalFile
    → C
    → Option C
unfolding interval_reader apply_each
foreach checks sort canceled call q w c = do
  readers ← interval_reader checks sort q w
  apply_each checks canceled call readers c
