-- ===== src/Storage/Merge.antt =====
-- storage/cursors.cpp: `MergeSortCursor`, over sub-cursors of a type `S`.
pub mod Union
pub mod Least
pub mod Reading
pub mod Refinement
pub mod Creation
use memseries.Base.{
  ℕ, zero, suc, ◌+◌, ◌-◌, ◌%◌, ◌^◌, Bool, true, false, not, ◌&&◌, ◌==◌, ltb, leb, if◌then◌else◌,
}
use memseries.Base.{
  Option, none, some, ◌>>=◌, ◌>>◌, ensure, List, [], ◌∷◌, ◌++◌, map, replicate, length, get_elem?,
  set,
}
use memseries.Meas.{Meas, min_time, max_time}
use memseries.Storage.Statistic.{min_by, max_by}
use memseries.Storage.Cursor.{ICursor}

pub record MergeSortCursor (S : Type 0) : Type 0 where
  pub values_count : ℕ
  pub readers : List S
  pub top_times : List ℕ
  pub is_end_status : List Bool
  pub min_time : ℕ
  pub max_time : ℕ

-- `==` of two Booleans.
abbrev pub same_bool : Bool → Bool → Bool
same_bool true b = b
same_bool false b = not b

abbrev pub all_true : List Bool → Bool
all_true [] = true
all_true (b ∷ bs) = b && all_true bs

-- The loop of `get_cursor_with_min_time` from the index `i` on: the least time and its index.
unfoldable pub least_loop : List ℕ → ℕ → ℕ → ℕ → ℕ × ℕ
least_loop [] i min_time min_time_index = (min_time, min_time_index)
least_loop (t ∷ ts) i min_time min_time_index =
    let less = not (t == max_time) && ltb t min_time in
    least_loop ts (i + 1) (if less then t else min_time) (if less then i else min_time_index)

module _ {S : Type 0} (o : ICursor S) where
  unfoldable pub get_top_time : S → Option ℕ
  get_top_time r =
      let time = (do m ← o.top r; some m.time) in if o.is_end r then some max_time else time

  unfoldable pub fill_top_times : List S → Option (List ℕ)
  unfolding get_top_time
  fill_top_times [] = some []
  fill_top_times (r ∷ rs) = do t ← get_top_time r; ts ← fill_top_times rs; some (t ∷ ts)

  unfoldable pub get_cursor_with_min_time : Bool → List ℕ → List S → Option (ℕ × S)
  unfolding least_loop
  get_cursor_with_min_time checks top_times readers = do
    let found = least_loop top_times 0 max_time 0
    r ← get_elem? readers found.1
    ensure checks (not (found.0 == max_time))
    ensure checks (not (o.is_end r))
    some (found.1, r)

  -- Whether no reader is at its end.
  unfoldable pub none_ended : List S → Bool
  none_ended [] = true
  none_ended (r ∷ rs) = not (o.is_end r) && none_ended rs

  -- `unpack_merge_readers` and `unpack_linear_readers`: `sub` is the cast to the class of the new
  -- cursor, with the readers inside.
  unfoldable pub unpack_readers : Bool → (S → Option (List S)) → List S → Option (List S)
  unfolding none_ended
  unpack_readers checks sub [] = some []
  unpack_readers checks sub (r ∷ rs) = do
    let alone = (do ensure checks (not (o.is_end r)); some (r ∷ []))
    inner ← elim (sub r) [ none ↦ alone | some rs' ↦ (do ensure checks (none_ended rs'); some rs') ]
    rest ← unpack_readers checks sub rs
    some (inner ++ rest)

  unfoldable pub least_from : List S → ℕ → ℕ
  least_from [] t = t
  least_from (r ∷ rs) t = least_from rs (min_by ltb t (o.from_time r))

  unfoldable pub greatest_to : List S → ℕ → ℕ
  greatest_to [] t = t
  greatest_to (r ∷ rs) t = greatest_to rs (max_by ltb t (o.to_time r))

  unfoldable pub sum_counts : List S → ℕ
  sum_counts [] = 0
  sum_counts (r ∷ rs) = (o.count r + sum_counts rs) % 2 ^ 64

  unfoldable pub new_merge_cursor :
      Bool → (S → Option (List S)) → List S → Option (MergeSortCursor S)
  unfolding none_ended unpack_readers fill_top_times least_from greatest_to sum_counts
  new_merge_cursor checks sub readers = do
    rs ← unpack_readers checks sub readers
    ensure checks (none_ended rs)
    top_times ← fill_top_times rs
    let from = least_from rs max_time
    let to = greatest_to rs min_time
    ensure checks (not (length rs == 0))
    ensure checks (not (from == max_time))
    ensure checks (leb from to)
    some (record {
      values_count = sum_counts rs;
      readers = rs;
      top_times = top_times;
      is_end_status = replicate (length rs) false;
      min_time = from;
      max_time = to;
    })

  unfoldable pub merge_is_end : MergeSortCursor S → Bool
  merge_is_end c = all_true c.is_end_status

  -- The inner loop that reads the measurements of time `t` off a reader, with fuel.
  unfoldable pub skip_time : Bool → ℕ → ℕ → S → Option S
  skip_time checks t zero r = none
  skip_time checks t (suc rounds) r =
      let more = (do
        m ← o.top r
        let rest = (do (m', r') ← o.read_next checks r; skip_time checks t rounds r')
        if not (m.time == t) then some r else rest) in
      if o.is_end r then some r else more

  -- One round of the loop over the readers that skips duplicates of time `t`.
  unfoldable pub skip_reader : Bool → ℕ → S → ℕ → Bool → Option (S × ℕ × Bool)
  unfolding get_top_time skip_time
  skip_reader checks t r top ended = do
    ensure checks (same_bool ended (o.is_end r))
    let skipped = (do
      r' ← skip_time checks t (o.count r + 2) r
      top' ← get_top_time r'
      some (r', top', o.is_end r'))
    (r₁, top₁, ended₁) ← (if not ended && (top == t) then skipped else some (r, top, ended))
    ensure checks (same_bool ended₁ (o.is_end r₁))
    some (r₁, top₁, ended₁)

  unfoldable pub skip_readers :
      Bool → ℕ → List S → List ℕ → List Bool → Option (List S × List ℕ × List Bool)
  unfolding skip_reader
  skip_readers checks t (r ∷ rs) (top ∷ tops) (ended ∷ ends) = do
    (r', top', ended') ← skip_reader checks t r top ended
    (rs', tops', ends') ← skip_readers checks t rs tops ends
    some (r' ∷ rs', top' ∷ tops', ended' ∷ ends')
  skip_readers checks t [] tops ends = some ([], tops, ends)
  skip_readers checks t (r ∷ rs) [] ends = none
  skip_readers checks t (r ∷ rs) (top ∷ tops) [] = none

  unfoldable pub merge_read_next : Bool → MergeSortCursor S → Option (Meas × MergeSortCursor S)
  unfolding merge_is_end get_cursor_with_min_time get_top_time skip_readers
  merge_read_next checks c = do
    ensure checks (not (merge_is_end c))
    (index, cursor) ← get_cursor_with_min_time checks c.top_times c.readers
    ended ← get_elem? c.is_end_status index
    ensure checks (not ended)
    ensure checks (not (o.is_end cursor))
    (result, cursor') ← o.read_next checks cursor
    time ← get_top_time cursor'
    (rs, tops, ends) ←
        skip_readers checks result.time (set c.readers index cursor') (set c.top_times index time)
          (set c.is_end_status index (o.is_end cursor'))
    some (result, record c { readers = rs; top_times = tops; is_end_status = ends })

  unfoldable pub merge_top : Bool → MergeSortCursor S → Option Meas
  unfolding merge_is_end get_cursor_with_min_time
  merge_top checks c = do
    ensure checks (not (merge_is_end c))
    (index, r) ← get_cursor_with_min_time checks c.top_times c.readers
    o.top r

  abbrev pub merge_cursor : Bool → ICursor (MergeSortCursor S)
  merge_cursor checks = record {
    read_next = merge_read_next;
    top = merge_top checks;
    is_end = merge_is_end;
    from_time = λ c. c.min_time;
    to_time = λ c. c.max_time;
    count = λ c. c.values_count;
  }
