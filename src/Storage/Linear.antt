-- ===== src/Storage/Linear.antt =====
-- storage/cursors.cpp: `LinearCursor`, over sub-cursors of a type `S`.
pub mod Sorting
pub mod Reading
use memseries.Base.{ℕ, zero, suc, ◌+◌, Bool, true, false, not, ◌==◌, ltb, leb, if◌then◌else◌}
use memseries.Base.{Option, none, some, ◌>>=◌, ◌>>◌, ensure, List, [], ◌∷◌, length}
use memseries.Meas.{Meas, min_time, max_time}
use memseries.Storage.Cursor.{ICursor}
use memseries.Storage.Merge.{unpack_readers, least_from, greatest_to, sum_counts}

pub record LinearCursor (S : Type 0) : Type 0 where
  pub values_count : ℕ
  pub readers : List S
  pub min_time : ℕ
  pub max_time : ℕ

module _ {S : Type 0} (o : ICursor S) where
  -- The comparator that the constructor gives to `std::sort`.
  abbrev pub is_earlier : S → S → Bool
  is_earlier l r = ltb (o.from_time l) (o.from_time r)

  -- `sort` is `std::sort`, which takes a comparator, and `sub` the cast to the class with the
  -- readers inside.
  unfoldable pub new_linear_cursor :
      Bool
      → (S → Option (List S))
      → ((S → S → Bool) → List S → List S)
      → List S
      → Option (LinearCursor S)
  new_linear_cursor checks sub sort readers = do
    sub_readers ← unpack_readers o checks sub readers
    ensure checks (leb (length readers) (length sub_readers))
    let rs = sort is_earlier sub_readers
    let from = least_from o rs max_time
    let to = greatest_to o rs min_time
    ensure checks (not (length rs == 0))
    ensure checks (not (from == max_time))
    ensure checks (leb from to)
    some (record { values_count = sum_counts o rs; readers = rs; min_time = from; max_time = to })

  abbrev pub linear_is_end : LinearCursor S → Bool
  linear_is_end c = length c.readers == 0

  -- `front()` of an empty list is undefined.
  abbrev pub read_front : Bool → List S → Option (Meas × List S)
  read_front checks [] = none
  read_front checks (r ∷ rs) = do
    (m, r') ← o.read_next checks r
    some (m, (if o.is_end r' then rs else r' ∷ rs))

  unfoldable pub linear_read_next : Bool → LinearCursor S → Option (Meas × LinearCursor S)
  linear_read_next checks c = do
    ensure checks (not (linear_is_end c))
    (m, rs) ← read_front checks c.readers
    some (m, record c { readers = rs })

  abbrev pub top_front : List S → Option Meas
  top_front [] = none
  top_front (r ∷ rs) = o.top r

  unfoldable pub linear_top : Bool → LinearCursor S → Option Meas
  linear_top checks c = do ensure checks (not (linear_is_end c)); top_front c.readers

  abbrev pub linear_cursor : Bool → ICursor (LinearCursor S)
  linear_cursor checks = record {
    read_next = linear_read_next;
    top = linear_top checks;
    is_end = linear_is_end;
    from_time = λ c. c.min_time;
    to_time = λ c. c.max_time;
    count = λ c. c.values_count;
  }
