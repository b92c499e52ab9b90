-- ===== src/Storage/FullCursor.antt =====
-- storage/cursors.cpp: `FullCursor`, the cursor over an array of measurements.
pub mod Drain
use memseries.Base.{ℕ, zero, suc, ◌+◌, Bool, true, false, not, ◌==◌, ltb, leb, if◌then◌else◌}
use memseries.Base.{Option, none, some, ◌>>=◌, ◌>>◌, ensure, List, [], ◌∷◌, length, get_elem?}
use memseries.Meas.{Meas, min_time, max_time}
use memseries.Storage.Statistic.{min_by, max_by}

pub record FullCursor : Type 0 where
  pub ma : List Meas
  pub index : ℕ
  pub min_time : ℕ
  pub max_time : ℕ

-- The loop of the constructor over the array.
unfoldable pub least_time : List Meas → ℕ → ℕ
least_time [] t = t
least_time (m ∷ ms) t = least_time ms (min_by ltb t m.time)

unfoldable pub greatest_time : List Meas → ℕ → ℕ
greatest_time [] t = t
greatest_time (m ∷ ms) t = greatest_time ms (max_by ltb t m.time)

unfoldable pub new_full_cursor : Bool → List Meas → Option FullCursor
unfolding least_time greatest_time
new_full_cursor checks ma = do
  let least = least_time ma max_time
  let greatest = greatest_time ma min_time
  ensure checks (not (length ma == 0))
  ensure checks (not (least == max_time))
  ensure checks (leb least greatest)
  some (record { ma = ma; index = 0; min_time = least; max_time = greatest })

unfoldable pub full_is_end : FullCursor → Bool
full_is_end c = leb (length c.ma) c.index

-- The loop of `readNext` that skips the measurements of time `t` from the index `i` on, with fuel
-- for the rounds.
abbrev pub skip_or_stop : ℕ → ℕ → ℕ → Option Meas → ℕ
skip_or_stop t i rest none = i
skip_or_stop t i rest (some next) = if next.time == t then rest else i

unfoldable pub skip_equal : ℕ → List Meas → ℕ → ℕ → ℕ
skip_equal zero ma t i = i
skip_equal (suc rounds) ma t i = skip_or_stop t i (skip_equal rounds ma t (i + 1)) (get_elem? ma i)

unfoldable pub full_read_next : Bool → FullCursor → Option (Meas × FullCursor)
unfolding full_is_end skip_equal
full_read_next checks c = do
  ensure checks (not (full_is_end c))
  result ← get_elem? c.ma c.index
  some (result, record c { index = skip_equal (length c.ma) c.ma result.time (c.index + 1) })

unfoldable pub full_top : FullCursor → Option Meas
full_top c = if leb (length c.ma) c.index then none else get_elem? c.ma c.index
