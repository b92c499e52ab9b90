-- ===== src/Meas.antt =====
-- libdariadb/meas.h, meas.cpp and utils/in_interval.h: a measurement, its filters, and the pair of
-- the earliest and the latest. `Id` and `Flag` have 32 bits, `Time` has 64, and a `double` is its
-- bit pattern.
pub mod Laws
use memseries.Base.{ℕ, ◌-◌, ◌^◌, Bool, true, false, ◌&&◌, ◌||◌, ◌==◌, ltb, leb, bit_and, bit_or}
use memseries.Base.{List, [], ◌∷◌, if◌then◌else◌, IsU32, IsU64}

abbrev pub min_time : ℕ
min_time = 0

abbrev pub max_time : ℕ
max_time = 2 ^ 64 - 1

pub record Meas : Type 0 where
  pub id : ℕ
  pub time : ℕ
  pub value : ℕ
  pub flag : ℕ

abbrev pub new_meas : Meas
new_meas = record { id = 0; time = 0; value = 0; flag = 0 }

-- The fields fit their types.
pub record IsMeas (m : Meas) : Type 0 where
  pub id_fits : IsU32 m.id
  pub time_fits : IsU64 m.time
  pub value_fits : IsU64 m.value
  pub flag_fits : IsU32 m.flag

-- `utils::inInterval`.
abbrev pub in_interval_of : ℕ → ℕ → ℕ → Bool
in_interval_of from to value = leb from value && leb value to

-- `utils::intervalsIntersection`.
unfoldable pub intervals_intersection : ℕ → ℕ → ℕ → ℕ → Bool
intervals_intersection from1 to1 from2 to2 =
    in_interval_of from1 to1 from2
    || in_interval_of from1 to1 to2
    || in_interval_of from2 to2 from1
    || in_interval_of from2 to2 to1

unfoldable pub in_flag : ℕ → Meas → Bool
in_flag mask m = bit_and mask m.flag == mask

-- `std::find` over the ids.
unfoldable pub contains : List ℕ → ℕ → Bool
contains [] id = false
contains (x ∷ xs) id = (x == id) || contains xs id

unfoldable pub in_ids : List ℕ → Meas → Bool
unfolding contains
in_ids [] m = true
in_ids (x ∷ xs) m = contains (x ∷ xs) m.id

unfoldable pub in_interval : ℕ → ℕ → Meas → Bool
in_interval from to m = in_interval_of from to m.time

-- `inQuery` with two and with four arguments.
unfoldable pub in_query : List ℕ → ℕ → Meas → Bool
in_query ids f m = in_flag f m && in_ids ids m

unfoldable pub in_query_interval : List ℕ → ℕ → ℕ → ℕ → Meas → Bool
in_query_interval ids f from to m = in_query ids f m && in_interval from to m

unfoldable pub add_flag : ℕ → Meas → Meas
add_flag f m = record m { flag = bit_or m.flag f }

pub record MeasMinMax : Type 0 where
  pub min : Meas
  pub max : Meas

unfoldable pub update_max : Meas → MeasMinMax → MeasMinMax
update_max m r = if ltb r.max.time m.time then record r { max = m } else r

unfoldable pub update_min : Meas → MeasMinMax → MeasMinMax
update_min m r = if ltb m.time r.min.time then record r { min = m } else r
