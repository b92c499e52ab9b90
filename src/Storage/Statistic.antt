-- ===== src/Storage/Statistic.antt =====
-- stat.h: what a chunk knows of its measurements. Doubles are bit patterns; their comparison and
-- their sum are parameters.
pub mod Laws
use memseries.Base.{ℕ, ◌+◌, ◌-◌, ◌%◌, ◌^◌, Bool, ltb, if◌then◌else◌, List, [], ◌∷◌}
use memseries.Meas.{Meas, min_time, max_time}
use memseries.Storage.Bloom.{bloom_empty, bloom_add, bloom_combine}

-- `<` and `+` of two doubles.
pub record Doubles : Type 0 where
  pub lt : ℕ → ℕ → Bool
  pub plus : ℕ → ℕ → ℕ

-- `std::numeric_limits<double>::min()` and `max()`: the least positive normal number, and the
-- greatest one.
abbrev pub min_value : ℕ
min_value = 0x0010_0000_0000_0000

abbrev pub max_value : ℕ
max_value = 0x7fef_ffff_ffff_ffff

pub record Statistic : Type 0 where
  pub min_time : ℕ
  pub max_time : ℕ
  pub count : ℕ
  pub flag_bloom : ℕ
  pub min_value : ℕ
  pub max_value : ℕ
  pub sum : ℕ

abbrev pub new_statistic : Statistic
new_statistic = record {
  min_time = max_time;
  max_time = min_time;
  count = 0;
  flag_bloom = bloom_empty;
  min_value = max_value;
  max_value = min_value;
  sum = 0;
}

-- `std::min(a, b)` and `std::max(a, b)` by the order `lt`.
abbrev pub min_by : (ℕ → ℕ → Bool) → ℕ → ℕ → ℕ
min_by lt a b = if lt b a then b else a

abbrev pub max_by : (ℕ → ℕ → Bool) → ℕ → ℕ → ℕ
max_by lt a b = if lt a b then b else a

-- `update(const Meas &)`.
unfoldable pub update : Doubles → Meas → Statistic → Statistic
update d m s = record {
  min_time = min_by ltb m.time s.min_time;
  max_time = max_by ltb m.time s.max_time;
  count = (s.count + 1) % 2 ^ 32;
  flag_bloom = bloom_add s.flag_bloom m.flag;
  min_value = min_by d.lt m.value s.min_value;
  max_value = max_by d.lt m.value s.max_value;
  sum = d.plus s.sum m.value;
}

-- `update(const Statistic &)`.
unfoldable pub update_by : Doubles → Statistic → Statistic → Statistic
update_by d st s = record {
  min_time = min_by ltb st.min_time s.min_time;
  max_time = max_by ltb st.max_time s.max_time;
  count = (s.count + st.count) % 2 ^ 32;
  flag_bloom = bloom_combine s.flag_bloom st.flag_bloom;
  min_value = min_by d.lt st.min_value s.min_value;
  max_value = max_by d.lt st.max_value s.max_value;
  sum = d.plus s.sum st.sum;
}
