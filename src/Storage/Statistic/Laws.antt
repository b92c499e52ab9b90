-- ===== src/Storage/Statistic/Laws.antt =====
-- What a statistic says of the measurements that it was updated with.
use memseries.Base.{◌+◌, ◌%◌, ◌^◌, ◌≤◌, ◌≡◌, arith, refl, ◌∙◌, true}
use memseries.Base.{List, [], ◌∷◌, length, IsU32}
use memseries.Meas.{Meas, max_time}
use memseries.Storage.Bloom.{bloom_check}
use memseries.Storage.Bloom.Laws.{bloom_check-add, bloom_check-add_other, bloom_combine-add}
use memseries.Base.Bits.{bit_or-zero}
use memseries.Storage.Statistic.{Doubles, Statistic, new_statistic, update, update_by, min_value}

-- The updates with a list of measurements, the first one first.
unfoldable pub collect : Doubles → List Meas → Statistic → Statistic
collect d [] s = s
collect d (m ∷ ms) s = collect d ms (update d m s)

-- A statistic knows of a measurement: its time is inside, and its flag is found.
pub record Knows (s : Statistic) (m : Meas) : Type 0 where
  pub from : s.min_time ≤ m.time
  pub to : m.time ≤ s.max_time
  pub flag : bloom_check s.flag_bloom m.flag ≡ true

abbrev pub KnowsAll : Statistic → List Meas → Type 0
KnowsAll s [] = Unit {0}
KnowsAll s (m ∷ ms) = Knows s m × KnowsAll s ms

module _ (d : Doubles) where
  update-Knows : (m : Meas) (s : Statistic) → Knows (update d m s) m
  unfolding update
  update-Knows m s = record {
    from = ground arith;
    to = ground arith;
    flag = bloom_check-add s.flag_bloom m.flag;
  }

  update-Knows_other : (m n : Meas) (s : Statistic) → Knows s n → Knows (update d m s) n
  unfolding update
  update-Knows_other m n s h = record {
    from = ground arith;
    to = ground arith;
    flag = bloom_check-add_other s.flag_bloom m.flag n.flag h.flag;
  }

  collect-Knows : (ms : List Meas) (n : Meas) (s : Statistic) → Knows s n → Knows (collect d ms s) n
  unfolding collect
  collect-Knows [] n s h = h
  collect-Knows (m ∷ ms) n s h = collect-Knows ms n (update d m s) (update-Knows_other m n s h)

  -- After the updates of any statistic with a list of measurements, the time of each of them lies
  -- between the minimum and the maximum time, and the bloom filter finds the flag of each.
  pub collect-KnowsAll : (ms : List Meas) (s : Statistic) → KnowsAll (collect d ms s) ms
  unfolding collect
  collect-KnowsAll [] s = tt
  collect-KnowsAll (m ∷ ms) s =
      (collect-Knows ms m (update d m s) (update-Knows m s), collect-KnowsAll ms (update d m s))

  pub count-collect :
      (ms : List Meas) (s : Statistic)
      → (collect d ms s).count % 2 ^ 32 ≡ (s.count + length ms) % 2 ^ 32
  unfolding collect update
  count-collect [] s = omega arith
  count-collect (m ∷ ms) s = omega (arith, count-collect ms (update d m s))

  -- What of two statistics does not hang on the arithmetic of doubles.
  pub record Agrees (s t : Statistic) : Type 0 where
    pub min_time : s.min_time ≡ t.min_time
    pub max_time : s.max_time ≡ t.max_time
    pub count : s.count ≡ t.count
    pub flag_bloom : s.flag_bloom ≡ t.flag_bloom

  update_by-update :
      (m : Meas) (s t u : Statistic)
      → Agrees (update_by d t s) u
      → Agrees (update_by d (update d m t) s) (update d m u)
  unfolding update update_by
  update_by-update m s t u h = record {
    min_time = ground arith;
    max_time = ground arith;
    count = omega arith;
    flag_bloom = bloom_combine-add s.flag_bloom t.flag_bloom m.flag ∙ cc;
  }

  update_by-collect_from :
      (ms : List Meas) (s t u : Statistic)
      → Agrees (update_by d t s) u
      → Agrees (update_by d (collect d ms t) s) (collect d ms u)
  unfolding collect
  update_by-collect_from [] s t u h = h
  update_by-collect_from (m ∷ ms) s t u h =
      update_by-collect_from ms s (update d m t) (update d m u) (update_by-update m s t u h)

  -- To update a statistic (of a 32-bit count and a 64-bit minimum time) by the statistic of a
  -- list of measurements gives the same times, count and bloom filter as to update it with the
  -- measurements one by one.
  pub update_by-collect :
      (ms : List Meas) (s : Statistic)
      → s.min_time ≤ max_time
      → IsU32 s.count
      → Agrees (update_by d (collect d ms new_statistic) s) (collect d ms s)
  unfolding update_by
  update_by-collect ms s h g = update_by-collect_from ms s new_statistic s (record {
    min_time = ground arith;
    max_time = ground arith;
    count = ground arith;
    flag_bloom = bit_or-zero s.flag_bloom;
  })

-- A statistic of values that are all below `MIN_VALUE`.
abbrev pub AllBelow : Doubles → List Meas → Type 0
AllBelow d [] = Unit {0}
AllBelow d (m ∷ ms) = (d.lt m.value min_value ≡ true) × AllBelow d ms

-- If every value of a list compares below MIN_VALUE and the maximum value starts at MIN_VALUE, as
-- it does in a new statistic, it is still MIN_VALUE after the updates with the list.
pub max_value-collect :
    (d : Doubles) (ms : List Meas) (s : Statistic)
    → s.max_value ≡ min_value
    → AllBelow d ms
    → (collect d ms s).max_value ≡ min_value
unfolding collect update
max_value-collect d [] s e h = e
max_value-collect d (m ∷ ms) s e (below, h) =
    max_value-collect d ms (update d m s) (rw (e, below) refl) h
