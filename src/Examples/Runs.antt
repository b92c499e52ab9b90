-- ===== src/Examples/Runs.antt =====
-- Runs of the definitions at concrete inputs.
use memseries.Base.{◌+◌, ◌-◌, ◌^◌, ◌≡◌, refl, neg64, [], ◌∷◌}
use memseries.Compression.Delta.{get_delta_1b, get_delta_2b}
use memseries.Compression.Delta.Encoding.{encoding}
use memseries.Compression.Buffer.Stream.{bytes}
use memseries.Compression.Xor.{clz, clz_from, ctz, ctz_from, count_of_bytes}
use memseries.Compression.Flag.Encoding.{groups}
use memseries.Storage.Bloom.{jenkins_one_at_a_time_hash, hash_loop, char_value}
use memseries.Compression.Xor.{to_buff}
use memseries.Storage.Statistic.{new_statistic}

minus_one_in_a_byte : get_delta_1b (neg64 1) ≡ 0xbf
unfolding get_delta_1b
minus_one_in_a_byte = refl

in_two_bytes : get_delta_2b 100 ≡ 0xc064
unfolding get_delta_2b
in_two_bytes = refl

in_three_bytes : encoding 5000 ≡ 0xe0 ∷ 0x13 ∷ 0x88 ∷ []
unfolding encoding bytes
in_three_bytes = refl

leading_of_one : clz 1 ≡ 63
unfolding clz clz_from
leading_of_one = refl

trailing_of_eight : ctz 8 ≡ 3
unfolding ctz ctz_from
trailing_of_eight = refl

-- The whole word takes nine bytes, one more than there are.
nine : count_of_bytes (2 ^ 63 + 1) ≡ 9
unfolding count_of_bytes clz clz_from ctz ctz_from
nine = refl

two_groups : groups 5 300 ≡ 0xac ∷ 0x02 ∷ []
unfolding groups
two_groups = refl

-- The hash of a zero flag is 0, so every filter knows it.
hash_of_zero : jenkins_one_at_a_time_hash 4 0 ≡ 0
unfolding jenkins_one_at_a_time_hash hash_loop char_value to_buff
hash_of_zero = refl

-- A new statistic starts its times at the far ends.
new_times : (new_statistic.min_time ≡ 2 ^ 64 - 1) × (new_statistic.max_time ≡ 0)
new_times = (refl, refl)

new_values :
    (new_statistic.min_value ≡ 0x7fef_ffff_ffff_ffff)
    × (new_statistic.max_value ≡ 0x10_0000_0000_0000)
new_values = (refl, refl)
