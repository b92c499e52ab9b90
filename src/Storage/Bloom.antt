-- ===== src/Storage/Bloom.antt =====
-- storage/bloom_filter.h and utils/jenkins_hash.h: the set of the flags in a chunk, as 64 bits.
pub mod Laws
use memseries.Base.{ℕ, ◌+◌, ◌-◌, ◌*◌, ◌/◌, ◌%◌, ◌^◌, Bool, ◌==◌, ltb, if◌then◌else◌}
use memseries.Base.{List, [], ◌∷◌, bit_and, bit_or, bit_xor}
use memseries.Compression.Xor.{to_buff}

abbrev pub add32 : ℕ → ℕ → ℕ
add32 a b = (a + b) % 2 ^ 32

-- A `char` is signed: a byte from 128 on is added as a negative number.
unfoldable pub char_value : ℕ → ℕ
char_value x = if ltb x 128 then x else 2 ^ 32 + x - 256

-- The loop of the hash over the bytes of the value.
unfoldable pub hash_loop : List ℕ → ℕ → ℕ
unfolding char_value
hash_loop [] hash = hash
hash_loop (x ∷ xs) hash =
    let added = add32 hash (char_value x) in
    let shifted = add32 added (added * 2 ^ 10 % 2 ^ 32) in
    hash_loop xs (bit_xor shifted (shifted / 2 ^ 6))

-- `jenkins_one_at_a_time_hash` of a value of `n` bytes.
unfoldable pub jenkins_one_at_a_time_hash : ℕ → ℕ → ℕ
unfolding hash_loop
jenkins_one_at_a_time_hash n value =
    let hash = hash_loop (to_buff n value) 0 in
    let hash₁ = add32 hash (hash * 2 ^ 3 % 2 ^ 32) in
    let hash₂ = bit_xor hash₁ (hash₁ / 2 ^ 11) in add32 hash₂ (hash₂ * 2 ^ 15 % 2 ^ 32)

abbrev pub bloom_empty : ℕ
bloom_empty = 0

-- `T` is `Flag`, of 4 bytes.
unfoldable pub bloom_add : ℕ → ℕ → ℕ
bloom_add fltr val = bit_or fltr (jenkins_one_at_a_time_hash 4 val)

unfoldable pub bloom_check : ℕ → ℕ → Bool
bloom_check fltr val = let h = jenkins_one_at_a_time_hash 4 val in bit_and fltr h == h

abbrev pub bloom_combine : ℕ → ℕ → ℕ
bloom_combine fltr_a fltr_b = bit_or fltr_a fltr_b
