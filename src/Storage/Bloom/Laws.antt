-- ===== src/Storage/Bloom/Laws.antt =====
-- What a filter knows after flags were added or other filters joined.
use memseries.Base.{ℕ, ◌≡◌, true, ==_iff, bit_and, bit_or, sym}
use memseries.Base.Masks.{bit_or-covers, bit_or-keeps, bit_or_assoc}
use memseries.Storage.Bloom.{jenkins_one_at_a_time_hash, bloom_add, bloom_check, bloom_combine}

pub bloom_check-add : (fltr val : ℕ) → bloom_check (bloom_add fltr val) val ≡ true
unfolding bloom_check bloom_add
bloom_check-add fltr val =
    let h : ℕ = jenkins_one_at_a_time_hash 4 val in
    (==_iff (bit_and (bit_or fltr h) h) h).1 (bit_or-covers fltr h)

pub bloom_check-combine :
    (a b val : ℕ) → bloom_check a val ≡ true → bloom_check (bloom_combine a b) val ≡ true
unfolding bloom_check
bloom_check-combine a b val e =
    let h : ℕ = jenkins_one_at_a_time_hash 4 val in
    (==_iff (bit_and (bit_or a b) h) h).1 (bit_or-keeps a b h ((==_iff (bit_and a h) h).0 e))

pub bloom_check-add_other :
    (fltr other val : ℕ)
    → bloom_check fltr val ≡ true
    → bloom_check (bloom_add fltr other) val ≡ true
unfolding bloom_add
bloom_check-add_other fltr other val e =
    bloom_check-combine fltr (jenkins_one_at_a_time_hash 4 other) val e

pub bloom_combine-add :
    (a b val : ℕ) → bloom_combine a (bloom_add b val) ≡ bloom_add (bloom_combine a b) val
unfolding bloom_add
bloom_combine-add a b val = sym (bit_or_assoc a b (jenkins_one_at_a_time_hash 4 val))
