-- ===== src/Examples/Maps.antt =====
-- The theorems on the striped map at concrete inputs.
use memseries.Base.{ℕ, suc, ◌%◌, ◌≡◌, arith, ◌==◌, if◌then◌else◌, some}
use memseries.Container.StripedMap.{StripedMap, create, find, find_bucket}
use memseries.Container.StripedMap.Chains.{value_or}
use memseries.Container.StripedMap.Laws.{IsTable, create-IsTable, find-find_bucket}

abbrev hash : ℕ → ℕ
hash k = k % 5

-- A map of counts with two buckets and one key.
abbrev counts : StripedMap ℕ
counts = find_bucket hash 0 7 (λ n. suc n) (create 2)

counts-IsTable : IsTable hash counts
counts-IsTable =
    (find-find_bucket hash 0 7 (λ n. suc n) (create 2) (create-IsTable hash 0 2 (omega arith)).0).0

find-find_bucket_example :
    IsTable hash (find_bucket hash 0 12 (λ n. suc n) counts)
    × ((j : ℕ)
        → find hash 0 j (find_bucket hash 0 12 (λ n. suc n) counts) ≡ (
            if 12 == j
            then some (suc (value_or 0 (find hash 0 12 counts)))
            else find hash 0 j counts))
find-find_bucket_example = find-find_bucket hash 0 12 (λ n. suc n) counts counts-IsTable
