-- ===== src/Container/StripedMap.antt =====
-- utils/striped_map.h: `stripped_map`, a hash table whose buckets are chains. The keys are numbers,
-- `hash` is the hasher and `d` a default constructed value; calls are one after the other.
pub mod Chains
pub mod Buckets
pub mod Arrays
pub mod Laws
pub mod Locks
use memseries.Base.{ℕ, zero, suc, ◌+◌, ◌*◌, ◌%◌, Bool, true, false, ◌==◌, ltb, if◌then◌else◌}
use memseries.Base.{Option, none, some, List, [], ◌∷◌, ◌++◌, length, map, replicate, set, get_or}

pub record Bucket {ℓ} (V : Type ℓ) : Type ℓ where
  pub hash : ℕ
  pub key : ℕ
  pub value : V

-- `_N` is the length of `_buckets`, and `stripes` is `_L`, the number of locks.
pub record StripedMap {ℓ} (V : Type ℓ) : Type ℓ where
  pub buckets : List (List (Bucket V))
  pub size : ℕ
  pub stripes : ℕ

-- The constructor with a size, which calls `reserve`.
unfoldable pub create {ℓ} : {V : Type ℓ} → ℕ → StripedMap V
create n = record { buckets = replicate n []; size = 0; stripes = n }

-- `clear` leaves the size as it is.
unfoldable pub clear {ℓ} : {V : Type ℓ} → StripedMap V → StripedMap V
clear m = record m { buckets = map (λ c. []) m.buckets }

unfoldable pub reserve {ℓ} : {V : Type ℓ} → ℕ → StripedMap V → StripedMap V
unfolding clear
reserve n m = record (clear m) { buckets = replicate n []; stripes = n }

unfoldable pub lookup {ℓ} : {V : Type ℓ} → ℕ → List (Bucket V) → Option V
lookup k [] = none
lookup k (b ∷ bs) = let rest = lookup k bs in if b.key == k then some b.value else rest

-- The step of a loop that has passed a bucket of another key: `bs` are those that follow it. What
-- is behind the returned iterator is changed by `f`; the number is what `_size` grows by.
unfoldable pub update_rest {ℓ} :
    {V : Type ℓ} → Bucket V → (V → V) → List (Bucket V) → List (Bucket V) × ℕ
update_rest new f [] = (record new { value = f new.value } ∷ [], 1)
update_rest new f (b ∷ bs) =
    let more = update_rest new f bs in
    if ltb new.key b.key
    then (record new { value = f new.value } ∷ b ∷ bs, 1)
    else if b.key == new.key
    then (record b { value = f b.value } ∷ bs, 0)
    else (b ∷ more.0, more.1)

-- The protected `find_bucket`, on one chain.
unfoldable pub update_chain {ℓ} :
    {V : Type ℓ} → Bucket V → (V → V) → List (Bucket V) → List (Bucket V) × ℕ
unfolding update_rest
update_chain new f [] = (record new { value = f new.value } ∷ [], 1)
update_chain new f (b ∷ bs) =
    let more = update_rest new f bs in
    if b.key == new.key then (record b { value = f b.value } ∷ bs, 0) else (b ∷ more.0, more.1)

-- Where `rehash` puts a bucket in a new chain.
unfoldable pub place_rest {ℓ} : {V : Type ℓ} → Bucket V → List (Bucket V) → List (Bucket V)
place_rest x [] = x ∷ []
place_rest x (b ∷ bs) =
    let more = place_rest x bs in if ltb x.key b.key then x ∷ b ∷ bs else b ∷ more

unfoldable pub place {ℓ} : {V : Type ℓ} → Bucket V → List (Bucket V) → List (Bucket V)
unfolding place_rest
place x [] = x ∷ []
place x (b ∷ bs) = b ∷ place_rest x bs

unfoldable pub place_chain {ℓ} :
    {V : Type ℓ} → List (Bucket V) → List (List (Bucket V)) → List (List (Bucket V))
unfolding place
place_chain [] new_buckets = new_buckets
place_chain (x ∷ xs) new_buckets =
    let i = x.hash % length new_buckets in
    place_chain xs (set new_buckets i (place x (get_or new_buckets i [])))

unfoldable pub place_all {ℓ} :
    {V : Type ℓ} → List (List (Bucket V)) → List (List (Bucket V)) → List (List (Bucket V))
unfolding place_chain
place_all [] new_buckets = new_buckets
place_all (c ∷ cs) new_buckets = place_all cs (place_chain c new_buckets)

-- The load factor is above 1 when there are more entries than buckets.
unfoldable pub rehash {ℓ} : {V : Type ℓ} → StripedMap V → StripedMap V
unfolding place_all
rehash m =
    let n = length m.buckets in
    let grown = record m { buckets = place_all m.buckets (replicate (n * 2) []) } in
    if ltb n m.size then grown else m

module _ {ℓ} {V : Type ℓ} (hash : ℕ → ℕ) (d : V) where
  unfoldable pub find : ℕ → StripedMap V → Option V
  unfolding lookup
  find k m = lookup k (get_or m.buckets (hash k % length m.buckets) [])

  -- `find_bucket`, with a change by `f` of what is behind the iterator.
  unfoldable pub find_bucket : ℕ → (V → V) → StripedMap V → StripedMap V
  unfolding rehash update_chain
  find_bucket k f m =
      let r = rehash m in
      let i = hash k % length r.buckets in
      let new : Bucket V = record { hash = hash k; key = k; value = d } in
      let changed = update_chain new f (get_or r.buckets i []) in
      record r { buckets = set r.buckets i changed.0; size = r.size + changed.1 }

  unfoldable pub insert : ℕ → V → StripedMap V → StripedMap V
  unfolding find_bucket
  insert k v m = find_bucket k (λ old. v) m

-- All buckets, in the order of their chains.
unfoldable pub entries {ℓ} : {V : Type ℓ} → List (List (Bucket V)) → List (Bucket V)
entries [] = []
entries (c ∷ cs) = c ++ entries cs

-- `apply`, on the state `S` of the function, over the buckets that it visits (`apply_steps` of
-- Locks).
unfoldable pub apply {ℓ κ} : {V : Type ℓ} {S : Type κ} → (ℕ → V → S → S) → List (Bucket V) → S → S
apply func [] s = s
apply func (b ∷ bs) s = apply func bs (func b.key b.value s)
