-- ===== src/Container/StripedMap/Locks.antt =====
-- utils/striped_map.h: the locks that the operations take and the chains that they visit, in their
-- order. `_L` locks guard the chains: a chain may be visited by who holds the lock of its number
-- modulo `_L`.
pub mod Guarded
use memseries.Base.{
  ℕ, zero, suc, ◌+◌, ◌-◌, ◌%◌, ◌^◌, Bool, true, false, not, ◌||◌, ◌==◌, ltb, if◌then◌else◌,
}
use memseries.Base.{Option, none, some, List, [], ◌∷◌, ◌++◌, length, get_or}
use memseries.Meas.{contains}
use memseries.Container.StripedMap.{Bucket, StripedMap, rehash}

-- A step on the lock or the chain of a number.
pub data LockStep {ℓ} (V : Type ℓ) : Type ℓ where
  locks : ℕ → LockStep V
  unlocks : ℕ → LockStep V
  visits : ℕ → List (Bucket V) → LockStep V

-- A lock is given up.
unfoldable pub give_up : ℕ → List ℕ → List ℕ
give_up i [] = []
give_up i (j ∷ held) = let rest = j ∷ give_up i held in if j == i then held else rest

module _ {ℓ} {V : Type ℓ} where
  -- `lock_all`, from a lock on, and `unlock_all`, which starts from `_L - 1`.
  unfoldable pub lock_from : ℕ → ℕ → List (LockStep V)
  lock_from i zero = []
  lock_from i (suc n) = LockStep.locks i ∷ lock_from (i + 1) n

  unfoldable pub unlock_from : ℕ → List (LockStep V)
  unlock_from zero = LockStep.unlocks 0 ∷ []
  unlock_from (suc i) = LockStep.unlocks (suc i) ∷ unlock_from i

  unfoldable pub lock_all : StripedMap V → List (LockStep V)
  unfolding lock_from
  lock_all m = lock_from 0 m.stripes

  unfoldable pub unlock_all : StripedMap V → List (LockStep V)
  unfolding unlock_from
  unlock_all m = unlock_from ((m.stripes + 2 ^ 64 - 1) % 2 ^ 64)

  -- The chains in the loops of `clear` and `rehash`.
  unfoldable pub visit_from : ℕ → List (List (Bucket V)) → List (LockStep V)
  visit_from i [] = []
  visit_from i (c ∷ cs) = LockStep.visits i c ∷ visit_from (i + 1) cs

  unfoldable pub clear_steps : StripedMap V → List (LockStep V)
  unfolding lock_all visit_from unlock_all
  clear_steps m = lock_all m ++ (visit_from 0 m.buckets ++ unlock_all m)

  unfoldable pub rehash_steps : StripedMap V → List (LockStep V)
  unfolding lock_all visit_from unlock_all
  rehash_steps m =
      let grows = lock_all m ++ (visit_from 0 m.buckets ++ unlock_all m) in
      if ltb (length m.buckets) m.size then grows else []

  -- The loop of `apply` over the chains from a number on.
  unfoldable pub apply_from : ℕ → ℕ → List (List (Bucket V)) → List (LockStep V)
  apply_from stripes i [] = []
  apply_from stripes i (c ∷ cs) =
      LockStep.locks (i % stripes)
      ∷ LockStep.visits i c
      ∷ LockStep.unlocks (i % stripes)
      ∷ apply_from stripes (i + 1) cs

  unfoldable pub apply_steps : StripedMap V → List (LockStep V)
  unfolding apply_from
  apply_steps m = apply_from m.stripes 0 m.buckets

  module _ (hash : ℕ → ℕ) where
    unfoldable pub find_steps : ℕ → StripedMap V → List (LockStep V)
    find_steps k m =
        LockStep.locks (hash k % m.stripes)
        ∷ LockStep.visits (hash k % length m.buckets)
            (get_or m.buckets (hash k % length m.buckets) [])
        ∷ LockStep.unlocks (hash k % m.stripes)
        ∷ []

    -- The last step is that of the iterator, when its caller gives it up.
    unfoldable pub find_bucket_steps : ℕ → StripedMap V → List (LockStep V)
    unfolding rehash_steps rehash
    find_bucket_steps k m =
        let r = rehash m in
        rehash_steps m
        ++ (LockStep.locks (hash k % r.stripes)
            ∷ LockStep.visits (hash k % length r.buckets)
                (get_or r.buckets (hash k % length r.buckets) [])
            ∷ LockStep.unlocks (hash k % r.stripes)
            ∷ [])

  -- The buckets in the chains that are visited.
  unfoldable pub visited : List (LockStep V) → List (Bucket V)
  visited [] = []
  visited (LockStep.locks i ∷ steps) = visited steps
  visited (LockStep.unlocks i ∷ steps) = visited steps
  visited (LockStep.visits i c ∷ steps) = c ++ visited steps

  -- The locks that are held after the steps, or `none` when a lock is taken that is held already
  -- or that does not exist, one is given up that is not held, or a chain is visited whose lock is
  -- not held.
  unfoldable pub hold : ℕ → List ℕ → List (LockStep V) → Option (List ℕ)
  unfolding give_up
  hold stripes held [] = some held
  hold stripes held (LockStep.locks i ∷ steps) =
      let rest = hold stripes (i ∷ held) steps in
      if contains held i || not (ltb i stripes) then none else rest
  hold stripes held (LockStep.unlocks i ∷ steps) =
      let rest = hold stripes (give_up i held) steps in if contains held i then rest else none
  hold stripes held (LockStep.visits i c ∷ steps) =
      let rest = hold stripes held steps in if contains held (i % stripes) then rest else none
