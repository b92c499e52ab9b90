-- ===== src/Memory/Allocator.antt =====
-- storage/memstorage/allocators.h and allocators.cpp: `RegionChunkAllocator`, which hands out the
-- chunks of one region, and `UnlimitMemoryAllocator`.
pub mod Ownership
pub mod Positions
pub mod Run
use memseries.Base.{
  ℕ, zero, suc, ◌+◌, ◌-◌, ◌*◌, ◌%◌, ◌^◌, Bool, true, false, not, ◌&&◌, ◌==◌, if◌then◌else◌,
}
use memseries.Base.{
  Option, none, some, ◌>>=◌, ◌>>◌, ensure, List, [], ◌∷◌, ◌++◌, length, replicate, set, ◌≡◌, ◌<◌,
}

-- `boost::lockfree::queue<size_t>`, without concurrent calls.
pub record FreeQueue (Q : Type 0) : Type 0 where
  pub create : ℕ → Q
  pub push : ℕ → Q → Bool × Q
  pub pop : Q → Option (ℕ × Q)

-- It is first in, first out, and a push succeeds within the capacity that it was made with.
pub record IsFifo {Q : Type 0} (ops : FreeQueue Q) : Type 0 where
  pub contents : Q → List ℕ
  pub room : Q → ℕ
  pub create_contents : (n : ℕ) → contents (ops.create n) ≡ []
  pub create_room : (n : ℕ) → room (ops.create n) ≡ n
  pub push_contents :
      (x : ℕ) (q : Q)
      → length (contents q) < room q
      → (q' : Q) × (ops.push x q ≡ (true, q'))
        × (contents q' ≡ contents q ++ (x ∷ []))
        × (room q' ≡ room q)
  pub pop_nil : (q : Q) → contents q ≡ [] → ops.pop q ≡ none
  pub pop_cons :
      (q : Q) (x : ℕ) (xs : List ℕ)
      → contents q ≡ x ∷ xs
      → (q' : Q) × (ops.pop q ≡ some (x, q')) × (contents q' ≡ xs) × (room q' ≡ room q)

-- `sizeof(ChunkHeader)`, which is packed.
abbrev pub header_size : ℕ
header_size = 133

-- Pointers are offsets into `_headers` and `_buffers`; `none` is null.
pub record AllocatedData : Type 0 where
  pub header : Option ℕ
  pub buffer : Option ℕ
  pub position : ℕ

abbrev pub no_data : AllocatedData
no_data = record { header = none; buffer = none; position = 2 ^ 64 - 1 }

-- A header and a buffer of the region are bytes.
pub record RegionChunkAllocator (Q : Type 0) : Type 0 where
  pub chunk_size : ℕ
  pub one_chunk_size : ℕ
  pub max_size : ℕ
  pub capacity : ℕ
  pub allocated : ℕ
  pub headers : List (List ℕ)
  pub buffers : List (List ℕ)
  pub free_list : Q

abbrev pub is_some {ℓ} : {A : Type ℓ} → Option A → Bool
is_some none = false
is_some (some a) = true

module _ {Q : Type 0} (ops : FreeQueue Q) where
  -- The loop of the constructor pushes the positions from `i` on; a failed push throws.
  unfoldable pub push_positions : ℕ → ℕ → Q → Option Q
  push_positions zero i q = some q
  push_positions (suc n) i q = do
    let pushed = ops.push i q
    let rest = push_positions n (i + 1) pushed.1
    if pushed.0 then rest else none

  -- `float_capacity` is `(int)(float(maxSize) / _one_chunk_size)`.
  unfoldable pub create : (ℕ → ℕ → ℕ) → ℕ → ℕ → Option (RegionChunkAllocator Q)
  unfolding push_positions
  create float_capacity max_size buffer_size = do
    let one = header_size + buffer_size
    let capacity = float_capacity max_size one
    q ← push_positions capacity 0 (ops.create capacity)
    some (record {
      chunk_size = buffer_size;
      one_chunk_size = one;
      max_size = max_size;
      capacity = capacity;
      allocated = 0;
      headers = replicate capacity (replicate header_size 0);
      buffers = replicate capacity (replicate buffer_size 0);
      free_list = q;
    })

  unfoldable pub allocate : RegionChunkAllocator Q → AllocatedData × RegionChunkAllocator Q
  allocate a = elim (ops.pop a.free_list) [
    | none ↦ (no_data, a)
    | some (pos, q) ↦ (
      record {
        header = some (pos * header_size);
        buffer = some (pos * a.chunk_size);
        position = pos;
      },
      record a { free_list = q; allocated = (a.allocated + 1) % 2 ^ 64 },
    )
  ]

  -- The bytes of the chunk are cleared; a failed push throws. The data is one that `allocate` made, so
  -- its pointers are those of its position.
  unfoldable pub free :
      Bool → AllocatedData → RegionChunkAllocator Q → Option (RegionChunkAllocator Q)
  free checks d a = do
    ensure checks (is_some d.header)
    ensure checks (is_some d.buffer)
    ensure checks (not (d.position == 2 ^ 64 - 1))
    let pushed = ops.push d.position a.free_list
    let a' = record a {
      headers = set a.headers d.position (replicate header_size 0);
      buffers = set a.buffers d.position (replicate a.chunk_size 0);
      allocated = (a.allocated + 2 ^ 64 - 1) % 2 ^ 64;
      free_list = pushed.1;
    }
    if pushed.0 then some a' else none

-- `UnlimitMemoryAllocator`: a new chunk of the heap for each call. `fails` is a `bad_alloc`.
pub record UnlimitMemoryAllocator : Type 0 where
  pub allocated : ℕ
  pub chunk_size : ℕ

-- The position, when there is memory; the buffer is zeroed.
unfoldable pub unlimit_allocate :
    Bool → UnlimitMemoryAllocator → Option (ℕ × List ℕ) × UnlimitMemoryAllocator
unlimit_allocate fails a = (
  (if fails then none else some (a.allocated, replicate a.chunk_size 0)),
  record a { allocated = (a.allocated + 1) % 2 ^ 64 },
)

unfoldable pub unlimit_free :
    Bool → AllocatedData → UnlimitMemoryAllocator → Option UnlimitMemoryAllocator
unlimit_free checks d a = do
  ensure checks (is_some d.header)
  ensure checks (is_some d.buffer)
  ensure checks (not (d.position == 2 ^ 64 - 1))
  some (record a { allocated = (a.allocated + 2 ^ 64 - 1) % 2 ^ 64 })
