-- ===== src/Examples/Memory.antt =====
-- The theorems on the allocator at concrete inputs.
use memseries.Base.{ℕ, ◌≤◌, ◌≡◌, arith, refl, true, false, ltb, if◌then◌else◌}
use memseries.Base.{Option, some, none, List, [], ◌∷◌, ◌++◌, length, replicate}
use memseries.Memory.Allocator.{
  FreeQueue, IsFifo, AllocatedData, RegionChunkAllocator, header_size, create, push_positions,
  allocate, free,
}
use memseries.Memory.Allocator.Positions.{times, drop_one}
use memseries.Memory.Allocator.Run.{
  World, IsOwned, hold, allocates, frees, none_yet, one_more, run-IsOwned,
}

-- A queue as a list with its capacity.
abbrev ListQueue : Type 0
ListQueue = ℕ × List ℕ

abbrev list_pop : ListQueue → Option (ℕ × ListQueue)
list_pop (room, []) = none
list_pop (room, x ∷ xs) = some (x, (room, xs))

abbrev list_queue : FreeQueue ListQueue
list_queue = record {
  create = λ n. (n, []);
  push = λ x q. if ltb (length q.1) q.0 then (true, (q.0, q.1 ++ (x ∷ []))) else (false, q);
  pop = list_pop;
}

list_pop_nil : (q : ListQueue) → q.1 ≡ [] → list_pop q ≡ none
list_pop_nil (room, []) e = refl
list_pop_nil (room, x ∷ xs) e = cc

list_pop_cons :
    (q : ListQueue) (x : ℕ) (xs : List ℕ)
    → q.1 ≡ x ∷ xs
    → (q' : ListQueue) × (list_pop q ≡ some (x, q')) × (q'.1 ≡ xs) × (q'.0 ≡ q.0)
list_pop_cons (room, []) x xs e = cc
list_pop_cons (room, y ∷ ys) x xs e = ((room, ys), cc, cc, refl)

list_queue-IsFifo : IsFifo list_queue
list_queue-IsFifo = record {
  contents = λ q. q.1;
  room = λ q. q.0;
  create_contents = λ n. refl;
  create_room = λ n. refl;
  push_contents = λ x q h. ((q.0, q.1 ++ (x ∷ [])), ground arith, refl, refl);
  pop_nil = list_pop_nil;
  pop_cons = list_pop_cons;
}

abbrev two_chunks : RegionChunkAllocator ListQueue
two_chunks = record {
  chunk_size = 8;
  one_chunk_size = 141;
  max_size = 300;
  capacity = 2;
  allocated = 0;
  headers = replicate 2 (replicate header_size 0);
  buffers = replicate 2 (replicate 8 0);
  free_list = (2, 0 ∷ 1 ∷ []);
}

abbrev at_start : World ListQueue
at_start = record { allocator = two_chunks; held = [] }

abbrev one_held : World ListQueue
one_held = record {
  allocator = (allocate list_queue two_chunks).1;
  held = hold (allocate list_queue two_chunks).0 [];
}

two_chunks_made : create list_queue (λ m n. 2) 300 8 ≡ some two_chunks
unfolding create push_positions
two_chunks_made = refl

abbrev taken : AllocatedData
taken = record { header = some 0; buffer = some 0; position = 0 }

abbrev given_back : RegionChunkAllocator ListQueue
given_back = record two_chunks { free_list = (2, 1 ∷ 0 ∷ []) }

zero_held : 1 ≤ times 0 one_held.held
unfolding allocate
zero_held = omega arith

zero_free : free list_queue true taken one_held.allocator ≡ some given_back
unfolding allocate free
zero_free = refl

abbrev none_held : World ListQueue
none_held = record { allocator = given_back; held = drop_one 0 one_held.held }

run-IsOwned_example : IsOwned list_queue list_queue-IsFifo true none_held
run-IsOwned_example =
    run-IsOwned list_queue list_queue-IsFifo true (λ m n. 2) 300 8 two_chunks none_held
      two_chunks_made
      (one_more one_held none_held (one_more at_start one_held none_yet allocates)
        (frees taken given_back zero_held zero_free))
