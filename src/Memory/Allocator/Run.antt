-- ===== src/Memory/Allocator/Run.antt =====
-- storage/memstorage/allocators.cpp: the clients of a `RegionChunkAllocator`, as a step relation.
use memseries.Base.{
  ℕ, zero, suc, ◌+◌, ◌-◌, ◌*◌, ◌%◌, ◌^◌, ◌≤◌, ◌<◌, ◌≡◌, arith, refl, ap, sym, ◌∙◌, subst,
}
use memseries.Base.{Bool, true, not, ◌==◌, if◌then◌else◌, inl, inr, ◌⊎◌}
use memseries.Base.{
  bind_some, set, replicate, none, some, ensure, List, [], ◌∷◌, ◌++◌, length, length-append,
}
use mathlib.Core.List.{append_assoc, append-nil}
use memseries.Memory.Allocator.{
  is_some, FreeQueue, IsFifo, AllocatedData, RegionChunkAllocator, allocate, free, create,
  push_positions, header_size, no_data,
}
use memseries.Memory.Allocator.Positions.{positions, times, drop_one, length-drop_one}
use memseries.Memory.Allocator.Ownership.{Owned, Owned-new, Owned-take, Owned-give, Owned-along}

-- The allocator, and the positions that clients hold.
pub record World (Q : Type 0) : Type 0 where
  pub allocator : RegionChunkAllocator Q
  pub held : List ℕ

-- The client of an `allocate` holds the position, unless the data is empty.
abbrev pub hold : AllocatedData → List ℕ → List ℕ
hold d held = elim d.header [ none ↦ held | some h ↦ d.position ∷ held ]

List-cases {ℓ} : {A : Type ℓ} (xs : List A) → (xs ≡ []) ⊎ ((x : A) × (ys : List A) × (xs ≡ x ∷ ys))
List-cases [] = inl refl
List-cases (x ∷ xs) = inr (x, xs, refl)

taken_branch {ℓ κ} :
    {A : Type ℓ} {Q : Type κ} (f : Q → A) (r : Bool × Q) (q : Q)
    → r ≡ (true, q)
    → {b : A} → (if r.0 then some (f r.1) else none) ≡ some b
    → f q ≡ b
taken_branch f r q e h = cc

module _ {Q : Type 0} (ops : FreeQueue Q) (law : IsFifo ops) (checks : Bool) where
  -- A call of `allocate`, and one of `free` with the data of a chunk that is held.
  pub data Step (w : World Q) : World Q → Type 0 where
    allocates : Step w (record {
      allocator = (allocate ops w.allocator).1;
      held = hold (allocate ops w.allocator).0 w.held;
    })
    frees :
        (d : AllocatedData) (a : RegionChunkAllocator Q)
        → 1 ≤ times d.position w.held
        → free ops checks d w.allocator ≡ some a
        → Step w (record { allocator = a; held = drop_one d.position w.held })

  abbrev pub IsOwned : World Q → Type 0
  IsOwned w =
      Owned w.allocator.capacity (law.room w.allocator.free_list) w.allocator.allocated w.held
        (law.contents w.allocator.free_list)

  allocate_nil :
      (a : RegionChunkAllocator Q) → law.contents a.free_list ≡ [] → allocate ops a ≡ (no_data, a)
  unfolding allocate
  allocate_nil a e = rw (allocate, law.pop_nil a.free_list e) refl

  allocate_cons :
      (a : RegionChunkAllocator Q) (x : ℕ) (xs : List ℕ)
      → law.contents a.free_list ≡ x ∷ xs
      → (q : Q) × (allocate ops a ≡ (
        record { header = some (x * header_size); buffer = some (x * a.chunk_size); position = x },
        record a { free_list = q; allocated = (a.allocated + 1) % 2 ^ 64 },
      ))
        × (law.contents q ≡ xs)
        × (law.room q ≡ law.room a.free_list)
  unfolding allocate
  allocate_cons a x xs e =
      let popped = law.pop_cons a.free_list x xs e in
      (popped.0, (rw (allocate, popped.1) refl), popped.2, popped.3)

  -- After a call of `allocate`, the positions are still shared out.
  allocate-Owned :
      (w : World Q)
      → IsOwned w
      → IsOwned (record {
        allocator = (allocate ops w.allocator).1;
        held = hold (allocate ops w.allocator).0 w.held;
      })
  allocate-Owned w o = elim (List-cases (law.contents w.allocator.free_list)) [
    | inl e ↦
        subst (λ r. IsOwned (record { allocator = r.1; held = hold r.0 w.held }))
          (sym (allocate_nil w.allocator e)) o
    | inr (x, xs, e) ↦
        let taken = allocate_cons w.allocator x xs e in
        subst (λ r. IsOwned (record { allocator = r.1; held = hold r.0 w.held })) (sym taken.1)
          (Owned-along refl refl taken.2 (Owned-take (Owned-along refl refl (sym e) o) taken.3))
  ]

  free_pushes :
      (d : AllocatedData) (a a' : RegionChunkAllocator Q)
      → free ops checks d a ≡ some a'
      → length (law.contents a.free_list) < law.room a.free_list
      → (a'.capacity ≡ a.capacity)
        × (a'.allocated ≡ (a.allocated + 2 ^ 64 - 1) % 2 ^ 64)
        × (law.contents a'.free_list ≡ law.contents a.free_list ++ (d.position ∷ []))
        × (law.room a'.free_list ≡ law.room a.free_list)
  unfolding free
  free_pushes d a a' e fits =
      let pushed = law.push_contents d.position a.free_list fits in
      let e₁ = (bind_some (ensure checks (is_some d.header)) _ e).2 in
      let e₂ = (bind_some (ensure checks (is_some d.buffer)) _ e₁).2 in
      let e₃ = (bind_some (ensure checks (not (d.position == 2 ^ 64 - 1))) _ e₂).2 in
      subst
        (λ b.
          (b.capacity ≡ a.capacity)
          × (b.allocated ≡ (a.allocated + 2 ^ 64 - 1) % 2 ^ 64)
          × (law.contents b.free_list ≡ law.contents a.free_list ++ (d.position ∷ []))
          × (law.room b.free_list ≡ law.room a.free_list))
        (taken_branch
          (λ q. record a {
            headers = set a.headers d.position (replicate header_size 0);
            buffers = set a.buffers d.position (replicate a.chunk_size 0);
            allocated = (a.allocated + 2 ^ 64 - 1) % 2 ^ 64;
            free_list = q;
          })
          (ops.push d.position a.free_list) pushed.0 pushed.1 e₃)
        (refl, refl, pushed.2, pushed.3)

  free-Owned :
      (w : World Q) (d : AllocatedData) (a : RegionChunkAllocator Q)
      → IsOwned w
      → 1 ≤ times d.position w.held
      → free ops checks d w.allocator ≡ some a
      → IsOwned (record { allocator = a; held = drop_one d.position w.held })
  free-Owned w d a o h e =
      let freed =
        free_pushes d w.allocator a e
          (omega (arith, o.whole, o.room_is, length-drop_one d.position w.held h)) in
      Owned-along freed.0 freed.1 freed.2 (Owned-give d.position o h freed.3)

  Step-Owned : (w w' : World Q) → Step w w' → IsOwned w → IsOwned w'
  Step-Owned w w' allocates o = allocate-Owned w o
  Step-Owned w w' (frees d a h e) o = free-Owned w d a o h e

  -- The worlds that calls lead to.
  pub data Reach (w : World Q) : World Q → Type 0 where
    none_yet : Reach w w
    one_more : (w₁ w₂ : World Q) → Reach w w₁ → Step w₁ w₂ → Reach w w₂

  Reach-Owned : (w w' : World Q) → Reach w w' → IsOwned w → IsOwned w'
  Reach-Owned w w' none_yet o = o
  Reach-Owned w w' (one_more w₁ w₂ r s) o = Step-Owned w₁ w' s (Reach-Owned w w₁ r o)

  push_positions_lem :
      (n i : ℕ) (q : Q)
      → length (law.contents q) + n ≤ law.room q
      → (q' : Q) × (push_positions ops n i q ≡ some q')
        × (law.contents q' ≡ law.contents q ++ positions n i)
        × (law.room q' ≡ law.room q)
  unfolding push_positions
  push_positions_lem zero i q h = (q, refl, sym (append-nil (law.contents q)), refl)
  push_positions_lem (suc n) i q h =
      let pushed = law.push_contents i q (omega (arith, h)) in
      let rest =
        push_positions_lem n (i + 1) pushed.0 (
          omega
            (arith, h, ap length pushed.2, length-append (law.contents q) (i ∷ []), pushed.3)) in
      (
        rest.0,
        (rw (pushed.1, rest.1) refl),
        rest.2
            ∙ ap (λ xs. xs ++ positions n (i + 1)) pushed.2
            ∙ append_assoc (law.contents q) (i ∷ []) (positions n (i + 1)),
        rest.3 ∙ pushed.3,
      )

  pub create-IsOwned :
      (float_capacity : ℕ → ℕ → ℕ) (max_size buffer_size : ℕ)
      → (a : RegionChunkAllocator Q) × (create ops float_capacity max_size buffer_size ≡ some a)
        × IsOwned (record { allocator = a; held = [] })
  unfolding create
  create-IsOwned float_capacity max_size buffer_size =
      let capacity = float_capacity max_size (header_size + buffer_size) in
      let none_in = law.create_contents capacity in
      let filled =
        push_positions_lem capacity 0 (ops.create capacity)
          (omega (arith, ap length none_in, law.create_room capacity)) in
      let there = filled.2 ∙ ap (λ xs. xs ++ positions capacity 0) none_in in
      (
        record {
          chunk_size = buffer_size;
          one_chunk_size = header_size + buffer_size;
          max_size = max_size;
          capacity = capacity;
          allocated = 0;
          headers = replicate capacity (replicate header_size 0);
          buffers = replicate capacity (replicate buffer_size 0);
          free_list = filled.0;
        },
        (rw (filled.1) refl),
        Owned-new there (filled.3 ∙ law.create_room capacity),
      )

  -- Over a queue that is first in, first out within its capacity, whatever calls of allocate, and
  -- of free with data that is held, follow the constructor, each position below the capacity is
  -- either held by one client or free once, no other position is, and the counter of allocated
  -- chunks is the number of held ones modulo 2^64.
  pub run-IsOwned :
      (float_capacity : ℕ → ℕ → ℕ) (max_size buffer_size : ℕ) (a : RegionChunkAllocator Q)
      (w : World Q)
      → create ops float_capacity max_size buffer_size ≡ some a
      → Reach (record { allocator = a; held = [] }) w
      → IsOwned w
  run-IsOwned float_capacity max_size buffer_size a w e r =
      let made = create-IsOwned float_capacity max_size buffer_size in
      let same : made.0 ≡ a = (let there = sym made.1 ∙ e in cc) in
      Reach-Owned (record { allocator = a; held = [] }) w r
        (subst (λ b. IsOwned (record { allocator = b; held = [] })) same made.2)
