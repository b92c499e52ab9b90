-- ===== src/Storage/Collapse.antt =====
-- storage/cursors.cpp: `CursorWrapperFactory`, which joins cursors that overlap. The cursors of a
-- list are named by their positions.
pub mod Disjoint
use memseries.Base.{ℕ, zero, suc, ◌+◌, Bool, true, false, not, ◌==◌, ◌&&◌, ltb, if◌then◌else◌}
use memseries.Base.{Option, none, some, ◌>>=◌, List, [], ◌∷◌, ◌++◌, length, map}
use memseries.Base.{◌⊎◌, inl, inr, get_elem?}
use memseries.Meas.{Meas, contains, intervals_intersection}
use memseries.Storage.Cursor.{ICursor}
use memseries.Storage.Merge.{MergeSortCursor, new_merge_cursor, merge_cursor}
use memseries.Storage.Linear.{LinearCursor, new_linear_cursor}

-- `minTime` and `maxTime` of a cursor.
pub record Span : Type 0 where
  pub from : ℕ
  pub to : ℕ

unfoldable pub is_linear_readers : Span → Span → Bool
is_linear_readers r1 r2 = not (intervals_intersection r1.from r1.to r2.from r2.to)

-- `std::set<size_t>::insert`.
unfoldable pub insert_position : ℕ → List ℕ → List ℕ
insert_position j [] = j ∷ []
insert_position j (k ∷ ks) =
    let rest = insert_position j ks in
    if j == k then k ∷ ks else if ltb j k then j ∷ k ∷ ks else k ∷ rest

-- The state of the two loops. `overlapped` is in the order of its keys.
pub record Groups : Type 0 where
  pub processed_pos : List ℕ
  pub overlapped : List (ℕ × List ℕ)
  pub result : List ℕ

-- The search for a set that holds `i`, which then takes `j`; `none` when no set holds it.
unfoldable pub join_set : ℕ → ℕ → List (ℕ × List ℕ) → Option (List (ℕ × List ℕ))
unfolding insert_position
join_set i j [] = none
join_set i j ((k, js) ∷ rest) =
    let later = (do rest' ← join_set i j rest; some ((k, js) ∷ rest')) in
    if contains js i then some ((k, insert_position j js) ∷ rest) else later

-- `overlapped[i].insert(j)`: a key that is missing is put in its place.
unfoldable pub add_key : ℕ → ℕ → List (ℕ × List ℕ) → List (ℕ × List ℕ)
unfolding insert_position
add_key i j [] = (i, j ∷ []) ∷ []
add_key i j ((k, js) ∷ rest) =
    let later = (k, js) ∷ add_key i j rest in
    if i == k
    then (k, insert_position j js) ∷ rest
    else if ltb i k
    then (i, j ∷ []) ∷ (k, js) ∷ rest
    else later

abbrev pub or_key : ℕ → ℕ → List (ℕ × List ℕ) → Option (List (ℕ × List ℕ)) → List (ℕ × List ℕ)
or_key i j overlapped none = add_key i j overlapped
or_key i j overlapped (some joined) = joined

-- The pair `i`, `j`, and whether it made `have_overlap` true.
unfoldable pub collapse_pair : ℕ → Span → ℕ → Span → Groups → Bool × Groups
unfolding is_linear_readers join_set add_key
collapse_pair i r j s g =
    let overlap = not (is_linear_readers r s) && not (contains g.processed_pos j) in
    if i == j
    then (false, g)
    else if overlap
    then (
      true,
      record g {
        processed_pos = insert_position j (insert_position i g.processed_pos);
        overlapped = or_key i j g.overlapped (join_set i j g.overlapped);
      },
    )
    else (false, g)

-- The inner loop over the positions from `j` on.
unfoldable pub collapse_inner : ℕ → Span → ℕ → List Span → Bool → Groups → Bool × Groups
unfolding collapse_pair
collapse_inner i r j [] have_overlap g = (have_overlap, g)
collapse_inner i r j (s ∷ rest) have_overlap g =
    let (found, g') = collapse_pair i r j s g in
    collapse_inner i r (j + 1) rest (if found then true else have_overlap) g'

-- The outer loop over the positions from `i` on; `all` are the cursors.
unfoldable pub collapse_outer : List Span → ℕ → List Span → Groups → Groups
unfolding collapse_inner
collapse_outer all i [] g = g
collapse_outer all i (r ∷ rest) g =
    let (have_overlap, g') = collapse_inner i r 0 all false g in
    let alone = not (contains g'.processed_pos i) && not have_overlap in
    collapse_outer all (i + 1) rest
      (if alone then record g' { result = g'.result ++ (i ∷ []) } else g')

unfoldable pub collapse_groups : List Span → Groups
unfolding collapse_outer
collapse_groups readers =
    collapse_outer readers 0 readers (record { processed_pos = []; overlapped = []; result = [] })

-- A cursor of one class or of another.
module _ {A B : Type 0} (a : ICursor A) (b : ICursor B) where
  abbrev pub either_next : Bool → A ⊎ B → Option (Meas × (A ⊎ B))
  either_next checks (inl s) = do (m, s') ← a.read_next checks s; some (m, inl s')
  either_next checks (inr s) = do (m, s') ← b.read_next checks s; some (m, inr s')

  abbrev pub either_of {ℓ} : {C : Type ℓ} → (A → C) → (B → C) → A ⊎ B → C
  either_of f g (inl s) = f s
  either_of f g (inr s) = g s

  abbrev pub either_cursor : ICursor (A ⊎ B)
  either_cursor = record {
    read_next = either_next;
    top = either_of a.top b.top;
    is_end = either_of a.is_end b.is_end;
    from_time = either_of a.from_time b.from_time;
    to_time = either_of a.to_time b.to_time;
    count = either_of a.count b.count;
  }

unfoldable pub readers_at {ℓ} : {A : Type ℓ} → List A → List ℕ → Option (List A)
readers_at readers [] = some []
readers_at readers (i ∷ is') = do
  r ← get_elem? readers i
  rs ← readers_at readers is'
  some (r ∷ rs)

module _ {S : Type 0} (o : ICursor S) (checks : Bool) (sub : S → Option (List S)) where
  unfoldable pub merge_groups : List S → List (ℕ × List ℕ) → Option (List (MergeSortCursor S))
  unfolding readers_at
  merge_groups readers [] = some []
  merge_groups readers ((k, js) ∷ rest) = do
    rs ← readers_at readers (k ∷ js)
    c ← new_merge_cursor o checks sub rs
    cs ← merge_groups readers rest
    some (c ∷ cs)

  -- `colapseCursors` of a list; `sort` is that of `LinearCursor`. A cursor that stands in two places is
  -- one object there, and two states here.
  unfoldable pub colapse_cursors :
      ((S ⊎ MergeSortCursor S → S ⊎ MergeSortCursor S → Bool)
        → List (S ⊎ MergeSortCursor S)
        → List (S ⊎ MergeSortCursor S))
      → List S
      → Option (LinearCursor (S ⊎ MergeSortCursor S))
  unfolding readers_at merge_groups collapse_groups
  colapse_cursors sort readers = do
    let groups =
        collapse_groups (map (λ r. record { from = o.from_time r; to = o.to_time r }) readers)
    alone ← readers_at readers groups.result
    merged ← merge_groups readers groups.overlapped
    new_linear_cursor (either_cursor o (merge_cursor o checks)) checks (λ _. none) sort
        (map inl alone ++ map inr merged)
