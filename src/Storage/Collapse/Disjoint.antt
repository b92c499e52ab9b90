-- ===== src/Storage/Collapse/Disjoint.antt =====
-- storage/cursors.cpp: how `colapseCursors` groups cursors that are disjoint, and a chain of three.
use memseries.Base.{
  ℕ, ◌+◌, ◌≡◌, ◌≢◌, arith, refl, sym, ◌∙◌, Bool, Bool-cases, true, false, not, ◌==◌, ◌&&◌,
  if◌then◌else◌,
}
use memseries.Base.{List, [], ◌∷◌, ◌++◌, inl, inr}
use mathlib.Core.List.{append_assoc, append-nil}
use memseries.Meas.{contains, intervals_intersection}
use memseries.Storage.Collapse.{
  Span, Groups, is_linear_readers, insert_position, join_set, add_key, collapse_pair,
  collapse_inner, collapse_outer, collapse_groups,
}

-- The cursor at `i` overlaps none of those from the position `j` on, but itself.
abbrev pub LinearFrom : ℕ → Span → ℕ → List Span → Type 0
LinearFrom i r j [] = Unit {0}
LinearFrom i r j (s ∷ rest) = (i ≢ j → is_linear_readers r s ≡ true) × LinearFrom i r (j + 1) rest

abbrev pub DisjointFrom : List Span → ℕ → List Span → Type 0
DisjointFrom all i [] = Unit {0}
DisjointFrom all i (r ∷ rest) = LinearFrom i r 0 all × DisjointFrom all (i + 1) rest

-- The positions of a list, from `i` on.
abbrev pub positions : ℕ → List Span → List ℕ
positions i [] = []
positions i (r ∷ rest) = i ∷ positions (i + 1) rest

abbrev alone : List ℕ → Groups
alone result = record { processed_pos = []; overlapped = []; result = result }

inner_linear :
    (i : ℕ) (r : Span) (j : ℕ) (rest : List Span) (result : List ℕ)
    → LinearFrom i r j rest
    → collapse_inner i r j rest false (alone result) ≡ (false, alone result)
unfolding collapse_inner collapse_pair
inner_linear i r j [] result h = refl
inner_linear i r j (s ∷ rest) result (here, h) = elim (Bool-cases (i == j)) [
  | inl same ↦ rw same (inner_linear i r (j + 1) rest result h)
  | inr new ↦
      let linear = here (λ e. absurd (ground arith)) in
      rw (new, linear) (inner_linear i r (j + 1) rest result h)
]

outer_linear :
    (all : List Span) (i : ℕ) (rest : List Span) (result : List ℕ)
    → DisjointFrom all i rest
    → collapse_outer all i rest (alone result) ≡ alone (result ++ positions i rest)
unfolding collapse_outer contains
outer_linear all i [] result h = rw append-nil refl
outer_linear all i (r ∷ rest) result (here, h) =
    rw (inner_linear i r 0 all result here)
      (outer_linear all (i + 1) rest (result ++ (i ∷ [])) h ∙ rw append_assoc refl)

-- If no two of the cursors overlap, the loops of colapseCursors keep all of them alone, in their
-- order, and merge none.
pub collapse_groups-DisjointFrom :
    (readers : List Span)
    → DisjointFrom readers 0 readers
    → collapse_groups readers
      ≡ record { processed_pos = []; overlapped = []; result = positions 0 readers }
unfolding collapse_groups
collapse_groups-DisjointFrom readers h = outer_linear readers 0 readers [] h

is_linear_comm : (r s : Span) → is_linear_readers r s ≡ is_linear_readers s r
unfolding is_linear_readers intervals_intersection
is_linear_comm r s = ground arith

abbrev pair_joined : Groups
pair_joined = record { processed_pos = 0 ∷ 2 ∷ []; overlapped = (0, 2 ∷ []) ∷ []; result = [] }

abbrev pair_and_one : Groups
pair_and_one = record pair_joined { result = 1 ∷ [] }

abbrev pub chain_joined : Groups
chain_joined = record {
  processed_pos = 0 ∷ 1 ∷ 2 ∷ [];
  overlapped = (0, 1 ∷ 2 ∷ []) ∷ [];
  result = 1 ∷ [];
}

whole_loop : (all : List Span) → collapse_groups all ≡ collapse_outer all 0 all (alone [])
unfolding collapse_groups
whole_loop all = refl

outer_step :
    (all : List Span) (i : ℕ) (r : Span) (rest : List Span) (g : Groups) (found : Bool)
    (g' : Groups)
    → collapse_inner i r 0 all false g ≡ (found, g')
    → collapse_outer all i (r ∷ rest) g
      ≡ collapse_outer all (i + 1) rest (
          if not (contains g'.processed_pos i) && not found
          then record g' { result = g'.result ++ (i ∷ []) }
          else g')
unfolding collapse_outer
outer_step all i r rest g found g' e = rw e refl

-- The first and the second of three are disjoint, and the third overlaps both.
module _ (a b c : Span) where
  first_round :
      is_linear_readers a b ≡ true
      → is_linear_readers a c ≡ false
      → collapse_inner 0 a 0 (a ∷ b ∷ c ∷ []) false (alone []) ≡ (true, pair_joined)
  unfolding collapse_inner collapse_pair contains insert_position join_set add_key
  first_round ab ac = rw (ab, ac) refl

  second_round :
      is_linear_readers b a ≡ true
      → is_linear_readers b c ≡ false
      → collapse_inner 1 b 0 (a ∷ b ∷ c ∷ []) false pair_joined ≡ (false, pair_joined)
  unfolding collapse_inner collapse_pair contains
  second_round ba bc = rw (ba, bc) refl

  third_round :
      is_linear_readers c a ≡ false
      → is_linear_readers c b ≡ false
      → collapse_inner 2 c 0 (a ∷ b ∷ c ∷ []) false pair_and_one ≡ (true, chain_joined)
  unfolding collapse_inner collapse_pair contains insert_position join_set add_key
  third_round ca cb = rw (ca, cb) refl

  -- If of three cursors the first and the second do not overlap and the third overlaps both, the
  -- loops of colapseCursors put the second both into the merged group and among those that stay
  -- alone.
  pub collapse_groups_chain :
      is_linear_readers a b ≡ true
      → is_linear_readers a c ≡ false
      → is_linear_readers b c ≡ false
      → collapse_groups (a ∷ b ∷ c ∷ []) ≡ chain_joined
  unfolding contains collapse_outer
  collapse_groups_chain ab ac bc =
      let all : List Span = a ∷ b ∷ c ∷ [] in
      whole_loop all
      ∙ outer_step all 0 a (b ∷ c ∷ []) (alone []) true pair_joined (first_round ab ac)
      ∙ outer_step all 1 b (c ∷ []) pair_joined false pair_joined
          (second_round (sym (is_linear_comm a b) ∙ ab) bc)
      ∙ outer_step all 2 c [] pair_and_one true chain_joined
          (third_round (sym (is_linear_comm a c) ∙ ac) (sym (is_linear_comm b c) ∙ bc))
