-- ===== src/Storage/Wal/Points.antt =====
-- storage/wal/walfile.cpp: what `readTimePoint` and `currentValue` answer for an id.
use memseries.Base.{
  ℕ, ◌≡◌, arith, refl, ap, sym, ◌∙◌, subst, Bool, Bool-cases, true, false, ltb, ◌==◌, ==_iff, ◌&&◌,
  ◌||◌, if◌then◌else◌,
}
use memseries.Base.{Option, none, some, Option-cases, List, [], ◌∷◌, inl, inr}
use memseries.Meas.{Meas, contains}
use memseries.Storage.Wal.Queries.{
  find_meas, emplace, assign, replace_found, replace_if_older, insert_id, gather,
}

-- The first measurement of an id that passes a test.
unfoldable pub first_of : (Meas → Bool) → ℕ → List Meas → Option Meas
first_of test id [] = none
first_of test id (m ∷ ms) =
    let later = first_of test id ms in if test m && (m.id == id) then some m else later

abbrev pub or_else : Option Meas → Option Meas → Option Meas
or_else none d = d
or_else (some m) d = some m

pub eq_sound : (a b : ℕ) → (a == b) ≡ true → a ≡ b
eq_sound a b = (==_iff a b).0

pub eq_self : (a : ℕ) → (a == a) ≡ true
eq_self a = (==_iff a a).1 refl

find_meas-emplace :
    (id k : ℕ) (m : Meas) (s : List (ℕ × Meas))
    → find_meas id (emplace k m s) ≡ or_else (find_meas id s) (if k == id then some m else none)
unfolding find_meas emplace
find_meas-emplace id k m [] = refl
find_meas-emplace id k m ((j, x) ∷ rest) = elim (Bool-cases (j == id)) [
  | inl here ↦ ground (arith, find_meas-emplace id k m rest)
  | inr other ↦ ground (arith, find_meas-emplace id k m rest)
]

pub find_meas-assign :
    (id k : ℕ) (m : Meas) (s : List (ℕ × Meas))
    → find_meas id (assign k m s) ≡ (if k == id then some m else find_meas id s)
unfolding find_meas assign
find_meas-assign id k m [] = refl
find_meas-assign id k m ((j, x) ∷ rest) = ground (arith, find_meas-assign id k m rest)

pub or_else-none : (o : Option Meas) → or_else o none ≡ o
or_else-none none = refl
or_else-none (some m) = refl

pub or_else_assoc : (a b c : Option Meas) → or_else (or_else a b) c ≡ or_else a (or_else b c)
or_else_assoc none b c = refl
or_else_assoc (some a) b c = refl

kept :
    (id : ℕ) (m old : Meas) (s : List (ℕ × Meas))
    → find_meas m.id s ≡ some old
    → find_meas id s ≡ or_else (find_meas id s) (if m.id == id then some m else none)
kept id m old s e = elim (Bool-cases (m.id == id)) [
  | inr other ↦ rw other (sym (or_else-none (find_meas id s)))
  | inl same ↦
      let there : find_meas id s ≡ some old =
        subst (λ k. find_meas k s ≡ some old) (eq_sound m.id id same) e in
      rw there refl
]

-- A measurement of an id that is there replaces nothing, whether it is older or not.
find_meas-replace_if_older :
    (id : ℕ) (m : Meas) (s : List (ℕ × Meas))
    → find_meas id (replace_if_older m s)
      ≡ or_else (find_meas id s) (if m.id == id then some m else none)
unfolding replace_if_older
find_meas-replace_if_older id m s = elim (Option-cases (find_meas m.id s)) [
  | inl e ↦ ap (λ o. find_meas id (replace_found o m s)) e ∙ find_meas-emplace id m.id m s
  | inr (old, e) ↦
      ap (λ o. find_meas id (replace_found o m s)) e ∙ elim (Bool-cases (ltb old.time m.time)) [
        | inl newer ↦ rw newer (find_meas-emplace id m.id m s)
        | inr older ↦ rw older (kept id m old s e)
      ]
]

unfoldable pub is_some : Option Meas → Bool
is_some none = false
is_some (some m) = true

contains-insert_id :
    (id k : ℕ) (ids : List ℕ) → contains (insert_id k ids) id ≡ (k == id) || contains ids id
unfolding insert_id contains
contains-insert_id id k ids = elim (Bool-cases (contains ids k)) [
  | inr new ↦ rw new refl
  | inl old ↦ elim (Bool-cases (k == id)) [
    | inr other ↦ rw (old, other) refl
    | inl same ↦ rw (old, same) (subst (λ j. contains ids j ≡ true) (eq_sound k id same) old)
  ]
]

-- The ids that were read are those that have a measurement, each of them once.
pub data Distinct : List ℕ → Type 0 where
  empty : Distinct []
  further : (x : ℕ) (xs : List ℕ) → contains xs x ≡ false → Distinct xs → Distinct (x ∷ xs)

insert_id-Distinct : (k : ℕ) (ids : List ℕ) → Distinct ids → Distinct (insert_id k ids)
unfolding insert_id
insert_id-Distinct k ids d = elim (Bool-cases (contains ids k)) [
  | inl old ↦ rw old d
  | inr new ↦ rw new (further k ids new d)
]

pub record Gathered (test : Meas → Bool) (ms : List Meas) (start result : List (ℕ × Meas) × List ℕ)
    : Type 0 where
  pub found :
      (id : ℕ) → find_meas id result.0 ≡ or_else (find_meas id start.0) (first_of test id ms)
  pub readed : (id : ℕ) → contains result.1 id ≡ is_some (find_meas id result.0)
  pub distinct : Distinct result.1

joined_some :
    (b : Bool) (m : Meas) (o : Option Meas)
    → (b || is_some o) ≡ is_some (or_else o (if b then some m else none))
unfolding is_some
joined_some true m none = refl
joined_some true m (some x) = refl
joined_some false m none = refl
joined_some false m (some x) = refl

pub first_or :
    (b : Bool) (m : Meas) (o : Option Meas)
    → or_else (if b then some m else none) o ≡ (if b then some m else o)
first_or true m o = refl
first_or false m o = refl

pub gather-Gathered :
    (test : Meas → Bool) (ms : List Meas) (s : List (ℕ × Meas)) (ids : List ℕ)
    → ((id : ℕ) → contains ids id ≡ is_some (find_meas id s))
    → Distinct ids
    → Gathered test ms (s, ids) (gather test ms (s, ids))
unfolding gather first_of is_some
gather-Gathered test [] s ids h d = record {
  found = λ id. sym (or_else-none (find_meas id s));
  readed = h;
  distinct = d;
}
gather-Gathered test (m ∷ ms) s ids h d = elim (Bool-cases (test m)) [
  | inr fails ↦
      let g = gather-Gathered test ms s ids h d in
      let first : (id : ℕ) → first_of test id (m ∷ ms) ≡ first_of test id ms =
        λ id. rw fails refl in
      let all : Gathered test (m ∷ ms) (s, ids) (gather test ms (s, ids)) = record {
        found = λ id. g.found id ∙ ap (or_else (find_meas id s)) (sym (first id));
        readed = g.readed;
        distinct = g.distinct;
      } in
      rw fails all
  | inl passes ↦
      let step = λ (id : ℕ). find_meas-replace_if_older id m s in
      let seen : (id : ℕ)
          → contains (insert_id m.id ids) id ≡ is_some (find_meas id (replace_if_older m s)) =
        λ id.
          contains-insert_id id m.id ids
          ∙ ap (λ b. (m.id == id) || b) (h id)
          ∙ joined_some (m.id == id) m (find_meas id s)
          ∙ ap is_some (sym (step id)) in
      let g =
        gather-Gathered test ms (replace_if_older m s) (insert_id m.id ids) seen
          (insert_id-Distinct m.id ids d) in
      let first : (id : ℕ)
          → first_of test id (m ∷ ms) ≡ (if m.id == id then some m else first_of test id ms) =
        λ id. rw passes refl in
      let all : Gathered test (m ∷ ms) (s, ids)
          (gather test ms (replace_if_older m s, insert_id m.id ids)) =
        record {
          found = λ id.
              g.found id
              ∙ ap (λ o. or_else o (first_of test id ms)) (step id)
              ∙ or_else_assoc (find_meas id s) (if m.id == id then some m else none)
                  (first_of test id ms)
              ∙ ap (or_else (find_meas id s))
                  (first_or (m.id == id) m (first_of test id ms) ∙ sym (first id));
          readed = g.readed;
          distinct = g.distinct;
        } in
      rw passes all
]
