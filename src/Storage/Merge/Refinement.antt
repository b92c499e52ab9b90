-- ===== src/Storage/Merge/Refinement.antt =====
-- storage/cursors.cpp: `MergeSortCursor` gives the union of what its readers give.
use memseries.Base.{
  ℕ, zero, suc, ◌+◌, ◌≡◌, arith, refl, ap, ap₂, sym, ◌∙◌, subst, Bool, Bool-cases, false,
}
use memseries.Base.{Option, some, List, [], ◌∷◌, map, get_elem?, set}
use memseries.Meas.{Meas, max_time}
use memseries.Storage.Cursor.{ICursor, Gives}
use memseries.Storage.Merge.{
  MergeSortCursor, all_true, skip_readers, get_cursor_with_min_time, merge_is_end, merge_read_next,
}
use memseries.Storage.Merge.Union.{without, First, all_null}
use memseries.Storage.Merge.Least.{head_time, least_found, pick_below}
use memseries.Storage.Merge.Reading.{
  null, RisesFrom, IsRising, AreRising, without-AreRising, RisesFrom-IsRising, AreRising-HeadsBelow,
  is_end-Gives, get_top_time-Gives, skip_reader-Gives,
}

map-set {ℓ κ} :
    {A : Type ℓ} {B : Type κ} (f : A → B) (xs : List A) (j : ℕ) (a : A)
    → map f (set xs j a) ≡ set (map f xs) j (f a)
map-set f [] j a = refl
map-set f (x ∷ xs) zero a = refl
map-set f (x ∷ xs) (suc j) a = ap (λ l. f x ∷ l) (map-set f xs j a)

all_true-null : (ls : List (List Meas)) → all_true (map null ls) ≡ all_null ls
all_true-null [] = refl
all_true-null ([] ∷ ls) = all_true-null ls
all_true-null ((m ∷ ms) ∷ ls) = refl

-- To take the head of time `t` off one list first changes nothing.
map-without-set :
    (ls : List (List Meas)) (j : ℕ) (m : Meas) (ms : List Meas)
    → get_elem? ls j ≡ some (m ∷ ms)
    → RisesFrom m.time ms
    → map (without m.time) (set ls j ms) ≡ map (without m.time) ls
map-without-set [] j m ms e h = cc
map-without-set (l ∷ ls) zero m ms e h =
    ap₂ ◌∷◌ (kept ms h ∙ sym (ap (without m.time) same ∙ dropped)) refl
  where
    same : l ≡ m ∷ ms
    same = list_parts e
      where
        list_parts : ◌≡◌ {A = Option (List Meas)} (some l) (some (m ∷ ms)) → l ≡ m ∷ ms
        list_parts e = cc

    dropped : without m.time (m ∷ ms) ≡ ms
    dropped = ground arith

    kept : (ms : List Meas) → RisesFrom m.time ms → without m.time ms ≡ ms
    kept [] h = refl
    kept (n ∷ ns) (up, below, h) = ground arith
map-without-set (l ∷ ls) (suc j) m ms e h =
    ap (λ x. without m.time l ∷ x) (map-without-set ls j m ms e h)

AreRising-at :
    (ls : List (List Meas)) (j : ℕ) (l : List Meas)
    → get_elem? ls j ≡ some l
    → AreRising ls
    → IsRising l
AreRising-at [] j l e h = cc
AreRising-at (x ∷ ls) zero l e (here, h) = subst IsRising (list_parts e) here
  where
    list_parts : ◌≡◌ {A = Option (List Meas)} (some x) (some l) → x ≡ l
    list_parts e = cc
AreRising-at (x ∷ ls) (suc j) l e (here, h) = AreRising-at ls j l e h

AreRising-set :
    (ls : List (List Meas)) (j : ℕ) (l : List Meas)
    → IsRising l
    → AreRising ls
    → AreRising (set ls j l)
AreRising-set [] j l g h = tt
AreRising-set (x ∷ ls) zero l g (here, h) = (g, h)
AreRising-set (x ∷ ls) (suc j) l g (here, h) = (here, AreRising-set ls j l g h)

module _ {S : Type 0} (o : ICursor S) (checks : Bool) where
  -- Each reader gives its list.
  abbrev pub GiveAll : List S → List (List Meas) → Type 0
  GiveAll [] [] = Unit {0}
  GiveAll [] (l ∷ ls) = ⊥
  GiveAll (r ∷ rs) [] = ⊥
  GiveAll (r ∷ rs) (l ∷ ls) = Gives o checks r l × GiveAll rs ls

  GiveAll-at :
      (rs : List S) (ls : List (List Meas)) (j : ℕ) (l : List Meas)
      → GiveAll rs ls
      → get_elem? ls j ≡ some l
      → (r : S) × (get_elem? rs j ≡ some r) × Gives o checks r l
  GiveAll-at [] [] j l g e = cc
  GiveAll-at [] (x ∷ ls) j l g e = absurd g
  GiveAll-at (r ∷ rs) [] j l g e = absurd g
  GiveAll-at (r ∷ rs) (x ∷ ls) zero l (here, g) e =
      (r, refl, subst (Gives o checks r) (list_parts e) here)
    where
      list_parts : ◌≡◌ {A = Option (List Meas)} (some x) (some l) → x ≡ l
      list_parts e = cc
  GiveAll-at (r ∷ rs) (x ∷ ls) (suc j) l (here, g) e = GiveAll-at rs ls j l g e

  GiveAll-set :
      (rs : List S) (ls : List (List Meas)) (j : ℕ) (r : S) (l : List Meas)
      → GiveAll rs ls
      → Gives o checks r l
      → GiveAll (set rs j r) (set ls j l)
  GiveAll-set [] [] j r l g h = tt
  GiveAll-set [] (x ∷ ls) j r l g h = absurd g
  GiveAll-set (s ∷ rs) [] j r l g h = absurd g
  GiveAll-set (s ∷ rs) (x ∷ ls) zero r l (here, g) h = (h, g)
  GiveAll-set (s ∷ rs) (x ∷ ls) (suc j) r l (here, g) h = (here, GiveAll-set rs ls j r l g h)

  skip_readers-GiveAll :
      (t : ℕ) (rs : List S) (ls : List (List Meas))
      → AreRising ls
      → GiveAll rs ls
      → (rs' : List S) × (skip_readers o checks t rs (map head_time ls) (map null ls)
          ≡ some (rs', map head_time (map (without t) ls), map null (map (without t) ls)))
        × GiveAll rs' (map (without t) ls)
  unfolding skip_readers
  skip_readers-GiveAll t [] [] h g = ([], refl, tt)
  skip_readers-GiveAll t [] (l ∷ ls) h g = absurd g
  skip_readers-GiveAll t (r ∷ rs) [] h g = absurd g
  skip_readers-GiveAll t (r ∷ rs) (l ∷ ls) (rising, h) (here, g) =
      let (r', run, g') = skip_reader-Gives o checks t r l rising here in
      let (rs', runs, gs') = skip_readers-GiveAll t rs ls h g in
      (r' ∷ rs', rw (run, runs) refl, (g', gs'))

  -- A merge cursor whose readers give rising lists, and whose two caches are up to date.
  pub record MergeStands (c : MergeSortCursor S) (ls : List (List Meas)) : Type 0 where
    pub readers : GiveAll c.readers ls
    pub tops : c.top_times ≡ map head_time ls
    pub ends : c.is_end_status ≡ map null ls
    pub rising : AreRising ls

  pub end_lem :
      (c : MergeSortCursor S) (ls : List (List Meas))
      → MergeStands c ls
      → merge_is_end o c ≡ all_null ls
  unfolding merge_is_end
  end_lem c ls h = ap all_true h.ends ∙ all_true-null ls

  -- The scan of the cached times finds a reader that gives the first of the union.
  abbrev pub Found : MergeSortCursor S → List (List Meas) → Meas → Type 0
  Found c ls m =
      (j : ℕ) × (ms : List Meas) × (r : S) × (get_elem? ls j ≡ some (m ∷ ms))
      × Gives o checks r (m ∷ ms)
      × (get_cursor_with_min_time o checks c.top_times c.readers ≡ some (j, r))

  pub found_lem :
      (c : MergeSortCursor S) (ls : List (List Meas)) (m : Meas) (rest : List Meas)
      → MergeStands c ls
      → First ls m rest
      → Found c ls m
  unfolding get_cursor_with_min_time
  found_lem c ls m rest h (picked, tail, from) =
      let below = AreRising-HeadsBelow ls h.rising in
      let small = pick_below ls m picked below in
      let (j, ms, place, found) = least_found ls m 0 max_time 0 picked from below small in
      let (r, at_j, g) = GiveAll-at c.readers ls j (m ∷ ms) h.readers place in
      let index : 0 + j ≡ j = omega arith in
      (j, ms, r, place, g, rw (h.tops, found, index, at_j, g.0) (ground (arith, Bool-cases checks)))

  get_elem?-map :
      (ls : List (List Meas)) (j : ℕ) (l : List Meas)
      → get_elem? ls j ≡ some l
      → get_elem? (map null ls) j ≡ some (null l)
  get_elem?-map [] j l e = cc
  get_elem?-map (x ∷ ls) zero l e = cc
  get_elem?-map (x ∷ ls) (suc j) l e = get_elem?-map ls j l e

  abbrev pub Rest : MergeSortCursor S → List (List Meas) → Meas → List Meas → Type 0
  Rest c ls m rest =
      (c' : MergeSortCursor S) × (merge_read_next o checks c ≡ some (m, c'))
      × MergeStands c' (map (without m.time) ls)

  pub next_lem :
      (c : MergeSortCursor S) (ls : List (List Meas)) (m : Meas) (rest : List Meas)
      → MergeStands c ls
      → all_null ls ≡ false
      → First ls m rest
      → Rest c ls m rest
  unfolding merge_read_next
  next_lem c ls m rest h some_left f =
      let (j, ms, r, place, g, found) = found_lem c ls m rest h f in
      let (going, top, (r', read, g')) = g in
      let rising = AreRising-at ls j (m ∷ ms) place h.rising in
      let kept = map-without-set ls j m ms place (rising.1) in
      let (rs', run, gives) =
        skip_readers-GiveAll m.time (set c.readers j r') (set ls j ms)
          (AreRising-set ls j ms (RisesFrom-IsRising m.time ms (rising.1)) h.rising)
          (GiveAll-set c.readers ls j r' ms h.readers g') in
      let tops : set c.top_times j (head_time ms) ≡ map head_time (set ls j ms) =
        ap (λ ts. set ts j (head_time ms)) h.tops ∙ sym (map-set head_time ls j ms) in
      let ends : set c.is_end_status j (null ms) ≡ map null (set ls j ms) =
        ap (λ ts. set ts j (null ms)) h.ends ∙ sym (map-set null ls j ms) in
      let ended : get_elem? c.is_end_status j ≡ some false =
        ap (λ es. get_elem? es j) h.ends ∙ get_elem?-map ls j (m ∷ ms) place in
      let run' : skip_readers o checks m.time (set c.readers j r')
            (set c.top_times j (head_time ms)) (set c.is_end_status j (null ms))
          ≡ some
              (rs', map head_time (map (without m.time) ls), map null (map (without m.time) ls)) =
        rw (tops, ends, ← kept) run in
      (
        record c {
          readers = rs';
          top_times = map head_time (map (without m.time) ls);
          is_end_status = map null (map (without m.time) ls);
        },
        rw
            (
              end_lem c ls h,
              some_left,
              found,
              ended,
              going,
              read,
              get_top_time-Gives o checks r' ms g',
              is_end-Gives o checks r' ms g',
              run',
            )
            (ground (arith, Bool-cases checks)),
        record {
          readers = subst (GiveAll rs') kept gives;
          tops = refl;
          ends = refl;
          rising = without-AreRising m.time ls h.rising;
        },
      )
