-- ===== src/Storage/Linear/Reading.antt =====
-- storage/cursors.cpp: `LinearCursor` against the lists that its readers give.
use memseries.Base.{◌≤◌, ◌<◌, ◌≡◌, arith, refl, sym, subst, ◌∙◌, Bool, Bool-cases, true, false}
use memseries.Base.{none, some, List, [], ◌∷◌, ◌++◌, if◌then◌else◌, length, map}
use memseries.Meas.{Meas, min_time, max_time}
use memseries.Storage.Cursor.{ICursor, Gives}
use memseries.Storage.Merge.{least_from, greatest_to, sum_counts, none_ended}
use memseries.Storage.Merge.Reading.{null, is_end-Gives}
use memseries.Storage.Merge.Refinement.{GiveAll}
use memseries.Storage.Linear.Sorting.{
  Reordered, KeysRise, IsSort, length-Reordered, Reordered-of_firsts,
}
use memseries.Storage.Merge.Creation.{NoneNull, unpack_plain, bounds}
use memseries.Storage.Linear.{
  LinearCursor, is_earlier, linear_is_end, linear_read_next, linear_top, linear_cursor,
  new_linear_cursor,
}

-- The lists, one after the other.
abbrev pub joined : List (List Meas) → List Meas
joined [] = []
joined (l ∷ ls) = l ++ joined ls

module _ {S : Type 0} (o : ICursor S) (checks : Bool) where
  front_lem :
      (c : LinearCursor S) (r r' : S) (rs : List S) (m : Meas)
      → c.readers ≡ r ∷ rs
      → o.read_next checks r ≡ some (m, r')
      → linear_read_next o checks c
        ≡ some (m, record c { readers = (if o.is_end r' then rs else r' ∷ rs) })
  unfolding linear_read_next
  front_lem c r r' rs m e read = rw (e, read) (ground (arith, Bool-cases checks))

  top_lem :
      (c : LinearCursor S) (r : S) (rs : List S) (m : Meas)
      → c.readers ≡ r ∷ rs
      → o.top r ≡ some m
      → linear_top o checks c ≡ some m
  unfolding linear_top
  top_lem c r rs m e t = rw (e, t) (ground (arith, Bool-cases checks))

  going_lem :
      (c : LinearCursor S) (r : S) (rs : List S) → c.readers ≡ r ∷ rs → linear_is_end o c ≡ false
  going_lem c r rs e = rw e (ground arith)

  -- A reader is taken off at its end, so the front always has a measurement.
  linear_Gives :
      (ls : List (List Meas)) (ms : List Meas) (m : Meas) (r : S) (rs : List S) (c : LinearCursor S)
      → c.readers ≡ r ∷ rs
      → Gives o checks r (m ∷ ms)
      → GiveAll o checks rs ls
      → NoneNull o checks ls
      → Gives (linear_cursor o checks) checks c (m ∷ (ms ++ joined ls))
  linear_Gives ls (n ∷ ns) m r rs c e (going, top, (r', read, g)) gs h = (
    going_lem c r rs e,
    top_lem c r rs m e top,
    (
      record c { readers = r' ∷ rs },
      front_lem c r r' rs m e read ∙ rw (g.0) refl,
      linear_Gives ls ns n r' rs (record c { readers = r' ∷ rs }) refl g gs h,
    ),
  )
  linear_Gives [] [] m r [] c e (going, top, (r', read, g)) gs h = (
    going_lem c r [] e,
    top_lem c r [] m e top,
    (record c { readers = [] }, front_lem c r r' [] m e read ∙ rw g refl, refl),
  )
  linear_Gives [] [] m r (r₂ ∷ rs) c e g gs h = absurd gs
  linear_Gives (l ∷ ls) [] m r [] c e g gs h = absurd gs
  linear_Gives ([] ∷ ls) [] m r (r₂ ∷ rs) c e g gs (some_left, h) = cc
  linear_Gives ((n ∷ ns) ∷ ls) [] m r (r₂ ∷ rs) c e (going, top, (r', read, g)) (g₂, gs)
        (some_left, h) =
      (
        going_lem c r (r₂ ∷ rs) e,
        top_lem c r (r₂ ∷ rs) m e top,
        (
          record c { readers = r₂ ∷ rs },
          front_lem c r r' (r₂ ∷ rs) m e read ∙ rw g refl,
          linear_Gives ls ns n r₂ rs (record c { readers = r₂ ∷ rs }) refl g₂ gs h,
        ),
      )

  -- Pairs of a reader and the list that it gives: the list is not empty, and the minimum time of
  -- the reader is before MAX_TIME and not after its maximum time.
  abbrev pub AllReady : List (S × List Meas) → Type 0
  AllReady [] = Unit {0}
  AllReady ((r, l) ∷ zs) =
      Gives o checks r l
      × (null l ≡ false)
      × (o.from_time r < max_time)
      × (o.from_time r ≤ o.to_time r)
      × AllReady zs

  AllReady-Reordered :
      {zs zs' : List (S × List Meas)} → Reordered zs zs' → AllReady zs → AllReady zs'
  AllReady-Reordered Reordered.nil h = h
  AllReady-Reordered (Reordered.skip p) (g, e, low, high, h) =
      (g, e, low, high, AllReady-Reordered p h)
  AllReady-Reordered Reordered.swap (g, e, low, high, (g₂, e₂, low₂, high₂, h)) =
      (g₂, e₂, low₂, high₂, (g, e, low, high, h))
  AllReady-Reordered (Reordered.trans p q) h = AllReady-Reordered q (AllReady-Reordered p h)

  none_ended-AllReady :
      (zs : List (S × List Meas)) → AllReady zs → none_ended o (map (λ z. z.0) zs) ≡ true
  unfolding none_ended
  none_ended-AllReady [] h = refl
  none_ended-AllReady ((r, l) ∷ zs) (g, e, low, high, h) =
      rw (is_end-Gives o checks r l g, e, none_ended-AllReady zs h) refl

  GiveAll-AllReady :
      (zs : List (S × List Meas))
      → AllReady zs
      → GiveAll o checks (map (λ z. z.0) zs) (map (λ z. z.1) zs)
        × NoneNull o checks (map (λ z. z.1) zs)
  GiveAll-AllReady [] h = (tt, tt)
  GiveAll-AllReady ((r, l) ∷ zs) (g, e, low, high, h) =
      let (gs, es) = GiveAll-AllReady zs h in ((g, gs), (e, es))

  -- The constructor, when the sort puts a list of pairs in this order.
  sorted_lem :
      (sort : (S → S → Bool) → List S → List S) (readers : List S) (zs : List (S × List Meas))
      → none_ended o readers ≡ true
      → sort (is_earlier o) readers ≡ map (λ z. z.0) zs
      → 0 < length zs
      → AllReady zs
      → (c : LinearCursor S) × (new_linear_cursor o checks (λ _. none) sort readers ≡ some c)
        × Gives (linear_cursor o checks) checks c (joined (map (λ z. z.1) zs))
  unfolding new_linear_cursor
  sorted_lem sort readers [] going sorted some_left h = absurd (omega arith)
  sorted_lem sort readers ((r, []) ∷ zs) going sorted some_left (g, e, low, high, h) = cc
  sorted_lem sort readers ((r, m ∷ ms) ∷ zs) going sorted some_left (g, e, before, ordered, h) =
      let rs : List S = map (λ z. z.0) zs in
      let (low, high) = bounds o checks r rs before ordered in
      let (gs, es) = GiveAll-AllReady zs h in
      (
        record {
          values_count = sum_counts o (r ∷ rs);
          readers = r ∷ rs;
          min_time = least_from o (r ∷ rs) max_time;
          max_time = greatest_to o (r ∷ rs) min_time;
        },
        rw (unpack_plain o checks readers going, sorted) (ground (arith, Bool-cases checks)),
        linear_Gives (map (λ z. z.1) zs) ms m r rs _ refl g gs es,
      )

  -- For a sort that keeps the law of std::sort, and one reader or more that each give a list that
  -- is not empty and have a minimum time before MAX_TIME and not after the maximum time, none of
  -- them a LinearCursor, there is an order of the readers with their lists in which the minimum
  -- times do not fall, the constructor of LinearCursor succeeds, and the cursor gives the lists
  -- one after the other in that order.
  pub new_linear_cursor-joined :
      (sort : (S → S → Bool) → List S → List S) (z : S × List Meas) (zs : List (S × List Meas))
      → IsSort sort
      → AllReady (z ∷ zs)
      → (zs' : List (S × List Meas)) × Reordered (z ∷ zs) zs'
        × KeysRise o.from_time 0 (map (λ p. p.0) zs')
        × ((c : LinearCursor S) × (new_linear_cursor o checks
                (λ _. none)
                sort
                (map (λ p. p.0) (z ∷ zs))
              ≡ some c)
            × Gives (linear_cursor o checks) checks c (joined (map (λ p. p.1) zs')))
  new_linear_cursor-joined sort z zs sorts h =
      let readers : List S = map (λ p. p.0) (z ∷ zs) in
      let (reordered, rising) = sorts o.from_time readers in
      let (zs', firsts, r) = Reordered-of_firsts reordered (z ∷ zs) refl in
      (
        zs',
        r,
        subst (KeysRise o.from_time 0) (sym firsts) rising,
        sorted_lem sort readers zs' (none_ended-AllReady (z ∷ zs) h) (sym firsts)
            (omega (arith, length-Reordered r)) (AllReady-Reordered r h),
      )
