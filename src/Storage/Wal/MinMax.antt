-- ===== src/Storage/Wal/MinMax.antt =====
-- storage/wal/walfile.cpp: what `loadMinMax` knows of an id.
use memseries.Base.{
  ℕ, ◌≡◌, arith, refl, ap, ◌∙◌, Bool, Bool-cases, false, ltb, ◌==◌, ==_iff, ◌||◌, if◌then◌else◌,
}
use memseries.Base.{none, some, List, [], ◌∷◌, inl, inr}
use memseries.Meas.{Meas, new_meas, MeasMinMax, update_max, update_min}
use memseries.Container.StripedMap.{StripedMap, create, find, find_bucket}
use memseries.Container.StripedMap.Chains.{value_or}
use memseries.Container.StripedMap.Laws.{IsTable, create-IsTable, find-find_bucket}
use memseries.Storage.Wal.{WalFile, read_all}
use memseries.Storage.Wal.Queries.{new_min_max, load_all, load_min_max, default_n}

unfoldable pub has_id : ℕ → List Meas → Bool
has_id id [] = false
has_id id (m ∷ ms) = (m.id == id) || has_id id ms

-- The first of the latest measurements of an id, behind a known one.
unfoldable pub latest_of : ℕ → List Meas → Meas → Meas
latest_of id [] x = x
latest_of id (m ∷ ms) x =
    latest_of id ms (if m.id == id then (if ltb x.time m.time then m else x) else x)

abbrev spread : Meas → MeasMinMax
spread x = record { min = new_meas; max = x }

widen : Meas → MeasMinMax → MeasMinMax
unfolding update_min update_max
widen m v = update_min m (update_max m v)

-- The least measurement of a new pair has the time 0, which none is before.
widen-spread : (m x : Meas) → widen m (spread x) ≡ spread (if ltb x.time m.time then m else x)
unfolding widen update_min update_max
widen-spread m x =
    let never : ltb m.time 0 ≡ false = ground arith in
    elim (Bool-cases (ltb x.time m.time)) [
      | inl newer ↦ rw (newer, never) refl
      | inr older ↦ rw (older, never) refl
    ]

module _ (hash : ℕ → ℕ) where
  -- What `find` sees of an id after one round of the loop.
  round-find :
      (m : Meas) (t : StripedMap MeasMinMax) (id : ℕ)
      → IsTable hash t
      → IsTable hash (find_bucket hash new_min_max m.id (widen m) t)
        × (find hash new_min_max id (find_bucket hash new_min_max m.id (widen m) t) ≡ (
            if m.id == id
            then some (widen m (value_or new_min_max (find hash new_min_max id t)))
            else find hash new_min_max id t))
  round-find m t id k =
      let (k', found) = find-find_bucket hash new_min_max m.id (widen m) t k in
      (
        k',
        found id ∙ elim (Bool-cases (m.id == id)) [
          | inr other ↦ rw other refl
          | inl same ↦ rw same (
              ap (λ j. some (widen m (value_or new_min_max (find hash new_min_max j t))))
                ((==_iff m.id id).0 same))
        ],
      )

  load_all-known :
      (ms : List Meas) (t : StripedMap MeasMinMax) (id : ℕ) (x : Meas)
      → IsTable hash t
      → find hash new_min_max id t ≡ some (spread x)
      → find hash new_min_max id (load_all hash ms t) ≡ some (spread (latest_of id ms x))
  unfolding load_all latest_of widen
  load_all-known [] t id x k e = e
  load_all-known (m ∷ ms) t id x k e =
      let (k', found) = round-find m t id k in
      load_all-known ms (find_bucket hash new_min_max m.id (widen m) t) id _ k' (
        found ∙ elim (Bool-cases (m.id == id)) [
          | inr other ↦ rw other e
          | inl same ↦
              rw same
                (ap (λ o. some (widen m (value_or new_min_max o))) e ∙ ap some (widen-spread m x))
        ])

  load_all-new :
      (ms : List Meas) (t : StripedMap MeasMinMax) (id : ℕ)
      → IsTable hash t
      → find hash new_min_max id t ≡ none
      → find hash new_min_max id (load_all hash ms t)
        ≡ (if has_id id ms then some (spread (latest_of id ms new_meas)) else none)
  unfolding load_all latest_of has_id widen
  load_all-new [] t id k e = e
  load_all-new (m ∷ ms) t id k e =
      let (k', found) = round-find m t id k in
      elim (Bool-cases (m.id == id)) [
        | inr other ↦
            let none_yet : find hash new_min_max id (find_bucket hash new_min_max m.id (widen m) t)
                ≡ none =
              found ∙ rw other e in
            rw other
              (load_all-new ms (find_bucket hash new_min_max m.id (widen m) t) id k' none_yet)
        | inl same ↦
            let now : find hash new_min_max id (find_bucket hash new_min_max m.id (widen m) t)
                ≡ some (spread (if ltb 0 m.time then m else new_meas)) =
              found
              ∙ rw same (
                  ap (λ o. some (widen m (value_or new_min_max o))) e
                  ∙ ap some (widen-spread m new_meas)) in
            rw same (
              load_all-known ms (find_bucket hash new_min_max m.id (widen m) t) id
                (if ltb 0 m.time then m else new_meas) k' now)
      ]

  -- For a log that reads back a list, loadMinMax has an entry for exactly the ids in it; its
  -- maximum is the first of the latest measurements of the id, and its minimum is always the
  -- empty measurement of a new entry. A maximum of time 0 is the empty measurement too.
  pub load_min_max-find :
      (w : WalFile) (ms : List Meas)
      → read_all w ≡ some ms
      → (r : StripedMap MeasMinMax) × (load_min_max hash w ≡ some r)
        × ((id : ℕ)
            → find hash new_min_max id r
              ≡ (if has_id id ms then some (spread (latest_of id ms new_meas)) else none))
  unfolding load_min_max
  load_min_max-find w ms e =
      let (table, nothing) = create-IsTable hash new_min_max default_n (omega arith) in
      (
        load_all hash ms (create default_n),
        rw e refl,
        (λ id. load_all-new ms (create default_n) id table (nothing id)),
      )
