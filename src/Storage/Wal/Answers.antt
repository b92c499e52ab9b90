-- ===== src/Storage/Wal/Answers.antt =====
-- storage/wal/walfile.cpp: the answers of `readTimePoint` and `currentValue`, with those for ids that were
-- not read.
use memseries.Base.{
  ℕ, ◌≡◌, arith, tests, refl, ap, sym, ◌∙◌, subst, Bool, Bool-cases, true, false, leb, ◌==◌, not,
  ◌&&◌, ◌||◌, if◌then◌else◌,
}
use memseries.Base.{Option, none, some, List, [], ◌∷◌, length, inl, inr}
use memseries.Meas.{Meas, contains, in_flag, in_ids, in_query}
use memseries.Storage.Cursor.{QueryTimePoint}
use memseries.Storage.Wal.{WalFile, read_all}
use memseries.Storage.Wal.Queries.{
  find_meas, assign, gather, no_data, fill_missing, answers, read_time_point, current_value,
}
use memseries.Storage.Wal.Points.{
  first_of, or_else, is_some, empty, Gathered, gather-Gathered, find_meas-assign, or_else-none,
  eq_sound,
}
use memseries.Storage.Wal.Hits.{hits-lt, length-hits}

skipped :
    (same later old : Bool) (m : Meas) (o : Option Meas)
    → (same ≡ true → old ≡ true)
    → (if later && not old then some m else o) ≡ (if (same || later) && not old then some m else o)
skipped false later old m o h = refl
skipped true true old m o h = refl
skipped true false old m o h = rw (h refl) refl

assigned :
    (same later old : Bool) (x m : Meas) (o : Option Meas)
    → (same ≡ true → old ≡ false)
    → (same ≡ true → x ≡ m)
    → (if later && not old then some m else if same then some x else o)
      ≡ (if (same || later) && not old then some m else o)
assigned false later old x m o h g = refl
assigned true true old x m o h g = rw (h refl) refl
assigned true false old x m o h g = rw (h refl) (ap some (g refl))

find_meas-fill_missing :
    (time : ℕ) (ids readed_ids : List ℕ) (s : List (ℕ × Meas)) (id : ℕ)
    → find_meas id (fill_missing time ids readed_ids s) ≡ (
        if contains ids id && not (contains readed_ids id)
        then some (no_data time id)
        else find_meas id s)
unfolding fill_missing contains
find_meas-fill_missing time [] readed_ids s id = refl
find_meas-fill_missing time (k ∷ ids) readed_ids s id = elim (Bool-cases (contains readed_ids k)) [
  | inl old ↦ rw old (
      find_meas-fill_missing time ids readed_ids s id
      ∙ skipped (k == id) (contains ids id) (contains readed_ids id) _ (find_meas id s)
          (λ e. subst (λ j. contains readed_ids j ≡ true) (eq_sound k id e) old))
  | inr new ↦ rw new (
      find_meas-fill_missing time ids readed_ids (assign k (no_data time k) s) id
      ∙ ap
          (λ o.
            if contains ids id && not (contains readed_ids id) then some (no_data time id) else o)
          (find_meas-assign id k (no_data time k) s)
      ∙ assigned (k == id) (contains ids id) (contains readed_ids id) (no_data time k) _
          (find_meas id s) (λ e. subst (λ j. contains readed_ids j ≡ false) (eq_sound k id e) new)
          (λ e. ap (no_data time) (eq_sound k id e)))
]

first_of-some :
    (test : Meas → Bool) (id : ℕ) (ms : List Meas)
    → is_some (first_of test id ms) ≡ true
    → (m : Meas) × (test m ≡ true) × (m.id ≡ id)
unfolding first_of is_some
first_of-some test id [] e = cc
first_of-some test id (m ∷ ms) e = elim (Bool-cases (test m)) [
  | inr fails ↦ first_of-some test id ms (rw fails at e)
  | inl passes ↦ elim (Bool-cases (m.id == id)) [
    | inr other ↦ first_of-some test id ms (rw (passes, other) at e)
    | inl same ↦ (m, passes, eq_sound m.id id same)
  ]
]

-- The answer for an id: the first measurement that passes, or that there is no data.
abbrev pub answer : ℕ → List ℕ → (Meas → Bool) → List Meas → ℕ → Option Meas
answer time ids test ms id =
    or_else (first_of test id ms) (if contains ids id then some (no_data time id) else none)

answer_missing :
    (known asked : Bool) (m : Meas) (o : Option Meas)
    → known ≡ is_some o
    → (if asked && not known then some m else o) ≡ or_else o (if asked then some m else none)
unfolding is_some
answer_missing known true m none e = rw e refl
answer_missing known false m none e = refl
answer_missing known true m (some x) e = rw e refl
answer_missing known false m (some x) e = refl

answer_known :
    (asked : Bool) (m : Meas) (o : Option Meas)
    → (asked ≡ true → is_some o ≡ true)
    → o ≡ or_else o (if asked then some m else none)
unfolding is_some
answer_known true m none h = absurd (let wrong : false ≡ true = h refl in cc)
answer_known false m none h = refl
answer_known asked m (some x) h = refl

no_ids : (ids : List ℕ) (id : ℕ) → (length ids == 0) ≡ true → contains ids id ≡ false
unfolding contains
no_ids [] id e = refl
no_ids (x ∷ ids) id e = absurd (grind tests)

in_ids-contains :
    (ids : List ℕ) (m : Meas)
    → (length ids == 0) ≡ false
    → in_ids ids m ≡ true
    → contains ids m.id ≡ true
unfolding in_ids
in_ids-contains [] m e h = absurd (grind tests)
in_ids-contains (x ∷ ids) m e h = h

and_left : (a b : Bool) → (a && b) ≡ true → a ≡ true
and_left true b e = refl
and_left false b e = e

and_right : (a b : Bool) → (a && b) ≡ true → b ≡ true
and_right true b e = e
and_right false b e = cc

gathered :
    (test : Meas → Bool) (ms : List Meas) → Gathered test ms ([], []) (gather test ms ([], []))
unfolding contains find_meas is_some
gathered test ms = gather-Gathered test ms [] [] (λ id. refl) empty

module _ (test : Meas → Bool) (ms : List Meas) (ids : List ℕ) where
  -- When as many ids were read as are asked for, all were read.
  all_readed :
      (s : List (ℕ × Meas)) (readed_ids : List ℕ)
      → Gathered test ms ([], []) (s, readed_ids)
      → ((m : Meas) → test m ≡ true → contains ids m.id ≡ true)
      → length readed_ids ≡ length ids
      → (id : ℕ) → contains ids id ≡ true
      → contains readed_ids id ≡ true
  unfolding find_meas
  all_readed s readed_ids g within e id asked = elim (Bool-cases (contains readed_ids id)) [
    | inl was ↦ was
    | inr not_read ↦
        let among : (j : ℕ) → contains readed_ids j ≡ true → contains ids j ≡ true = λ j r.
          let (m, passes, same) =
            first_of-some test j ms (ap is_some (sym (g.found j)) ∙ sym (g.readed j) ∙ r) in
          subst (λ k. contains ids k ≡ true) same (within m passes) in
        let many = length-hits readed_ids ids g.distinct among in
        let few = hits-lt readed_ids ids id asked not_read in absurd (omega (arith, many, few, e))
  ]

  answers_lem :
      (time : ℕ) (r : List (ℕ × Meas) × List ℕ)
      → Gathered test ms ([], []) r
      → ((m : Meas) → test m ≡ true → (length ids == 0) ≡ false → contains ids m.id ≡ true)
      → (id : ℕ) → find_meas id (answers time ids r) ≡ answer time ids test ms id
  unfolding find_meas answers is_some
  answers_lem time (s, readed_ids) g within id = elim (Bool-cases (length ids == 0)) [
    | inl empty_ids ↦
        let nobody : contains ids id ≡ false = no_ids ids id empty_ids in
        rw empty_ids (g.found id ∙ (rw nobody (sym (or_else-none (first_of test id ms)))))
    | inr some_ids ↦ elim (Bool-cases (length readed_ids == length ids)) [
      | inr fewer ↦
          rw (some_ids, fewer)
            (find_meas-fill_missing time ids readed_ids s id
              ∙ answer_missing (contains readed_ids id) (contains ids id) (no_data time id)
                  (find_meas id s) (g.readed id)
              ∙ ap (λ o. or_else o (if contains ids id then some (no_data time id) else none))
                  (g.found id))
      | inl same ↦
          let all = all_readed s readed_ids g (λ m e. within m e some_ids) (eq_sound _ _ same) id in
          rw (some_ids, same)
            (answer_known (contains ids id) (no_data time id) (find_meas id s)
                (λ e. sym (g.readed id) ∙ all e)
              ∙ ap (λ o. or_else o (if contains ids id then some (no_data time id) else none))
                  (g.found id))
    ]
  ]

-- For a log that reads back a list, readTimePoint answers for each id with the first measurement
-- in the file that matches the ids, the flag and the time, not with the latest; for an id that is
-- asked for and has none it answers that there is no data, and for any other id nothing.
pub read_time_point-answer :
    (q : QueryTimePoint) (w : WalFile) (ms : List Meas)
    → read_all w ≡ some ms
    → (r : List (ℕ × Meas)) × (read_time_point q w ≡ some r)
      × ((id : ℕ)
          → find_meas id r
            ≡ answer q.time_point q.ids
                (λ m. in_query q.ids q.flag m && leb m.time q.time_point)
                ms
                id)
unfolding read_time_point in_query
read_time_point-answer q w ms e =
    let test : Meas → Bool = λ m. in_query q.ids q.flag m && leb m.time q.time_point in
    (
      _,
      rw e refl,
      answers_lem test ms q.ids q.time_point (gather test ms ([], [])) (gathered test ms)
          (λ m passes some_ids.
            in_ids-contains q.ids m some_ids
              (and_right (in_flag q.flag m) _ (and_left _ _ passes))),
    )

pub current_value-answer :
    (ids : List ℕ) (flag : ℕ) (w : WalFile) (ms : List Meas)
    → read_all w ≡ some ms
    → (r : List (ℕ × Meas)) × (current_value ids flag w ≡ some r)
      × ((id : ℕ) → find_meas id r ≡ answer 0 ids (λ m. in_flag flag m && in_ids ids m) ms id)
unfolding current_value
current_value-answer ids flag w ms e =
    let test : Meas → Bool = λ m. in_flag flag m && in_ids ids m in
    (
      _,
      rw e refl,
      answers_lem test ms ids 0 (gather test ms ([], [])) (gathered test ms)
          (λ m passes some_ids. in_ids-contains ids m some_ids (and_right _ _ passes)),
    )
