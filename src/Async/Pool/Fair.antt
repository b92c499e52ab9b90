-- ===== src/Async/Pool/Fair.antt =====
-- utils/async/thread_pool.cpp: no task of the default priority waits for ever.
use memseries.Base.{
  ℕ, zero, suc, ◌<◌, ◌≡◌, arith, refl, subst, ap, sym, ◌∙◌, Bool-cases, true, false, if◌then◌else◌,
}
use memseries.Base.{Option, none, some, List, [], ◌∷◌, ◌++◌, ◌⊎◌, inl, inr}
use mathlib.Core.List.{append_assoc}
use memseries.Async.Pool.{Task, TaskPriority, default, worker, is_worker, lower, pick, pick_lower}

-- What the queue goes through: a task is put at its end, or a thread takes one.
pub data Event : Type 0 where
  pushed : Task → Event
  picked : Event

-- The tasks that are taken, in their order, and the queue that is left.
unfoldable pub run : List Event → List Task → List Task × List Task
run [] q = ([], q)
run (pushed t ∷ es) q = run es (q ++ (t ∷ []))
run (picked ∷ es) q = elim (pick q) [
  | none ↦ run es q
  | some (t, rest) ↦ (t ∷ (run es rest).0, (run es rest).1)
]

abbrev pub picks : List Event → ℕ
picks [] = 0
picks (pushed t ∷ es) = picks es
picks (picked ∷ es) = suc (picks es)

-- How many tasks have the default priority.
abbrev pub defaults : List Task → ℕ
defaults [] = 0
defaults (t ∷ ts) = if is_worker t.priority then defaults ts else suc (defaults ts)

abbrev pub Among : Task → List Task → Type 0
Among t [] = ⊥
Among t (x ∷ xs) = (x ≡ t) ⊎ Among t xs

lower_default : (p q : TaskPriority) → is_worker p ≡ false → is_worker q ≡ true → lower p q ≡ true
lower_default default worker h g = refl
lower_default default default h g = cc
lower_default worker q h g = cc

lower_worker : (p q : TaskPriority) → is_worker p ≡ true → lower p q ≡ false
lower_worker worker q h = refl
lower_worker default q h = cc

-- Behind a worker, the first of the default tasks is taken.
pick_lower-append :
    (w : Task) (xs ys : List Task)
    → is_worker w.priority ≡ true
    → 0 < defaults xs
    → (t : Task) × (rest : List Task) × (pick_lower w (xs ++ ys) ≡ some (t, rest ++ ys))
      × (defaults xs ≡ suc (defaults rest))
unfolding pick_lower
pick_lower-append w [] ys e h = absurd (omega arith)
pick_lower-append w (x ∷ xs) ys e h = elim (Bool-cases (is_worker x.priority)) [
  | inr first ↦ (x, xs, rw (lower_default x.priority w.priority first e) refl, rw first refl)
  | inl later ↦
      let (t, rest, found, fewer) = pick_lower-append w xs ys e (rw later at h) in
      (t, x ∷ rest, rw (lower_worker x.priority w.priority later, found) refl, rw later fewer)
]

pick_lower-here :
    (w t : Task) (xs ys : List Task)
    → is_worker w.priority ≡ true
    → is_worker t.priority ≡ false
    → defaults xs ≡ 0
    → pick_lower w (xs ++ t ∷ ys) ≡ some (t, xs ++ ys)
unfolding pick_lower
pick_lower-here w t [] ys e first h = rw (lower_default t.priority w.priority first e) refl
pick_lower-here w t (x ∷ xs) ys e first h = elim (Bool-cases (is_worker x.priority)) [
  | inr sooner ↦ absurd (let none_first = rw sooner at h in omega arith)
  | inl later ↦
      rw
        (
          lower_worker x.priority w.priority later,
          pick_lower-here w t xs ys e first (rw later at h),
        )
        refl
]

pick-append :
    (xs ys : List Task)
    → 0 < defaults xs
    → (t : Task) × (rest : List Task) × (pick (xs ++ ys) ≡ some (t, rest ++ ys))
      × (defaults xs ≡ suc (defaults rest))
unfolding pick
pick-append [] ys h = absurd (omega arith)
pick-append (x ∷ xs) ys h = elim (Bool-cases (is_worker x.priority)) [
  | inr first ↦ (x, xs, rw first refl, rw first refl)
  | inl later ↦
      let (t, rest, found, fewer) = pick_lower-append x xs ys later (rw later at h) in
      (t, x ∷ rest, rw (later, found) refl, rw later fewer)
]

pick-here :
    (t : Task) (xs ys : List Task)
    → is_worker t.priority ≡ false
    → defaults xs ≡ 0
    → pick (xs ++ t ∷ ys) ≡ some (t, xs ++ ys)
unfolding pick
pick-here t [] ys first h = rw first refl
pick-here t (x ∷ xs) ys first h = elim (Bool-cases (is_worker x.priority)) [
  | inr sooner ↦ absurd (let none_first = rw sooner at h in omega arith)
  | inl later ↦ rw (later, pick_lower-here x t xs ys later first (rw later at h)) refl
]

after_pick : List Event → List Task → Option (Task × List Task) → List Task × List Task
after_pick es q none = run es q
after_pick es q (some (t, rest)) = (t ∷ (run es rest).0, (run es rest).1)

run-picked : (es : List Event) (q : List Task) → run (picked ∷ es) q ≡ after_pick es q (pick q)
unfolding run after_pick
run-picked es q =
    elim (pick q)
      as (λ o.
        elim o as (λ x. List Task × List Task) [
          | none ↦ run es q
          | some (t, rest) ↦ (t ∷ (run es rest).0, (run es rest).1)
        ]
        ≡ after_pick es q o) [ none ↦ refl | some r ↦ refl ]

zero_or_more : (n : ℕ) → (n ≡ 0) ⊎ (0 < n)
zero_or_more zero = inl refl
zero_or_more (suc n) = inr (omega arith)

-- A task of the default priority in the queue is taken in any run of pushes and takes that has
-- more takes than there are tasks of the default priority before it, whatever workers stand
-- before it and whatever is pushed.
pub run-Among :
    (es : List Event) (t : Task) (xs ys : List Task)
    → is_worker t.priority ≡ false
    → defaults xs < picks es
    → Among t (run es (xs ++ t ∷ ys)).0
unfolding run after_pick
run-Among [] t xs ys first h = absurd (omega arith)
run-Among (pushed u ∷ es) t xs ys first h =
    subst (λ q. Among t (run es q).0) (sym (append_assoc xs (t ∷ ys) (u ∷ [])))
      (run-Among es t xs (ys ++ (u ∷ [])) first h)
run-Among (picked ∷ es) t xs ys first h = elim (zero_or_more (defaults xs)) [
  | inl now ↦
      subst (λ r. Among t r.0)
        (sym (
          run-picked es (xs ++ t ∷ ys)
          ∙ ap (after_pick es (xs ++ t ∷ ys)) (pick-here t xs ys first now)))
        (inl refl)
  | inr later ↦
      let (d, rest, found, fewer) = pick-append xs (t ∷ ys) later in
      subst (λ r. Among t r.0)
        (sym (run-picked es (xs ++ t ∷ ys) ∙ ap (after_pick es (xs ++ t ∷ ys)) found))
        (inr (run-Among es t rest ys first (omega arith)))
]
