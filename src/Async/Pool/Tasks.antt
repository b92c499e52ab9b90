-- ===== src/Async/Pool/Tasks.antt =====
-- utils/async/thread_pool.cpp: no task is lost or run by two threads, and what `flush` waits for.
use memseries.Base.{
  ℕ, suc, ◌+◌, ◌%◌, ◌^◌, ◌≡◌, arith, refl, ap, ap₂, ◌∙◌, subst, Bool, Bool-cases, true, false, not,
  ◌||◌, ◌==◌, if◌then◌else◌,
}
use memseries.Base.{Option, none, some, bind_some, List, [], ◌∷◌, ◌++◌, length, inl, inr}
use memseries.Async.Pool.{
  Task, is_worker, lower, pick, pick_lower, or_head, ThreadPool, push_task, take_task, job_of, Job,
  calling, returning, leaving, after_apply, runs,
}

-- How many tasks pass a test.
abbrev pub count : (Task → Bool) → List Task → ℕ
count test [] = 0
count test (t ∷ ts) = (if test t then 1 else 0) + count test ts

abbrev pub tasks_of : Job → List Task
tasks_of (calling t) = t ∷ []
tasks_of (returning t) = t ∷ []
tasks_of leaving = []

-- The tasks that threads hold.
abbrev pub tasks : List (ℕ × Job) → List Task
tasks [] = []
tasks ((i, j) ∷ rest) = tasks_of j ++ tasks rest

-- The tasks that the pool knows of, and that its counter is that of the running ones.
abbrev pub Knows : List Task → ThreadPool → Type 0
Knows ts p =
    ((test : Task → Bool)
      → count test p.in_queue + count test (tasks p.running) + count test p.finished
        ≡ count test ts)
    × (p.task_runned ≡ length p.running % 2 ^ 64)

pair_parts {ℓ κ} :
    {A : Type ℓ} {B : Type κ} (a c : A) (b d : B)
    → ◌≡◌ {A = Option (A × B)} (some (a, b)) (some (c, d))
    → (a ≡ c) × (b ≡ d)
pair_parts {A = A} {B = B} a c b d e =
    let first : a ≡ c = cc in let second : b ≡ d = cc in (first, second)

-- A branch that was taken, since it is not the other.
pub first_branch {ℓ} :
    {A : Type ℓ} (b : Bool) (x y : A) → (if b then some x else none) ≡ some y → (b ≡ true) × (x ≡ y)
first_branch true x y e = (refl, cc)
first_branch false x y e = cc

second_branch {ℓ} :
    {A : Type ℓ} (b : Bool) (x y : A)
    → (if b then none else some x) ≡ some y
    → (b ≡ false) × (x ≡ y)
second_branch true x y e = cc
second_branch false x y e = (refl, cc)

pub some_parts {ℓ} : {A : Type ℓ} (x y : A) → some x ≡ some y → x ≡ y
some_parts x y e = cc

module _ (test : Task → Bool) where
  pub count-append : (xs ys : List Task) → count test (xs ++ ys) ≡ count test xs + count test ys
  count-append [] ys = omega arith
  count-append (x ∷ xs) ys = omega (arith, count-append xs ys)

  -- The count of a task and further ones.
  abbrev count_with : Task → List Task → ℕ
  count_with t ts = (if test t then 1 else 0) + count test ts

  count-pick_lower :
      (w t : Task) (q rest : List Task)
      → pick_lower w q ≡ some (t, rest)
      → count test q ≡ count_with t rest
  unfolding pick_lower
  count-pick_lower w t [] rest e = cc
  count-pick_lower w t (v ∷ vs) rest e = elim (Bool-cases (lower v.priority w.priority)) [
    | inl h ↦
        let (first, others) = pair_parts v t vs rest (rw h at e) in ap₂ count_with first others
    | inr h ↦
        let (r, found, same) = bind_some (pick_lower w vs) _ (rw h at e) in
        let (first, others) = pair_parts r.0 t (v ∷ r.1) rest same in
        let fewer = count-pick_lower w r.0 vs r.1 found in
        (omega (arith, fewer) ∙ ap₂ count_with first others)
  ]

  count-or_head :
      (w t : Task) (vs rest : List Task) (o : Option (Task × List Task))
      → pick_lower w vs ≡ o
      → or_head w vs o ≡ some (t, rest)
      → count test (w ∷ vs) ≡ count_with t rest
  count-or_head w t vs rest none found e =
      let (first, others) = pair_parts w t vs rest e in ap₂ count_with first others
  count-or_head w t vs rest (some (v, others)) found e =
      let (first, left) = pair_parts v t (w ∷ others) rest e in
      (omega (arith, count-pick_lower w v vs others found) ∙ ap₂ count_with first left)

  count-pick :
      (t : Task) (q rest : List Task) → pick q ≡ some (t, rest) → count test q ≡ count_with t rest
  unfolding pick
  count-pick t [] rest e = cc
  count-pick t (w ∷ vs) rest e = elim (Bool-cases (is_worker w.priority)) [
    | inr h ↦
        let (first, others) = pair_parts w t vs rest (rw h at e) in ap₂ count_with first others
    | inl h ↦ count-or_head w t vs rest (pick_lower w vs) refl (rw h at e)
  ]

  pub count-job_of :
      (i : ℕ) (j : Job) (r others : List (ℕ × Job))
      → job_of i r ≡ some (j, others)
      → (count test (tasks r) ≡ count test (tasks_of j) + count test (tasks others))
        × (length r ≡ suc (length others))
  unfolding job_of
  count-job_of i j [] others e = (cc, cc)
  count-job_of i j ((k, x) ∷ rest) others e = elim (Bool-cases (k == i)) [
    | inl h ↦
        let (first, left) = pair_parts x j rest others (rw h at e) in
        (
          (count-append (tasks_of x) (tasks rest)
              ∙ ap₂ (λ y ys. count test (tasks_of y) + count test (tasks ys)) first left),
          ap (λ y. suc (length y)) left,
        )
    | inr h ↦
        let (r, found, same) = bind_some (job_of i rest) _ (rw h at e) in
        let (first, left) = pair_parts r.0 j ((k, x) ∷ r.1) others same in
        let (fewer, shorter) = count-job_of i r.0 rest r.1 found in
        (
          (omega (
            arith,
            fewer,
            count-append (tasks_of x) (tasks rest),
            count-append (tasks_of x) (tasks r.1),
          )
              ∙ ap₂ (λ y ys. count test (tasks_of y) + count test (tasks ys)) first left),
          (ap suc shorter ∙ ap (λ y. suc (length y)) left),
        )
  ]

pub push_task-Knows :
    (t : Task) (ts us : List Task) (p : ThreadPool)
    → ((test : Task → Bool)
        → count test p.in_queue
            + count test (tasks p.running)
            + count test p.finished
            + (if test t then 1 else 0)
          ≡ count test us)
    → p.task_runned ≡ length p.running % 2 ^ 64
    → Knows us (push_task t p)
unfolding push_task
push_task-Knows t ts us p k n =
    ((λ test. omega (arith, k test, count-append test p.in_queue (t ∷ []))), n)

pub take_task-Knows :
    (i : ℕ) (ts : List Task) (p p' : ThreadPool)
    → Knows ts p
    → take_task i p ≡ some p'
    → Knows ts p'
unfolding take_task
take_task-Knows i ts p p' (k, n) e =
    let ((t, rest), found, e₁) = bind_some (pick p.in_queue) _ e in
    let (open_for, same) = second_branch (p.stop_flag || runs i p.running) _ p' e₁ in
    subst (Knows ts) same
      ((λ test. omega (arith, k test, count-pick test t p.in_queue rest found)), omega (arith, n))

if-Knows :
    (ts : List Task) (b : Bool) (x y : ThreadPool)
    → Knows ts x
    → Knows ts y
    → Knows ts (if b then x else y)
if-Knows ts true x y h g = h
if-Knows ts false x y h g = g

pub after_apply-Knows :
    (i : ℕ) (recall : Bool) (j : Job) (others : List (ℕ × Job)) (ts : List Task) (p p' : ThreadPool)
    → Knows ts p
    → job_of i p.running ≡ some (j, others)
    → after_apply i recall j others p ≡ some p'
    → Knows ts p'
unfolding after_apply
after_apply-Knows i recall (calling t) others ts p p' (k, n) found e =
    let fewer =
      λ (test : Task → Bool). (count-job_of test i (calling t) p.running others found).0 in
    let shorter = (count-job_of (λ x. true) i (calling t) p.running others found).1 in
    let counter : p.task_runned ≡ suc (length others) % 2 ^ 64 = n ∙ ap (λ x. x % 2 ^ 64) shorter in
    subst (Knows ts) (some_parts _ p' e) (
      if-Knows ts recall _ _
        (if-Knows ts (not (length p.in_queue == 0) || p.stop_flag || is_worker t.priority) _ _
          ((λ test. omega (arith, k test, fewer test)), counter) (k, n))
        ((λ test. omega (arith, k test, fewer test)), counter))
after_apply-Knows i recall (returning t) others ts p p' k found e = cc
after_apply-Knows i recall leaving others ts p p' k found e = cc
