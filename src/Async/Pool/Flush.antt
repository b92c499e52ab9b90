-- ===== src/Async/Pool/Flush.antt =====
-- utils/async/thread_pool.cpp: what holds in every pool that steps lead to, and what `flush` waits for.
use memseries.Base.{
  ℕ, ◌+◌, ◌-◌, ◌%◌, ◌^◌, ◌<◌, ◌≡◌, arith, refl, ap, ◌∙◌, subst, Bool, Bool-cases, true, false, not,
  ◌&&◌, ◌==◌, if◌then◌else◌,
}
use memseries.Base.{some, List, [], ◌∷◌, ◌++◌, length, inl, inr}
use memseries.Async.Pool.{
  Task, is_worker, ThreadPool, create, post, push_task, job_of, Job, calling, returning, leaving,
  put_back, leave, set_stop_flag, join_threads, workers_only, is_flushed, Step, posts, takes,
  applies, puts_back, leaves, stops, joins,
}
use memseries.Async.Pool.Tasks.{
  count, tasks, Knows, push_task-Knows, take_task-Knows, after_apply-Knows, some_parts,
  first_branch, count-job_of,
}

-- What a step adds to the tasks that were accepted.
abbrev pub accepted : {p p' : ThreadPool} → Step p p' → List Task
accepted {p} (posts t) = if p.is_stoped then [] else t ∷ []
accepted _ = []

-- The pools that steps lead to, with the tasks that were accepted.
pub data Reach : List Task → ThreadPool → Type 0 where
  begin : Reach [] create
  after :
      (ts : List Task) (p p' : ThreadPool)
      → Reach ts p
      → (s : Step p p') → Reach (accepted s ++ ts) p'

-- `post`, by whether the pool has stopped.
post_when : Bool → Task → ThreadPool → Bool × ThreadPool
post_when b t p = if b then (false, p) else (true, push_task t p)

post_when-Knows :
    (b : Bool) (t : Task) (ts : List Task) (p : ThreadPool)
    → Knows ts p
    → Knows ((if b then [] else t ∷ []) ++ ts) (post_when b t p).1
unfolding post_when
post_when-Knows true t ts p k = k
post_when-Knows false t ts p k =
    push_task-Knows t ts (t ∷ ts) p (λ test. omega (arith, k.0 test)) k.1

put_back-Knows :
    (i : ℕ) (j : Job) (others : List (ℕ × Job)) (ts : List Task) (p p' : ThreadPool)
    → Knows ts p
    → job_of i p.running ≡ some (j, others)
    → put_back i j others p ≡ some p'
    → Knows ts p'
unfolding put_back
put_back-Knows i (calling t) others ts p p' k found e = cc
put_back-Knows i (returning t) others ts p p' (k, n) found e =
    let fewer =
      λ (test : Task → Bool). (count-job_of test i (returning t) p.running others found).0 in
    let shorter = (count-job_of (λ x. true) i (returning t) p.running others found).1 in
    let q : ThreadPool = record p { running = (i, leaving) ∷ others } in
    subst (Knows ts) (some_parts _ p' e) (
      push_task-Knows t ts ts q (λ test. omega (arith, k test, fewer test))
        (n ∙ ap (λ x. x % 2 ^ 64) shorter))
put_back-Knows i leaving others ts p p' k found e = cc

leave-Knows :
    (i : ℕ) (j : Job) (others : List (ℕ × Job)) (ts : List Task) (p p' : ThreadPool)
    → Knows ts p
    → job_of i p.running ≡ some (j, others)
    → leave j others p ≡ some p'
    → Knows ts p'
unfolding leave
leave-Knows i (calling t) others ts p p' k found e = cc
leave-Knows i (returning t) others ts p p' k found e = cc
leave-Knows i leaving others ts p p' (k, n) found e =
    let fewer = λ (test : Task → Bool). (count-job_of test i leaving p.running others found).0 in
    let shorter = (count-job_of (λ x. true) i leaving p.running others found).1 in
    let counter : (p.task_runned + 2 ^ 64 - 1) % 2 ^ 64 ≡ length others % 2 ^ 64 =
      omega (arith, n ∙ ap (λ x. x % 2 ^ 64) shorter) in
    subst (Knows ts) (some_parts _ p' e) ((λ test. omega (arith, k test, fewer test)), counter)

join_threads-Knows :
    (ts : List Task) (p p' : ThreadPool) → Knows ts p → join_threads p ≡ some p' → Knows ts p'
unfolding join_threads
join_threads-Knows ts p p' (k, n) e =
    let (open_for, same) = first_branch (p.stop_flag && (length p.running == 0)) _ p' e in
    subst (Knows ts) same ((λ test. k test), n)

Step-Knows :
    (ts : List Task) (p p' : ThreadPool) (s : Step p p') → Knows ts p → Knows (accepted s ++ ts) p'
unfolding post post_when set_stop_flag
Step-Knows ts p _ (posts t) k = post_when-Knows p.is_stoped t ts p k
Step-Knows ts p _ (takes i p' e) k = take_task-Knows i ts p p' k e
Step-Knows ts p _ (applies i recall j others p' found e) k =
    after_apply-Knows i recall j others ts p p' k found e
Step-Knows ts p _ (puts_back i j others p' found e) k = put_back-Knows i j others ts p p' k found e
Step-Knows ts p _ (leaves i j others p' found e) k = leave-Knows i j others ts p p' k found e
Step-Knows ts p _ stops k = ((λ test. k.0 test), k.1)
Step-Knows ts p _ (joins p' e) k = join_threads-Knows ts p p' k e

-- In every pool that steps lead to, the tasks in the queue, those that threads hold and those
-- that have finished are together the accepted ones, each as often as it was accepted, and the
-- counter of running tasks is the number of threads with a job, in 64 bits.
pub Reach-Knows : (ts : List Task) (p : ThreadPool) → Reach ts p → Knows ts p
unfolding create
Reach-Knows _ _ begin = ((λ test. refl), refl)
Reach-Knows _ _ (after ts p p' r s) = Step-Knows ts p p' s (Reach-Knows ts p r)

workers_only-count :
    (q : List Task)
    → workers_only q ≡ true
    → (test : Task → Bool) → count (λ t. not (is_worker t.priority) && test t) q ≡ 0
unfolding workers_only
workers_only-count [] e test = refl
workers_only-count (t ∷ ts) e test = elim (Bool-cases (is_worker t.priority)) [
  | inl h ↦ rw h (omega (arith, workers_only-count ts (rw h at e) test))
  | inr h ↦ absurd (let wrong : false ≡ true = rw h at e in cc)
]

no_tasks : (r : List (ℕ × Job)) (test : Task → Bool) → length r ≡ 0 → count test (tasks r) ≡ 0
no_tasks [] test e = refl
no_tasks (x ∷ xs) test e = absurd (omega arith)

-- In a pool that steps lead to, with fewer than 2 ^ 64 running tasks, if the loop of flush ends
-- then, of the tasks of the default priority that were accepted, as many have finished, whatever
-- test picks them.
pub is_flushed-finished :
    (ts : List Task) (p : ThreadPool)
    → Reach ts p
    → length p.running < 2 ^ 64
    → is_flushed p ≡ true
    → (test : Task → Bool)
    → count (λ t. not (is_worker t.priority) && test t) p.finished
      ≡ count (λ t. not (is_worker t.priority) && test t) ts
unfolding is_flushed
is_flushed-finished ts p r few e test =
    let (k, n) = Reach-Knows ts p r in
    let queue : workers_only p.in_queue ≡ true = grind arith in
    let zero_runs : p.task_runned ≡ 0 = grind arith in
    let idle : length p.running ≡ 0 = omega (arith, n) in
    let chosen : Task → Bool = λ t. not (is_worker t.priority) && test t in
    omega
      (arith, k chosen, workers_only-count p.in_queue queue test, no_tasks p.running chosen idle)
