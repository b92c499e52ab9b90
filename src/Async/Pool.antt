-- ===== src/Async/Pool.antt =====
-- utils/async/thread_pool.h and thread_pool.cpp: `ThreadPool`, as steps of its callers and threads.
-- What a thread does under the lock of the queue is one step.
pub mod Fair
pub mod Flush
pub mod Tasks
use memseries.Base.{
  ℕ, zero, suc, ◌+◌, ◌-◌, ◌%◌, ◌^◌, ◌≡◌, Bool, true, false, not, ◌&&◌, ◌||◌, ◌==◌, if◌then◌else◌,
}
use memseries.Base.{Option, none, some, ◌>>=◌, List, [], ◌∷◌, ◌++◌, length}

-- `TASK_PRIORITY`: 0 and the greatest number of 8 bits.
pub data TaskPriority : Type 0 where
  default worker : TaskPriority

abbrev pub is_worker : TaskPriority → Bool
is_worker default = false
is_worker worker = true

-- `<` of two priorities.
abbrev pub lower : TaskPriority → TaskPriority → Bool
lower default worker = true
lower _ _ = false

-- `AsyncTaskWrap`; `ident` stands for the pointer.
pub record Task : Type 0 where
  pub ident : ℕ
  pub priority : TaskPriority

-- The rest of the search in `_pool_logic`, behind a worker: the first task with a lower priority.
unfoldable pub pick_lower : Task → List Task → Option (Task × List Task)
pick_lower task [] = none
pick_lower task (v ∷ vs) =
    let more = (do (w, rest) ← pick_lower task vs; some (w, v ∷ rest)) in
    if lower v.priority task.priority then some (v, vs) else more

abbrev pub or_head : Task → List Task → Option (Task × List Task) → Option (Task × List Task)
or_head task vs none = some (task, vs)
or_head task vs (some (w, rest)) = some (w, task ∷ rest)

-- The task that a thread takes, and the queue without it.
unfoldable pub pick : List Task → Option (Task × List Task)
unfolding pick_lower
pick [] = none
pick (task ∷ vs) =
    if not (is_worker task.priority) then some (task, vs) else or_head task vs (pick_lower task vs)

-- What a thread that took a task is about to do: the call of the task, its return to the queue, or
-- the end of this turn, where the thread counts itself out.
pub data Job : Type 0 where
  calling returning : Task → Job
  leaving : Job

-- The jobs of `running` stand with the numbers of their threads. A task has finished when its result
-- is unlocked.
pub record ThreadPool : Type 0 where
  pub in_queue : List Task
  pub running : List (ℕ × Job)
  pub finished : List Task
  pub task_runned : ℕ
  pub stop_flag : Bool
  pub is_stoped : Bool

unfoldable pub create : ThreadPool
create = record {
  in_queue = [];
  running = [];
  finished = [];
  task_runned = 0;
  stop_flag = false;
  is_stoped = false;
}

unfoldable pub push_task : Task → ThreadPool → ThreadPool
push_task t p = record p { in_queue = p.in_queue ++ (t ∷ []) }

-- `post`; the answer false is a null result.
unfoldable pub post : Task → ThreadPool → Bool × ThreadPool
unfolding push_task
post t p = if p.is_stoped then (false, p) else (true, push_task t p)

abbrev pub runs : ℕ → List (ℕ × Job) → Bool
runs i [] = false
runs i ((j, t) ∷ rest) = (j == i) || runs i rest

-- A thread waits for a task, and takes one; the thread of number `i` has none yet.
unfoldable pub take_task : ℕ → ThreadPool → Option ThreadPool
unfolding pick
take_task i p = do
  (t, rest) ← pick p.in_queue
  if p.stop_flag || runs i p.running
      then none
      else some (record p {
        in_queue = rest;
        running = (i, calling t) ∷ p.running;
        task_runned = (p.task_runned + 1) % 2 ^ 64;
      })

-- The job of a thread, and the other ones.
unfoldable pub job_of : ℕ → List (ℕ × Job) → Option (Job × List (ℕ × Job))
job_of i [] = none
job_of i ((j, t) ∷ rest) =
    let more = (do (w, others) ← job_of i rest; some (w, (j, t) ∷ others)) in
    if j == i then some (t, rest) else more

-- A call of a task has returned: `recall` is its result. A task that asks for another call goes back
-- to the queue, or is called again when nothing else waits.
unfoldable pub after_apply : ℕ → Bool → Job → List (ℕ × Job) → ThreadPool → Option ThreadPool
after_apply i recall (calling t) others p =
    let done = record p { running = (i, leaving) ∷ others; finished = t ∷ p.finished } in
    let back = record p { running = (i, returning t) ∷ others } in
    let waits = not (length p.in_queue == 0) || p.stop_flag || is_worker t.priority in
    some (if recall then (if waits then back else p) else done)
after_apply i recall (returning t) others p = none
after_apply i recall leaving others p = none

unfoldable pub put_back : ℕ → Job → List (ℕ × Job) → ThreadPool → Option ThreadPool
unfolding push_task
put_back i (calling t) others p = none
put_back i (returning t) others p =
    some (push_task t (record p { running = (i, leaving) ∷ others }))
put_back i leaving others p = none

unfoldable pub leave : Job → List (ℕ × Job) → ThreadPool → Option ThreadPool
leave (calling t) others p = none
leave (returning t) others p = none
leave leaving others p =
    some (record p { running = others; task_runned = (p.task_runned + 2 ^ 64 - 1) % 2 ^ 64 })

unfoldable pub set_stop_flag : ThreadPool → ThreadPool
set_stop_flag p = record p { stop_flag = true }

-- The end of `stop`, which waits for all threads.
unfoldable pub join_threads : ThreadPool → Option ThreadPool
join_threads p =
    if p.stop_flag && (length p.running == 0) then some (record p { is_stoped = true }) else none

unfoldable pub active_works : ThreadPool → ℕ
active_works p = (length p.in_queue + p.task_runned) % 2 ^ 64

unfoldable pub workers_only : List Task → Bool
workers_only [] = true
workers_only (t ∷ ts) = is_worker t.priority && workers_only ts

-- Whether the loop of `flush` ends.
unfoldable pub is_flushed : ThreadPool → Bool
unfolding workers_only
is_flushed p = workers_only p.in_queue && (p.task_runned == 0)

-- A step of a caller, or of the thread of number `i`.
pub data Step (p : ThreadPool) : ThreadPool → Type 0 where
  posts : (t : Task) → Step p (post t p).1
  takes : (i : ℕ) (p' : ThreadPool) → take_task i p ≡ some p' → Step p p'
  applies :
      (i : ℕ) (recall : Bool) (j : Job) (others : List (ℕ × Job)) (p' : ThreadPool)
      → job_of i p.running ≡ some (j, others)
      → after_apply i recall j others p ≡ some p'
      → Step p p'
  puts_back :
      (i : ℕ) (j : Job) (others : List (ℕ × Job)) (p' : ThreadPool)
      → job_of i p.running ≡ some (j, others)
      → put_back i j others p ≡ some p'
      → Step p p'
  leaves :
      (i : ℕ) (j : Job) (others : List (ℕ × Job)) (p' : ThreadPool)
      → job_of i p.running ≡ some (j, others)
      → leave j others p ≡ some p'
      → Step p p'
  stops : Step p (set_stop_flag p)
  joins : (p' : ThreadPool) → join_threads p ≡ some p' → Step p p'
