-- ===== src/Examples/Pools.antt =====
-- The theorems on the thread pool at concrete inputs.
use memseries.Base.{◌≡◌, arith, refl, Bool, true, false, not, ◌&&◌, ◌==◌, [], ◌∷◌, ◌++◌}
use memseries.Async.Pool.{
  Task, default, worker, is_worker, ThreadPool, create, post, push_task, pick, take_task, job_of,
  calling, leaving, after_apply, leave, is_flushed, posts, takes, applies, leaves,
}
use memseries.Async.Pool.Fair.{pushed, picked, run, Among, run-Among}
use memseries.Async.Pool.Tasks.{count, Knows}
use memseries.Async.Pool.Flush.{Reach, begin, after, Reach-Knows, is_flushed-finished}

abbrev task_of_user : Task
task_of_user = record { ident = 1; priority = default }

abbrev dropper : Task
dropper = record { ident = 2; priority = worker }

run-Among_example :
    Among task_of_user (run (pushed dropper ∷ picked ∷ []) ((dropper ∷ []) ++ task_of_user ∷ [])).0
run-Among_example =
    run-Among (pushed dropper ∷ picked ∷ []) task_of_user (dropper ∷ []) [] refl (omega arith)

-- The pool after a post, the take of the task, its call, and the end of the turn.
abbrev queued : ThreadPool
queued = record create { in_queue = task_of_user ∷ [] }

abbrev called : ThreadPool
called = record create { running = (0, calling task_of_user) ∷ []; task_runned = 1 }

abbrev returned : ThreadPool
returned = record called { running = (0, leaving) ∷ []; finished = task_of_user ∷ [] }

abbrev left : ThreadPool
left = record returned { running = []; task_runned = 0 }

left-Reach : Reach (task_of_user ∷ []) left
unfolding create post push_task take_task pick job_of after_apply leave
left-Reach =
    after (task_of_user ∷ []) returned left
      (after (task_of_user ∷ []) called returned
        (after (task_of_user ∷ []) queued called (after [] create queued begin (posts task_of_user))
          (takes 0 called refl))
        (applies 0 false (calling task_of_user) [] returned refl refl))
      (leaves 0 leaving [] left refl refl)

left-is_flushed : is_flushed left ≡ true
unfolding is_flushed create
left-is_flushed = refl

Reach-Knows_example : Knows (task_of_user ∷ []) left
Reach-Knows_example = Reach-Knows (task_of_user ∷ []) left left-Reach

abbrev has_ident : Task → Bool
has_ident t = t.ident == 1

is_flushed-finished_example :
    count (λ t. not (is_worker t.priority) && has_ident t) left.finished
    ≡ count (λ t. not (is_worker t.priority) && has_ident t) (task_of_user ∷ [])
is_flushed-finished_example =
    is_flushed-finished (task_of_user ∷ []) left left-Reach (omega arith) left-is_flushed has_ident
