-- ===== src/ThreadPool.antt =====
-- threadpool/threadpool.cc: worker threads that run the tasks of a BlockingQueue. A task is a number. The
-- steps of the workers and of the threads that post are in any order; what a task does is outside the
-- pool, but for its posts. The destructor cancels the queue and joins the workers, in which it waits
-- until each has left its loop. `ran` records the tasks that ended, and `late` counts the posts from
-- outside the pool once the queue is cancelled; the code has no such fields.
pub mod Tasks
mod Tests
use cpp_infra.Common.{
  List, Option, [], false, if◌then◌else◌, none, some, true, update, ℕ, ◌++◌, ◌+◌, ◌<◌, ◌∷◌, ◌≡◌,
}
use cpp_infra.BlockingQueue.{BlockingQueue, push, cancel, pop_ready, ready, recorded, new}

-- Where a worker is: in `Pop`, in a task, or out of its loop.
pub data Worker : Type 0 where
  fetching : Worker
  running : (task : ℕ) → Worker
  exited : Worker

pub record ThreadPool : Type 0 where
  pub task_queue : BlockingQueue ℕ
  pub workers : ℕ → Worker
  pub ran : List ℕ
  pub late : ℕ

-- the constructor
unfoldable pub start_pool : ThreadPool
start_pool = record { task_queue = new false; workers = λ i. fetching; ran = []; late = 0 }

unfoldable pub post : (task : ℕ) → ThreadPool → ThreadPool
post task p = record p { task_queue = push task p.task_queue }

-- a post by a thread that is no worker, recorded
unfoldable pub post_outside : (task : ℕ) → ThreadPool → ThreadPool
post_outside task p = record (post task p) {
  late = p.late + (if p.task_queue.nonblock then 1 else 0);
}

-- what the worker `i` does with the result of `Pop`
abbrev pub after_pop : ℕ → Option ℕ → Worker
after_pop i none = exited
after_pop i (some task) = running task

-- `Pop` in the loop of the worker `i`, once its wait is over
unfoldable pub fetch : (i : ℕ) → ThreadPool → ThreadPool
fetch i p =
    let popped = pop_ready p.task_queue in
    record p { task_queue = recorded popped; workers = update p.workers i (after_pop i popped.0) }

-- The task of the worker `i` ends.
unfoldable pub finish : (i task : ℕ) → ThreadPool → ThreadPool
finish i task p = record p { workers = update p.workers i fetching; ran = p.ran ++ task ∷ [] }

-- the start of the destructor
unfoldable pub stop : ThreadPool → ThreadPool
stop p = record p { task_queue = cancel p.task_queue }

-- The steps of a pool of `n` workers: also a task that runs may post.
pub data Step (n : ℕ) : ThreadPool → ThreadPool → Type 0 where
  posts : (p : ThreadPool) (task : ℕ) → Step n p (post_outside task p)
  task_posts :
      (p : ThreadPool) (i task task' : ℕ)
      → i < n
      → p.workers i ≡ running task
      → Step n p (post task' p)
  fetches :
      (p : ThreadPool) (i : ℕ)
      → i < n
      → p.workers i ≡ fetching
      → ready p.task_queue ≡ true
      → Step n p (fetch i p)
  finishes :
      (p : ThreadPool) (i task : ℕ)
      → i < n
      → p.workers i ≡ running task
      → Step n p (finish i task p)
  stops : (p : ThreadPool) → Step n p (stop p)

pub data Reach (n : ℕ) : ThreadPool → Type 0 where
  start : Reach n start_pool
  after : {p p' : ThreadPool} → Reach n p → Step n p p' → Reach n p'
