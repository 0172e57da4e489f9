-- ===== src/ThreadPool/Tests.antt =====
-- A run of the pool of threadpool/threadpool.cc with two workers and three tasks.
use cpp_infra.Common.{[], arith, occurs, refl, suc, zero, ℕ, ◌+◌, ◌<◌, ◌≡◌, ◌⊎◌}
use cpp_infra.BlockingQueue.{push, cancel, pop_ready}
use cpp_infra.ThreadPool.{
  exited, ThreadPool, start_pool, post, post_outside, fetch, finish, stop, posts, task_posts,
  fetches, finishes, stops, Reach, start, after,
}
use cpp_infra.ThreadPool.Tasks.{exited_ran}

-- Both tasks are posted, worker 1 runs the first one, the destructor has started.
abbrev stopping : ThreadPool
stopping = stop (fetch 1 (post_outside 8 (post_outside 7 start_pool)))

-- The task that runs posts a third one, which worker 1 takes when it has ended.
abbrev busy_pool : ThreadPool
busy_pool = fetch 1 (finish 1 7 (finish 0 8 (fetch 0 (post 9 stopping))))

-- It ends, and both workers leave.
abbrev joined : ThreadPool
joined = fetch 0 (fetch 1 (finish 1 9 busy_pool))

stopping-Reach : Reach 2 stopping
unfolding start_pool post_outside post fetch push
stopping-Reach =
    after
      (after (after (after start (posts start_pool 7)) (posts (post_outside 7 start_pool) 8))
        (fetches (post_outside 8 (post_outside 7 start_pool)) 1 (omega arith) refl refl))
      (stops (fetch 1 (post_outside 8 (post_outside 7 start_pool))))

busy_pool-Reach : Reach 2 busy_pool
unfolding start_pool post_outside post fetch finish stop push cancel pop_ready
busy_pool-Reach =
    after
      (after
        (after
          (after (after stopping-Reach (task_posts stopping 1 7 9 (omega arith) refl))
            (fetches (post 9 stopping) 0 (omega arith) refl refl))
          (finishes (fetch 0 (post 9 stopping)) 0 8 (omega arith) refl))
        (finishes (finish 0 8 (fetch 0 (post 9 stopping))) 1 7 (omega arith) refl))
      (fetches (finish 1 7 (finish 0 8 (fetch 0 (post 9 stopping)))) 1 (omega arith) refl refl)

joined-Reach : Reach 2 joined
unfolding start_pool post_outside post fetch finish stop push cancel pop_ready
joined-Reach =
    after
      (after (after busy_pool-Reach (finishes busy_pool 1 9 (omega arith) refl))
        (fetches (finish 1 9 busy_pool) 1 (omega arith) refl refl))
      (fetches (fetch 1 (finish 1 9 busy_pool)) 0 (omega arith) refl refl)

all_out : (i : ℕ) → i < 2 → joined.workers i ≡ exited
unfolding start_pool post_outside post fetch finish stop push cancel pop_ready
all_out zero lt = refl
all_out (suc zero) lt = refl
all_out (suc (suc i)) lt = absurd (omega arith)

exited_ran_example :
    ((t : ℕ)
      → occurs t joined.ran + occurs t joined.task_queue.queue ≡ occurs t joined.task_queue.pushed)
    × ((joined.task_queue.queue ≡ []) ⊎ (0 < joined.late))
exited_ran_example = exited_ran 2 joined joined-Reach (omega arith) all_out
