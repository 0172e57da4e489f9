-- ===== src/ThreadPool/Tasks.antt =====
-- The tasks of a pool, from their posting to their end.
use mathlib.Core.Path.{subst}
use cpp_infra.Common.{
  Bool-cases, List, List-cases, [], ap, arith, false, if◌then◌else◌, inl, inr, none, occurs,
  occurs-append, refl, some, sym, total, total-update, total_zero, true, update, update_here,
  update_there, ℕ, ◌++◌, ◌+◌, ◌<◌, ◌==◌, ◌∙◌, ◌∷◌, ◌≡◌, ◌≢◌, ◌⊎◌,
}
use mathlib.Core.Path.{subst}
use native.Mathlib.Decide.{ℕ_discrete}
use cpp_infra.BlockingQueue.{BlockingQueue, push, cancel, pop_ready, ready, recorded}
use cpp_infra.BlockingQueue
use cpp_infra.BlockingQueue.Fifo.{Reach-IsSound}
use cpp_infra.ThreadPool.{
  Worker, fetching, running, exited, ThreadPool, start_pool, post, post_outside, after_pop, fetch,
  finish, stop, posts, task_posts, fetches, finishes, stops, Reach, start, after,
}

-- 1 for a worker that runs the task `t`
abbrev pub busy : ℕ → Worker → ℕ
busy t fetching = 0
busy t (running task) = if task == t then 1 else 0
busy t exited = 0

-- Who sees to the tasks that are queued: there are none, a worker is still in its loop, or they may
-- be those of a thread that posted after the cancel.
pub data Left (n : ℕ) (p : ThreadPool) : Type 0 where
  nothing : p.task_queue.queue ≡ [] → Left n p
  late_post : 0 < p.late → Left n p
  unclosed : p.task_queue.nonblock ≡ false → Left n p
  working : (i : ℕ) → i < n → p.workers i ≢ exited → Left n p

pub record Sound (n : ℕ) (p : ThreadPool) : Type 0 where
  pub queue : BlockingQueue.Reach false p.task_queue
  pub taken : (t : ℕ) → occurs t p.task_queue.popped ≡ occurs t p.ran + total (busy t) p.workers n
  pub cancelled : (i : ℕ) → p.workers i ≡ exited → p.task_queue.nonblock ≡ true
  pub left : Left n p

pop_none : {A : Type 0} (q : BlockingQueue A) → q.queue ≡ [] → pop_ready q ≡ (none, q)
unfolding pop_ready
pop_none q e = rw (pop_ready, e) (ap (λ xs. (none, record q { queue = xs })) e)

pop_some :
    {A : Type 0} (q : BlockingQueue A) (x : A) (xs : List A)
    → q.queue ≡ x ∷ xs
    → pop_ready q ≡ (some x, record q { queue = xs })
unfolding pop_ready
pop_some q x xs e = rw (pop_ready, e) refl

-- What a fetch does to the pool, by what the queue holds.
fetch_none :
    (i : ℕ) (p : ThreadPool)
    → p.task_queue.queue ≡ []
    → fetch i p ≡ record p {
      task_queue = record p.task_queue { refusals = p.task_queue.refusals + 1 };
      workers = update p.workers i exited;
    }
unfolding fetch
fetch_none i p e =
    ap (λ r. record p { task_queue = recorded r; workers = update p.workers i (after_pop i r.0) })
      (pop_none p.task_queue e)

fetch_some :
    (i : ℕ) (p : ThreadPool) (x : ℕ) (xs : List ℕ)
    → p.task_queue.queue ≡ x ∷ xs
    → fetch i p ≡ record p {
      task_queue = record p.task_queue { queue = xs; popped = p.task_queue.popped ++ x ∷ [] };
      workers = update p.workers i (running x);
    }
unfolding fetch
fetch_some i p x xs e =
    ap (λ r. record p { task_queue = recorded r; workers = update p.workers i (after_pop i r.0) })
      (pop_some p.task_queue x xs e)

-- Another worker than `i`, out of its loop after a change of the worker `i`.
still_out :
    (ws : ℕ → Worker) (i k : ℕ) (w : Worker) → w ≢ exited → update ws i w k ≡ exited → ws k ≡ exited
still_out ws i k w ne e = elim (ℕ_discrete k i) [
  | yes at ↦ absurd (ne (sym (ap (update ws i w) at ∙ update_here ws i w) ∙ e))
  | no other ↦ sym (update_there ws i w k other) ∙ e
]

module _ (n : ℕ) (p : ThreadPool) (s : Sound n p) where
  not_out : (i : ℕ) (w : Worker) → w ≢ exited → update p.workers i w i ≢ exited
  not_out i w ne out = ne (sym (update_here p.workers i w) ∙ out)

  post_outside-Sound : (task : ℕ) → Sound n (post_outside task p)
  unfolding post_outside post push
  post_outside-Sound task = record {
    queue = BlockingQueue.Reach.after s.queue (BlockingQueue.Step.pushes p.task_queue task);
    taken = s.taken;
    cancelled = s.cancelled;
    left = elim (Bool-cases p.task_queue.nonblock) [
      | inl e ↦ late_post (rw e (omega arith))
      | inr e ↦ unclosed e
    ];
  }

  post-Sound : (i task task' : ℕ) → i < n → p.workers i ≡ running task → Sound n (post task' p)
  unfolding post push
  post-Sound i task task' lt at = record {
    queue = BlockingQueue.Reach.after s.queue (BlockingQueue.Step.pushes p.task_queue task');
    taken = s.taken;
    cancelled = s.cancelled;
    left =
        working i lt (λ out. let both : running task ≡ exited = sym at ∙ out in absurd (cc both));
  }

  module _ (i : ℕ) (lt : i < n) (at : p.workers i ≡ fetching)
      (can : ready p.task_queue ≡ true) where
    popped_queue : BlockingQueue.Reach false (recorded (pop_ready p.task_queue))
    popped_queue = BlockingQueue.Reach.after s.queue (BlockingQueue.Step.pops p.task_queue can)

    idle_before : (t : ℕ) → busy t (p.workers i) ≡ 0
    idle_before t = ap (busy t) at

    fetched_none : p.task_queue.queue ≡ [] → Sound n (fetch i p)
    fetched_none e =
        let refused =
          (Reach-IsSound false (
            subst (BlockingQueue.Reach false) (ap recorded (pop_none p.task_queue e))
              popped_queue)).refused in
        subst (Sound n) (sym (fetch_none i p e)) (record {
          queue =
              subst (BlockingQueue.Reach false) (ap recorded (pop_none p.task_queue e))
                popped_queue;
          taken = λ t.
              (let change = total-update (busy t) p.workers i exited n lt in
                let idle = idle_before t in let before = s.taken t in omega arith);
          cancelled = λ k out. refused (omega arith);
          left = nothing e;
        })

    fetched_some : (x : ℕ) (xs : List ℕ) → p.task_queue.queue ≡ x ∷ xs → Sound n (fetch i p)
    fetched_some x xs e = subst (Sound n) (sym (fetch_some i p x xs e)) (record {
      queue =
          subst (BlockingQueue.Reach false) (ap recorded (pop_some p.task_queue x xs e))
            popped_queue;
      taken = λ t.
          (let change = total-update (busy t) p.workers i (running x) n lt in
            let idle = idle_before t in
            let before = s.taken t in
            let more = occurs-append t p.task_queue.popped (x ∷ []) in omega arith);
      cancelled = λ k out. s.cancelled k (still_out p.workers i k (running x) (λ e'. cc e') out);
      left = working i lt (not_out i (running x) (λ e'. cc e'));
    })

    fetch-Sound : Sound n (fetch i p)
    fetch-Sound = elim (List-cases p.task_queue.queue) [
      | inl e ↦ fetched_none e
      | inr (x, xs, e) ↦ fetched_some x xs e
    ]

  finish-Sound : (i task : ℕ) → i < n → p.workers i ≡ running task → Sound n (finish i task p)
  unfolding finish
  finish-Sound i task lt at = record {
    queue = s.queue;
    taken = λ t.
        (let change = total-update (busy t) p.workers i fetching n lt in
          let one : busy t (p.workers i) ≡ busy t (running task) = ap (busy t) at in
          let before = s.taken t in let more = occurs-append t p.ran (task ∷ []) in omega arith);
    cancelled = λ k out. s.cancelled k (still_out p.workers i k fetching (λ e'. cc e') out);
    left = working i lt (not_out i fetching (λ e'. cc e'));
  }

  left_stopped : 0 < n → Left n p → Left n (stop p)
  unfolding stop cancel
  left_stopped one (nothing e) = nothing e
  left_stopped one (late_post lt) = late_post lt
  left_stopped one (working i lt ne) = working i lt ne
  left_stopped one (unclosed up) =
      working 0 one
        (λ out. let both : true ≡ false = sym (s.cancelled 0 out) ∙ up in absurd (cc both))

  stop-Sound : 0 < n → Sound n (stop p)
  unfolding stop cancel
  stop-Sound one = record {
    queue = BlockingQueue.Reach.after s.queue (BlockingQueue.Step.cancels p.task_queue);
    taken = s.taken;
    cancelled = λ i out. refl;
    left = left_stopped one s.left;
  }

Reach-Sound : (n : ℕ) {p : ThreadPool} → 0 < n → Reach n p → Sound n p
unfolding start_pool
Reach-Sound n one start = record {
  queue = BlockingQueue.Reach.start;
  taken = λ t. (let nothing = total_zero (busy t) (λ i. fetching) n (λ k lt. refl) in omega arith);
  cancelled = λ i e. absurd (cc e);
  left = nothing refl;
}
Reach-Sound n one (after r (posts p task)) = post_outside-Sound n p (Reach-Sound n one r) task
Reach-Sound n one (after r (task_posts p i task task' lt at)) =
    post-Sound n p (Reach-Sound n one r) i task task' lt at
Reach-Sound n one (after r (fetches p i lt at can)) =
    fetch-Sound n p (Reach-Sound n one r) i lt at can
Reach-Sound n one (after r (finishes p i task lt at)) =
    finish-Sound n p (Reach-Sound n one r) i task lt at
Reach-Sound n one (after r (stops p)) = stop-Sound n p (Reach-Sound n one r) one

none_left :
    (n : ℕ) (p : ThreadPool)
    → Sound n p
    → 0 < n
    → ((i : ℕ) → i < n → p.workers i ≡ exited)
    → Left n p
    → (p.task_queue.queue ≡ []) ⊎ (0 < p.late)
none_left n p s one out (nothing e) = inl e
none_left n p s one out (late_post lt) = inr lt
none_left n p s one out (working i lt ne) = absurd (ne (out i lt))
none_left n p s one out (unclosed up) =
    let both : true ≡ false = sym (s.cancelled 0 (out 0 one)) ∙ up in absurd (cc both)

-- In every state of a pool of at least one worker in which all its workers have left their loops, as
-- when the destructor has joined them: each task has ended and is queued, taken together, as often as
-- it was posted, by any thread or by a task that ran; and none is queued, so that each has ended as
-- often as it was posted, unless a thread that is no worker posted after the cancel.
pub exited_ran :
    (n : ℕ) (p : ThreadPool)
    → Reach n p
    → 0 < n
    → ((i : ℕ) → i < n → p.workers i ≡ exited)
    → ((t : ℕ) → occurs t p.ran + occurs t p.task_queue.queue ≡ occurs t p.task_queue.pushed)
      × ((p.task_queue.queue ≡ []) ⊎ (0 < p.late))
exited_ran n p r some_worker out =
    let s = Reach-Sound n some_worker r in
    (
      λ t.
          (let idle = total_zero (busy t) p.workers n (λ k lt. ap (busy t) (out k lt)) in
            let taken = s.taken t in
            let same = ap (occurs t) (Reach-IsSound false s.queue).fifo in
            let both = occurs-append t p.task_queue.popped p.task_queue.queue in omega arith),
      none_left n p s some_worker out s.left,
    )
