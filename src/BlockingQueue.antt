-- ===== src/BlockingQueue.antt =====
-- threadpool/blockingqueue.h (mysqlconnpool/BlockingQueue.h is the same): BlockingQueue and BlockingQueuePro,
-- queues under mutexes and a condition variable. What a thread does while it holds a mutex is one
-- step; a wait is a step that needs its condition. The steps of any number of threads are in any
-- order. `pushed` and `popped` record, in order, the values that Push took and that Pop returned,
-- and `refusals` counts the Pops that returned false: the steps record them from the results of the
-- operations, and the code has no such fields. Notifications are not modelled: a step of a wait may
-- be taken whenever its condition holds.
pub mod Fifo
mod Pro
mod Tests
use cpp_infra.Common.{
  Bool, List, Option, [], false, if◌then◌else◌, length, none, not, some, true, ℕ, ◌%◌, ◌++◌, ◌+◌,
  ◌==◌, ◌^◌, ◌||◌, ◌∷◌, ◌≡◌,
}

-- `BlockingQueue<T>`
pub record BlockingQueue {ℓ} (A : Type ℓ) : Type ℓ where
  pub nonblock : Bool
  pub queue : List A
  pub pushed : List A
  pub popped : List A
  pub refusals : ℕ

module _ {ℓ} {A : Type ℓ} where
  abbrev pub new : Bool → BlockingQueue A
  new nonblock = record { nonblock = nonblock; queue = []; pushed = []; popped = []; refusals = 0 }

  -- `Push`, under the mutex
  unfoldable pub push : A → BlockingQueue A → BlockingQueue A
  push value q = record q { queue = q.queue ++ (value ∷ []); pushed = q.pushed ++ (value ∷ []) }

  -- `Cancel`, under the mutex
  unfoldable pub cancel : BlockingQueue A → BlockingQueue A
  cancel q = record q { nonblock = true }

  abbrev pub is_empty : List A → Bool
  is_empty [] = true
  is_empty (x ∷ xs) = false

  -- the condition of the wait in `Pop`
  abbrev pub ready : BlockingQueue A → Bool
  ready q = not (is_empty q.queue) || q.nonblock

  -- `Pop` under the mutex, once the wait is over: the value, or none for false
  unfoldable pub pop_ready : BlockingQueue A → Option A × BlockingQueue A
  pop_ready q = elim q.queue [
    | [] ↦ (none, q)
    | value ∷ rest ↦ (some value, record q { queue = rest })
  ]

  -- the result of a `Pop`, recorded
  abbrev pub recorded : Option A × BlockingQueue A → BlockingQueue A
  recorded (none, q) = record q { refusals = q.refusals + 1 }
  recorded (some value, q) = record q { popped = q.popped ++ (value ∷ []) }

  pub data Step : BlockingQueue A → BlockingQueue A → Type ℓ where
    pushes : (q : BlockingQueue A) (value : A) → Step q (push value q)
    cancels : (q : BlockingQueue A) → Step q (cancel q)
    pops : (q : BlockingQueue A) → ready q ≡ true → Step q (recorded (pop_ready q))

  -- What is reached from a new queue.
  pub data Reach (nonblock : Bool) : BlockingQueue A → Type ℓ where
    start : Reach nonblock (new nonblock)
    after : {q q' : BlockingQueue A} → Reach nonblock q → Step q q' → Reach nonblock q'

-- Where the thread that holds `cons_mutex_` is: none does, it is about to swap (in `SwapQueue_`),
-- it is about to take the front.
pub data Consumer : Type 0 where
  outside : Consumer
  swapping : Consumer
  taking : Consumer

-- `BlockingQueuePro<T>`
pub record BlockingQueuePro {ℓ} (A : Type ℓ) : Type ℓ where
  pub nonblock : Bool
  pub prod : List A
  pub cons : List A
  pub consumer : Consumer
  pub pushed : List A
  pub popped : List A
  pub refusals : ℕ

module _ {ℓ} {A : Type ℓ} where
  abbrev pub new_pro : Bool → BlockingQueuePro A
  new_pro nonblock = record {
    nonblock = nonblock;
    prod = [];
    cons = [];
    consumer = outside;
    pushed = [];
    popped = [];
    refusals = 0;
  }

  unfoldable pub push_pro : A → BlockingQueuePro A → BlockingQueuePro A
  push_pro value q = record q { prod = q.prod ++ (value ∷ []); pushed = q.pushed ++ (value ∷ []) }

  unfoldable pub cancel_pro : BlockingQueuePro A → BlockingQueuePro A
  cancel_pro q = record q { nonblock = true }

  -- the start of `Pop`: the mutex is taken and `cons_queue_` looked at
  unfoldable pub enter : BlockingQueuePro A → BlockingQueuePro A
  enter q = record q { consumer = if is_empty q.cons then swapping else taking }

  -- the condition of the wait in `SwapQueue_`
  abbrev pub ready_pro : BlockingQueuePro A → Bool
  ready_pro q = not (is_empty q.prod) || q.nonblock

  -- `SwapQueue_` once the wait is over: the size of the new `cons_queue_` as the 32 bits of an int
  unfoldable pub swap : BlockingQueuePro A → ℕ × BlockingQueuePro A
  swap q = (length q.prod % 2 ^ 32, record q { prod = q.cons; cons = q.prod })

  -- the test of this value in `Pop`: does `Pop` go on, or return false?
  unfoldable pub test_swapped : ℕ × BlockingQueuePro A → Bool × BlockingQueuePro A
  test_swapped (n, q) =
      if n == 0
      then (false, record q { consumer = outside })
      else (true, record q { consumer = taking })

  -- the end of `Pop`: the value; `none` is a `front` of an empty queue
  unfoldable pub take_front : BlockingQueuePro A → Option (A × BlockingQueuePro A)
  take_front q = elim q.cons [
    | [] ↦ none
    | value ∷ rest ↦ some (value, record q { cons = rest; consumer = outside })
  ]

  -- the results of a `Pop`, recorded
  abbrev pub refused : Bool × BlockingQueuePro A → BlockingQueuePro A
  refused (true, q) = q
  refused (false, q) = record q { refusals = q.refusals + 1 }

  abbrev pub handed_out : A × BlockingQueuePro A → BlockingQueuePro A
  handed_out (value, q) = record q { popped = q.popped ++ (value ∷ []) }

  pub data StepPro : BlockingQueuePro A → BlockingQueuePro A → Type ℓ where
    pushes : (q : BlockingQueuePro A) (value : A) → StepPro q (push_pro value q)
    cancels : (q : BlockingQueuePro A) → StepPro q (cancel_pro q)
    enters : (q : BlockingQueuePro A) → q.consumer ≡ outside → StepPro q (enter q)
    swaps :
        (q : BlockingQueuePro A)
        → q.consumer ≡ swapping
        → ready_pro q ≡ true
        → StepPro q (refused (test_swapped (swap q)))
    takes :
        {q : BlockingQueuePro A} {r : A × BlockingQueuePro A}
        → q.consumer ≡ taking
        → take_front q ≡ some r
        → StepPro q (handed_out r)

  pub data ReachPro (nonblock : Bool) : BlockingQueuePro A → Type ℓ where
    start : ReachPro nonblock (new_pro nonblock)
    after : {q q' : BlockingQueuePro A} → ReachPro nonblock q → StepPro q q' → ReachPro nonblock q'
