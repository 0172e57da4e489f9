-- ===== src/ProducerConsumerQueue.antt =====
-- free_queue/ProducerConsumerQueue.h: a queue under a mutex and a condition variable, with a
-- shutdown. What a thread does while it holds the mutex is one step; a wait is a step that needs its
-- condition. `pushed`, `popped` and `deleted` record, in order, the values that Push took, that Pop and
-- WaitAndPop handed out, and that Cancel deleted; the steps record the second from the results of
-- the operations, and the code has no such fields. Notifications are not modelled: a step of a wait
-- may be taken whenever its condition holds.
mod Fifo
mod Tests
use cpp_infra.Common.{
  Bool, List, Option, [], false, if◌then◌else◌, length, none, not, some, true, ℕ, ◌&&◌, ◌++◌, ◌||◌,
  ◌∷◌, ◌≡◌,
}

pub record ProducerConsumerQueue {ℓ} (A : Type ℓ) : Type ℓ where
  pub queue : List A
  pub shutdown : Bool
  pub pushed : List A
  pub popped : List A
  pub deleted : List A

module _ {ℓ} {A : Type ℓ} where
  abbrev pub new : ProducerConsumerQueue A
  new = record { queue = []; shutdown = false; pushed = []; popped = []; deleted = [] }

  unfoldable pub push : A → ProducerConsumerQueue A → ProducerConsumerQueue A
  push value q = record q { queue = q.queue ++ (value ∷ []); pushed = q.pushed ++ (value ∷ []) }

  abbrev pub is_empty : List A → Bool
  is_empty [] = true
  is_empty (x ∷ xs) = false

  unfoldable pub empty : ProducerConsumerQueue A → Bool
  empty q = is_empty q.queue

  unfoldable pub size : ProducerConsumerQueue A → ℕ
  size q = length q.queue

  -- `front` and `pop`; a `front` of an empty queue is none
  abbrev pub take_front : ProducerConsumerQueue A → Option A × ProducerConsumerQueue A
  take_front q = elim q.queue [
    | [] ↦ (none, q)
    | value ∷ rest ↦ (some value, record q { queue = rest })
  ]

  -- `Pop`: the value, or none for false
  unfoldable pub pop : ProducerConsumerQueue A → Option A × ProducerConsumerQueue A
  pop q = if is_empty q.queue || q.shutdown then (none, q) else take_front q

  -- the negated condition of the loop in `WaitAndPop`
  abbrev pub ready : ProducerConsumerQueue A → Bool
  ready q = not (is_empty q.queue && not q.shutdown)

  -- `WaitAndPop` once the loop is over: the value assigned, if any
  unfoldable pub wait_and_pop : ProducerConsumerQueue A → Option A × ProducerConsumerQueue A
  wait_and_pop q = if is_empty q.queue || q.shutdown then (none, q) else take_front q

  -- the loop of `Cancel` over the queue: the values deleted
  abbrev pub delete_all : List A → List A → List A
  delete_all deleted [] = deleted
  delete_all deleted (value ∷ rest) = delete_all (deleted ++ (value ∷ [])) rest

  unfoldable pub cancel : ProducerConsumerQueue A → ProducerConsumerQueue A
  cancel q = record q { queue = []; deleted = delete_all q.deleted q.queue; shutdown = true }

  -- the result of a `Pop` or a `WaitAndPop`, recorded
  abbrev pub recorded : Option A × ProducerConsumerQueue A → ProducerConsumerQueue A
  recorded (none, q) = q
  recorded (some value, q) = record q { popped = q.popped ++ (value ∷ []) }

  pub data Step : ProducerConsumerQueue A → ProducerConsumerQueue A → Type ℓ where
    pushes : (q : ProducerConsumerQueue A) (value : A) → Step q (push value q)
    pops : (q : ProducerConsumerQueue A) → Step q (recorded (pop q))
    waits_and_pops :
        (q : ProducerConsumerQueue A) → ready q ≡ true → Step q (recorded (wait_and_pop q))
    cancels : (q : ProducerConsumerQueue A) → Step q (cancel q)

  pub data Reach : ProducerConsumerQueue A → Type ℓ where
    start : Reach new
    after : {q q' : ProducerConsumerQueue A} → Reach q → Step q q' → Reach q'
