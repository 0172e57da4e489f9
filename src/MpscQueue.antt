-- ===== src/MpscQueue.antt =====
-- free_queue/MPSCQueue.h: MPSCQueueNonIntrusive, a queue of linked nodes for any number of producers
-- and one consumer, as the atomic accesses that the threads make, in any order, under sequential
-- consistency. Pointers are addresses; `T*` is a number. A node that its thread alone can reach (the
-- new one of `Enqueue`) is made in the step that publishes it. `pushed` records the values in the
-- order of the exchanges of `_head`, `popped` those that Dequeue returned; the code has no such fields.
pub mod Invariant
pub mod Exchange
pub mod Link
pub mod Dequeue
pub mod Safety
mod Tests
use cpp_infra.Common.{
  Bool, List, Option, [], false, none, some, true, update, ℕ, ◌++◌, ◌==◌, ◌∷◌, ◌≡◌,
}

-- Where a producer is in `Enqueue`: not in it, or between the exchange, which gave it `prev`, and the
-- store to `prev->Next`.
pub data Producer : Type 0 where
  idle : Producer
  linking : (prev node : ℕ) → Producer

-- Where the consumer is in `Dequeue`: not in it, after the load of `tail->Next`, which gave it `next`,
-- or after the store of `_tail`, before the `delete` of the old one.
pub data Consumer : Type 0 where
  ready : Consumer
  found : (next : ℕ) → Consumer
  deleting : (old : ℕ) → Consumer

-- The queue, its nodes (`next`, `value` and whether they are allocated), and its threads.
pub record MpscQueue : Type 0 where
  pub head : ℕ
  pub tail : ℕ
  pub next : ℕ → Option ℕ
  pub value : ℕ → ℕ
  pub live : ℕ → Bool
  pub producers : ℕ → Producer
  pub consumer : Consumer
  pub pushed : List ℕ
  pub popped : List ℕ

-- the constructor, with the first node at the address `dummy`
unfoldable pub new : ℕ → MpscQueue
new dummy = record {
  head = dummy;
  tail = dummy;
  next = λ n. none;
  value = λ n. 0;
  live = λ n. n == dummy;
  producers = λ t. idle;
  consumer = ready;
  pushed = [];
  popped = [];
}

-- `Enqueue` of the thread `t` up to the exchange, with a new node at the address `node`
unfoldable pub exchange : (t node input : ℕ) → MpscQueue → MpscQueue
exchange t node input q = record q {
  head = node;
  next = update q.next node none;
  value = update q.value node input;
  live = update q.live node true;
  producers = update q.producers t (linking q.head node);
  pushed = q.pushed ++ input ∷ [];
}

-- the store of `Enqueue`
unfoldable pub link : (t prev node : ℕ) → MpscQueue → MpscQueue
link t prev node q = record q {
  next = update q.next prev (some node);
  producers = update q.producers t idle;
}

-- `Dequeue` up to the load of `tail->Next`: it returns false where that is null
unfoldable pub look : MpscQueue → MpscQueue
look q = elim (q.next q.tail) [ none ↦ q | some n ↦ record q { consumer = found n } ]

-- the result and the store of `_tail`
unfoldable pub advance : (next : ℕ) → MpscQueue → MpscQueue
advance n q = record q { tail = n; consumer = deleting q.tail; popped = q.popped ++ q.value n ∷ [] }

-- the `delete` of the old tail
unfoldable pub delete_node : (old : ℕ) → MpscQueue → MpscQueue
delete_node old q = record q { live = update q.live old false; consumer = ready }

-- `new` returns memory that is not allocated.
pub data Step : MpscQueue → MpscQueue → Type 0 where
  exchanges :
      (q : MpscQueue) (t node input : ℕ)
      → q.producers t ≡ idle
      → q.live node ≡ false
      → Step q (exchange t node input q)
  links :
      (q : MpscQueue) (t prev node : ℕ)
      → q.producers t ≡ linking prev node
      → Step q (link t prev node q)
  looks : (q : MpscQueue) → q.consumer ≡ ready → Step q (look q)
  advances : (q : MpscQueue) (n : ℕ) → q.consumer ≡ found n → Step q (advance n q)
  deletes : (q : MpscQueue) (old : ℕ) → q.consumer ≡ deleting old → Step q (delete_node old q)

pub data Reach : MpscQueue → Type 0 where
  start : (dummy : ℕ) → Reach (new dummy)
  after : {q q' : MpscQueue} → Reach q → Step q q' → Reach q'
