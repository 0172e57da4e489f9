-- ===== src/RingBuffer/Spsc.antt =====
-- Push and Pop of free_queue/ringbuffer.h as the atomic accesses that they make, for one producer
-- thread and one consumer thread that run at the same time. A thread's local variables are the
-- arguments of its program counter. The accesses are taken one after another (sequential
-- consistency); the weaker orders that acquire and release leave open are not modelled.
use cpp_infra.Common.{List, [], none, some, ℕ, ◌++◌, ◌∷◌, ◌≡◌, ◌≢◌}
use cpp_infra.RingBuffer.{RingBuffer, put_slot, next_index, new}

module _ (A : Type 0) where
  -- Where Push stands: before `write_.load`, before the test, before the construction, before
  -- `write_.store`. `broken` is a construction over an object that was never destroyed.
  pub data Producer : Type 0 where
    idle : Producer
    loaded : A → ℕ → Producer
    room : A → ℕ → ℕ → Producer
    built : A → ℕ → ℕ → Producer
    broken : Producer

-- Where Pop stands: before `read_.load`, before the test, before the move, before `read_.store`.
-- `broken` is a move out of storage that holds no object.
pub data Consumer : Type 0 where
  idle : Consumer
  loaded : ℕ → Consumer
  ready : ℕ → Consumer
  taken : ℕ → Consumer
  broken : Consumer

-- The shared ring, the two threads, and the values whose Push and Pop have taken effect.
pub record Spsc (A : Type 0) : Type 0 where
  pub ring : RingBuffer A
  pub producer : Producer A
  pub consumer : Consumer
  pub pushed : List A
  pub popped : List A

abbrev pub spsc : {A : Type 0} → RingBuffer A → Producer A → Consumer → List A → List A → Spsc A
spsc r p c g h = record { ring = r; producer = p; consumer = c; pushed = g; popped = h }

module _ {A : Type 0} (k : ℕ) where
  pub data Step : Spsc A → Spsc A → Type 0 where
    load_write :
        {r : RingBuffer A} {c : Consumer} {g h : List A} (v : A)
        → Step (spsc r Producer.idle c g h) (spsc r (Producer.loaded v r.write) c g h)
    see_full :
        {r : RingBuffer A} {c : Consumer} {g h : List A} {v : A} {w : ℕ}
        → next_index k w ≡ r.read
        → Step (spsc r (Producer.loaded v w) c g h) (spsc r Producer.idle c g h)
    see_room :
        {r : RingBuffer A} {c : Consumer} {g h : List A} {v : A} {w : ℕ}
        → next_index k w ≢ r.read
        → Step
            (spsc r (Producer.loaded v w) c g h)
            (spsc r (Producer.room v w (next_index k w)) c g h)
    construct :
        {r : RingBuffer A} {c : Consumer} {g h : List A} {v : A} {w n : ℕ}
        → r.buffer w ≡ none
        → Step
            (spsc r (Producer.room v w n) c g h)
            (spsc (record r { buffer = put_slot r.buffer w (some v) }) (Producer.built v w n) c g h)
    construct_over :
        {r : RingBuffer A} {c : Consumer} {g h : List A} {v x : A} {w n : ℕ}
        → r.buffer w ≡ some x
        → Step (spsc r (Producer.room v w n) c g h) (spsc r Producer.broken c g h)
    publish_write :
        {r : RingBuffer A} {c : Consumer} {g h : List A} {v : A} {w n : ℕ}
        → Step
            (spsc r (Producer.built v w n) c g h)
            (spsc (record r { write = n }) Producer.idle c (g ++ v ∷ []) h)
    load_read :
        {r : RingBuffer A} {p : Producer A} {g h : List A}
        → Step (spsc r p Consumer.idle g h) (spsc r p (Consumer.loaded r.read) g h)
    see_empty :
        {r : RingBuffer A} {p : Producer A} {g h : List A} {i : ℕ}
        → i ≡ r.write
        → Step (spsc r p (Consumer.loaded i) g h) (spsc r p Consumer.idle g h)
    see_value :
        {r : RingBuffer A} {p : Producer A} {g h : List A} {i : ℕ}
        → i ≢ r.write
        → Step (spsc r p (Consumer.loaded i) g h) (spsc r p (Consumer.ready i) g h)
    move_out :
        {r : RingBuffer A} {p : Producer A} {g h : List A} {i : ℕ} {x : A}
        → r.buffer i ≡ some x
        → Step (spsc r p (Consumer.ready i) g h) (
            spsc
              (record r { buffer = put_slot r.buffer i none })
              p
              (Consumer.taken i)
              g
              (h ++ x ∷ []))
    move_nothing :
        {r : RingBuffer A} {p : Producer A} {g h : List A} {i : ℕ}
        → r.buffer i ≡ none
        → Step (spsc r p (Consumer.ready i) g h) (spsc r p Consumer.broken g h)
    publish_read :
        {r : RingBuffer A} {p : Producer A} {g h : List A} {i : ℕ}
        → Step
            (spsc r p (Consumer.taken i) g h)
            (spsc (record r { read = next_index k i }) p Consumer.idle g h)

  -- The states that the two threads can reach from a new ring.
  pub data Reach : Spsc A → Type 0 where
    start : Reach (spsc (new A) Producer.idle Consumer.idle [] [])
    step : {s t : Spsc A} → Reach s → Step s t → Reach t
