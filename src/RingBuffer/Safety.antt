-- ===== src/RingBuffer/Safety.antt =====
-- Push and Pop run at the same time: the objects in the storage, and the order of the values.
use native.Mathlib.Decide.{dec_lt}
use mathlib.Core.Option.{some-injective}
use native.Mathlib.Nat.{mod-eq_of_lt, mod-lt, mod-add-mod}
use mathlib.Core.List.{append_assoc}
use cpp_infra.Common.{
  List, [], ap, arith, get_elem?-none, length, length-append, none, refl, some, suc, sym, ℕ, ◌%◌,
  ◌++◌, ◌+◌, ◌<◌, ◌^◌, ◌∙◌, ◌∷◌, ◌≡◌, ◌≢◌,
}
use cpp_infra.RingBuffer.{RingBuffer, put_slot}
use cpp_infra.RingBuffer.Wrap.{wrap_cases, pow-pos, turn}
use cpp_infra.RingBuffer.Refine.{Holds-put, Holds-take}
use cpp_infra.RingBuffer.Spsc.{Spsc, spsc, Step, Reach, Producer, Consumer, start, step}
use cpp_infra.RingBuffer.Invariant.{
  Inv, base, held, contents, ProducerOk, ConsumerOk, ConsumerOk-grow, ProducerOk-le, contents-cons,
  length-contents, base-lt, base-offset,
}

module _ {A : Type 0} (cap : ℕ) {r : RingBuffer A} {c : Consumer} {xs : List A} where
  -- the slot that the producer builds in is the first free one
  slot_at : {p : Producer A} → Inv cap r p c xs → r.write ≡ (base cap c r.read + length xs) % cap
  slot_at i = i.write_at ∙ sym (base-offset cap c r.read (length xs))

  room_of_ne :
      {p : Producer A}
      → Inv cap r p c xs
      → (r.write + 1) % cap ≢ r.read
      → suc (length xs + held c) < cap
  room_of_ne i ne = elim (dec_lt (suc (length xs + held c)) cap) [
    | yes h ↦ h
    | no h ↦ absurd (
        ne (
          ground (
            arith,
            i.room,
            i.read_in,
            wrap_cases cap r.read (suc (length xs + held c)) i.read_in (i.room),
            i.write_at,
            mod-add-mod (r.read + (length xs + held c)) cap 1,
            ap (λ n. n % cap) (next_sum r.read (length xs + held c)),
          )))
  ]
    where
      next_sum : (a b : ℕ) → a + b + 1 ≡ a + suc b
      next_sum a b = omega arith

  free_slot : (v : A) (w n : ℕ) → Inv cap r (Producer.room v w n) c xs → r.buffer w ≡ none
  free_slot v w n i =
      rw (i.producer.0 ∙ slot_at i)
        (i.slots (length xs) (omega (arith, i.room)) ∙ get_elem?-none xs (length xs) (omega arith))

  constructed :
      (v : A) (w n : ℕ)
      → Inv cap r (Producer.room v w n) c xs
      → Inv cap (record r { buffer = put_slot r.buffer w (some v) }) (Producer.built v w n) c xs
  constructed v w n i = record {
    read_in = i.read_in;
    room = i.room;
    write_at = i.write_at;
    slots = rw (i.producer.0 ∙ slot_at i) (
        Holds-put cap r.buffer (base cap c r.read) xs v (base-lt cap c r.read i.read_in)
          (omega (arith, i.room)) i.slots);
    producer = i.producer;
    consumer = i.consumer;
  }

  published :
      (v : A) (w n : ℕ)
      → Inv cap r (Producer.built v w n) c xs
      → Inv cap (record r { write = n }) Producer.idle c (xs ++ v ∷ [])
  published v w n i =
      let len = length-append xs (v ∷ []) in
      record {
        read_in = i.read_in;
        room = omega (arith, i.producer.2, len);
        write_at =
            rw (i.producer.1, i.write_at, mod-add-mod) (ap (λ m. m % cap) (omega (arith, len)));
        slots = i.slots;
        producer = tt;
        consumer = ConsumerOk-grow c r.read (length xs) _ (omega (arith, len)) i.consumer;
      }

module _ {A : Type 0} (cap : ℕ) {r : RingBuffer A} {p : Producer A} where
  waiting : {i : ℕ} {xs : List A} → Inv cap r p (Consumer.loaded i) xs → i ≢ r.write → 0 < length xs
  waiting {xs = []} v ne = absurd (
      ne (
        ground (
          arith,
          v.consumer,
          v.read_in,
          wrap_cases cap r.read 0 v.read_in (omega arith),
          v.write_at,
        )))
  waiting {xs = x ∷ xs} v ne = omega arith

  front :
      {i : ℕ} {xs : List A}
      → Inv cap r p (Consumer.ready i) xs
      → (x : A) × (rest : List A) × (xs ≡ x ∷ rest) × (r.buffer i ≡ some x)
  front {i} {xs = []} v = absurd (omega (arith, v.consumer.1))
  front {i} {xs = x ∷ xs} v = (
    x,
    xs,
    refl,
    rw v.consumer.0 (
        ground (
          arith,
          v.slots 0 (omega (arith, v.read_in)),
          wrap_cases cap r.read 0 v.read_in (omega arith),
          contents-cons p x xs,
        )),
  )

  moved :
      {i : ℕ} {x : A} {xs : List A}
      → Inv cap r p (Consumer.ready i) (x ∷ xs)
      → Inv cap (record r { buffer = put_slot r.buffer i none }) p (Consumer.taken i) xs
  moved {i} {x} {xs} v = record {
    read_in = v.read_in;
    room = omega (arith, v.room);
    write_at = v.write_at ∙ ap (λ m. (r.read + m) % cap) (omega arith);
    slots = rw v.consumer.0 (
        Holds-take cap r.buffer r.read x (contents p xs) v.read_in
          (rw (contents-cons p x xs) at
            (length-contents cap p (x ∷ xs) r.write _ v.producer (omega arith) v.room))
          (rw (contents-cons p x xs) at v.slots));
    producer = ProducerOk-le cap p r.write _ _ (omega arith) v.producer;
    consumer = v.consumer.0;
  }

  released :
      {i : ℕ} {xs : List A}
      → Inv cap r p (Consumer.taken i) xs
      → Inv cap (record r { read = (i + 1) % cap }) p Consumer.idle xs
  released {i} {xs} v = record {
    read_in = mod-lt (i + 1) (omega (arith, v.read_in));
    room = omega (arith, v.room);
    write_at =
        v.write_at
        ∙ rw v.consumer
            (sym (turn cap r.read (length xs + 0) ∙ ap (λ m. (r.read + m) % cap) (omega arith)));
    slots = rw v.consumer v.slots;
    producer = ProducerOk-le cap p r.write _ _ (omega arith) v.producer;
    consumer = tt;
  }

-- `pending` is what has been pushed and not yet popped.
pub record Pending {A : Type 0} (k : ℕ) (s : Spsc A) : Type 0 where
  pub pending : List A
  pub fifo : s.pushed ≡ s.popped ++ pending
  pub inv : Inv (2 ^ k) s.ring s.producer s.consumer pending

module _ {A : Type 0} (k : ℕ) where
  same_ring :
      {r : RingBuffer A} {p q : Producer A} {c d : Consumer} {g h : List A}
      (i : Pending k (spsc r p c g h))
      → base (2 ^ k) d r.read ≡ base (2 ^ k) c r.read
      → held d ≡ held c
      → contents q i.pending ≡ contents p i.pending
      → ProducerOk (2 ^ k) q r.write (length i.pending + held d)
      → ConsumerOk d r.read (length i.pending)
      → Pending k (spsc r q d g h)
  same_ring {r} i b hd same pr co = record {
    pending = i.pending;
    fifo = i.fifo;
    inv = record {
      read_in = i.inv.read_in;
      room = omega (arith, i.inv.room);
      write_at = rw hd i.inv.write_at;
      slots = rw (b, same) i.inv.slots;
      producer = pr;
      consumer = co;
    };
  }

  pub Step-Pending : {s t : Spsc A} → Step k s t → Pending k s → Pending k t
  Step-Pending (Step.load_write v) i = same_ring i refl refl refl refl i.inv.consumer
  Step-Pending (Step.see_full e) i = same_ring i refl refl refl tt i.inv.consumer
  Step-Pending (Step.see_room e) i =
      same_ring i refl refl refl
        (
          i.inv.producer,
          ap (λ w. (w + 1) % 2 ^ k) i.inv.producer,
          room_of_ne (2 ^ k) i.inv (rw i.inv.producer at e),
        )
        i.inv.consumer
  Step-Pending (Step.construct {v} {w} {n} e) i = record {
    pending = i.pending;
    fifo = i.fifo;
    inv = constructed (2 ^ k) v w n i.inv;
  }
  Step-Pending (Step.construct_over {v} {w} {n} e) i = absurd (cc (free_slot (2 ^ k) v w n i.inv))
  Step-Pending (Step.publish_write {v} {w} {n}) i = record {
    pending = i.pending ++ v ∷ [];
    fifo = rw i.fifo (append_assoc _ i.pending (v ∷ []));
    inv = published (2 ^ k) v w n i.inv;
  }
  Step-Pending Step.load_read i = same_ring i refl refl refl i.inv.producer refl
  Step-Pending (Step.see_empty e) i = same_ring i refl refl refl i.inv.producer tt
  Step-Pending (Step.see_value e) i =
      same_ring i refl refl refl i.inv.producer (i.inv.consumer, waiting (2 ^ k) i.inv e)
  Step-Pending (Step.move_out {h} {x} e) i =
      let (y, rest, cons, at) = front (2 ^ k) i.inv in
      record {
        pending = rest;
        fifo =
            i.fifo
            ∙ ap (◌++◌ h) (cons ∙ ap (λ z. z ∷ rest) (some-injective _ _ (sym at ∙ e)))
            ∙ sym (append_assoc h (x ∷ []) rest);
        inv = moved (2 ^ k) (rw cons at i.inv);
      }
  Step-Pending (Step.move_nothing e) i =
      let (y, rest, cons, at) = front (2 ^ k) i.inv in absurd (cc at)
  Step-Pending Step.publish_read i = record {
    pending = i.pending;
    fifo = i.fifo;
    inv = released (2 ^ k) i.inv;
  }

  -- In every state that the two threads reach, the values popped and those still in the ring are,
  -- in order, the values pushed; the slots between the indices hold exactly these and the one under
  -- construction; and neither thread has built over a live object or moved out of an empty slot.
  pub Reach-Pending : {s : Spsc A} → Reach k s → Pending k s
  Reach-Pending start = record {
    pending = [];
    fifo = refl;
    inv = record {
      read_in = pow-pos k;
      room = pow-pos k;
      write_at = omega (arith, mod-eq_of_lt {n = 0} {m = 2 ^ k} (pow-pos k));
      slots = λ i h. refl;
      producer = tt;
      consumer = tt;
    };
  }
  Reach-Pending (step r st) = Step-Pending st (Reach-Pending r)
