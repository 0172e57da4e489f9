-- ===== src/RingBuffer/Invariant.antt =====
-- What holds in every state that the producer and the consumer can reach.
use native.Mathlib.Nat.{mod-lt}
use cpp_infra.Common.{
  List, [], ap, arith, length, length-append, refl, suc, ℕ, ◌%◌, ◌++◌, ◌+◌, ◌<◌, ◌∙◌, ◌∷◌, ◌≡◌, ◌≤◌,
}
use cpp_infra.RingBuffer.{RingBuffer}
use cpp_infra.RingBuffer.Wrap.{turn}
use cpp_infra.RingBuffer.Refine.{Holds}
use cpp_infra.RingBuffer.Spsc.{Producer, Consumer}

-- 1 while a destroyed slot is still counted as used
abbrev pub held : Consumer → ℕ
held (Consumer.taken i) = 1
held _ = 0

-- the first slot that may hold a value
abbrev pub base : ℕ → Consumer → ℕ → ℕ
base cap (Consumer.taken i) read = (read + 1) % cap
base cap _ read = read

abbrev pub ConsumerOk : Consumer → ℕ → ℕ → Type 0
ConsumerOk Consumer.idle read len = Unit
ConsumerOk (Consumer.loaded i) read len = i ≡ read
ConsumerOk (Consumer.ready i) read len = (i ≡ read) × (0 < len)
ConsumerOk (Consumer.taken i) read len = i ≡ read
ConsumerOk Consumer.broken read len = ⊥

pub base-lt : (cap : ℕ) (c : Consumer) (read : ℕ) → read < cap → base cap c read < cap
base-lt cap (Consumer.taken i) read h = mod-lt (read + 1) (omega arith)
base-lt cap _ read h = h

pub base-offset :
    (cap : ℕ) (c : Consumer) (read n : ℕ)
    → (base cap c read + n) % cap ≡ (read + (n + held c)) % cap
base-offset cap (Consumer.taken i) read n =
    turn cap read n ∙ ap (λ m. (read + m) % cap) (omega arith)
base-offset cap _ read n = ap (λ m. (read + m) % cap) (omega arith)

pub ConsumerOk-grow :
    (c : Consumer) (read n m : ℕ) → n ≤ m → ConsumerOk c read n → ConsumerOk c read m
ConsumerOk-grow Consumer.idle read n m h ok = ok
ConsumerOk-grow (Consumer.loaded i) read n m h ok = ok
ConsumerOk-grow (Consumer.ready i) read n m h ok = (ok.0, omega arith)
ConsumerOk-grow (Consumer.taken i) read n m h ok = ok
ConsumerOk-grow Consumer.broken read n m h ok = ok

module _ {A : Type 0} where
  -- what the slots hold: the values pending, and the one constructed and not yet published
  abbrev pub contents : Producer A → List A → List A
  contents (Producer.built v w n) xs = xs ++ v ∷ []
  contents _ xs = xs

  abbrev pub ProducerOk : ℕ → Producer A → ℕ → ℕ → Type 0
  ProducerOk cap Producer.idle write used = Unit
  ProducerOk cap (Producer.loaded v w) write used = w ≡ write
  ProducerOk cap (Producer.room v w n) write used =
      (w ≡ write) × (n ≡ (write + 1) % cap) × (suc used < cap)
  ProducerOk cap (Producer.built v w n) write used =
      (w ≡ write) × (n ≡ (write + 1) % cap) × (suc used < cap)
  ProducerOk cap Producer.broken write used = ⊥

  pub contents-cons :
      (p : Producer A) (x : A) (xs : List A) → contents p (x ∷ xs) ≡ x ∷ contents p xs
  contents-cons (Producer.built v w n) x xs = refl
  contents-cons _ x xs = refl

  pub length-contents :
      (cap : ℕ) (p : Producer A) (xs : List A) (write used : ℕ)
      → ProducerOk cap p write used
      → length xs ≤ used
      → used < cap
      → length (contents p xs) < cap
  length-contents cap (Producer.built v w n) xs write used ok h u =
      omega (arith, length-append xs (v ∷ []))
  length-contents cap _ xs write used ok h u = omega arith

  -- a smaller use leaves the producer's facts in place
  pub ProducerOk-le :
      (cap : ℕ) (p : Producer A) (write used less : ℕ)
      → less ≤ used
      → ProducerOk cap p write used
      → ProducerOk cap p write less
  ProducerOk-le cap Producer.idle write used less h ok = ok
  ProducerOk-le cap (Producer.loaded v w) write used less h ok = ok
  ProducerOk-le cap (Producer.room v w n) write used less h ok = (ok.0, ok.1, omega arith)
  ProducerOk-le cap (Producer.built v w n) write used less h ok = (ok.0, ok.1, omega arith)
  ProducerOk-le cap Producer.broken write used less h ok = ok

  module _ (cap : ℕ) where
    pub record Inv (r : RingBuffer A) (p : Producer A) (c : Consumer) (xs : List A) : Type 0 where
      pub read_in : r.read < cap
      pub room : length xs + held c < cap
      pub write_at : r.write ≡ (r.read + (length xs + held c)) % cap
      pub slots : Holds cap r.buffer (base cap c r.read) (contents p xs)
      pub producer : ProducerOk cap p r.write (length xs + held c)
      pub consumer : ConsumerOk c r.read (length xs)
