-- ===== src/RingBuffer.antt =====
-- free_queue/ringbuffer.h: RingBuffer<T, Capacity>, the queue of one producer and one consumer.
-- `buffer` is the array of storage slots, `none` for storage that holds no constructed object; the
-- indices stay below the capacity (Ring.Invariant), so no other slot is touched. The static_assert
-- makes Capacity a power of two, here 2 ^ k, so `& (Capacity - 1)` is `% 2 ^ k`.
-- An index is below 2 ^ 63, so that `w + 1` does not wrap.
pub mod Wrap
pub mod Refine
pub mod Spsc
pub mod Invariant
pub mod Safety
mod Tests
use cpp_infra.Common.{
  Bool, Option, false, if◌then◌else◌, leb, none, some, suc, true, zero, ℕ, ◌%◌, ◌+◌, ◌-◌, ◌==◌, ◌^◌,
}

pub record RingBuffer {ℓ} (A : Type ℓ) : Type ℓ where
  pub buffer : ℕ → Option A
  pub read : ℕ
  pub write : ℕ

-- `(i + 1) & (Capacity - 1)`
abbrev pub next_index : ℕ → ℕ → ℕ
next_index k i = (i + 1) % 2 ^ k

module _ {ℓ} {A : Type ℓ} where
  -- The storage with slot `i` constructed (`some`) or destroyed (`none`).
  unfoldable pub put_slot : (ℕ → Option A) → ℕ → Option A → ℕ → Option A
  put_slot b i o j = if i == j then o else b j

  module _ (k : ℕ) where
    unfoldable pub push : A → RingBuffer A → RingBuffer A × Bool
    push value r =
        let next_w = next_index k r.write in
        if next_w == r.read
        then (r, false)
        else (record r { buffer = put_slot r.buffer r.write (some value); write = next_w }, true)

    -- The option is what goes through `value`; `none` when the function returns false, and when
    -- the slot held no object, which the invariant rules out.
    unfoldable pub pop : RingBuffer A → RingBuffer A × Option A
    pop r = if r.read == r.write then (r, none) else (
      record r { buffer = put_slot r.buffer r.read none; read = next_index k r.read },
      r.buffer r.read,
    )

    unfoldable pub size : RingBuffer A → ℕ
    size r = if leb r.read r.write then r.write - r.read else 2 ^ k - r.read + r.write

    -- `~RingBuffer`: the loop destroys the slots from `r` to `w`, one a round; the fuel is Capacity.
    destroy_loop : ℕ → ℕ → ℕ → (ℕ → Option A) → Option (ℕ → Option A)
    destroy_loop zero r w b = none
    destroy_loop (suc f) r w b =
        let rest = destroy_loop f (next_index k r) w (put_slot b r none) in
        if r == w then some b else rest

    pub destroy : RingBuffer A → Option (ℕ → Option A)
    unfolding destroy_loop
    destroy r = destroy_loop (2 ^ k) r.read r.write r.buffer

-- The constructor: both indices at 0 over storage that holds no object.
abbrev pub new {ℓ} : (A : Type ℓ) → RingBuffer A
new A = record { buffer = λ _. none; read = 0; write = 0 }
