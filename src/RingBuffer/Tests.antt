-- ===== src/RingBuffer/Tests.antt =====
-- RingBuffer at concrete inputs.
use cpp_infra.Common.{
  List, [], arith, false, get_elem?, if◌then◌else◌, none, refl, some, suc, true, zero, ℕ, ◌%◌, ◌+◌,
  ◌<◌, ◌==◌, ◌^◌, ◌∷◌, ◌≡◌, ◌⊎◌,
}
use cpp_infra.RingBuffer.{RingBuffer, new, push, pop, put_slot}
use cpp_infra.RingBuffer.Refine.{IsQueue, push_refines, pop_refines}
use cpp_infra.RingBuffer.Spsc.{spsc, Step, Reach, Producer, Consumer, start, step}
use cpp_infra.RingBuffer.Safety.{Pending, Reach-Pending}

abbrev values : List ℕ
values = 8 ∷ 9 ∷ []

-- Capacity 4, after a wrap: 8 at index 3, 9 at index 0.
abbrev wrapped : RingBuffer ℕ
wrapped = record {
  buffer = λ i. if i == 3 then some 8 else if i == 0 then some 9 else none;
  read = 3;
  write = 1;
}

wrapped-IsQueue : IsQueue 2 wrapped (8 ∷ 9 ∷ [])
wrapped-IsQueue = record {
  read_in = omega arith;
  room = omega arith;
  write_at = refl;
  slots = λ i h. four i h;
}
  where
    four : (i : ℕ) → i < 4 → wrapped.buffer ((3 + i) % 4) ≡ get_elem? (8 ∷ 9 ∷ []) i
    four zero h = refl
    four (suc zero) h = refl
    four (suc (suc zero)) h = refl
    four (suc (suc (suc zero))) h = refl
    four (suc (suc (suc (suc i)))) h = absurd (omega arith)

push_wraps : ((push 2 7 wrapped).1 ≡ true) × ((push 2 7 wrapped).0.write ≡ 2)
unfolding push
push_wraps = (refl, refl)

pop_oldest : (pop 2 wrapped).1 ≡ some 8
unfolding pop
pop_oldest = refl

push_refines_example :
    ((3 ≡ 2 ^ 2) × (push 2 7 wrapped ≡ (wrapped, false)))
    ⊎ ((3 < 2 ^ 2)
        × ((push 2 7 wrapped).1 ≡ true)
        × IsQueue 2 (push 2 7 wrapped).0 (8 ∷ 9 ∷ 7 ∷ []))
push_refines_example = push_refines 2 wrapped (8 ∷ 9 ∷ []) 7 wrapped-IsQueue

pop_refines_example :
    ((values ≡ []) × (pop 2 wrapped ≡ (wrapped, none)))
    ⊎ ((x : ℕ) × (rest : List ℕ) × (values ≡ x ∷ rest)
        × ((pop 2 wrapped).1 ≡ some x)
        × IsQueue 2 (pop 2 wrapped).0 rest)
pop_refines_example = pop_refines 2 wrapped (8 ∷ 9 ∷ []) wrapped-IsQueue

-- A Push in progress, with its value built and not published.
abbrev building : Reach 2 (
    spsc
      (record (new ℕ) { buffer = put_slot (λ _. none) 0 (some 5) })
      (Producer.built 5 0 1)
      Consumer.idle
      []
      [])
building =
    step (step (step start (Step.load_write 5)) (Step.see_room (omega arith))) (Step.construct refl)

Reach-Pending_example : Pending 2 (
    spsc
      (record (new ℕ) { buffer = put_slot (λ _. none) 0 (some 5) })
      (Producer.built 5 0 1)
      Consumer.idle
      []
      [])
Reach-Pending_example = Reach-Pending 2 building
