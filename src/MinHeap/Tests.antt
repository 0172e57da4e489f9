-- ===== src/MinHeap/Tests.antt =====
-- Runs of the theorems on a concrete heap.
use cpp_infra.Common.{Bool, arith, if◌then◌else◌, ltb, refl, some, true, ℕ, ◌+◌, ◌<◌, ◌>>=◌, ◌≡◌}
use cpp_infra.MinHeap.{
  MinHeap, no_idx, push, pop, erase, adjust, place, shift_up, shift_up_unconditional,
}
use cpp_infra.MinHeap.Up.{IsHeap}
use cpp_infra.MinHeap.Push.{Pushed, push-Pushed}
use cpp_infra.MinHeap.Pop.{Popped, pop-Popped}
use cpp_infra.MinHeap.Erase.{Erased, erase-Erased}
use cpp_infra.MinHeap.Adjust.{Adjusted, adjust-Adjusted, retime}

-- three entries, at the times 5, 6 and 7
abbrev three : MinHeap
three = record {
  p = λ i. i;
  n = 3;
  a = 8;
  idx = λ t. if ltb t 3 then t else no_idx;
  time = λ t. t + 5;
}

abbrev Members : ℕ → Type 0
Members t = t < 3

three-IsHeap : IsHeap three Members
three-IsHeap = record {
  places = record { at = λ i lt. (lt, ground arith); find = λ t m. (ground arith, ground arith) };
  ordered = λ j at lt. omega arith;
  room = omega arith;
  small = omega arith;
}

abbrev always : ℕ → Bool
always a = true

pop-Popped_example :
    (e : ℕ) × (s' : MinHeap) × (pop three ≡ some (some e, s')) × Popped three Members e s'
pop-Popped_example = pop-Popped three-IsHeap (omega arith)

push-Pushed_example : Pushed always three Members 4 (push always 4 three)
push-Pushed_example = push-Pushed always 4 three-IsHeap (λ m. omega arith) (omega arith)

erase-Erased_example :
    (s' : MinHeap) × (erase 1 three ≡ some (true, s')) × Erased three Members 1 s'
erase-Erased_example = erase-Erased 1 three-IsHeap (omega arith)

adjust-Adjusted_example : Adjusted always 2 (retime 2 1 three) Members
adjust-Adjusted_example = adjust-Adjusted always 2 1 three-IsHeap (omega arith)

-- After its time is set to 1, the entry 2 is on top.
adjusted_top : (do r ← adjust always 2 (retime 2 1 three); some (r.1.p 0)) ≡ some 2
unfolding adjust place shift_up_unconditional shift_up
adjusted_top = refl
