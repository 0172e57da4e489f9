-- ===== src/BlockingQueue/Tests.antt =====
-- Runs of the theorems on concrete queues.
use cpp_infra.Common.{arith, false, length, refl, some, ℕ, ◌<◌, ◌^◌, ◌≡◌}
use cpp_infra.BlockingQueue.{
  BlockingQueue, new, push, pop_ready, Step, Reach, BlockingQueuePro, taking, swapping, new_pro,
  push_pro, enter, swap, test_swapped, refused, recorded, cancel_pro, StepPro, ReachPro,
}
use cpp_infra.BlockingQueue.Fifo.{IsSound, Reach-IsSound}
use cpp_infra.BlockingQueue.Pro.{IsSoundPro, Reach-IsSoundPro, swap_refuses}

abbrev queued : BlockingQueue ℕ
queued = push 2 (push 1 (new false))

queued-Reach : Reach false queued
queued-Reach = Reach.after (Reach.after Reach.start (Step.pushes _ 1)) (Step.pushes _ 2)

popped-Reach : Reach false (recorded (pop_ready queued))
unfolding push
popped-Reach = Reach.after queued-Reach (Step.pops _ refl)

Reach-IsSound_example : IsSound (recorded (pop_ready queued))
Reach-IsSound_example = Reach-IsSound false popped-Reach

-- The first value pushed is the first popped.
first_popped : (pop_ready queued).0 ≡ some 1
unfolding push pop_ready
first_popped = refl

abbrev at_swap : BlockingQueuePro ℕ
at_swap = enter (push_pro 7 (new_pro false))

at_swap-Reach : ReachPro false at_swap
unfolding push_pro
at_swap-Reach =
    ReachPro.after (ReachPro.after ReachPro.start (StepPro.pushes _ 7)) (StepPro.enters _ refl)

at_take-Reach : ReachPro false (refused (test_swapped (swap at_swap)))
unfolding push_pro enter
at_take-Reach = ReachPro.after at_swap-Reach (StepPro.swaps _ refl refl)

at_take-small : length (refused (test_swapped (swap at_swap))).pushed < 2 ^ 32
unfolding push_pro enter swap test_swapped
at_take-small = omega arith

Reach-IsSoundPro_example : IsSoundPro (refused (test_swapped (swap at_swap)))
Reach-IsSoundPro_example = Reach-IsSoundPro false at_take-Reach at_take-small

at_take : (refused (test_swapped (swap at_swap))).consumer ≡ taking
unfolding push_pro enter swap test_swapped
at_take = refl

abbrev cancelled : BlockingQueuePro ℕ
cancelled = enter (cancel_pro (new_pro false))

cancelled-Reach : ReachPro false cancelled
unfolding cancel_pro
cancelled-Reach =
    ReachPro.after (ReachPro.after ReachPro.start (StepPro.cancels _)) (StepPro.enters _ refl)

cancelled-small : length cancelled.pushed < 2 ^ 32
unfolding cancel_pro enter
cancelled-small = omega arith

cancelled_swaps : cancelled.consumer ≡ swapping
unfolding cancel_pro enter
cancelled_swaps = refl

cancelled_returns : (test_swapped (swap cancelled)).0 ≡ false
unfolding cancel_pro enter swap test_swapped
cancelled_returns = refl

swap_refuses_example : cancelled.pushed ≡ cancelled.popped
swap_refuses_example =
    swap_refuses false cancelled-Reach cancelled-small cancelled_swaps cancelled_returns
