-- ===== src/ProducerConsumerQueue/Tests.antt =====
-- Runs of the theorems on a concrete queue.
use cpp_infra.Common.{[], refl, ℕ, ◌∷◌, ◌≡◌}
use cpp_infra.ProducerConsumerQueue.{
  ProducerConsumerQueue, new, push, pop, cancel, recorded, Step, Reach,
}
use cpp_infra.ProducerConsumerQueue.Fifo.{IsConserved, Reach-IsConserved}

abbrev popped_one : ProducerConsumerQueue ℕ
popped_one = recorded (pop (push 2 (push 1 new)))

popped_one-Reach : Reach popped_one
popped_one-Reach =
    Reach.after (Reach.after (Reach.after Reach.start (Step.pushes _ 1)) (Step.pushes _ 2))
      (Step.pops _)

cancelled-Reach : Reach (cancel popped_one)
cancelled-Reach = Reach.after popped_one-Reach (Step.cancels _)

Reach-IsConserved_example : IsConserved (cancel popped_one)
Reach-IsConserved_example = Reach-IsConserved cancelled-Reach

-- The first value was handed out, the second deleted.
fates : ((cancel popped_one).popped ≡ (1 ∷ [])) × ((cancel popped_one).deleted ≡ (2 ∷ []))
unfolding push pop cancel
fates = (refl, refl)
