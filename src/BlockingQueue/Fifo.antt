-- ===== src/BlockingQueue/Fifo.antt =====
-- The order of the values of BlockingQueue, and its refusals.
use mathlib.Core.List.{append_assoc}
use cpp_infra.Common.{
  Bool, List-cases, [], arith, inl, inr, refl, sym, true, ◌++◌, ◌<◌, ◌∙◌, ◌∷◌, ◌≡◌,
}
use cpp_infra.BlockingQueue.{
  BlockingQueue, push, cancel, ready, pop_ready, recorded, Step, Reach, pushes, cancels, pops,
  start, after,
}

-- What holds of a queue between any two steps.
pub record IsSound {ℓ} {A : Type ℓ} (q : BlockingQueue A) : Type ℓ where
  pub fifo : q.pushed ≡ q.popped ++ q.queue
  pub refused : 0 < q.refusals → q.nonblock ≡ true

module _ {ℓ} {A : Type ℓ} where
  ready_empty : (q : BlockingQueue A) → q.queue ≡ [] → ready q ≡ true → q.nonblock ≡ true
  ready_empty q e r = rw e at r

  IsSound-pop_ready :
      (q : BlockingQueue A) → IsSound q → ready q ≡ true → IsSound (recorded (pop_ready q))
  unfolding pop_ready
  IsSound-pop_ready q inv r = elim (List-cases q.queue) [
    | inl e ↦
        rw e (record { fifo = rw (inv.fifo, e) refl; refused = λ some_refused. ready_empty q e r })
    | inr (x, xs, e) ↦ rw e (record {
      fifo = inv.fifo ∙ rw e (sym (append_assoc q.popped (x ∷ []) xs));
      refused = inv.refused;
    })
  ]

  IsSound-Step : {q q' : BlockingQueue A} → IsSound q → Step q q' → IsSound q'
  unfolding push cancel
  IsSound-Step inv (pushes q value) = record {
    fifo = rw inv.fifo (append_assoc q.popped q.queue (value ∷ []));
    refused = inv.refused;
  }
  IsSound-Step inv (cancels q) = record { fifo = inv.fifo; refused = λ some_refused. refl }
  IsSound-Step inv (pops q r) = IsSound-pop_ready q inv r

  -- In every state that any threads reach by pushes, pops and cancels in any order, the values
  -- pushed are, in order, the values that pops returned and then those queued, and no pop has returned
  -- false unless the queue is in its mode that does not block.
  pub Reach-IsSound : (nonblock : Bool) {q : BlockingQueue A} → Reach nonblock q → IsSound q
  Reach-IsSound nonblock start = record {
    fifo = refl;
    refused = λ some_refused. absurd (omega arith);
  }
  Reach-IsSound nonblock (after r step) = IsSound-Step (Reach-IsSound nonblock r) step
