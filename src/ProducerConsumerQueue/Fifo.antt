-- ===== src/ProducerConsumerQueue/Fifo.antt =====
-- The order of the values, up to the shutdown and after it.
use mathlib.Core.Path.{subst}
use mathlib.Core.List.{append-nil, append_assoc}
use cpp_infra.Common.{
  Bool, Bool-cases, List, List-cases, [], ap, false, if◌then◌else◌, inl, inr, none, refl, sym, true,
  ◌++◌, ◌||◌, ◌∙◌, ◌∷◌, ◌≡◌,
}
use cpp_infra.ProducerConsumerQueue.{
  ProducerConsumerQueue, push, is_empty, take_front, pop, wait_and_pop, recorded, delete_all,
  cancel, Step, Reach, pushes, pops, waits_and_pops, cancels, start, after,
}

-- What holds of a queue between any two steps.
pub record IsConserved {ℓ} {A : Type ℓ} (q : ProducerConsumerQueue A) : Type ℓ where
  pub fifo : q.pushed ≡ q.popped ++ (q.deleted ++ q.queue)
  pub kept : q.shutdown ≡ false → q.deleted ≡ []

or_true : (a b : Bool) → b ≡ true → (a || b) ≡ true
or_true true b e = refl
or_true false b e = e

if_true {ℓ} : {B : Type ℓ} (b : Bool) (x y : B) → b ≡ true → (if b then x else y) ≡ x
if_true true x y e = refl
if_true false x y e = absurd (cc e)

module _ {ℓ} {A : Type ℓ} where
  delete_all_lem : (deleted queue : List A) → delete_all deleted queue ≡ deleted ++ queue
  delete_all_lem deleted [] = sym (append-nil deleted)
  delete_all_lem deleted (x ∷ xs) =
      delete_all_lem (deleted ++ (x ∷ [])) xs ∙ append_assoc deleted (x ∷ []) xs

  -- `Pop` and the end of `WaitAndPop` do the same.
  abbrev taken : ProducerConsumerQueue A → ProducerConsumerQueue A
  taken q = recorded (if is_empty q.queue || q.shutdown then (none, q) else take_front q)

  stays : (q : ProducerConsumerQueue A) → (is_empty q.queue || q.shutdown) ≡ true → taken q ≡ q
  stays q e = ap recorded (if_true _ (none, q) (take_front q) e)

  empty_stays : (q : ProducerConsumerQueue A) → q.queue ≡ [] → taken q ≡ q
  empty_stays q e = stays q (rw e refl)

  taken_down : (q : ProducerConsumerQueue A) → q.shutdown ≡ true → taken q ≡ q
  taken_down q down = stays q (or_true (is_empty q.queue) q.shutdown down)

  IsConserved-taken : (q : ProducerConsumerQueue A) → IsConserved q → IsConserved (taken q)
  IsConserved-taken q inv = elim (List-cases q.queue) [
    | inl e ↦ subst IsConserved (sym (empty_stays q e)) inv
    | inr (x, xs, e) ↦ elim (Bool-cases q.shutdown) [
      | inl down ↦ subst IsConserved (sym (taken_down q down)) inv
      | inr up ↦
          rw (e, up)
            (record {
              fifo = inv.fifo ∙ rw (e, inv.kept up) (sym (append_assoc q.popped (x ∷ []) xs));
              kept = λ down. inv.kept up;
            })
    ]
  ]

  IsConserved-Step : {q q' : ProducerConsumerQueue A} → IsConserved q → Step q q' → IsConserved q'
  unfolding push pop wait_and_pop cancel
  IsConserved-Step inv (pushes q value) = record {
    fifo = rw inv.fifo (
        append_assoc q.popped (q.deleted ++ q.queue) (value ∷ [])
        ∙ ap (◌++◌ q.popped) (append_assoc q.deleted q.queue (value ∷ [])));
    kept = inv.kept;
  }
  IsConserved-Step inv (pops q) = IsConserved-taken q inv
  IsConserved-Step inv (waits_and_pops q r) = IsConserved-taken q inv
  IsConserved-Step inv (cancels q) = record {
    fifo = inv.fifo ∙ ap (◌++◌ q.popped) (sym (append-nil _ ∙ delete_all_lem q.deleted q.queue));
    kept = λ down. absurd (cc down);
  }

  -- In every state that any threads reach by pushes, pops, waiting pops and cancels in any order, the
  -- values pushed are, in order, those that pops returned, those deleted and those queued: none is lost,
  -- returned twice, or both returned and deleted; before a cancel none is deleted.
  pub Reach-IsConserved : {q : ProducerConsumerQueue A} → Reach q → IsConserved q
  Reach-IsConserved start = record { fifo = refl; kept = λ up. refl }
  Reach-IsConserved (after r step) = IsConserved-Step (Reach-IsConserved r) step
