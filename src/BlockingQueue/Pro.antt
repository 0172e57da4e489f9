-- ===== src/BlockingQueue/Pro.antt =====
-- The order of the values of BlockingQueuePro, through its two queues.
use mathlib.Core.Option.{some-injective}
use mathlib.Core.Path.{subst}
use mathlib.Core.List.{append_assoc, append-nil}
use cpp_infra.Common.{
  Bool, Bool-cases, List, List-cases, [], ap, arith, false, inl, inr, length, length-append,
  ne_test, none, refl, some, suc, sym, true, ◌%◌, ◌++◌, ◌+◌, ◌<◌, ◌==◌, ◌^◌, ◌∙◌, ◌∷◌, ◌≡◌, ◌≢◌,
  ◌≤◌,
}
use cpp_infra.BlockingQueue.{
  BlockingQueuePro, Consumer, outside, swapping, taking, push_pro, cancel_pro, enter, ready_pro,
  swap, test_swapped, take_front, refused, handed_out, StepPro, ReachPro,
}

-- The queue of the consumers is empty while one swaps, and holds a value while one takes it.
abbrev pub Fits {ℓ} : {A : Type ℓ} → Consumer → List A → Type ℓ
Fits outside cons = Unit
Fits swapping cons = cons ≡ []
Fits taking cons = cons ≢ []

pub record IsSoundPro {ℓ} {A : Type ℓ} (q : BlockingQueuePro A) : Type ℓ where
  pub fifo : q.pushed ≡ q.popped ++ (q.cons ++ q.prod)
  pub fits : Fits q.consumer q.cons
  pub refused : 0 < q.refusals → q.nonblock ≡ true

module _ {ℓ} {A : Type ℓ} where
  not_empty : (x : A) (xs : List A) → (x ∷ xs) ≢ []
  not_empty x xs e = cc e

  IsSoundPro-push :
      (q : BlockingQueuePro A) (value : A) → IsSoundPro q → IsSoundPro (push_pro value q)
  unfolding push_pro
  IsSoundPro-push q value inv = record {
    fifo = rw inv.fifo (
        append_assoc q.popped (q.cons ++ q.prod) (value ∷ [])
        ∙ ap (◌++◌ q.popped) (append_assoc q.cons q.prod (value ∷ [])));
    fits = inv.fits;
    refused = inv.refused;
  }

  IsSoundPro-enter : (q : BlockingQueuePro A) → IsSoundPro q → IsSoundPro (enter q)
  unfolding enter
  IsSoundPro-enter q inv = record {
    fifo = inv.fifo;
    fits = elim (List-cases q.cons) [ inl e ↦ rw e refl | inr (x, xs, e) ↦ rw e (not_empty x xs) ];
    refused = inv.refused;
  }

  -- `Pop` goes on with fewer than 2 ^ 32 values, if there is one.
  swapped_some :
      (q : BlockingQueuePro A) (x : A) (xs : List A)
      → q.prod ≡ x ∷ xs
      → length q.prod < 2 ^ 32
      → refused (test_swapped (swap q))
        ≡ record q { prod = q.cons; cons = q.prod; consumer = taking }
  unfolding test_swapped swap
  swapped_some q x xs e lt = rw (ne_test (length q.prod % 2 ^ 32) 0 (omega (arith, len))) refl
    where
      len : length q.prod ≡ suc (length xs)
      len = ap length e

  swapped_none :
      (q : BlockingQueuePro A)
      → q.prod ≡ []
      → refused (test_swapped (swap q))
        ≡ record q { prod = q.cons; cons = q.prod; consumer = outside; refusals = q.refusals + 1 }
  unfolding test_swapped swap
  swapped_none q e = rw (zero_test (ap length e)) refl
    where
      zero_test : length q.prod ≡ 0 → (length q.prod % 2 ^ 32 == 0) ≡ true
      zero_test h = rw h refl

  size_prod : (q : BlockingQueuePro A) → IsSoundPro q → length q.prod ≤ length q.pushed
  size_prod q inv = omega (
    arith,
    ap length inv.fifo,
    length-append q.popped (q.cons ++ q.prod),
    length-append q.cons q.prod,
  )

  IsSoundPro-swap :
      (q : BlockingQueuePro A)
      → IsSoundPro q
      → length q.pushed < 2 ^ 32
      → q.consumer ≡ swapping
      → ready_pro q ≡ true
      → IsSoundPro (refused (test_swapped (swap q)))
  IsSoundPro-swap q inv lt at r = elim (List-cases q.prod) [
    | inl e ↦
        subst IsSoundPro (sym (swapped_none q e))
          (record { fifo = fifo; fits = tt; refused = λ some_refused. nonblocking e r })
    | inr (x, xs, e) ↦
        subst IsSoundPro (sym (swapped_some q x xs e (omega (arith, size_prod q inv)))) (record {
          fifo = fifo;
          fits = λ none_left. not_empty x xs (sym e ∙ none_left);
          refused = inv.refused;
        })
  ]
    where
      cons_empty : q.cons ≡ []
      cons_empty = subst (λ c. Fits c q.cons) at inv.fits

      fifo : q.pushed ≡ q.popped ++ (q.prod ++ q.cons)
      fifo =
          inv.fifo
          ∙ ap (λ c. q.popped ++ (c ++ q.prod)) cons_empty
          ∙ ap (◌++◌ q.popped) (sym (append-nil q.prod))
          ∙ ap (λ c. q.popped ++ (q.prod ++ c)) (sym cons_empty)

      nonblocking : q.prod ≡ [] → ready_pro q ≡ true → q.nonblock ≡ true
      nonblocking e r = rw e at r

  IsSoundPro-take :
      {q : BlockingQueuePro A} {r : A × BlockingQueuePro A}
      → IsSoundPro q
      → take_front q ≡ some r
      → IsSoundPro (handed_out r)
  unfolding take_front
  IsSoundPro-take {q} {r} inv taken = elim (List-cases q.cons) [
    | inl e ↦ let none_taken : none ≡ some r = rw e at taken in absurd (cc none_taken)
    | inr (x, xs, e) ↦
        let some_taken : some (x, record q { cons = xs; consumer = outside }) ≡ some r =
          rw e at taken in
        subst (λ r. IsSoundPro (handed_out r)) (some-injective _ _ some_taken)
          (record {
            fifo = inv.fifo ∙ rw e (sym (append_assoc q.popped (x ∷ []) (xs ++ q.prod)));
            fits = tt;
            refused = inv.refused;
          })
  ]

  -- No step takes back a value pushed.
  pushed_grows : {q q' : BlockingQueuePro A} → StepPro q q' → length q.pushed ≤ length q'.pushed
  unfolding push_pro cancel_pro enter swap test_swapped take_front
  pushed_grows (StepPro.pushes q value) = omega (arith, length-append q.pushed (value ∷ []))
  pushed_grows (StepPro.cancels q) = omega arith
  pushed_grows (StepPro.enters q at) = omega arith
  pushed_grows (StepPro.swaps q at r) = elim (Bool-cases (length q.prod % 2 ^ 32 == 0)) [
    | inl e ↦ rw e (omega arith)
    | inr e ↦ rw e (omega arith)
  ]
  pushed_grows (StepPro.takes {q} {r} at taken) = elim (List-cases q.cons) [
    | inl e ↦ let none_taken : none ≡ some r = rw e at taken in absurd (cc none_taken)
    | inr (x, xs, e) ↦
        let some_taken : some (x, record q { cons = xs; consumer = outside }) ≡ some r =
          rw e at taken in
        omega (arith, ap (λ r. length r.1.pushed) (some-injective _ _ some_taken))
  ]

  IsSoundPro-Step :
      {q q' : BlockingQueuePro A}
      → IsSoundPro q
      → length q.pushed < 2 ^ 32
      → StepPro q q'
      → IsSoundPro q'
  unfolding cancel_pro
  IsSoundPro-Step inv lt (StepPro.pushes q value) = IsSoundPro-push q value inv
  IsSoundPro-Step inv lt (StepPro.cancels q) = record {
    fifo = inv.fifo;
    fits = inv.fits;
    refused = λ some_refused. refl;
  }
  IsSoundPro-Step inv lt (StepPro.enters q at) = IsSoundPro-enter q inv
  IsSoundPro-Step inv lt (StepPro.swaps q at r) = IsSoundPro-swap q inv lt at r
  IsSoundPro-Step inv lt (StepPro.takes at taken) = IsSoundPro-take inv taken

  -- In every state that any threads reach by the steps of pushes, pops and cancels in any order, with
  -- fewer than 2 ^ 32 values pushed in all, the values pushed are, in order, the values that pops
  -- returned, the values in the queue of the consumers and those in the queue of the producers; a
  -- consumer that swaps has an empty queue, one that takes has a value; and no pop has returned false
  -- unless the queue is in its mode that does not block.
  pub Reach-IsSoundPro :
      (nonblock : Bool) {q : BlockingQueuePro A}
      → ReachPro nonblock q
      → length q.pushed < 2 ^ 32
      → IsSoundPro q
  Reach-IsSoundPro nonblock ReachPro.start lt = record {
    fifo = refl;
    fits = tt;
    refused = λ some_refused. absurd (omega arith);
  }
  Reach-IsSoundPro nonblock (ReachPro.after r step) lt =
      let before = pushed_grows step in
      IsSoundPro-Step (Reach-IsSoundPro nonblock r (omega (arith, before))) (omega (arith, before))
        step

  -- In every state reached with fewer than 2 ^ 32 values pushed, where a pop is about to take the
  -- front, there is one: the step succeeds.
  pub take_front_total :
      (nonblock : Bool) {q : BlockingQueuePro A}
      → ReachPro nonblock q
      → length q.pushed < 2 ^ 32
      → q.consumer ≡ taking
      → (r : A × BlockingQueuePro A) × (take_front q ≡ some r)
  unfolding take_front
  take_front_total nonblock {q} r lt at = elim (List-cases q.cons) [
    | inl e ↦ absurd (subst (λ c. Fits c q.cons) at (Reach-IsSoundPro nonblock r lt).fits e)
    | inr (x, xs, e) ↦ rw e (_, refl)
  ]

  -- In every state reached with fewer than 2 ^ 32 values pushed, a swap after which the pop returns
  -- false leaves no value behind: all the values pushed have been returned by pops.
  pub swap_refuses :
      (nonblock : Bool) {q : BlockingQueuePro A}
      → ReachPro nonblock q
      → length q.pushed < 2 ^ 32
      → q.consumer ≡ swapping
      → (test_swapped (swap q)).0 ≡ false
      → q.pushed ≡ q.popped
  unfolding swap test_swapped
  swap_refuses nonblock {q} r lt at out = elim (List-cases q.prod) [
    | inl e ↦
        let cons_empty : q.cons ≡ [] = subst (λ c. Fits c q.cons) at inv.fits in
        inv.fifo ∙ rw (e, cons_empty) (append-nil q.popped)
    | inr (x, xs, e) ↦
        let len : length q.prod ≡ suc (length xs) = ap length e in
        let on : true ≡ false =
          rw (ne_test (length q.prod % 2 ^ 32) 0 (omega (arith, len, size_prod q inv))) at out in
        absurd (cc on)
  ]
    where
      inv : IsSoundPro q
      inv = Reach-IsSoundPro nonblock r lt
