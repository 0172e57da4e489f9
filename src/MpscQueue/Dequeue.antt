-- ===== src/MpscQueue/Dequeue.antt =====
-- The three steps of `Dequeue` keep the order of the nodes.
use mathlib.Core.Path.{subst}
use cpp_infra.Common.{
  Option-cases, [], ap, arith, false, inl, inr, none, refl, some, suc, sym, update_there, ℕ, ◌++◌,
  ◌+◌, ◌-◌, ◌<◌, ◌∙◌, ◌∷◌, ◌≡◌, ◌≢◌, ◌≤◌,
}
use native.Mathlib.Decide.{ℕ_discrete}
use mathlib.Core.List.{append_assoc}
use cpp_infra.MpscQueue.{MpscQueue, linking, found, deleting, look, advance, delete_node}
use cpp_infra.MpscQueue.Invariant.{Sound, ConsumerOk, values, values_shift}

module _ (q : MpscQueue) (s : Sound q) where
  pub found_next :
      (n : ℕ) → q.next q.tail ≡ some n → ConsumerOk q s.seq s.lo (s.lo + s.count) (found n)
  found_next n e = elim (ℕ_discrete s.count 0) [
    | yes none_left ↦
        let both : some n ≡ none =
          sym at ∙ (ap (λ i. q.next (s.seq i)) (omega arith) ∙ s.last_free) in
        absurd (cc both)
    | no ne ↦ elim (s.linked s.lo (omega arith) (omega arith)) [
      | inl e' ↦
          (let same : some n ≡ some (s.seq (s.lo + 1)) = sym at ∙ e' in (omega arith, cc same, at))
      | inr (e', p) ↦ (let both : some n ≡ none = sym at ∙ e' in absurd (cc both))
    ]
  ]
    where
      at : q.next (s.seq s.lo) ≡ some n
      at = ap q.next (sym s.tail_at) ∙ e

  pub look-none : q.next q.tail ≡ none → look q ≡ q
  unfolding look
  look-none e = rw (look, e) refl

  pub look-some : (n : ℕ) → q.next q.tail ≡ some n → look q ≡ record q { consumer = found n }
  unfolding look
  look-some n e = rw (look, e) refl

  found-Sound : (n : ℕ) → q.next q.tail ≡ some n → Sound (record q { consumer = found n })
  found-Sound n e = record {
    seq = s.seq;
    lo = s.lo;
    count = s.count;
    tail_at = s.tail_at;
    head_at = s.head_at;
    alive = s.alive;
    distinct = s.distinct;
    linked = s.linked;
    last_free = s.last_free;
    producing = s.producing;
    alone = s.alone;
    consuming = found_next n e;
    fifo = s.fifo;
  }

  pub look-Sound : Sound (look q)
  look-Sound = elim (Option-cases (q.next q.tail)) [
    | inl e ↦ subst Sound (sym (look-none e)) s
    | inr (n, e) ↦ subst Sound (sym (look-some n e)) (found-Sound n e)
  ]

  module _ (n : ℕ) (at : q.consumer ≡ found n) where
    found_ok : ConsumerOk q s.seq s.lo (s.lo + s.count) (found n)
    found_ok = subst (ConsumerOk q s.seq s.lo (s.lo + s.count)) at s.consuming

    abbrev left : ℕ
    left = s.count - 1

    last_place : s.lo + s.count ≡ s.lo + 1 + left
    last_place = let (lt, at_next, e) = found_ok in omega arith

    producing_advance :
        (t prev node : ℕ)
        → q.producers t ≡ linking prev node
        → (i : ℕ) × (s.lo + 1 ≤ i)
          × (i < s.lo + 1 + left)
          × (prev ≡ s.seq i)
          × (node ≡ s.seq (i + 1))
          × (q.next prev ≡ none)
    producing_advance t prev node busy =
        let (lt, at_next, e) = found_ok in
        let (i, ge, lt_i, at_i, at_next_i, free) = s.producing t prev node busy in
        let apart : i ≢ s.lo = λ same.
          (let both : some n ≡ none = sym e ∙ (ap q.next (ap s.seq (sym same) ∙ sym at_i) ∙ free) in
            absurd (cc both)) in
        (i, omega arith, omega arith, at_i, at_next_i, free)

    fifo_advance : q.pushed ≡ (q.popped ++ q.value n ∷ []) ++ values q.value s.seq (s.lo + 1) left
    fifo_advance =
        let (lt, at_next, e) = found_ok in
        let up : s.count ≡ suc left = omega arith in
        s.fifo
        ∙ (ap (λ k. q.popped ++ values q.value s.seq s.lo k) up
            ∙ (ap (λ xs. q.popped ++ xs) (values_shift q.value s.seq s.lo left)
                ∙ (ap (λ a. q.popped ++ q.value a ∷ values q.value s.seq (s.lo + 1) left)
                      (sym at_next)
                    ∙ sym (
                        append_assoc q.popped (q.value n ∷ [])
                          (values q.value s.seq (s.lo + 1) left)))))

    pub advance-Sound : Sound (advance n q)
    unfolding advance
    advance-Sound =
        let (lt, at_next, e) = found_ok in
        let place = last_place in
        record {
          seq = s.seq;
          lo = s.lo + 1;
          count = left;
          tail_at = at_next;
          head_at = s.head_at ∙ ap s.seq place;
          alive = λ i ge le. s.alive i (omega arith) (omega arith);
          distinct = λ i j lo_i hi_i lo_j hi_j.
              s.distinct i j (omega arith) (omega arith) (omega arith) (omega arith);
          linked = λ i ge lt_i. s.linked i (omega arith) (omega arith);
          last_free = ap (λ i. q.next (s.seq i)) (sym place) ∙ s.last_free;
          producing = producing_advance;
          alone = s.alone;
          consuming = (
            ap q.live s.tail_at ∙ s.alive s.lo (omega arith) (omega arith),
            λ i ge le same.
                (let here =
                    s.distinct i s.lo (omega arith) (omega arith) (omega arith) (omega arith)
                      (same ∙ s.tail_at) in
                  absurd (omega arith)),
          );
          fifo = fifo_advance;
        }

  pub delete_node-Sound : (old : ℕ) → q.consumer ≡ deleting old → Sound (delete_node old q)
  unfolding delete_node
  delete_node-Sound old at =
      let (alive, apart) = subst (ConsumerOk q s.seq s.lo (s.lo + s.count)) at s.consuming in
      record {
        seq = s.seq;
        lo = s.lo;
        count = s.count;
        tail_at = s.tail_at;
        head_at = s.head_at;
        alive =
            λ i ge le. update_there q.live old false (s.seq i) (apart i ge le) ∙ s.alive i ge le;
        distinct = s.distinct;
        linked = s.linked;
        last_free = s.last_free;
        producing = s.producing;
        alone = s.alone;
        consuming = tt;
        fifo = s.fifo;
      }
