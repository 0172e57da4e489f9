-- ===== src/MpscQueue/Exchange.antt =====
-- The exchange of `_head` in `Enqueue` keeps the order of the nodes.
use mathlib.Core.List.{append_assoc}
use cpp_infra.Common.{
  Option, [], ap, arith, false, inl, inr, none, some, sym, true, update, update_here, update_there,
  ℕ, ◌++◌, ◌+◌, ◌<◌, ◌∙◌, ◌∷◌, ◌≡◌, ◌≢◌, ◌≤◌, ◌⊎◌,
}
use native.Mathlib.Decide.{ℕ_discrete}
use mathlib.Core.Path.{ap₂}
use cpp_infra.MpscQueue.{
  MpscQueue, Producer, Consumer, idle, linking, ready, found, deleting, exchange,
}
use cpp_infra.MpscQueue.Invariant.{Sound, Linked, ConsumerOk, values, values_ext, values_last}

busy_ne :
    (q : MpscQueue) (t u prev n : ℕ) → q.producers t ≡ idle → q.producers u ≡ linking prev n → u ≢ t
busy_ne q t u prev n free busy e =
    let same : idle ≡ linking prev n = sym free ∙ (ap q.producers (sym e) ∙ busy) in
    absurd (cc same)

-- The producer `u` after the step of `t`.
set_linking :
    (ps : ℕ → Producer) (t u head node prev n : ℕ)
    → update ps t (linking head node) u ≡ linking prev n
    → ((u ≡ t) × (prev ≡ head) × (n ≡ node)) ⊎ ((u ≢ t) × (ps u ≡ linking prev n))
set_linking ps t u head node prev n e = elim (ℕ_discrete u t) [
  | yes same ↦
      let both : linking head node ≡ linking prev n =
        sym (update_here ps t (linking head node))
        ∙ (ap (update ps t (linking head node)) (sym same) ∙ e) in
      inl (same, cc both, cc both)
  | no ne ↦ inr (ne, sym (update_there ps t (linking head node) u ne) ∙ e)
]

module _ (q : MpscQueue) (s : Sound q) where
  pub not_head : (u prev n : ℕ) → q.producers u ≡ linking prev n → prev ≢ q.head
  not_head u prev n busy e =
      let (i, ge, lt, at, at_next, unset) = s.producing u prev n busy in
      let same =
        s.distinct i (s.lo + s.count) ge (omega arith) (omega arith) (omega arith)
          (sym at ∙ (e ∙ s.head_at)) in
      absurd (omega arith)

  module _ (t node input : ℕ) (free : q.producers t ≡ idle) (dead : q.live node ≡ false) where
    abbrev new_hi : ℕ
    new_hi = s.lo + (s.count + 1)

    abbrev seq' : ℕ → ℕ
    seq' = update s.seq new_hi node

    abbrev next' : ℕ → Option ℕ
    next' = update q.next node none

    abbrev value' : ℕ → ℕ
    value' = update q.value node input

    newest_node : seq' new_hi ≡ node
    newest_node = update_here s.seq new_hi node

    old : (i : ℕ) → i ≤ s.lo + s.count → seq' i ≡ s.seq i
    old i le = update_there s.seq new_hi node i (omega arith)

    fresh_ne : (i : ℕ) → s.lo ≤ i → i ≤ s.lo + s.count → s.seq i ≢ node
    fresh_ne i ge le e =
        let both : true ≡ false = sym (s.alive i ge le) ∙ (ap q.live e ∙ dead) in absurd (cc both)

    next_old : (i : ℕ) → s.lo ≤ i → i ≤ s.lo + s.count → next' (seq' i) ≡ q.next (s.seq i)
    next_old i ge le =
        ap next' (old i le) ∙ update_there q.next node none (s.seq i) (fresh_ne i ge le)

    still_distinct :
        (i j : ℕ) → s.lo ≤ i → i ≤ new_hi → s.lo ≤ j → j ≤ new_hi → seq' i ≡ seq' j → i ≡ j
    still_distinct i j lo_i hi_i lo_j hi_j e = elim (ℕ_discrete i new_hi) [
      | yes ei ↦ elim (ℕ_discrete j new_hi) [
        | yes ej ↦ ei ∙ sym ej
        | no nj ↦ absurd (
            fresh_ne j lo_j (omega arith)
              (sym (old j (omega arith)) ∙ (sym e ∙ (ap seq' ei ∙ newest_node))))
      ]
      | no ni ↦ elim (ℕ_discrete j new_hi) [
        | yes ej ↦ absurd (
            fresh_ne i lo_i (omega arith)
              (sym (old i (omega arith)) ∙ (e ∙ (ap seq' ej ∙ newest_node))))
        | no nj ↦
            s.distinct i j lo_i (omega arith) lo_j (omega arith)
              (sym (old i (omega arith)) ∙ (e ∙ old j (omega arith)))
      ]
    ]

    still-Linked : (i : ℕ) → s.lo ≤ i → i < new_hi → Linked (exchange t node input q) seq' i
    unfolding exchange
    still-Linked i ge lt = elim (ℕ_discrete i (s.lo + s.count)) [
      | yes e ↦ inr (
        next_old i ge (omega arith) ∙ (ap (λ k. q.next (s.seq k)) e ∙ s.last_free),
        (
          t,
          update_here q.producers t (linking q.head node)
              ∙ ap₂ linking (s.head_at ∙ (ap s.seq (sym e) ∙ sym (old i (omega arith))))
                  (sym newest_node ∙ ap seq' (omega arith)),
        ),
      )
      | no ne ↦ elim (s.linked i ge (omega arith)) [
        | inl e ↦
            inl (next_old i ge (omega arith) ∙ (e ∙ ap some (sym (old (i + 1) (omega arith)))))
        | inr (e, (u, busy)) ↦ inr (
          next_old i ge (omega arith) ∙ e,
          (
            u,
            update_there q.producers t (linking q.head node) u
                  (busy_ne q t u (s.seq i) (s.seq (i + 1)) free busy)
                ∙ (busy
                    ∙ ap₂ linking (sym (old i (omega arith))) (sym (old (i + 1) (omega arith)))),
          ),
        )
      ]
    ]

    still_producing :
        (u prev n : ℕ)
        → update q.producers t (linking q.head node) u ≡ linking prev n
        → (i : ℕ) × (s.lo ≤ i)
          × (i < new_hi)
          × (prev ≡ seq' i)
          × (n ≡ seq' (i + 1))
          × (next' prev ≡ none)
    still_producing u prev n e = elim (set_linking q.producers t u q.head node prev n e) [
      | inl (same, at, at_next) ↦
          let place : prev ≡ seq' (s.lo + s.count) =
            at ∙ (s.head_at ∙ sym (old (s.lo + s.count) (omega arith))) in
          (
            s.lo + s.count,
            omega arith,
            omega arith,
            place,
            at_next ∙ (sym newest_node ∙ ap seq' (omega arith)),
            ap next' place ∙ (next_old (s.lo + s.count) (omega arith) (omega arith) ∙ s.last_free),
          )
      | inr (ne, busy) ↦
          let (i, ge, lt, at, at_next, unset) = s.producing u prev n busy in
          let place : prev ≡ seq' i = at ∙ sym (old i (omega arith)) in
          (
            i,
            ge,
            omega arith,
            place,
            at_next ∙ sym (old (i + 1) (omega arith)),
            ap next' place ∙ (next_old i ge (omega arith) ∙ (ap q.next (sym at) ∙ unset)),
          )
    ]

    still_alone :
        (u w prev n m : ℕ)
        → update q.producers t (linking q.head node) u ≡ linking prev n
        → update q.producers t (linking q.head node) w ≡ linking prev m
        → u ≡ w
    still_alone u w prev n m eu ew = elim (set_linking q.producers t u q.head node prev n eu) [
      | inl (same_u, at_u, next_u) ↦ elim (set_linking q.producers t w q.head node prev m ew) [
        | inl (same_w, at_w, next_w) ↦ same_u ∙ sym same_w
        | inr (ne, busy) ↦ absurd (not_head w prev m busy at_u)
      ]
      | inr (ne_u, busy_u) ↦ elim (set_linking q.producers t w q.head node prev m ew) [
        | inl (same_w, at_w, next_w) ↦ absurd (not_head u prev n busy_u at_w)
        | inr (ne_w, busy_w) ↦ s.alone u w prev n m busy_u busy_w
      ]
    ]

    still_consuming :
        (c : Consumer)
        → ConsumerOk q s.seq s.lo (s.lo + s.count) c
        → ConsumerOk (exchange t node input q) seq' s.lo new_hi c
    unfolding exchange
    still_consuming ready ok = tt
    still_consuming (found n) (lt, at, next_at) = (
      omega arith,
      at ∙ sym (old (s.lo + 1) (omega arith)),
      next_old s.lo (omega arith) (omega arith) ∙ next_at,
    )
    still_consuming (deleting gone) (alive, apart) =
        let ne : gone ≢ node =
          λ e. (let both : true ≡ false = sym alive ∙ (ap q.live e ∙ dead) in absurd (cc both)) in
        (
          update_there q.live node true gone ne ∙ alive,
          λ i ge le e. elim (ℕ_discrete i new_hi) [
            | yes ei ↦ ne (sym e ∙ (ap seq' ei ∙ newest_node))
            | no ni ↦ apart i ge (omega arith) (sym (old i (omega arith)) ∙ e)
          ],
        )

    still_fifo : q.pushed ++ input ∷ [] ≡ q.popped ++ values value' seq' s.lo (s.count + 1)
    still_fifo =
        ap (λ xs. xs ++ input ∷ []) s.fifo
        ∙ (append_assoc q.popped (values q.value s.seq s.lo s.count) (input ∷ [])
            ∙ ap (λ xs. q.popped ++ xs)
                (sym (
                  values_last value' seq' s.lo s.count
                  ∙ ap₂ (λ xs x. xs ++ x ∷ [])
                      (values_ext q.value value' s.seq seq' s.lo s.count value_old) newest)))
      where
        value_old : (i : ℕ) → s.lo < i → i ≤ s.lo + s.count → value' (seq' i) ≡ q.value (s.seq i)
        value_old i gt le =
            ap value' (old i le)
            ∙ update_there q.value node input (s.seq i) (fresh_ne i (omega arith) le)

        newest : value' (seq' (s.lo + s.count + 1)) ≡ input
        newest =
            ap (λ k. value' (seq' k)) (omega arith)
            ∙ (ap value' newest_node ∙ update_here q.value node input)

    pub exchange-Sound : Sound (exchange t node input q)
    unfolding exchange
    exchange-Sound = record {
      seq = seq';
      lo = s.lo;
      count = s.count + 1;
      tail_at = s.tail_at ∙ sym (old s.lo (omega arith));
      head_at = sym newest_node;
      alive = λ i ge le. elim (ℕ_discrete i new_hi) [
        | yes e ↦
            ap (update q.live node true) (ap seq' e ∙ newest_node) ∙ update_here q.live node true
        | no ne ↦
            ap (update q.live node true) (old i (omega arith))
            ∙ (update_there q.live node true (s.seq i) (fresh_ne i ge (omega arith))
                ∙ s.alive i ge (omega arith))
      ];
      distinct = still_distinct;
      linked = still-Linked;
      last_free = ap next' newest_node ∙ update_here q.next node none;
      producing = still_producing;
      alone = still_alone;
      consuming = still_consuming q.consumer s.consuming;
      fifo = still_fifo;
    }
