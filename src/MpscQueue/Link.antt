-- ===== src/MpscQueue/Link.antt =====
-- The store of `Enqueue` keeps the order of the nodes.
use cpp_infra.Common.{
  Option, ap, arith, inl, inr, none, some, sym, update, update_here, update_there, ℕ, ◌+◌, ◌<◌, ◌∙◌,
  ◌≡◌, ◌≢◌, ◌≤◌,
}
use native.Mathlib.Decide.{ℕ_discrete}
use cpp_infra.MpscQueue.{MpscQueue, Producer, Consumer, idle, linking, ready, found, deleting, link}
use cpp_infra.MpscQueue.Invariant.{Sound, Linked, ConsumerOk}
use cpp_infra.MpscQueue.Exchange.{not_head}

-- The producer `u` after the step of `t`.
set_idle :
    (ps : ℕ → Producer) (t u prev n : ℕ)
    → update ps t idle u ≡ linking prev n
    → (u ≢ t) × (ps u ≡ linking prev n)
set_idle ps t u prev n e = elim (ℕ_discrete u t) [
  | yes same ↦
      let bad : idle ≡ linking prev n =
        sym (update_here ps t idle) ∙ (ap (update ps t idle) (sym same) ∙ e) in
      absurd (cc bad)
  | no ne ↦ (ne, sym (update_there ps t idle u ne) ∙ e)
]

module _ (q : MpscQueue) (s : Sound q) where
  module _ (t prev node : ℕ) (busy : q.producers t ≡ linking prev node) where
    abbrev linked_next : ℕ → Option ℕ
    linked_next = update q.next prev (some node)

    unset : q.next prev ≡ none
    unset = let (i, ge, lt, at, at_next, e) = s.producing t prev node busy in e

    ne_prev : (a n : ℕ) → q.next a ≡ some n → a ≢ prev
    ne_prev a n e same =
        let both : some n ≡ none = sym e ∙ (ap q.next same ∙ unset) in absurd (cc both)

    last_ne : s.seq (s.lo + s.count) ≢ prev
    last_ne e = not_head q s t prev node busy (sym e ∙ sym s.head_at)

    Linked-link : (i : ℕ) → s.lo ≤ i → i < s.lo + s.count → Linked (link t prev node q) s.seq i
    unfolding link
    Linked-link i ge lt =
        let (k, ge_k, lt_k, at, at_next, e) = s.producing t prev node busy in
        elim (ℕ_discrete i k) [
          | yes same ↦ inl (
              ap linked_next (ap s.seq same ∙ sym at)
              ∙ (update_here q.next prev (some node)
                  ∙ ap some (at_next ∙ ap (λ j. s.seq (j + 1)) (sym same))))
          | no ne ↦
              let apart : s.seq i ≢ prev =
                λ e. ne (s.distinct i k ge (omega arith) ge_k (omega arith) (e ∙ at)) in
              elim (s.linked i ge lt) [
                | inl e ↦ inl (update_there q.next prev (some node) (s.seq i) apart ∙ e)
                | inr (e, (u, busy_u)) ↦
                    let u_ne : u ≢ t = λ same.
                      (let both : linking (s.seq i) (s.seq (i + 1)) ≡ linking prev node =
                          sym busy_u ∙ (ap q.producers same ∙ busy) in
                        apart (cc both)) in
                    inr (
                      update_there q.next prev (some node) (s.seq i) apart ∙ e,
                      (u, update_there q.producers t idle u u_ne ∙ busy_u),
                    )
              ]
        ]

    producing_link :
        (u p n : ℕ)
        → update q.producers t idle u ≡ linking p n
        → (i : ℕ) × (s.lo ≤ i)
          × (i < s.lo + s.count)
          × (p ≡ s.seq i)
          × (n ≡ s.seq (i + 1))
          × (linked_next p ≡ none)
    producing_link u p n e =
        let (ne, busy_u) = set_idle q.producers t u p n e in
        let (i, ge, lt, at, at_next, free) = s.producing u p n busy_u in
        let apart : p ≢ prev =
          λ same. ne (s.alone u t p n node busy_u (busy ∙ ap (λ a. linking a node) (sym same))) in
        (i, ge, lt, at, at_next, update_there q.next prev (some node) p apart ∙ free)

    consuming_link :
        (c : Consumer)
        → ConsumerOk q s.seq s.lo (s.lo + s.count) c
        → ConsumerOk (link t prev node q) s.seq s.lo (s.lo + s.count) c
    unfolding link
    consuming_link ready ok = tt
    consuming_link (found n) (lt, at, e) =
        (lt, at, update_there q.next prev (some node) (s.seq s.lo) (ne_prev (s.seq s.lo) n e) ∙ e)
    consuming_link (deleting gone) ok = ok

    pub link-Sound : Sound (link t prev node q)
    unfolding link
    link-Sound = record {
      seq = s.seq;
      lo = s.lo;
      count = s.count;
      tail_at = s.tail_at;
      head_at = s.head_at;
      alive = s.alive;
      distinct = s.distinct;
      linked = Linked-link;
      last_free =
          update_there q.next prev (some node) (s.seq (s.lo + s.count)) last_ne ∙ s.last_free;
      producing = producing_link;
      alone = λ u w p n m eu ew.
          (let (ne_u, busy_u) = set_idle q.producers t u p n eu in
            let (ne_w, busy_w) = set_idle q.producers t w p m ew in
            s.alone u w p n m busy_u busy_w);
      consuming = consuming_link q.consumer s.consuming;
      fifo = s.fifo;
    }
