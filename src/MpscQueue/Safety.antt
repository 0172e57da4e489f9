-- ===== src/MpscQueue/Safety.antt =====
-- What the threads of the queue may rely on, in every state that they can reach.
use mathlib.Core.Path.{subst}
use cpp_infra.Common.{
  List, Option-cases, ap, arith, inl, inr, none, some, suc, sym, true, ℕ, ◌++◌, ◌+◌, ◌-◌, ◌∙◌, ◌∷◌,
  ◌≡◌, ◌⊎◌,
}
use mathlib.Core.List.{append-nil}
use native.Mathlib.Decide.{ℕ_discrete}
use cpp_infra.MpscQueue.{
  MpscQueue, linking, found, deleting, look, Step, Reach, exchanges, links, looks, advances,
  deletes, start, after,
}
use cpp_infra.MpscQueue.Invariant.{Sound, ConsumerOk, values, values_shift, new-Sound}
use cpp_infra.MpscQueue.Exchange.{exchange-Sound}
use cpp_infra.MpscQueue.Link.{link-Sound}
use cpp_infra.MpscQueue.Dequeue.{
  look-Sound, advance-Sound, delete_node-Sound, look-none, look-some, found_next,
}

Step-Sound : {q q' : MpscQueue} → Step q q' → Sound q → Sound q'
Step-Sound (exchanges q t node input free dead) s = exchange-Sound q s t node input free dead
Step-Sound (links q t prev node busy) s = link-Sound q s t prev node busy
Step-Sound (looks q at) s = look-Sound q s
Step-Sound (advances q n at) s = advance-Sound q s n at
Step-Sound (deletes q old at) s = delete_node-Sound q s old at

Reach-Sound : {q : MpscQueue} → Reach q → Sound q
Reach-Sound (start dummy) = new-Sound dummy
Reach-Sound (after r step) = Step-Sound step (Reach-Sound r)

-- The node `a` is one that the next access of a thread reads, writes or deletes.
pub data Uses (q : MpscQueue) : ℕ → Type 0 where
  stores_next : (t prev node : ℕ) → q.producers t ≡ linking prev node → Uses q prev
  loads_next : Uses q q.tail
  loads_data : (n : ℕ) → q.consumer ≡ found n → Uses q n
  frees : (old : ℕ) → q.consumer ≡ deleting old → Uses q old
  gives : Uses q q.head

-- In every state that the producers and the consumer reach, in whatever order their accesses are
-- made, a node that the next access of a thread reads, writes or deletes is allocated: nobody touches
-- a deleted node and none is deleted twice.
pub Uses-alive : (q : MpscQueue) (a : ℕ) → Reach q → Uses q a → q.live a ≡ true
Uses-alive q a r u = go (Reach-Sound r) u
  where
    go : {a : ℕ} → Sound q → Uses q a → q.live a ≡ true
    go s (stores_next t prev node busy) =
        let (i, ge, lt, at, at_next, free) = s.producing t prev node busy in
        ap q.live at ∙ s.alive i ge (omega arith)
    go s loads_next = ap q.live s.tail_at ∙ s.alive s.lo (omega arith) (omega arith)
    go s (loads_data n at) =
        let (lt, at_next, e) = subst (ConsumerOk q s.seq s.lo (s.lo + s.count)) at s.consuming in
        ap q.live at_next ∙ s.alive (s.lo + 1) (omega arith) (omega arith)
    go s (frees old at) =
        let (alive, apart) = subst (ConsumerOk q s.seq s.lo (s.lo + s.count)) at s.consuming in
        alive
    go s gives = ap q.live s.head_at ∙ s.alive (s.lo + s.count) (omega arith) (omega arith)

-- What a `Dequeue` that starts here comes to.
abbrev pub Oldest : MpscQueue → Type 0
Oldest q =
    (n : ℕ) × ((rest : List ℕ) × (look q ≡ record q { consumer = found n })
      × (q.pushed ≡ q.popped ++ q.value n ∷ rest))

abbrev pub NothingYet : MpscQueue → Type 0
NothingYet q =
    (look q ≡ q)
    × ((q.pushed ≡ q.popped)
        ⊎ ((t : ℕ) × ((prev : ℕ) × ((node : ℕ) × (q.producers t ≡ linking prev node)))))

module _ (q : MpscQueue) (s : Sound q) where
  oldest : (n : ℕ) → q.next q.tail ≡ some n → Oldest q
  oldest n e =
      let (lt, at_next, e') = found_next q s n e in
      let up : s.count ≡ suc (s.count - 1) = omega arith in
      (
        n,
        (
          values q.value s.seq (s.lo + 1) (s.count - 1),
          look-some q s n e,
          s.fifo
              ∙ (ap (λ k. q.popped ++ values q.value s.seq s.lo k) up
                  ∙ (ap (λ xs. q.popped ++ xs) (values_shift q.value s.seq s.lo (s.count - 1))
                      ∙ ap
                          (λ a.
                            q.popped ++ q.value a ∷ values q.value s.seq (s.lo + 1) (s.count - 1))
                          (sym at_next))),
        ),
      )

  nothing_yet : q.next q.tail ≡ none → NothingYet q
  nothing_yet e = elim (ℕ_discrete s.count 0) [
    | yes done ↦ (
      look-none q s e,
      inl (s.fifo ∙ (ap (λ k. q.popped ++ values q.value s.seq s.lo k) done ∙ append-nil q.popped)),
    )
    | no ne ↦ elim (s.linked s.lo (omega arith) (omega arith)) [
      | inl e' ↦
          let both : some (s.seq (s.lo + 1)) ≡ none = sym e' ∙ (ap q.next (sym s.tail_at) ∙ e) in
          absurd (cc both)
      | inr (e', (t, busy)) ↦ (look-none q s e, inr (t, (s.seq s.lo, (s.seq (s.lo + 1), busy))))
    ]
  ]

-- In every state that the threads reach, a `Dequeue` that starts finds the value that was enqueued
-- first, by the order of the exchanges, of those not yet dequeued; or it finds nothing, and then
-- either every enqueued value has been dequeued or a producer is between its exchange and its store.
pub look-order : (q : MpscQueue) → Reach q → Oldest q ⊎ NothingYet q
look-order q r = elim (Option-cases (q.next q.tail)) [
  | inl e ↦ inr (nothing_yet q (Reach-Sound r) e)
  | inr (n, e) ↦ inl (oldest q (Reach-Sound r) n e)
]
