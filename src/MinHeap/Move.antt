-- ===== src/MinHeap/Move.antt =====
-- One round of a loop: the hole moves from `h` to `k`, and the entry at `k` into the old hole.
use cpp_infra.Common.{ap, sym, ℕ, ◌<◌, ◌^◌, ◌∙◌, ◌≡◌, ◌≢◌, ◌≤◌}
use cpp_infra.MinHeap.{MinHeap, set}
use cpp_infra.MinHeap.Order.{Swap}
use cpp_infra.MinHeap.Places.{Places, Places-swap, entries_differ, set_here, set_there}

-- The heap `s` with the entry `e` in the hole at `h`: its keys
abbrev pub keys : MinHeap → (h e : ℕ) → ℕ → ℕ
keys s h e i = s.time (set s.p h e i)

-- and that its array and its indices agree on the set `M`, inside the storage.
abbrev pub Filled : MinHeap → (h e : ℕ) → (ℕ → Type 0) → Type 0
Filled s h e M =
    Places (set s.p h e) (set s.idx e h) s.n M × (h < s.n) × (s.n ≤ s.a) × (s.n < 2 ^ 31)

abbrev pub moved : MinHeap → (h k : ℕ) → MinHeap
moved s h k = record s { p = set s.p h (s.p k); idx = set s.idx (s.p k) h }

pub set-Swap : (p : ℕ → ℕ) (h k e : ℕ) → k ≢ h → Swap (set p h e) (set (set p h (p k)) k e) h k
set-Swap p h k e ne = record {
  left =
      set_there (set p h (p k)) k e h (λ q. ne (sym q))
      ∙ (set_here p h (p k) ∙ sym (set_there p h e k ne));
  right = set_here (set p h (p k)) k e ∙ sym (set_here p h e);
  others = λ j ne_h ne_k.
      set_there (set p h (p k)) k e j ne_k
      ∙ (set_there p h (p k) j ne_h ∙ sym (set_there p h e j ne_h));
}

pub Swap-map :
    (time : ℕ → ℕ) {q q' : ℕ → ℕ} {i k : ℕ}
    → Swap q q' i k
    → Swap (λ j. time (q j)) (λ j. time (q' j)) i k
Swap-map time sw = record {
  left = ap time sw.left;
  right = ap time sw.right;
  others = λ j ne_i ne_k. ap time (sw.others j ne_i ne_k);
}

pub Filled-moved :
    (s : MinHeap) (h e : ℕ) {M : ℕ → Type 0} (k : ℕ)
    → Filled s h e M
    → k < s.n
    → k ≢ h
    → Filled (moved s h k) k e M
Filled-moved s h e {M} k (w, lt, room, small) lt' ne = (
  Places-swap h k w lt lt' (λ q. ne (sym q)) (set-Swap s.p h k e ne) at_k at_h same,
  lt',
  room,
  small,
)
  where
    q_k : set s.p h e k ≡ s.p k
    q_k = set_there s.p h e k ne

    q_h : set s.p h e h ≡ e
    q_h = set_here s.p h e

    differ : s.p k ≢ e
    differ eq = entries_differ w k h lt' lt ne (q_k ∙ (eq ∙ sym q_h))

    at_k : set (set s.idx (s.p k) h) e k (set s.p h e k) ≡ h
    at_k =
        ap (set (set s.idx (s.p k) h) e k) q_k
        ∙ (set_there (set s.idx (s.p k) h) e k (s.p k) differ ∙ set_here s.idx (s.p k) h)

    at_h : set (set s.idx (s.p k) h) e k (set s.p h e h) ≡ k
    at_h = ap (set (set s.idx (s.p k) h) e k) q_h ∙ set_here (set s.idx (s.p k) h) e k

    same :
        (t : ℕ)
        → t ≢ set s.p h e h
        → t ≢ set s.p h e k
        → set (set s.idx (s.p k) h) e k t ≡ set s.idx e h t
    same t ne_h ne_k =
        let ne_e : t ≢ e = λ eq. ne_h (eq ∙ sym q_h) in
        set_there (set s.idx (s.p k) h) e k t ne_e
        ∙ (set_there s.idx (s.p k) h t (λ eq. ne_k (eq ∙ sym q_k))
            ∙ sym (set_there s.idx e h t ne_e))
