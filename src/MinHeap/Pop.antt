-- ===== src/MinHeap/Pop.antt =====
-- `min_heap_pop_`.
use mathlib.Core.Path.{subst}
use native.Mathlib.Decide.{ℕ_discrete}
use cpp_infra.Common.{
  ap, arith, false, leb, ne_test, refl, some, suc, sym, ℕ, ◌+◌, ◌-◌, ◌<◌, ◌∙◌, ◌≡◌, ◌≢◌, ◌≤◌,
}
use cpp_infra.MinHeap.{MinHeap, set, no_idx, shift_down, pop}
use cpp_infra.MinHeap.Order.{Down, parent}
use cpp_infra.MinHeap.Places.{set_here, set_there, entries_differ}
use cpp_infra.MinHeap.Move.{Filled}
use cpp_infra.MinHeap.Up.{IsHeap, slot_inside, put_inside}
use cpp_infra.MinHeap.Down.{shift_down-Restored}
use cpp_infra.MinHeap.Laws.{Without, top_least}

-- What is left of the places when the entry at `i` is replaced by the last one.
pub filled_from_end :
    {s : MinHeap} {M : ℕ → Type 0} (i : ℕ)
    → IsHeap s M
    → i < s.n - 1
    → Filled (record s { n = s.n - 1 }) i (s.p (s.n - 1)) (Without M (s.p i))
filled_from_end {s} {M} i h lt =
    (record { at = at; find = find }, lt, omega (arith, h.room), omega (arith, h.small))
  where
    last : ℕ
    last = s.n - 1

    differ : (j k : ℕ) → j < s.n → k < s.n → j ≢ k → s.p j ≢ s.p k
    differ j k lt_j lt_k ne = entries_differ h.places j k lt_j lt_k ne

    at :
        (j : ℕ)
        → j < last
        → Without M (s.p i) (set s.p i (s.p last) j)
          × (set s.idx (s.p last) i (set s.p i (s.p last) j) ≡ j)
    at j j_lt = elim (ℕ_discrete j i) [
      | yes eq ↦
          rw (eq, set_here s.p i (s.p last), set_here s.idx (s.p last) i)
            (
              (
                (h.places.at last (omega arith)).0,
                differ last i (omega arith) (omega arith) (omega arith),
              ),
              refl,
            )
      | no ne ↦
          let old = h.places.at j (omega arith) in
          rw
            (
              set_there s.p i (s.p last) j ne,
              set_there s.idx (s.p last) i (s.p j)
                  (differ j last (omega arith) (omega arith) (omega arith)),
            )
            ((old.0, differ j i (omega arith) (omega arith) ne), old.1)
    ]

    find :
        (t : ℕ)
        → Without M (s.p i) t
        → (set s.idx (s.p last) i t < last) × (set s.p i (s.p last) (set s.idx (s.p last) i t) ≡ t)
    find t (m, ne) = elim (ℕ_discrete t (s.p last)) [
      | yes eq ↦ rw (eq, set_here s.idx (s.p last) i, set_here s.p i (s.p last)) (lt, refl)
      | no ne_last ↦
          let f = h.places.find t m in
          let not_i : s.idx t ≢ i = λ eq. ne (sym f.1 ∙ ap s.p eq) in
          let not_last : s.idx t ≢ last = λ eq. ne_last (sym f.1 ∙ ap s.p eq) in
          rw (set_there s.idx (s.p last) i t ne_last, set_there s.p i (s.p last) (s.idx t) not_i)
            (omega (arith, f.0, not_last), f.1)
    ]

-- An entry outside the heap can be marked so.
pub unmark :
    {s : MinHeap} {M : ℕ → Type 0} (e v : ℕ)
    → IsHeap s M
    → ¬ M e
    → IsHeap (record s { idx = set s.idx e v }) M
unmark {s} {M} e v h out = record {
  places = record {
    at = λ i lt.
        let old = h.places.at i lt in
        (old.0, set_there s.idx e v (s.p i) (λ eq. out (subst M eq old.0)) ∙ old.1);
    find = λ t m. rw (set_there s.idx e v t (λ eq. out (subst M eq m))) (h.places.find t m);
  };
  ordered = h.ordered;
  room = h.room;
  small = h.small;
}

-- What a pop of a heap that holds `M` did: the entry is in `M`, none of `M` is earlier, it is
-- marked as outside, and the others are still in the heap.
pub record Popped (s : MinHeap) (M : ℕ → Type 0) (e : ℕ) (s' : MinHeap) : Type 0 where
  pub member : M e
  pub earliest : (t : ℕ) → M t → s.time e ≤ s.time t
  pub rest : IsHeap s' (Without M e)
  pub outside : s'.idx e ≡ no_idx
  pub count : s'.n + 1 ≡ s.n
  pub same_time : s'.time ≡ s.time

Down-start :
    {s : MinHeap} {M : ℕ → Type 0} (e : ℕ)
    → IsHeap s M
    → Down (λ i. s.time (set s.p 0 e i)) (s.n - 1) 0
Down-start {s} e h = (
  record {
    away = λ j at lt ne ne_up.
        rw (set_there s.p 0 e j ne, set_there s.p 0 e (parent j) ne_up)
          (h.ordered j at (omega arith));
    across = λ j at at_j lt p. absurd (omega (arith, at));
  },
  λ at. absurd (omega (arith, at)),
)

shift_down_nothing :
    (fuel e : ℕ) (s : MinHeap)
    → s.n ≡ 0
    → 0 < s.a
    → shift_down (suc fuel) 0 e s ≡ some (record s { p = set s.p 0 e; idx = set s.idx e 0 })
unfolding shift_down
shift_down_nothing fuel e s empty room = rw (no_child, put_inside s 0 e room) refl
  where
    no_child : leb 2 s.n ≡ false
    no_child = ground arith

single :
    {s : MinHeap} {M : ℕ → Type 0} (p x : ℕ → ℕ)
    → IsHeap s M
    → s.n ≡ 1
    → IsHeap (record s { p = p; idx = x; n = s.n - 1 }) (Without M (s.p 0))
single {s} p x h one = record {
  places = record {
    at = λ i lt. absurd (omega (arith, one, lt));
    find = λ t m.
        let f = h.places.find t m.0 in absurd (m.1 (sym f.1 ∙ ap s.p (omega (arith, f.0, one))));
  };
  ordered = λ j at lt. absurd (omega (arith, one, lt));
  room = omega (arith, h.room);
  small = omega (arith, h.small);
}

-- `min_heap_pop_` on a heap that is not empty returns an earliest entry and takes it, and only it,
-- out of the heap; the others stay in heap order, each at its index.
pub pop-Popped :
    {s : MinHeap} {M : ℕ → Type 0}
    → IsHeap s M
    → 0 < s.n
    → (e : ℕ) × (s' : MinHeap) × (pop s ≡ some (some e, s')) × Popped s M e s'
unfolding pop
pop-Popped {s} {M} h some_entry = elim (ℕ_discrete s.n 1) [
  | yes one ↦
      let last = s.p (s.n - 1) in
      rw
        (
          ne_test s.n 0 (omega arith),
          slot_inside s 0 (omega (arith, h.room)),
          slot_inside s (s.n - 1) (omega (arith, h.room)),
          shift_down_nothing s.n last (record s { n = s.n - 1 }) (omega arith)
              (omega (arith, h.room)),
        )
        (
          _,
          _,
          refl,
          record {
            member = (h.places.at 0 some_entry).0;
            earliest = top_least h;
            rest = single _ _ h one;
            outside = set_here (set s.idx last 0) (s.p 0) no_idx;
            count = omega arith;
            same_time = refl;
          },
        )
  | no many ↦
      let r =
        shift_down-Restored (suc s.n) (record s { n = s.n - 1 }) 0 (s.p (s.n - 1))
          (filled_from_end 0 h (omega arith)) (omega arith) (Down-start (s.p (s.n - 1)) h) in
      rw
        (
          ne_test s.n 0 (omega arith),
          slot_inside s 0 (omega (arith, h.room)),
          slot_inside s (s.n - 1) (omega (arith, h.room)),
          r.1,
        )
        (
          _,
          _,
          refl,
          record {
            member = (h.places.at 0 some_entry).0;
            earliest = top_least h;
            rest = unmark (s.p 0) no_idx r.2 (λ m. m.1 refl);
            outside = set_here r.0.idx (s.p 0) no_idx;
            count = omega (arith, r.4);
            same_time = r.3;
          },
        )
]
