-- ===== src/MinHeap/Erase.antt =====
-- `min_heap_erase_`.
use mathlib.Core.Path.{subst}
use native.Mathlib.Decide.{ℕ_discrete}
use cpp_infra.Common.{
  ap, arith, false, leb, ltb, ne_test, refl, some, sym, true, ℕ, ◌%◌, ◌*◌, ◌+◌, ◌-◌, ◌<◌, ◌^◌, ◌∙◌,
  ◌≡◌, ◌≢◌, ◌≤◌,
}
use cpp_infra.MinHeap.{MinHeap, set, sub32, no_idx, elem_greater, shift_down, place, erase}
use cpp_infra.MinHeap.Order.{parent}
use cpp_infra.MinHeap.Places.{entries_differ, set_here, set_there}
use cpp_infra.MinHeap.Up.{IsHeap, slot_inside, put_inside}
use cpp_infra.MinHeap.Laws.{Without}
use cpp_infra.MinHeap.Pop.{filled_from_end, unmark}
use cpp_infra.MinHeap.Place.{place-Restored, Ordered-Hole, sub_one}

-- What an erase of the entry `e` of a heap that holds `M` did: the entry is marked as outside, and
-- the others are still in the heap.
pub record Erased (s : MinHeap) (M : ℕ → Type 0) (e : ℕ) (s' : MinHeap) : Type 0 where
  pub rest : IsHeap s' (Without M e)
  pub outside : s'.idx e ≡ no_idx
  pub count : s'.n + 1 ≡ s.n
  pub same_time : s'.time ≡ s.time

-- The last entry, put back behind the end, goes no further.
place_last :
    (s : MinHeap) (h e : ℕ)
    → s.n ≡ h
    → h < s.a
    → h + 1 < 2 ^ 31
    → (0 < h → s.time (s.p (parent h)) ≤ s.time e)
    → place h e s ≡ some (record s { p = set s.p h e; idx = set s.idx e h })
unfolding place shift_down
place_last s h e eq room small order = elim (ℕ_discrete h 0) [
  | yes is_top ↦ rw (at_top is_top, no_child, put_inside s h e room) refl
  | no ne ↦
      rw
        (
          not_top ne,
          sub_one h (omega arith) (omega arith),
          slot_inside s (parent h) (omega arith),
          not_greater ne,
          no_child,
          put_inside s h e room,
        )
        refl
]
  where
    at_top : h ≡ 0 → ltb 0 h ≡ false
    at_top eq = ground arith

    not_top : h ≢ 0 → ltb 0 h ≡ true
    not_top ne = ground arith

    no_child : leb (2 * (h + 1) % 2 ^ 32) s.n ≡ false
    no_child = ground arith

    not_greater : h ≢ 0 → elem_greater s (s.p (parent h)) e ≡ false
    not_greater ne = let le = order (omega arith) in ground (arith, le)

Without-last :
    {s : MinHeap} {M : ℕ → Type 0} (i : ℕ)
    → IsHeap s M
    → i + 1 ≡ s.n
    → IsHeap
        (record s { n = i; p = set s.p i (s.p i); idx = set s.idx (s.p i) i })
        (Without M (s.p i))
Without-last {s} {M} i h eq = record {
  places = record { at = at; find = find };
  ordered = λ j at_j j_lt.
      rw (same_p j (omega arith), same_p (parent j) (omega arith)) (h.ordered j at_j (omega arith));
  room = omega (arith, h.room);
  small = omega (arith, h.small);
}
  where
    same_p : (j : ℕ) → j < i → set s.p i (s.p i) j ≡ s.p j
    same_p j lt = set_there s.p i (s.p i) j (omega arith)

    differ : (j : ℕ) → j < i → s.p j ≢ s.p i
    differ j lt = entries_differ h.places j i (omega arith) (omega arith) (omega arith)

    at :
        (j : ℕ)
        → j < i
        → Without M (s.p i) (set s.p i (s.p i) j) × (set s.idx (s.p i) i (set s.p i (s.p i) j) ≡ j)
    at j j_lt =
        let old = h.places.at j (omega arith) in
        rw (same_p j j_lt, set_there s.idx (s.p i) i (s.p j) (differ j j_lt))
          ((old.0, differ j j_lt), old.1)

    find :
        (t : ℕ)
        → Without M (s.p i) t
        → (set s.idx (s.p i) i t < i) × (set s.p i (s.p i) (set s.idx (s.p i) i t) ≡ t)
    find t (m, ne) =
        let f = h.places.find t m in
        let not_i : s.idx t ≢ i = λ e. ne (sym f.1 ∙ ap s.p e) in
        rw (set_there s.idx (s.p i) i t ne, set_there s.p i (s.p i) (s.idx t) not_i)
          (omega (arith, f.0, not_i), f.1)

erase-Erased_at :
    {s : MinHeap} {M : ℕ → Type 0} (i : ℕ)
    → IsHeap s M
    → i < s.n
    → (s' : MinHeap) × (erase (s.p i) s ≡ some (true, s')) × Erased s M (s.p i) s'
unfolding erase
erase-Erased_at {s} {M} i h lt =
    rw
      (
        (h.places.at i lt).1,
        ne_test no_idx i (omega (arith, h.small)),
        dec,
        slot_inside s (s.n - 1) (omega (arith, h.room)),
      )
      (elim (ℕ_discrete i (s.n - 1)) [
        | yes eq ↦
            rw
              (
                ← eq,
                place_last (record s { n = i }) i (s.p i) refl (omega (arith, h.room))
                    (omega (arith, h.small)) (λ at. h.ordered i at lt),
              )
              (
                _,
                refl,
                record {
                  rest = unmark (s.p i) no_idx (Without-last i h (omega arith)) (λ m. m.1 refl);
                  outside = set_here (set s.idx (s.p i) i) (s.p i) no_idx;
                  count = omega arith;
                  same_time = refl;
                },
              )
        | no ne ↦
            let r =
              place-Restored (record s { n = s.n - 1 }) i (s.p (s.n - 1))
                (filled_from_end i h (omega arith))
                (Ordered-Hole (s.n - 1) i h.ordered (omega arith) (omega arith)
                  (λ j j_lt j_ne. ap s.time (set_there s.p i (s.p (s.n - 1)) j j_ne))) in
            rw r.1 (
              _,
              refl,
              record {
                rest = unmark (s.p i) no_idx r.2 (λ m. m.1 refl);
                outside = set_here r.0.idx (s.p i) no_idx;
                count = omega (arith, r.4);
                same_time = r.3;
              },
            )
      ])
  where
    dec : sub32 s.n 1 ≡ s.n - 1
    dec = omega (arith, h.small)

-- `min_heap_erase_` of an entry of the heap returns 0 and takes it, and only it, out of the heap;
-- the others stay in heap order, each at its index.
pub erase-Erased :
    {s : MinHeap} {M : ℕ → Type 0} (e : ℕ)
    → IsHeap s M
    → M e
    → (s' : MinHeap) × (erase e s ≡ some (true, s')) × Erased s M e s'
erase-Erased {s} {M} e h m =
    let f = h.places.find e m in
    subst (λ t. (s' : MinHeap) × (erase t s ≡ some (true, s')) × Erased s M t s') f.1
      (erase-Erased_at (s.idx e) h f.0)
