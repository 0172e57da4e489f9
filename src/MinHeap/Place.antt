-- ===== src/MinHeap/Place.antt =====
-- The end of `min_heap_erase_` and `min_heap_adjust_`: the hole moves up or down.
use mathlib.Core.Path.{subst}
use native.Mathlib.Decide.{ℕ_discrete}
use cpp_infra.Common.{
  Bool-cases, ap, arith, false, inl, inr, ltb, suc, sym, true, ℕ, ◌/◌, ◌<◌, ◌^◌, ◌≡◌, ◌≢◌, ◌≤◌,
}
use cpp_infra.MinHeap.{MinHeap, sub32, elem_greater, shift_up_unconditional, place}
use cpp_infra.MinHeap.Order.{Edge, Hole, Up, Up-step, parent}
use cpp_infra.MinHeap.Places.{set_here, set_there}
use cpp_infra.MinHeap.Move.{keys, Filled, moved, set-Swap, Swap-map, Filled-moved}
use cpp_infra.MinHeap.Up.{Restored, shift_up-Restored, slot_inside, put_inside}
use cpp_infra.MinHeap.Down.{shift_down-Restored}

pub sub_one : (i : ℕ) → 0 < i → i < 2 ^ 31 → sub32 i 1 / 2 ≡ parent i
sub_one i at lt = omega arith

shift_up_unconditional-Restored :
    (s : MinHeap) (h e : ℕ) {M : ℕ → Type 0}
    → Filled s h e M
    → 0 < h
    → Up (keys s h e) s.n h
    → keys s h e h ≤ keys s h e (parent h)
    → Restored s M (shift_up_unconditional h e s)
unfolding shift_up_unconditional
shift_up_unconditional-Restored s h e f at u le =
    let lower : parent h ≢ h = omega arith in
    let sw = Swap-map s.time (set-Swap s.p h (parent h) e lower) in
    let rest =
      shift_up-Restored (suc h) (moved s h (parent h)) (parent h) e
        (Filled-moved s h e (parent h) f (omega (arith, f.1)) lower) (omega arith)
        (Up-step u at f.1 le sw) in
    rw
      (
        sub_one h at (omega (arith, f.1, f.3)),
        slot_inside s (parent h) (omega (arith, f.1, f.2)),
        put_inside s h (s.p (parent h)) (omega (arith, f.1, f.2)),
      )
      rest

-- An entry put into a hole of a heap that is in order but at the hole: the heap is in order again.
pub place-Restored :
    (s : MinHeap) (h e : ℕ) {M : ℕ → Type 0}
    → Filled s h e M
    → Hole (keys s h e) s.n h
    → Restored s M (place h e s)
unfolding place
place-Restored s h e {M} f hole = elim (ℕ_discrete h 0) [
  | yes is_top ↦
      rw (at_top is_top)
        (shift_down-Restored (suc s.n) s h e f (omega arith) (hole, λ at. absurd (omega arith)))
  | no ne ↦
      let at : 0 < h = omega arith in
      rw
        (
          not_top at,
          sub_one h at (omega (arith, f.1, f.3)),
          slot_inside s (parent h) (omega (arith, f.1, f.2)),
        )
        (elim (Bool-cases (elem_greater s (s.p (parent h)) e)) [
          | inl gt ↦
              rw gt (
                shift_up_unconditional-Restored s h e f at (hole, children at gt) (lower_key at gt))
          | inr le ↦
              rw le (shift_down-Restored (suc s.n) s h e f (omega arith) (hole, λ at'. edge at le))
        ])
]
  where
    at_top : h ≡ 0 → ltb 0 h ≡ false
    at_top eq = ground arith

    not_top : 0 < h → ltb 0 h ≡ true
    not_top at = ground arith

    key_hole : keys s h e h ≡ s.time e
    key_hole = ap s.time (set_here s.p h e)

    key_up : 0 < h → keys s h e (parent h) ≡ s.time (s.p (parent h))
    key_up at = ap s.time (set_there s.p h e (parent h) (omega arith))

    lower_key :
        0 < h → elem_greater s (s.p (parent h)) e ≡ true → keys s h e h ≤ keys s h e (parent h)
    lower_key at gt = rw (key_hole, key_up at) (ground arith)

    edge : 0 < h → elem_greater s (s.p (parent h)) e ≡ false → Edge (keys s h e) h
    edge at le = rw (key_hole, key_up at) (ground arith)

    children :
        0 < h
        → elem_greater s (s.p (parent h)) e ≡ true
        → (j : ℕ) → 0 < j
        → j < s.n
        → parent j ≡ h
        → Edge (keys s h e) j
    children at gt j at_j lt p =
        subst (λ k. keys s h e k ≤ keys s h e j) (sym p)
          (omega (arith, lower_key at gt, hole.across j at at_j lt p))

-- The keys of a heap in order, but for any key at `h`, are in order but at `h`.
pub Ordered-Hole :
    {v v' : ℕ → ℕ} {n : ℕ} (n' h : ℕ)
    → ((j : ℕ) → 0 < j → j < n → Edge v j)
    → n' ≤ n
    → h < n'
    → ((j : ℕ) → j < n' → j ≢ h → v' j ≡ v j)
    → Hole v' n' h
Ordered-Hole {v} {v'} n' h o le lt same = record {
  away = λ j at j_lt ne ne_up.
      rw (same j j_lt ne, same (parent j) (omega arith) ne_up) (o j at (omega arith));
  across = λ j at at_j j_lt p.
      rw (same j j_lt (omega (arith, p, at)), same (parent h) (omega arith) (omega (arith, at)))
        (omega (arith, o h at (omega arith), subst (λ k. v k ≤ v j) p (o j at_j (omega arith))));
}
