-- ===== src/MinHeap/Down.antt =====
-- The loop of `min_heap_shift_down_`.
use native.Mathlib.Decide.{ℕ_discrete}
use cpp_infra.Common.{
  Bool-cases, ap, arith, false, inl, inr, leb, ltb, ne_test, refl, some, suc, true, zero, ℕ, ◌%◌,
  ◌*◌, ◌+◌, ◌<◌, ◌==◌, ◌^◌, ◌≡◌, ◌≢◌, ◌≤◌, ◌⊎◌,
}
use cpp_infra.MinHeap.{MinHeap, sub32, elem_greater, pick, shift_down}
use cpp_infra.MinHeap.Order.{Edge, Down, Down-done, Down-step, parent}
use cpp_infra.MinHeap.Places.{set_here, set_there}
use cpp_infra.MinHeap.Move.{keys, Filled, moved, set-Swap, Swap-map, Filled-moved}
use cpp_infra.MinHeap.Up.{Restored, put-Restored, slot_inside, put_inside}

-- `c` is a least child of `h` among the first `n` slots.
record LeastChild (s : MinHeap) (h c : ℕ) : Type 0 where
  pub inside : c < s.n
  pub above : 0 < c
  pub child : parent c ≡ h
  pub least : (j : ℕ) → 0 < j → j < s.n → parent j ≡ h → s.time (s.p c) ≤ s.time (s.p j)

-- a child is the left or the right one
children : (h j : ℕ) → 0 < j → parent j ≡ h → (j ≡ 2 * h + 1) ⊎ (j ≡ 2 * h + 2)
children h j at e = elim (ℕ_discrete j (2 * h + 1)) [
  | yes eq ↦ inl eq
  | no ne ↦ inr (omega (arith, e))
]

pick-LeastChild :
    (s : MinHeap) (h : ℕ)
    → 2 * h + 2 ≤ s.n
    → s.n ≤ s.a
    → s.n < 2 ^ 31
    → (c : ℕ) × (pick (2 * h + 2) s ≡ some c) × LeastChild s h c
unfolding pick
pick-LeastChild s h le room small = elim (ℕ_discrete (2 * h + 2) s.n) [
  | yes e ↦
      rw (eq_test _ _ e, left)
        (
          _,
          refl,
          record {
            inside = omega arith;
            above = omega arith;
            child = omega arith;
            least = λ j at lt p. elim (children h j at p) [
              | inl l ↦ rw l (omega arith)
              | inr r ↦ absurd (omega (arith, e, r))
            ];
          },
        )
  | no ne ↦
      rw
        (
          ne_test _ _ ne,
          left,
          slot_inside s (2 * h + 2) (omega arith),
          slot_inside s (2 * h + 1) (omega arith),
        )
        (elim (Bool-cases (elem_greater s (s.p (2 * h + 2)) (s.p (2 * h + 1)))) [
          | inl gt ↦ rw gt (
            _,
            refl,
            record {
              inside = omega arith;
              above = omega arith;
              child = omega arith;
              least = λ j at lt p. elim (children h j at p) [
                | inl l ↦ rw l (omega arith)
                | inr r ↦ rw r (less _ _ gt)
              ];
            },
          )
          | inr ge ↦ rw ge (
            _,
            refl,
            record {
              inside = omega arith;
              above = omega arith;
              child = omega arith;
              least = λ j at lt p. elim (children h j at p) [
                | inl l ↦ rw l (not_less _ _ ge)
                | inr r ↦ rw r (omega arith)
              ];
            },
          )
        ])
]
  where
    left : sub32 (2 * h + 2) 1 ≡ 2 * h + 1
    left = omega arith

    eq_test : (a b : ℕ) → a ≡ b → (a == b) ≡ true
    eq_test a b e = ground arith

    less : (a b : ℕ) → ltb a b ≡ true → a ≤ b
    less a b e = ground arith

    not_less : (a b : ℕ) → ltb a b ≡ false → b ≤ a
    not_less a b e = ground arith

pub shift_down-Restored :
    (fuel : ℕ) (s : MinHeap) (h e : ℕ) {M : ℕ → Type 0}
    → Filled s h e M
    → s.n < fuel + h
    → Down (keys s h e) s.n h
    → Restored s M (shift_down fuel h e s)
unfolding shift_down
shift_down-Restored zero s h e f lt d = absurd (omega (arith, f.1))
shift_down-Restored (suc fuel) s h e {M} f lt d = elim (Bool-cases (leb (2 * h + 2) s.n)) [
  | inr none_left ↦
      rw (right, none_left)
        (put-Restored s h e f
          (Down-done d (λ j at j_lt p. absurd (no_child none_left j at j_lt p))))
  | inl some_left ↦
      let (c, picked, least) = pick-LeastChild s h (at_most _ _ some_left) f.2 f.3 in
      rw (right, some_left, picked, slot_inside s c (omega (arith, least.inside, f.2)))
        (elim (Bool-cases (elem_greater s e (s.p c))) [
          | inl gt ↦
              let other : c ≢ h = omega (arith, least.child, least.above) in
              let rest =
                shift_down-Restored fuel (moved s h c) c e
                  (Filled-moved s h e c f least.inside other)
                  (omega (arith, least.child, least.above))
                  (Down-step c d least.above least.inside least.child (least_key c least)
                    (le_hole c least gt) (Swap-map s.time (set-Swap s.p h c e other))) in
              rw (gt, put_inside s h (s.p c) (omega (arith, f.1, f.2))) rest
          | inr le ↦ rw le (put-Restored s h e f (Down-done d (stop c least le)))
        ])
]
  where
    right : 2 * (h + 1) % 2 ^ 32 ≡ 2 * h + 2
    right = omega (arith, f.1, f.3)

    at_most : (a b : ℕ) → leb a b ≡ true → a ≤ b
    at_most a b e = ground arith

    no_child : leb (2 * h + 2) s.n ≡ false → (j : ℕ) → 0 < j → j < s.n → parent j ≢ h
    no_child none_left j at j_lt p = ground (arith, none_left)

    key_hole : keys s h e h ≡ s.time e
    key_hole = ap s.time (set_here s.p h e)

    key_child : (j : ℕ) → 0 < j → parent j ≡ h → keys s h e j ≡ s.time (s.p j)
    key_child j at p = ap s.time (set_there s.p h e j (omega (arith, at, p)))

    least_key :
        (c : ℕ)
        → LeastChild s h c
        → (j : ℕ) → 0 < j
        → j < s.n
        → parent j ≡ h
        → keys s h e c ≤ keys s h e j
    least_key c least j at j_lt p =
        rw (key_child c least.above least.child, key_child j at p) (least.least j at j_lt p)

    le_hole :
        (c : ℕ) → LeastChild s h c → elem_greater s e (s.p c) ≡ true → keys s h e c ≤ keys s h e h
    le_hole c least gt = rw (key_child c least.above least.child, key_hole) (ground arith)

    stop :
        (c : ℕ)
        → LeastChild s h c
        → elem_greater s e (s.p c) ≡ false
        → (j : ℕ) → 0 < j
        → j < s.n
        → parent j ≡ h
        → Edge (keys s h e) j
    stop c least le j at j_lt p =
        let below = least.least j at j_lt p in
        rw (p, key_child j at p, key_hole) (ground (arith, below))
