-- ===== src/MinHeap/Up.antt =====
-- The loop of `min_heap_shift_up_`.
use native.Mathlib.Decide.{ℕ_discrete}
use cpp_infra.Common.{
  Bool-cases, Option, ap, arith, false, inl, inr, ltb, ne_test, refl, some, suc, true, zero, ℕ, ◌/◌,
  ◌<◌, ◌==◌, ◌^◌, ◌≡◌, ◌≢◌, ◌≤◌,
}
use cpp_infra.MinHeap.{MinHeap, set, slot, put, sub32, elem_greater, shift_up}
use cpp_infra.MinHeap.Order.{Edge, Ordered, Up, Up-done, Up-step, parent}
use cpp_infra.MinHeap.Places.{Places, set_here, set_there}
use cpp_infra.MinHeap.Move.{keys, Filled, moved, set-Swap, Swap-map, Filled-moved}

-- The first `n` slots hold the entries of `M` in heap order, each at its index, within the storage.
pub record IsHeap (s : MinHeap) (M : ℕ → Type 0) : Type 0 where
  pub places : Places s.p s.idx s.n M
  pub ordered : Ordered (λ i. s.time (s.p i)) s.n
  pub room : s.n ≤ s.a
  pub small : s.n < 2 ^ 31

-- What a loop returned from `s`: a heap of the same entries, with the same times and storage.
abbrev pub Restored : MinHeap → (ℕ → Type 0) → Option MinHeap → Type 0
Restored s M r =
    (s' : MinHeap) × (r ≡ some s') × IsHeap s' M × (s'.time ≡ s.time) × (s'.n ≡ s.n) × (s'.a ≡ s.a)

pub put-Restored :
    (s : MinHeap) (h e : ℕ) {M : ℕ → Type 0}
    → Filled s h e M
    → Ordered (keys s h e) s.n
    → Restored s M (put h e s)
put-Restored s h e (w, lt, room, small) o = (
  _,
  rw (inside s.a h (omega (arith, lt, room))) refl,
  record { places = w; ordered = o; room = room; small = small },
  refl,
  refl,
  refl,
)
  where
    inside : (a i : ℕ) → i < a → ltb i a ≡ true
    inside a i lt = ground arith

pub slot_inside : (s : MinHeap) (i : ℕ) → i < s.a → slot i s ≡ some (s.p i)
slot_inside s i lt = rw inside refl
  where
    inside : ltb i s.a ≡ true
    inside = ground arith

pub put_inside :
    (s : MinHeap) (i e : ℕ)
    → i < s.a
    → put i e s ≡ some (record s { p = set s.p i e; idx = set s.idx e i })
put_inside s i e lt = rw inside refl
  where
    inside : ltb i s.a ≡ true
    inside = ground arith

pub shift_up-Restored :
    (fuel : ℕ) (s : MinHeap) (h e : ℕ) {M : ℕ → Type 0}
    → Filled s h e M
    → h < fuel
    → Up (keys s h e) s.n h
    → Restored s M (shift_up fuel h e s)
unfolding shift_up
shift_up-Restored zero s h e f lt u = absurd (omega arith)
shift_up-Restored (suc fuel) s h e {M} f lt u = elim (ℕ_discrete h 0) [
  | yes is_top ↦
      rw (top_test is_top) (put-Restored s h e f (Up-done u (λ at. absurd (omega arith))))
  | no ne ↦
      rw (ne_test h 0 ne, par (omega arith), slot_inside s (parent h) (omega arith))
        (elim (Bool-cases (elem_greater s (s.p (parent h)) e)) [
          | inl gt ↦
              let lower : parent h ≢ h = omega arith in
              let sw = Swap-map s.time (set-Swap s.p h (parent h) e lower) in
              let rest =
                shift_up-Restored fuel (moved s h (parent h)) (parent h) e
                  (Filled-moved s h e (parent h) f (omega arith) lower) (omega arith)
                  (Up-step u (omega arith) f.1 (lower_key (omega arith) gt) sw) in
              rw (gt, put_inside s h (s.p (parent h)) (omega arith)) rest
          | inr le ↦ rw le (put-Restored s h e f (Up-done u (λ at. edge at le)))
        ])
]
  where
    top_test : h ≡ 0 → (h == 0) ≡ true
    top_test eq = ground arith

    par : 0 < h → sub32 h 1 / 2 ≡ parent h
    par at = omega (arith, f.1, f.3)

    key_hole : keys s h e h ≡ s.time e
    key_hole = ap s.time (set_here s.p h e)

    key_up : 0 < h → keys s h e (parent h) ≡ s.time (s.p (parent h))
    key_up at = ap s.time (set_there s.p h e (parent h) (omega arith))

    lower_key :
        0 < h → elem_greater s (s.p (parent h)) e ≡ true → keys s h e h ≤ keys s h e (parent h)
    lower_key at gt = rw (key_hole, key_up at) (ground arith)

    edge : 0 < h → elem_greater s (s.p (parent h)) e ≡ false → Edge (keys s h e) h
    edge at le = rw (key_hole, key_up at) (ground arith)
