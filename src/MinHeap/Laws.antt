-- ===== src/MinHeap/Laws.antt =====
-- Push and pop of the heap.
use mathlib.Core.Path.{subst}
use native.Mathlib.Decide.{ℕ_discrete}
use cpp_infra.Common.{arith, inl, inr, refl, suc, zero, ℕ, ◌+◌, ◌<◌, ◌^◌, ◌≡◌, ◌≢◌, ◌≤◌, ◌⊎◌}
use cpp_infra.MinHeap.{MinHeap, set}
use cpp_infra.MinHeap.Order.{parent}
use cpp_infra.MinHeap.Places.{set_here, set_there}
use cpp_infra.MinHeap.Move.{Filled}
use cpp_infra.MinHeap.Up.{IsHeap}

-- the set `M` and the entry `e`; the set `M` without it
abbrev pub With : (ℕ → Type 0) → ℕ → ℕ → Type 0
With M e t = (t ≡ e) ⊎ M t

abbrev pub Without : (ℕ → Type 0) → ℕ → ℕ → Type 0
Without M e t = M t × (t ≢ e)

-- The top of a heap is no later than any entry.
pub top_least :
    {s : MinHeap} {M : ℕ → Type 0} → IsHeap s M → (t : ℕ) → M t → s.time (s.p 0) ≤ s.time t
top_least {s} h t m =
    let f = h.places.find t m in
    subst (λ u. s.time (s.p 0) ≤ s.time u) f.1 (climb (suc (s.idx t)) (s.idx t) f.0 (omega arith))
  where
    climb : (fuel j : ℕ) → j < s.n → j < fuel → s.time (s.p 0) ≤ s.time (s.p j)
    climb zero j lt lt' = absurd (omega arith)
    climb (suc fuel) j lt lt' = elim (ℕ_discrete j 0) [
      | yes e ↦ rw e (omega arith)
      | no ne ↦
          omega
            (arith, climb fuel (parent j) (omega arith) (omega arith), h.ordered j (omega arith) lt)
    ]

-- A new entry in the hole behind the last one.
pub filled_behind :
    {s : MinHeap} {M : ℕ → Type 0} (e a : ℕ)
    → IsHeap s M
    → ¬ M e
    → s.n < a
    → s.n + 1 < 2 ^ 31
    → Filled (record s { n = s.n + 1; a = a }) s.n e (With M e)
filled_behind {s} {M} e a h new lt small =
    (record { at = at; find = find }, omega arith, omega arith, small)
  where
    old_ne : (i : ℕ) → i < s.n → s.p i ≢ e
    old_ne i i_lt eq = new (subst M eq (h.places.at i i_lt).0)

    at :
        (i : ℕ) → i < s.n + 1 → With M e (set s.p s.n e i) × (set s.idx e s.n (set s.p s.n e i) ≡ i)
    at i i_lt = elim (ℕ_discrete i s.n) [
      | yes eq ↦ rw (eq, set_here s.p s.n e, set_here s.idx e s.n) (inl refl, refl)
      | no ne ↦
          let old = h.places.at i (omega arith) in
          rw (set_there s.p s.n e i ne, set_there s.idx e s.n (s.p i) (old_ne i (omega arith)))
            (inr old.0, old.1)
    ]

    find :
        (t : ℕ)
        → With M e t
        → (set s.idx e s.n t < s.n + 1) × (set s.p s.n e (set s.idx e s.n t) ≡ t)
    find t (inl eq) = rw (eq, set_here s.idx e s.n, set_here s.p s.n e) (omega arith, refl)
    find t (inr m) =
        let f = h.places.find t m in
        rw
          (
            set_there s.idx e s.n t (λ eq. new (subst M eq m)),
            set_there s.p s.n e (s.idx t) (omega (arith, f.0)),
          )
          (omega (arith, f.0), f.1)
