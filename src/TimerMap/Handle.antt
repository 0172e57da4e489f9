-- ===== src/TimerMap/Handle.antt =====
-- HandleTimeout with callbacks that leave the timers as they are.
use mathlib.Core.Path.{subst}
use cpp_infra.Common.{
  All, All-map, Bool-cases, List, Option, [], ap, arith, eq_self, gt_of_leb, inl, inr, le_of_leb,
  leb, length, refl, some, suc, zero, ℕ, ◌++◌, ◌+◌, ◌<◌, ◌∷◌, ◌≡◌, ◌≤◌,
}
use cpp_infra.TimerMap.{TimerNode, Call, calls, erase_at, handle_loop, handle_timeout}
use cpp_infra.TimerMap.Order.{Sorted}

-- Each of the nodes, from the round `i` on, has expired in its round.
abbrev pub Due : (ℕ → ℕ) → ℕ → List TimerNode → Type 0
Due clock i [] = Unit
Due clock i (n ∷ ns) = (n.timeout ≤ clock i) × Due clock (i + 1) ns

abbrev pub Later : ℕ → List TimerNode → Type 0
Later now map = All (λ m. now < m.timeout) map

-- What a run from the round `i` over `map` comes to: `called` ran, `left` is left.
abbrev pub Handled :
    (ℕ → ℕ) → ℕ → List TimerNode → Option (List TimerNode × List TimerNode) → Type 0
Handled clock i map result =
    (left : List TimerNode) × ((called : List TimerNode) × (result ≡ some (left, called))
      × (called ++ left ≡ map)
      × Due clock i called
      × Later (clock (i + length called)) left)

module _ (clock : ℕ → ℕ) (callback : TimerNode → List Call)
    (quiet : (n : TimerNode) → callback n ≡ []) where
  erase_first :
      (n : TimerNode) (ns : List TimerNode)
      → erase_at n.node (calls (callback n) (n ∷ ns)) ≡ some ([], ns)
  unfolding calls
  erase_first n ns = rw (quiet n, eq_self n.node) refl

  handle_loop-Handled :
      (fuel i : ℕ) (map : List TimerNode)
      → length map < fuel
      → Sorted map
      → Handled clock i map (handle_loop fuel clock callback i [] map)
  unfolding handle_loop
  handle_loop-Handled zero i map enough sorted = absurd (omega arith)
  handle_loop-Handled (suc fuel) i [] enough sorted = ([], ([], refl, refl, tt, tt))
  handle_loop-Handled (suc fuel) i (n ∷ ns) enough (least, sorted) =
      elim (Bool-cases (leb n.timeout (clock i))) [
        | inl e ↦
            let (left, (called, ran, split, due, later)) =
              handle_loop-Handled fuel (i + 1) ns (omega arith) sorted in
            let next : i + 1 + length called ≡ i + length (n ∷ called) = omega arith in
            (
              left,
              (
                n ∷ called,
                rw (e, erase_first n ns, ran) refl,
                ap (λ ms. n ∷ ms) split,
                (le_of_leb n.timeout (clock i) e, due),
                subst (λ k. Later (clock k) left) next later,
              ),
            )
        | inr e ↦
            let lt = gt_of_leb n.timeout (clock i) e in
            let here : i ≡ i + 0 = omega arith in
            (
              n ∷ ns,
              (
                [],
                rw e refl,
                refl,
                tt,
                subst (λ k. Later (clock k) (n ∷ ns)) here
                    (lt, All-map ns (λ m le. omega arith) least),
              ),
            )
      ]

-- With callbacks that leave the timers as they are, and the times of the clock in the rounds, in any
-- order: `HandleTimeout` ends within one round more than there are timers; it calls the first nodes in
-- order of their time, each expired by then, it removes just these, and those that are left expire
-- later than the last time read.
pub handle_timeout-Handled :
    (clock : ℕ → ℕ) (callback : TimerNode → List Call) (map : List TimerNode)
    → ((n : TimerNode) → callback n ≡ [])
    → Sorted map
    → Handled clock 0 map (handle_timeout (length map + 1) clock callback map)
unfolding handle_timeout
handle_timeout-Handled clock callback map quiet sorted =
    handle_loop-Handled clock callback quiet (length map + 1) 0 map (omega arith) sorted
