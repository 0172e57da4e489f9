-- ===== src/TimerSet/Handle.antt =====
-- HandleTimer with callbacks that leave the timers as they are.
use cpp_infra.Common.{
  All, All-map, Bool-cases, List, Option, [], ap, arith, eq_self, gt_of_leb, inl, inr, le_of_leb,
  leb, length, refl, some, suc, true, zero, ℕ, ◌++◌, ◌+◌, ◌<◌, ◌∷◌, ◌≡◌, ◌≤◌,
}
use cpp_infra.TimerSet.{TimerNode, Timer, Call, calls, less, handle_loop, handle_timer}
use cpp_infra.TimerSet.Order.{Sorted, IsTimer}

-- What a run over the set `ms` comes to: the expired nodes ran, the others are left.
abbrev pub Handled : ℕ → ℕ → List TimerNode → Option (Timer × List TimerNode) → Type 0
Handled now gid ms result =
    (left : List TimerNode) × ((called : List TimerNode) × (result
        ≡ some (record { gid = gid; timeouts = left }, called))
      × (called ++ left ≡ ms)
      × All (λ m. m.expire ≤ now) called
      × All (λ m. now < m.expire) left)

above_later : (now : ℕ) (n m : TimerNode) → now < n.expire → less n m ≡ true → now < m.expire
above_later now n m lt e = ground arith

module _ (now gid : ℕ) (callback : TimerNode → List Call)
    (quiet : (n : TimerNode) → callback n ≡ []) where
  no_calls : (n : TimerNode) (t : Timer) → calls (callback n) t ≡ t
  unfolding calls
  no_calls n t = rw (quiet n) refl

  handle_loop-Handled :
      (fuel : ℕ) (ms : List TimerNode)
      → length ms < fuel
      → Sorted ms
      → Handled now gid ms (handle_loop fuel now callback gid [] ms)
  unfolding handle_loop
  handle_loop-Handled zero ms enough sorted = absurd (omega arith)
  handle_loop-Handled (suc fuel) [] enough sorted = ([], ([], refl, refl, tt, tt))
  handle_loop-Handled (suc fuel) (n ∷ ns) enough (least, sorted) =
      elim (Bool-cases (leb n.expire now)) [
        | inl e ↦
            let (left, (called, ran, split, due, later)) =
              handle_loop-Handled fuel ns (omega arith) sorted in
            (
              left,
              (
                n ∷ called,
                rw (e, no_calls n (record { gid = gid; timeouts = n ∷ ns }), eq_self n.id, ran)
                    refl,
                ap (λ ms. n ∷ ms) split,
                (le_of_leb n.expire now e, due),
                later,
              ),
            )
        | inr e ↦
            let lt = gt_of_leb n.expire now e in
            (
              n ∷ ns,
              (
                [],
                rw e refl,
                refl,
                tt,
                (lt, All-map ns (λ m above. above_later now n m lt above) least),
              ),
            )
      ]

-- With callbacks that leave the timers as they are, on timers in the order of the set: `HandleTimer` ends
-- within one round more than there are timers, calls just the nodes that have expired by `now`, in order of
-- their time and then of their ids, and removes just these.
pub handle_timer-Handled :
    (now : ℕ) (callback : TimerNode → List Call) (t : Timer)
    → ((n : TimerNode) → callback n ≡ [])
    → IsTimer t
    → Handled now t.gid t.timeouts (handle_timer (length t.timeouts + 1) now callback t)
unfolding handle_timer
handle_timer-Handled now callback t quiet ok =
    handle_loop-Handled now t.gid callback quiet (length t.timeouts + 1) t.timeouts (omega arith)
      ok.sorted
