-- ===== src/TimerMap/Tests.antt =====
-- Runs of the timers of network_timer/Timer.h.
use cpp_infra.Common.{
  List, [], arith, length, negsuc, pos, refl, ℕ, ◌+◌, ◌-◌, ◌<◌, ◌∷◌, ◌≡◌, ◌≤◌, ◌⊎◌,
}
use cpp_infra.TimerMap.{
  TimerNode, insert, add_timeout, del_timeout, wait_time, Call, handle_timeout,
}
use cpp_infra.TimerMap.Order.{Sorted, add_timeout-insert}
use cpp_infra.TimerMap.Handle.{Handled, handle_timeout-Handled}
use cpp_infra.TimerMap.Wait.{wait_time_near}

abbrev early : TimerNode
early = record { node = 1; timeout = 5 }

abbrev late : TimerNode
late = record { node = 2; timeout = 9 }

abbrev two_timers : List TimerNode
two_timers = early ∷ late ∷ []

two_timers-Sorted : Sorted two_timers
two_timers-Sorted = ((omega arith, tt), (tt, tt))

add_timeout-insert_example :
    (add_timeout 4 3 7 two_timers ≡ insert (record { node = 7; timeout = 7 }) two_timers)
    × Sorted (add_timeout 4 3 7 two_timers)
add_timeout-insert_example = add_timeout-insert 4 3 7 two_timers two_timers-Sorted

added_between :
    add_timeout 4 3 7 two_timers ≡ early ∷ (record { node = 7; timeout = 7 }) ∷ late ∷ []
unfolding add_timeout insert
added_between = refl

deleted_late : del_timeout late two_timers ≡ early ∷ []
unfolding del_timeout
deleted_late = refl

abbrev clock : ℕ → ℕ
clock i = 6 + i

abbrev quiet : TimerNode → List Call
quiet n = []

handle_timeout-Handled_example :
    Handled clock 0 two_timers (handle_timeout (length two_timers + 1) clock quiet two_timers)
handle_timeout-Handled_example =
    handle_timeout-Handled clock quiet two_timers (λ n. refl) two_timers-Sorted

wait_time_near_example :
    ((8 ≤ 5) × (wait_time 8 two_timers ≡ pos (5 - 8)))
    ⊎ ((5 < 8) × (wait_time 8 two_timers ≡ negsuc (8 - 5 - 1)))
wait_time_near_example =
    wait_time_near 8 early (late ∷ []) (omega arith) (omega arith) (omega arith) (omega arith)
