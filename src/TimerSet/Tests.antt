-- ===== src/TimerSet/Tests.antt =====
-- Runs of the timers of timer/timer.cc.
use cpp_infra.Common.{List, [], arith, length, pos, refl, true, ◌+◌, ◌∷◌, ◌≡◌}
use cpp_infra.TimerSet.{TimerNode, Timer, add_timer, del_timer, time_to_sleep, Call, handle_timer}
use cpp_infra.TimerSet.Order.{IsTimer, del_timer-add_timer}
use cpp_infra.TimerSet.Handle.{Handled, handle_timer-Handled}

-- Two timers of the same time, and a later one.
abbrev three : Timer
three = record {
  gid = 3;
  timeouts =
      (record { expire = 5; id = 0 })
      ∷ (record { expire = 5; id = 2 })
      ∷ (record { expire = 9; id = 1 })
      ∷ [];
}

three-IsTimer : IsTimer three
three-IsTimer = record {
  sorted = ((refl, (refl, tt)), ((refl, tt), (tt, tt)));
  issued = (omega arith, (omega arith, (omega arith, tt)));
}

del_timer-add_timer_example :
    IsTimer (add_timer 2 3 three).1
    × (del_timer (add_timer 2 3 three).0 (add_timer 2 3 three).1 ≡ (true, record three { gid = 4 }))
del_timer-add_timer_example = del_timer-add_timer 2 3 three three-IsTimer

sleeps : (time_to_sleep 3 three ≡ pos 2) × (time_to_sleep 8 three ≡ pos 0)
unfolding time_to_sleep
sleeps = (refl, refl)

abbrev quiet : TimerNode → List Call
quiet n = []

handle_timer-Handled_example :
    Handled 6 3 three.timeouts (handle_timer (length three.timeouts + 1) 6 quiet three)
handle_timer-Handled_example = handle_timer-Handled 6 quiet three (λ n. refl) three-IsTimer
