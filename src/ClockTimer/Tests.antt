-- ===== src/ClockTimer/Tests.antt =====
-- The clock wheel at concrete inputs.
use cpp_infra.Common.{Any, List, Option, [], arith, none, pos, refl, some, ℕ, ◌+◌, ◌∷◌, ◌≡◌}
use cpp_infra.ClockTimer.{
  TimerNode, Timer, Request, apply, arm, add_timer, updates, timer_update, timer_shift,
  timer_execute, execute_loop, dispatch_list, call, add_node, sub32, link_to, link_clear,
  remap_minute, add_all, remap_hour,
}
use cpp_infra.ClockTimer.Execute.{IsSane}
use cpp_infra.ClockTimer.Valid.{Valid}
use cpp_infra.ClockTimer.Fires.{Called, Armed, IsReached}
use cpp_infra.ClockTimer.Calls.{add_timer-Called_clock}
use cpp_infra.ClockTimer.Stuck.{add_timer-stuck_clock}

-- Every callback sets a new timer of ten seconds, at the address 7.
abbrev periodic : TimerNode → ℕ → List Request
periodic n c = arm 7 9 1 ∷ []

abbrev fresh : Timer
fresh = record {
  second = λ i. [];
  minute = λ i. [];
  hour = λ i. [];
  time = 3500;
  current_point = 1000;
  fired = [];
}

fresh-Valid : Valid fresh
fresh-Valid = record {
  time_in = omega arith;
  second_ok = λ i. tt;
  minute_ok = λ i. tt;
  hour_ok = λ i. tt;
  on_time = tt;
}

periodic-IsSane : IsSane periodic
periodic-IsSane n c = (omega arith, tt)

-- Another thread sets a timer of three seconds before each update.
abbrev threads : ℕ → List Request
threads i = arm 8 2 4 ∷ []

reached : IsReached 1 3580 3500
reached lo hi e = omega arith

add_timer-Called_clock_example :
    (U : Timer) × (updates periodic threads 2 80 (add_timer periodic 1 (pos 80) 2 fresh).0 ≡ some U)
    × Valid U
    × (U.time ≡ 3580)
    × Called 1 3580 U
add_timer-Called_clock_example =
    add_timer-Called_clock periodic threads 1 79 2 0 fresh periodic-IsSane (λ n c. (tt, tt))
      (λ i. (tt, tt)) fresh-Valid (omega arith) reached

abbrev silent : TimerNode → ℕ → List Request
silent n c = []

-- A timer of 110 seconds, set at 3500, ten seconds into an hour.
abbrev run_on : ℕ → Option Timer
run_on n = updates silent (λ i. []) 2 n (add_timer silent 1 (pos 110) 2 fresh).0

abbrev late : Timer
late = elim (run_on 300) [ some U ↦ U | none ↦ fresh ]

late_run : run_on 300 ≡ some late
unfolding updates timer_update timer_shift timer_execute execute_loop add_timer add_node sub32
    link_to link_clear remap_minute remap_hour add_all dispatch_list call apply
late_run = refl

-- It is in slot 0 of the minutes 190 seconds after its time.
late_holds : late.minute 0 ≡ record { addr = 1; expire = 3610; callback = 2; cancel = 0 } ∷ []
unfolding updates timer_update timer_shift timer_execute execute_loop add_timer add_node sub32
    link_to link_clear remap_minute remap_hour add_all dispatch_list call apply
late_holds = refl

add_timer-stuck_clock_example :
    (U : Timer) × (updates periodic threads 2 300 (add_timer periodic 1 (pos 110) 2 fresh).0
      ≡ some U)
    × Valid U
    × (U.time ≡ 3500 + 300)
    × Any (Armed 1 3610) (U.minute 0)
add_timer-stuck_clock_example =
    add_timer-stuck_clock periodic threads 1 109 2 0 300 fresh periodic-IsSane (λ d c. (tt, tt))
      (λ i. (tt, tt)) fresh-Valid (omega arith) (omega arith) (omega arith) (omega arith) refl
