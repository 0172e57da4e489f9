-- ===== src/Timewheel/Tests.antt =====
-- The timing wheel at concrete inputs.
use mathlib.Core.Option
use cpp_infra.Common.{Any, List, [], arith, pos, refl, some, ℕ, ◌%◌, ◌+◌, ◌^◌, ◌∷◌, ◌≡◌}
use cpp_infra.Timewheel.{
  sub32, link, link_level, set_level, link_clear, move_list, add_all, timer_execute, execute_loop,
  dispatch_list, call, apply, disarmed, Timer, TimerNode, Request, arm, init_timer, add_timer,
  add_node, updates, expire_timer, timer_shift, timer_update, shift_loop,
}
use cpp_infra.Timewheel.Valid.{Valid, init_timer-Valid}
use cpp_infra.Timewheel.Shift.{timer_shift-Valid}
use cpp_infra.Timewheel.Distance.{span_large}
use cpp_infra.Timewheel.Execute.{IsSane}
use cpp_infra.Timewheel.Update.{timer_update-Valid, expire_timer-Valid}
use cpp_infra.Timewheel.Fires.{Called, Armed}
use cpp_infra.Timewheel.Calls.{IsReached, add_timer-Called}
use cpp_infra.Timewheel.Stuck.{add_timer-stuck}

-- Every callback sets a new timer of ten ticks, at the address 7.
abbrev periodic : TimerNode → ℕ → List Request
periodic n c = arm 7 0 9 1 0 ∷ []

periodic-IsSane : IsSane periodic
periodic-IsSane n c = (omega arith, tt)

abbrev fresh : Timer
fresh = record { near = λ i. []; t = λ k i. []; time = 250; current_point = 1000; fired = [] }

fresh-Valid : Valid fresh
fresh-Valid = record {
  time_in = omega arith;
  near_ok = λ i. tt;
  level_ok = λ k j h. tt;
  on_time = tt;
}

abbrev node : TimerNode
node = record { addr = 1; expire = 900; callback = 2; cancel = 0; id = 3 }

init_timer-Valid_example : Valid (init_timer 5)
init_timer-Valid_example = init_timer-Valid 5

timer_shift-Valid_example :
    (T' : Timer) × (timer_shift fresh ≡ some T') × Valid T' × (T'.time ≡ 251) × (T'.fired ≡ [])
timer_shift-Valid_example = timer_shift-Valid fresh fresh-Valid refl

timer_update-Valid_example :
    (T' : Timer) × (timer_update periodic 2 fresh ≡ some T') × Valid T' × (T'.time ≡ 251)
timer_update-Valid_example = timer_update-Valid periodic periodic-IsSane 0 fresh fresh-Valid

-- Another thread sets a timer of three ticks before each update.
abbrev threads : ℕ → List Request
threads i = arm 8 0 2 4 0 ∷ []

expire_timer-Valid_example :
    (T' : Timer) × (expire_timer periodic threads 2 1030 fresh ≡ some T')
    × Valid T'
    × (T'.time ≡ 280)
expire_timer-Valid_example =
    expire_timer-Valid periodic periodic-IsSane threads 0 1030 fresh fresh-Valid (omega arith)
      (omega arith)

-- A timer of 20 ticks, set at 250.
reached : IsReached 270 250
unfolding sub32
reached k hk lo hi = absurd (omega (arith, span_large k))

add_timer-Called_example :
    (U : Timer) × (updates periodic threads 2 20 (add_timer periodic 1 0 (pos 20) 2 3 fresh).0
      ≡ some U)
    × Called 1 270 U
add_timer-Called_example =
    add_timer-Called periodic threads 1 19 2 3 0 fresh periodic-IsSane (λ m c. (tt, tt))
      (λ i. (tt, tt)) fresh-Valid (omega arith) reached

-- A timer of 16200 ticks, set at 250, expires at 16450 = 64 * 256 + 66, and goes to slot 0.
abbrev lost : Timer
lost = (add_timer periodic 1 0 (pos 16200) 2 3 fresh).0

slot_zero : lost.t 0 0 ≡ record { addr = 1; expire = 16450; callback = 2; cancel = 0; id = 3 } ∷ []
unfolding add_timer add_node sub32 link_level set_level link
slot_zero = refl

-- After 20000 updates, of which its time was the 16200th, it is there still.
add_timer-stuck_example :
    (U : Timer) × (updates periodic threads 2 20000 lost ≡ some U)
    × Valid U
    × (U.time ≡ (250 + 20000) % 2 ^ 32)
    × Any (Armed 1 16450) (U.t 0 0)
add_timer-stuck_example =
    add_timer-stuck periodic threads 1 16199 2 3 0 20000 0 fresh periodic-IsSane (λ m c. (tt, tt))
      (λ i. (tt, tt)) fresh-Valid (omega arith) (omega arith) (omega arith) (omega arith) refl

-- The callback of a due timer is made, and the timer that it sets is called ten ticks later.
called_twice :
    Option.map
      (λ (T : Timer). T.fired)
      (updates periodic (λ i. []) 3 31 (add_timer periodic 1 0 (pos 20) 2 3 fresh).0)
    ≡ some (
        (280, record { addr = 7; expire = 280; callback = 1; cancel = 0; id = 0 })
        ∷ (270, record { addr = 1; expire = 270; callback = 2; cancel = 0; id = 3 })
        ∷ [])
unfolding updates timer_update timer_execute execute_loop timer_shift shift_loop dispatch_list call
    apply disarmed add_timer add_node sub32 link_level set_level link link_clear move_list add_all
called_twice = refl
