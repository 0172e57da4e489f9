-- ===== src/Timewheel/Update.antt =====
-- `timer_update`, and any number of updates: the wheel and the callbacks.
use cpp_infra.Common.{
  Bool-cases, List, ap, arith, inl, inr, refl, some, suc, zero, ℕ, ◌%◌, ◌+◌, ◌-◌, ◌<◌, ◌==◌, ◌^◌,
  ◌∙◌, ◌≡◌, ◌≤◌,
}
use cpp_infra.Timewheel.{
  apply, TimerNode, Timer, Request, timer_shift, timer_update, updates, expire_timer,
}
use cpp_infra.Timewheel.Distance.{tick}
use cpp_infra.Timewheel.Valid.{Valid, apply-Valid, time-apply}
use cpp_infra.Timewheel.Shift.{timer_shift-Valid}
use cpp_infra.Timewheel.Execute.{IsSane, round, timer_execute-round}

module _ (handler : TimerNode → ℕ → List Request) (sane : IsSane handler) where
  -- The three parts of `timer_update`.
  pub record Updated (f : ℕ) (T U : Timer) : Type 0 where
    pub middle : Timer
    pub shifted : timer_shift (round handler sane T) ≡ some middle
    pub first_time : (round handler sane T).time ≡ T.time
    pub first_fired : middle.fired ≡ (round handler sane T).fired
    pub middle_valid : Valid middle
    pub middle_time : middle.time ≡ tick T.time
    pub last : U ≡ round handler sane middle

  pub timer_update-Updated :
      (f : ℕ) (T : Timer)
      → Valid T
      → (U : Timer) × (timer_update handler (suc (suc f)) T ≡ some U)
        × Valid U
        × (U.time ≡ tick T.time)
        × Updated f T U
  unfolding timer_update
  timer_update-Updated f T v =
      let (e1, v1, t1, q1) = timer_execute-round handler sane f T v in
      let (T2, e2, v2, t2, same) = timer_shift-Valid _ v1 q1 in
      let (e3, v3, t3, q3) = timer_execute-round handler sane f T2 v2 in
      (
        round handler sane T2,
        rw (e1, e2, e3),
        v3,
        t3 ∙ t2 ∙ ap tick t1,
        record {
          middle = T2;
          shifted = e2;
          first_time = t1;
          first_fired = same;
          middle_valid = v2;
          middle_time = t2 ∙ ap tick t1;
          last = refl;
        },
      )

  -- From a valid wheel, `timer_update` ends and leaves a valid wheel one tick on.
  pub timer_update-Valid :
      (f : ℕ) (T : Timer)
      → Valid T
      → (T' : Timer) × (timer_update handler (suc (suc f)) T ≡ some T')
        × Valid T'
        × (T'.time ≡ tick T.time)
  timer_update-Valid f T v =
      let (U, run, vu, tu, _) = timer_update-Updated f T v in (U, run, vu, tu)

  -- Any number of ticks: every callback made so far was made at the time for which it was set.
  pub updates-Valid :
      (others : ℕ → List Request) (f n : ℕ) (T : Timer)
      → Valid T
      → (T' : Timer) × (updates handler others (suc (suc f)) n T ≡ some T')
        × Valid T'
        × (T'.time ≡ (T.time + n) % 2 ^ 32)
  unfolding updates
  updates-Valid others f zero T v = (T, refl, v, omega (arith, v.time_in))
  updates-Valid others f (suc n) T v =
      let same = time-apply (others n) T in
      let (T1, e1, v1, t1) =
        timer_update-Valid f (apply (others n) T) (apply-Valid (others n) T v) in
      let (T2, e2, v2, t2) = updates-Valid others f n T1 v1 in
      (T2, rw (e1, e2), v2, omega (arith, t1, t2, same))

  -- `expire_timer` on a valid wheel ends, whatever other threads add and cancel between the updates; it moves the clock by the milliseconds since the last call
  -- (in 32 bits), and every callback that it makes is made at the time for which it was set.
  pub expire_timer-Valid :
      (others : ℕ → List Request) (f cp : ℕ) (T : Timer)
      → Valid T
      → T.current_point ≤ cp
      → cp < 2 ^ 64
      → (T' : Timer) × (expire_timer handler others (suc (suc f)) cp T ≡ some T')
        × Valid T'
        × (T'.time ≡ (T.time + (cp - T.current_point)) % 2 ^ 32)
  unfolding expire_timer
  expire_timer-Valid others f cp T v h h' = elim (Bool-cases (cp == T.current_point)) [
    | inl e ↦ (T, rw e, v, ground (arith, v.time_in))
    | inr e ↦
        let d = (cp + 2 ^ 64 - T.current_point) % 2 ^ 64 % 2 ^ 32 in
        let (U, run, vu, tu) =
          updates-Valid others f d (record T { current_point = cp })
            (record {
              time_in = v.time_in;
              near_ok = v.near_ok;
              level_ok = v.level_ok;
              on_time = v.on_time;
            }) in
        (U, rw e run, vu, omega (arith, tu))
  ]
