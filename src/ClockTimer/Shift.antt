-- ===== src/ClockTimer/Shift.antt =====
-- `timer_shift`: which list a tick remaps.
use native.Mathlib.Decide.{ℕ_discrete}
use cpp_infra.Common.{
  All-map, [], arith, ne_test, refl, true, ℕ, ◌%◌, ◌+◌, ◌/◌, ◌<◌, ◌==◌, ◌^◌, ◌≡◌, ◌≢◌,
}
use cpp_infra.ClockTimer.{Timer, remap_minute, remap_hour, timer_shift}
use cpp_infra.ClockTimer.Lists.{All-link_clear}
use cpp_infra.ClockTimer.Valid.{
  SecondOk, ExpireOk, Valid, add_all-Valid, time-add_all, fired-add_all,
}

abbrev pub ticked : Timer → Timer
ticked T = record T { time = T.time + 1 }

-- What `timer_shift` returned.
pub data Shifted (T : Timer) (r : Timer) : Type 0 where
  still : (T.time + 1) % 60 ≢ 0 → r ≡ ticked T → Shifted T r
  minutes :
      (T.time + 1) % 60 ≡ 0
      → (T.time + 1) / 60 % 60 ≢ 0
      → r ≡ remap_minute (ticked T) ((T.time + 1) / 60 % 60)
      → Shifted T r
  hours :
      (T.time + 1) % 3600 ≡ 0 → r ≡ remap_hour (ticked T) ((T.time + 1) / 3600 % 12) → Shifted T r

pub timer_shift-Shifted : (T : Timer) → T.time + 1 < 2 ^ 32 → Shifted T (timer_shift T)
unfolding timer_shift
timer_shift-Shifted T ht =
    rw (next, minute_idx, hour_idx)
      (elim (ℕ_discrete ((T.time + 1) % 43200) 0) [
        | yes z ↦
            let zero_idx : (T.time + 1) / 3600 % 12 ≡ 0 = omega arith in
            hours (omega arith) (rw (eq_test z, zero_idx) refl)
        | no nz ↦ elim (ℕ_discrete ((T.time + 1) % 43200 % 60) 0) [
          | no off ↦ still (omega arith) (
              rw (ne_test ((T.time + 1) % 43200) 0 nz, ne_test ((T.time + 1) % 43200 % 60) 0 off)
                refl)
          | yes on ↦ elim (ℕ_discrete ((T.time + 1) / 60 % 60) 0) [
            | no m ↦ minutes (omega arith) m (
                rw
                  (
                    ne_test ((T.time + 1) % 43200) 0 nz,
                    eq_test on,
                    ne_test ((T.time + 1) / 60 % 60) 0 m,
                  )
                  refl)
            | yes m ↦
                let hour_ne : (T.time + 1) / 3600 % 12 ≢ 0 = λ h. nz (omega arith) in
                hours (omega arith) (
                  rw
                    (
                      ne_test ((T.time + 1) % 43200) 0 nz,
                      eq_test on,
                      eq_test m,
                      ne_test ((T.time + 1) / 3600 % 12) 0 hour_ne,
                    )
                    refl)
          ]
        ]
      ])
  where
    next : (T.time + 1) % 2 ^ 32 ≡ T.time + 1
    next = omega arith

    minute_idx : (T.time + 1) % 43200 / 60 % 60 ≡ (T.time + 1) / 60 % 60
    minute_idx = omega arith

    hour_idx : (T.time + 1) % 43200 / 3600 % 12 ≡ (T.time + 1) / 3600 % 12
    hour_idx = omega arith

    eq_test : {n : ℕ} → n ≡ 0 → (n == 0) ≡ true
    eq_test {n} e = ground arith

-- Nothing is left to call at the current time.
abbrev pub IsQuiet : Timer → Type 0
IsQuiet T = T.second (T.time % 60) ≡ []

second_tick : (c i e : ℕ) → i ≢ c % 60 → SecondOk c i e → SecondOk (c + 1) i e
second_tick c i e ne h = omega arith

ticked-Valid : (T : Timer) → Valid T → T.time + 1 < 2 ^ 31 → IsQuiet T → Valid (ticked T)
ticked-Valid T v ht quiet = record {
  time_in = ht;
  second_ok = λ i. elim (ℕ_discrete i (T.time % 60)) [
    | yes e ↦ rw (e, quiet) tt
    | no ne ↦ All-map (T.second i) (λ n h. second_tick T.time i n.expire ne h) (v.second_ok i)
  ];
  minute_ok = v.minute_ok;
  hour_ok = v.hour_ok;
  on_time = v.on_time;
}

-- After the callbacks of the current time, a tick keeps the wheel valid.
pub timer_shift-Valid :
    (T : Timer)
    → Valid T
    → T.time + 1 < 2 ^ 31
    → IsQuiet T
    → Valid (timer_shift T)
      × ((timer_shift T).time ≡ T.time + 1)
      × ((timer_shift T).fired ≡ T.fired)
unfolding remap_minute remap_hour
timer_shift-Valid T v ht quiet = go (timer_shift-Shifted T (omega arith))
  where
    w : Valid (ticked T)
    w = ticked-Valid T v ht quiet

    go : {r : Timer} → Shifted T r → Valid r × (r.time ≡ T.time + 1) × (r.fired ≡ T.fired)
    go (still off e) = rw e (w, refl, refl)
    go (minutes on m e) =
        let idx = (T.time + 1) / 60 % 60 in
        rw e (
          add_all-Valid (T.minute idx) _ (v.minute_ok idx) (record {
            time_in = w.time_in;
            second_ok = w.second_ok;
            minute_ok = λ i. All-link_clear ExpireOk T.minute idx i (v.minute_ok i);
            hour_ok = w.hour_ok;
            on_time = w.on_time;
          }),
          time-add_all (T.minute idx) _,
          fired-add_all (T.minute idx) _,
        )
    go (hours on e) =
        let idx = (T.time + 1) / 3600 % 12 in
        rw e (
          add_all-Valid (T.hour idx) _ (v.hour_ok idx) (record {
            time_in = w.time_in;
            second_ok = w.second_ok;
            minute_ok = w.minute_ok;
            hour_ok = λ i. All-link_clear ExpireOk T.hour idx i (v.hour_ok i);
            on_time = w.on_time;
          }),
          time-add_all (T.hour idx) _,
          fired-add_all (T.hour idx) _,
        )
