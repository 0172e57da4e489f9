-- ===== src/ClockTimer/Fires.antt =====
-- Where a timer is in the wheel until the second for which it is set.
use mathlib.Core.Path.{subst}
use native.Mathlib.Decide.{ℕ_discrete}
use cpp_infra.Common.{
  Any, List, [], ap, arith, sym, that, this, ℕ, ◌%◌, ◌*◌, ◌+◌, ◌/◌, ◌<◌, ◌^◌, ◌∷◌, ◌≡◌, ◌≢◌, ◌≤◌,
}
use cpp_infra.ClockTimer.{
  TimerNode, Timer, link_to, link_clear, add_node, add_all, remap_minute, remap_hour, timer_shift,
}
use cpp_infra.ClockTimer.Lists.{Any-link_to_new, link_clear_ne}
use cpp_infra.ClockTimer.Valid.{
  Placed, in_second, in_minute, in_hour, add_node-Placed, time-add_node, time-add_all,
}
use cpp_infra.ClockTimer.Shift.{Shifted, still, minutes, hours, timer_shift-Shifted, ticked}
use cpp_infra.ClockTimer.Keeps.{Keeps, add_all-Keeps}

module _ (a e : ℕ) where
  -- the timer at the address `a`, set for the time `e` and not cancelled
  abbrev pub Armed : TimerNode → Type 0
  Armed n = (n.addr ≡ a) × (n.expire ≡ e) × (n.cancel ≡ 0)

  -- its callback has been made, at its time
  abbrev pub Called : Timer → Type 0
  Called T = Any (λ (c, n). (c ≡ e) × (n.addr ≡ a)) T.fired

  -- It stands in the wheel, where a tick will come for it.
  pub data Pending (T : Timer) : Type 0 where
    soon : Any Armed (T.second (e % 60)) → T.time ≤ e → e < T.time + 60 → Pending T
    in_hours : Any Armed (T.hour (e / 3600 % 12)) → T.time < e / 3600 * 3600 → Pending T
    in_minutes :
        Any Armed (T.minute (e / 60 % 60))
        → T.time < e / 60 * 60
        → e < T.time + 3600
        → e / 60 % 60 ≢ 0
        → Pending T

  pub Pending-Keeps : {T U : Timer} → Keeps Armed T U → U.time ≡ T.time → Pending T → Pending U
  Pending-Keeps k t (soon h lo hi) = soon (k.second _ h) (rw t lo) (rw t hi)
  Pending-Keeps k t (in_minutes h lo hi d) = in_minutes (k.minute _ h) (rw t lo) (rw t hi) d
  Pending-Keeps k t (in_hours h lo) = in_hours (k.hour _ h) (rw t lo)

  -- The timer set at the time `c` does not go to the slot 0 of the minutes.
  abbrev pub IsReached : ℕ → Type 0
  IsReached c = c + 60 ≤ e → e < c + 3600 → e / 60 % 60 ≢ 0

  -- Such a timer, added in time, stands where a tick will come for it.
  pub add_node-Pending :
      (T : Timer) (n : TimerNode)
      → T.time < 2 ^ 31
      → e < 2 ^ 32
      → T.time ≤ e
      → Armed n
      → IsReached T.time
      → Pending (add_node T n)
  add_node-Pending T n ht he le armed reached = go (add_node-Placed T n ht (rw armed.1 he))
    where
      go : {r : Timer} → Placed T n r → Pending r
      go (in_second lo hi q) = rw q (
          soon
            (subst (λ x. Any Armed (link_to T.second (x % 60) n (e % 60))) (sym armed.1)
              (Any-link_to_new Armed T.second (e % 60) n armed))
            le (rw armed.1 at hi))
      go (in_minute lo hi q) = rw q (
          in_minutes
            (subst (λ x. Any Armed (link_to T.minute (x / 60 % 60) n (e / 60 % 60))) (sym armed.1)
              (Any-link_to_new Armed T.minute (e / 60 % 60) n armed))
            (omega (arith, rw armed.1 at lo)) (rw armed.1 at hi)
            (reached (rw armed.1 at lo) (rw armed.1 at hi)))
      go (in_hour far q) = rw q (
          in_hours
            (subst (λ x. Any Armed (link_to T.hour (x / 3600 % 12) n (e / 3600 % 12))) (sym armed.1)
              (Any-link_to_new Armed T.hour (e / 3600 % 12) n armed))
            (omega (arith, (rw armed.1 at far) le)))

  add_all-Pending :
      (ns : List TimerNode) (T : Timer)
      → T.time < 2 ^ 31
      → e < 2 ^ 32
      → T.time ≤ e
      → IsReached T.time
      → Any Armed ns
      → Pending (add_all ns T)
  unfolding add_all
  add_all-Pending [] T ht he le r h = elim h [ ]
  add_all-Pending (n ∷ ns) T ht he le r (this p) =
      Pending-Keeps (add_all-Keeps Armed ns _) (time-add_all ns _)
        (add_node-Pending T n ht he le p r)
  add_all-Pending (n ∷ ns) T ht he le r (that h) =
      add_all-Pending ns _ (rw (time-add_node T n) ht) he (rw (time-add_node T n) le)
        (rw (time-add_node T n) r) h

  ahead_minute :
      (c : ℕ)
      → (c + 1) % 60 ≡ 0
      → c < e / 60 * 60
      → e / 60 % 60 ≢ (c + 1) / 60 % 60
      → c + 1 < e / 60 * 60
  ahead_minute c on lo other =
      let different : e / 60 ≢ (c + 1) / 60 = λ same. other (ap (λ t. t % 60) same) in omega arith

  ahead_hour :
      (c : ℕ)
      → (c + 1) % 3600 ≡ 0
      → c < e / 3600 * 3600
      → e / 3600 % 12 ≢ (c + 1) / 3600 % 12
      → c + 1 < e / 3600 * 3600
  ahead_hour c on lo other =
      let different : e / 3600 ≢ (c + 1) / 3600 = λ same. other (ap (λ t. t % 12) same) in
      omega arith

  hour_start : (c : ℕ) → (c + 1) % 3600 ≡ 0 → c + 1 + 60 ≤ e → e < c + 1 + 3600 → e / 60 % 60 ≢ 0
  hour_start c on far near z = omega arith

  -- A tick leaves the timer pending.
  pub timer_shift-Pending :
      (T : Timer)
      → T.time + 1 < 2 ^ 31
      → e < 2 ^ 32
      → e ≢ T.time
      → Pending T
      → Pending (timer_shift T)
  unfolding remap_minute remap_hour
  timer_shift-Pending T ht he ne p = go (timer_shift-Shifted T (omega arith)) p
    where
      next : ℕ
      next = T.time + 1

      rest : (ns : List TimerNode) (U : Timer) → Pending U → Pending (add_all ns U)
      rest ns U q = Pending-Keeps (add_all-Keeps Armed ns U) (time-add_all ns U) q

      go : {r : Timer} → Shifted T r → Pending T → Pending r
      go (still off q) (soon h lo hi) = rw q (soon h (omega arith) (omega arith))
      go (still off q) (in_minutes h lo hi d) = rw q (in_minutes h (omega arith) (omega arith) d)
      go (still off q) (in_hours h lo) = rw q (in_hours h (omega arith))
      go (minutes on m q) (soon h lo hi) = rw q (rest _ _ (soon h (omega arith) (omega arith)))
      go (minutes on m q) (in_hours h lo) = rw q (rest _ _ (in_hours h (omega arith)))
      go (minutes on m q) (in_minutes h lo hi d) =
          rw q (elim (ℕ_discrete (e / 60 % 60) (next / 60 % 60)) [
            | yes here ↦
                add_all-Pending (T.minute (next / 60 % 60))
                  (record (ticked T) { minute = link_clear T.minute (next / 60 % 60) }) ht he
                  (omega (arith, here)) (λ far _. absurd (omega (arith, here, far))) (rw here at h)
            | no other ↦ rest _ _ (
                in_minutes (rw (link_clear_ne T.minute (next / 60 % 60) (e / 60 % 60) other) h)
                  (ahead_minute T.time on lo other) (omega arith) d)
          ])
      go (hours on q) (soon h lo hi) = rw q (rest _ _ (soon h (omega arith) (omega arith)))
      go (hours on q) (in_minutes h lo hi d) =
          rw q (rest _ _ (in_minutes h (omega (arith, d)) (omega arith) d))
      go (hours on q) (in_hours h lo) = rw q (elim (ℕ_discrete (e / 3600 % 12) (next / 3600 % 12)) [
        | yes here ↦
            add_all-Pending (T.hour (next / 3600 % 12))
              (record (ticked T) { hour = link_clear T.hour (next / 3600 % 12) }) ht he
              (omega arith) (λ far near z. hour_start T.time on far near z) (rw here at h)
        | no other ↦ rest _ _ (
            in_hours (rw (link_clear_ne T.hour (next / 3600 % 12) (e / 3600 % 12) other) h)
              (ahead_hour T.time on lo other))
      ])
