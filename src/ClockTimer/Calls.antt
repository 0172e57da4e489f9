-- ===== src/ClockTimer/Calls.antt =====
-- The second at which a timer that nobody cancels is called.
use mathlib.Core.Path.{subst}
use native.Mathlib.Decide.{ℕ_discrete}
use cpp_infra.Common.{
  All, All-map, Any, Bool-cases, List, [], arith, false, inl, inr, mem, mem-append, ne_test, not,
  pos, refl, some, suc, sym, that, this, true, zero, ℕ, ◌%◌, ◌&&◌, ◌+◌, ◌<◌, ◌==◌, ◌^◌, ◌∙◌, ◌∷◌,
  ◌≡◌, ◌≢◌, ◌≤◌, ◌⊎◌,
}
use cpp_infra.ClockTimer.{
  TimerNode, Timer, link_clear, add_node, new_node, Request, arm, disarm, disarmed, call,
  dispatch_list, timer_shift, updates, add_timer, apply,
}
use cpp_infra.ClockTimer.Lists.{link_clear_ne}
use cpp_infra.ClockTimer.Valid.{
  Valid, add_node-Valid, time-add_node, fired-apply, apply-Valid, time-apply,
}
use cpp_infra.ClockTimer.Shift.{timer_shift-Valid}
use cpp_infra.ClockTimer.Execute.{
  IsSane, round, updated, dispatch_live, dispatch_dead, time-dispatch_list, time-call,
  timer_execute-round, timer_update-updated,
}
use cpp_infra.ClockTimer.Keeps.{Spares, dispatch_list-Keeps, apply-Keeps}
use cpp_infra.ClockTimer.Fires.{
  Armed, Called, Pending, soon, in_minutes, in_hours, Pending-Keeps, IsReached, add_node-Pending,
  timer_shift-Pending,
}

module _ (a : ℕ) where
  -- The request does not cancel the timer at `a`.
  abbrev pub LeavesAlone : Request → Type 0
  LeavesAlone (arm addr n func) = Unit
  LeavesAlone (disarm b) = a ≢ b

  mem-disarmed : (rs : List Request) → All LeavesAlone rs → mem a (disarmed rs) ≡ false
  unfolding disarmed
  mem-disarmed [] h = refl
  mem-disarmed (arm addr n func ∷ rs) h = mem-disarmed rs h.1
  mem-disarmed (disarm b ∷ rs) h = rw (ne_test a b h.0) (mem-disarmed rs h.1)

module _ (a e : ℕ) (handler : TimerNode → ℕ → List Request)
    (alone : (n : TimerNode) (c : ℕ) → All (LeavesAlone a) (handler n c)) where
  pub All-Spares : (rs : List Request) → All (LeavesAlone a) rs → All (Spares (Armed a e)) rs
  All-Spares rs h = All-map rs one h
    where
      one : (r : Request) → LeavesAlone a r → Spares (Armed a e) r
      one (arm addr k func) h = tt
      one (disarm b) h = λ m p q. h (sym p.0 ∙ q)

  pub spares : (n : TimerNode) (c : ℕ) → All (Spares (Armed a e)) (handler n c)
  spares n c = All-Spares (handler n c) (alone n c)

  call_records : (n : TimerNode) (T : Timer) → (call handler n T).fired ≡ (T.time, n) ∷ T.fired
  unfolding call
  call_records n T = fired-apply (handler n T.time) _

  dispatch_list-Called :
      (ns : List TimerNode) (gone : List ℕ) (T : Timer)
      → Called a e T
      → Called a e (dispatch_list handler ns gone T)
  unfolding dispatch_list
  dispatch_list-Called [] gone T h = h
  dispatch_list-Called (n ∷ ns) gone T h =
      elim (Bool-cases (n.cancel == 0 && not (mem n.addr gone))) [
        | inl l ↦
            rw (dispatch_live handler n ns gone T l)
              (dispatch_list-Called ns _ _ (rw (call_records n T) (that h)))
        | inr d ↦ rw (dispatch_dead handler n ns gone T d) (dispatch_list-Called ns gone T h)
      ]

  -- A list that is due and holds the timer calls it.
  dispatch_list-calls :
      (ns : List TimerNode) (gone : List ℕ) (T : Timer)
      → e ≡ T.time
      → mem a gone ≡ false
      → Any (Armed a e) ns
      → Called a e (dispatch_list handler ns gone T)
  dispatch_list-calls (n ∷ ns) gone T now g (this p) =
      let live : (n.cancel == 0 && not (mem n.addr gone)) ≡ true =
        ground (arith, rw (← p.0) at g) in
      rw (dispatch_live handler n ns gone T live)
        (dispatch_list-Called ns _ _ (rw (call_records n T) (this (sym now, p.0))))
  dispatch_list-calls (n ∷ ns) gone T now g (that h) =
      elim (Bool-cases (n.cancel == 0 && not (mem n.addr gone))) [
        | inl l ↦ rw (dispatch_live handler n ns gone T l) (
            dispatch_list-calls ns _ _ (now ∙ sym (time-call handler n T))
              (mem-append a (disarmed (handler n T.time)) gone (mem-disarmed a _ (alone n T.time))
                g)
              h)
        | inr d ↦ rw (dispatch_dead handler n ns gone T d) (dispatch_list-calls ns gone T now g h)
      ]
  dispatch_list-calls [] gone T now g h = elim h [ ]

  module _ (sane : IsSane handler) where
    round-Called : (T : Timer) → Called a e T → Called a e (round handler T)
    round-Called T h = dispatch_list-Called (T.second (T.time % 60)) [] _ h

    Pending-ahead : (T : Timer) → Pending a e T → T.time ≤ e
    Pending-ahead T (soon h lo hi) = lo
    Pending-ahead T (in_minutes h lo hi d) = omega arith
    Pending-ahead T (in_hours h lo) = omega arith

    -- One run of `timer_execute`: the timer is called if its time is now, and stays otherwise.
    round-Pending :
        (T : Timer)
        → Pending a e T
        → Called a e (round handler T) ⊎ ((e ≢ T.time) × Pending a e (round handler T))
    round-Pending T (soon h lo hi) = elim (ℕ_discrete e T.time) [
      | yes now ↦ inl (
          dispatch_list-calls (T.second (T.time % 60)) [] _ now refl
            (subst (λ x. Any (Armed a e) (T.second (x % 60))) now h))
      | no ne ↦ inr (
        ne,
        kept (
            soon (rw (link_clear_ne T.second (T.time % 60) (e % 60) (λ same. ne (omega arith))) h)
              lo hi),
      )
    ]
      where
        kept :
            Pending a e (record T { second = link_clear T.second (T.time % 60) })
            → Pending a e (round handler T)
        kept =
            Pending-Keeps a e
              (dispatch_list-Keeps (Armed a e) handler spares (T.second (T.time % 60)) [] _)
              (time-dispatch_list handler (T.second (T.time % 60)) [] _)
    round-Pending T (in_minutes h lo hi d) = inr (
      (λ now. omega arith),
      Pending-Keeps a e
          (dispatch_list-Keeps (Armed a e) handler spares (T.second (T.time % 60)) [] _)
          (time-dispatch_list handler (T.second (T.time % 60)) [] _) (in_minutes h lo hi d),
    )
    round-Pending T (in_hours h lo) = inr (
      (λ now. omega arith),
      Pending-Keeps a e
          (dispatch_list-Keeps (Armed a e) handler spares (T.second (T.time % 60)) [] _)
          (time-dispatch_list handler (T.second (T.time % 60)) [] _) (in_hours h lo),
    )

    updated-Called :
        (T : Timer)
        → Valid T
        → T.time + 1 < 2 ^ 31
        → Called a e T
        → Called a e (updated handler sane T)
    updated-Called T v ht c =
        let (e1, v1, t1, q1) = timer_execute-round handler sane 0 T v in
        let (v2, t2, same) = timer_shift-Valid (round handler T) v1 (rw t1 ht) q1 in
        round-Called (timer_shift (round handler T)) (rw same (round-Called T c))

    -- One update: the timer is called, or stands in the wheel with its time ahead.
    updated-Pending :
        (T : Timer)
        → Valid T
        → T.time + 1 < 2 ^ 31
        → e < 2 ^ 32
        → Pending a e T
        → Called a e (updated handler sane T)
          ⊎ (Pending a e (updated handler sane T) × (T.time + 1 < e))
    updated-Pending T v ht he p =
        let (e1, v1, t1, q1) = timer_execute-round handler sane 0 T v in
        let (v2, t2, same) = timer_shift-Valid (round handler T) v1 (rw t1 ht) q1 in
        elim (round-Pending T p) [
          | inl c ↦ inl (round-Called (timer_shift (round handler T)) (rw same c))
          | inr (ne, q) ↦
              let p2 = timer_shift-Pending a e (round handler T) (rw t1 ht) he (rw t1 ne) q in
              elim (round-Pending (timer_shift (round handler T)) p2) [
                | inl c ↦ inl c
                | inr (ne2, q2) ↦ inr (q2, omega (arith, Pending-ahead _ p2, ne2, t2, t1))
              ]
        ]

    -- Called already, or to be called within `n` updates.
    abbrev Left : ℕ → Timer → Type 0
    Left n T = Called a e T ⊎ (Pending a e T × (T.time < e) × (e ≤ T.time + n))

    -- The calls of other threads between two updates.
    module _ (others : ℕ → List Request)
        (others_alone : (i : ℕ) → All (LeavesAlone a) (others i)) where
      apply-Left : (i n : ℕ) (T : Timer) → Left n T → Left n (apply (others i) T)
      apply-Left i n T (inl c) = inl (rw (fired-apply (others i) T) c)
      apply-Left i n T (inr (p, ahead, d)) = inr (
        Pending-Keeps a e
            (apply-Keeps (Armed a e) (others i) T (All-Spares (others i) (others_alone i)))
            (time-apply (others i) T) p,
        rw (time-apply (others i) T) ahead,
        rw (time-apply (others i) T) d,
      )

      step-Left :
          (n : ℕ) (T : Timer)
          → Valid T
          → T.time + suc n < 2 ^ 31
          → e < 2 ^ 32
          → Left (suc n) T
          → (updated handler sane T).time ≡ T.time + 1
          → Left n (updated handler sane T)
      step-Left n T v ht he (inl c) tu = inl (updated-Called T v (omega arith) c)
      step-Left n T v ht he (inr (p, ahead, d)) tu = elim (updated-Pending T v (omega arith) he p) [
        | inl c ↦ inl c
        | inr (q, later) ↦ inr (q, omega (arith, tu), omega (arith, tu))
      ]

      updates-Left :
          (f n : ℕ) (T : Timer)
          → Valid T
          → T.time + n < 2 ^ 31
          → e < 2 ^ 32
          → Left n T
          → (U : Timer) × (updates handler others (suc (suc f)) n T ≡ some U)
            × Valid U
            × (U.time ≡ T.time + n)
            × Called a e U
      unfolding updates
      updates-Left f zero T v ht he (inl c) = (T, refl, v, omega arith, c)
      updates-Left f zero T v ht he (inr (p, ahead, d)) = absurd (omega arith)
      updates-Left f (suc n) T v ht he left =
          let same = time-apply (others n) T in
          let T0 = apply (others n) T in
          let v0 = apply-Valid (others n) T v in
          let (run, vu, tu) = timer_update-updated handler sane f T0 v0 (omega (arith, same)) in
          let next = step-Left n T0 v0 (omega (arith, same)) he (apply-Left n (suc n) T left) tu in
          let (V, run', vv, tv, c) =
            updates-Left f n (updated handler sane T0) vu (omega (arith, tu, same)) he next in
          (V, rw (run, run') refl, vv, omega (arith, tv, tu, same), c)

-- On a valid wheel, a timer of a positive time, not added to the slot 0 of the minutes, that no
-- request cancels, is called at its time: exactly as many updates later as it was set for, whatever
-- other timers are added and cancelled by then, by the callbacks and, between the updates, by other
-- threads. The wheel is valid then: every callback that was made was made at the time for which it was
-- set. The clock stays below 2 ^ 31 seconds.
pub add_timer-Called_clock :
    (handler : TimerNode → ℕ → List Request) (others : ℕ → List Request) (addr n func f : ℕ)
    (T : Timer)
    → IsSane handler
    → ((m : TimerNode) (c : ℕ) → All (LeavesAlone addr) (handler m c))
    → ((i : ℕ) → All (LeavesAlone addr) (others i))
    → Valid T
    → T.time + suc n < 2 ^ 31
    → IsReached addr (T.time + suc n) T.time
    → (U : Timer) × (updates handler others
          (suc (suc f))
          (suc n)
          (add_timer handler addr (pos (suc n)) func T).0
        ≡ some U)
      × Valid U
      × (U.time ≡ T.time + suc n)
      × Called addr (T.time + suc n) U
unfolding add_timer
add_timer-Called_clock handler others addr n func f T sane alone others_alone v ht reached =
    let same = time-add_node T node in
    let p : Pending addr e (add_node T node) =
      add_node-Pending addr e T node v.time_in (omega arith) (omega arith) (refl, due, refl)
        reached in
    let (U, run, vu, tu, c) =
      updates-Left addr e handler alone sane others others_alone f (suc n) (add_node T node)
        (add_node-Valid T node (rw due (omega arith)) v) (omega (arith, same)) (omega arith)
        (inr (p, omega (arith, same), omega (arith, same))) in
    (U, run, vu, omega (arith, tu, same), c)
  where
    e : ℕ
    e = T.time + suc n

    node : TimerNode
    node = new_node addr (pos (suc n)) func T

    due : (suc n % 2 ^ 32 + T.time) % 2 ^ 32 ≡ T.time + suc n
    due = omega arith
