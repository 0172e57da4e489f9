-- ===== src/ClockTimer/Execute.antt =====
-- `timer_execute`: the callbacks of the current time, with whatever they add and cancel.
use native.Mathlib.Nat.{mod-lt}
use cpp_infra.Common.{
  All, All-map, Bool-cases, List, [], ap, arith, false, if◌then◌else◌, inl, inr, mem, not, pos,
  refl, some, suc, sym, true, zero, ℕ, ◌%◌, ◌&&◌, ◌++◌, ◌+◌, ◌<◌, ◌==◌, ◌^◌, ◌∙◌, ◌∷◌, ◌≡◌, ◌≢◌,
}
use cpp_infra.ClockTimer.{
  TimerNode, Timer, link_clear, add_node, new_node, del_timer, Request, arm, disarm, apply,
  disarmed, call, dispatch_list, execute_loop, timer_execute, timer_shift, timer_update, updates,
}
use cpp_infra.ClockTimer.Lists.{
  All-link_clear, link_to_ne, link_clear_self, link_clear_empty, cancel-nil,
}
use cpp_infra.ClockTimer.Valid.{
  Valid, SecondOk, Placed, in_second, in_minute, in_hour, add_node-Placed, apply-Valid,
  time-add_node, time-apply,
}
use cpp_infra.ClockTimer.Shift.{IsQuiet, timer_shift-Valid}

-- The times of a callback's calls of `add_timer` fit an int.
abbrev pub IsInt : Request → Type 0
IsInt (arm addr n func) = suc n < 2 ^ 31
IsInt (disarm a) = Unit

abbrev pub IsSane : (TimerNode → ℕ → List Request) → Type 0
IsSane handler = (n : TimerNode) (c : ℕ) → All IsInt (handler n c)

-- A timer armed now is not called now.
arm-IsQuiet :
    (addr n func : ℕ) (T : Timer)
    → T.time < 2 ^ 31
    → suc n < 2 ^ 31
    → IsQuiet T
    → IsQuiet (add_node T (new_node addr (pos (suc n)) func T))
arm-IsQuiet addr n func T ht h q = go (add_node-Placed T node ht (mod-lt _ (omega arith)))
  where
    node : TimerNode
    node = new_node addr (pos (suc n)) func T

    later :
        (suc n % 2 ^ 32 + T.time) % 2 ^ 32 < T.time + 60
        → (suc n % 2 ^ 32 + T.time) % 2 ^ 32 % 60 ≢ T.time % 60
    later lt e = omega arith

    go : {r : Timer} → Placed T node r → IsQuiet r
    go (in_second lo hi e) = rw (e, link_to_ne T.second _ node (T.time % 60) (later hi)) q
    go (in_minute lo hi e) = rw e q
    go (in_hour far e) = rw e q

apply-IsQuiet :
    (rs : List Request) (T : Timer)
    → T.time < 2 ^ 31
    → All IsInt rs
    → IsQuiet T
    → IsQuiet (apply rs T)
unfolding apply del_timer
apply-IsQuiet [] T ht h q = q
apply-IsQuiet (arm addr n func ∷ rs) T ht h q =
    apply-IsQuiet rs _ (rw (time-add_node T (new_node addr (pos (suc n)) func T)) ht) h.1
      (arm-IsQuiet addr n func T ht h.0 q)
apply-IsQuiet (disarm a ∷ rs) T ht h q =
    apply-IsQuiet rs _ ht h.1 (cancel-nil a (T.second (T.time % 60)) q)

module _ (handler : TimerNode → ℕ → List Request) where
  pub time-call : (n : TimerNode) (T : Timer) → (call handler n T).time ≡ T.time
  unfolding call
  time-call n T = time-apply (handler n T.time) _

  call-Valid : (n : TimerNode) (T : Timer) → n.expire ≡ T.time → Valid T → Valid (call handler n T)
  unfolding call
  call-Valid n T e v = apply-Valid (handler n T.time) _ (record {
    time_in = v.time_in;
    second_ok = v.second_ok;
    minute_ok = v.minute_ok;
    hour_ok = v.hour_ok;
    on_time = (e, v.on_time);
  })

  -- A node that is called, and one that is cancelled.
  pub dispatch_live :
      (n : TimerNode) (ns : List TimerNode) (gone : List ℕ) (T : Timer)
      → (n.cancel == 0 && not (mem n.addr gone)) ≡ true
      → dispatch_list handler (n ∷ ns) gone T
        ≡ dispatch_list handler ns (disarmed (handler n T.time) ++ gone) (call handler n T)
  unfolding dispatch_list
  dispatch_live n ns gone T e =
      ap
        (λ b.
          dispatch_list handler ns (if b then disarmed (handler n T.time) ++ gone else gone)
            (if b then call handler n T else T))
        e

  pub dispatch_dead :
      (n : TimerNode) (ns : List TimerNode) (gone : List ℕ) (T : Timer)
      → (n.cancel == 0 && not (mem n.addr gone)) ≡ false
      → dispatch_list handler (n ∷ ns) gone T ≡ dispatch_list handler ns gone T
  unfolding dispatch_list
  dispatch_dead n ns gone T e =
      ap
        (λ b.
          dispatch_list handler ns (if b then disarmed (handler n T.time) ++ gone else gone)
            (if b then call handler n T else T))
        e

  pub time-dispatch_list :
      (ns : List TimerNode) (gone : List ℕ) (T : Timer)
      → (dispatch_list handler ns gone T).time ≡ T.time
  unfolding dispatch_list
  time-dispatch_list [] gone T = refl
  time-dispatch_list (n ∷ ns) gone T = elim (Bool-cases (n.cancel == 0 && not (mem n.addr gone))) [
    | inl e ↦ rw (dispatch_live n ns gone T e) (time-dispatch_list ns _ _ ∙ time-call n T)
    | inr e ↦ rw (dispatch_dead n ns gone T e) (time-dispatch_list ns gone T)
  ]

  -- one round of the `while` of `timer_execute`
  abbrev pub round : Timer → Timer
  round T =
      dispatch_list handler (T.second (T.time % 60)) []
        (record T { second = link_clear T.second (T.time % 60) })

  stops : (f idx : ℕ) (T : Timer) → T.second idx ≡ [] → execute_loop handler (suc f) idx T ≡ some T
  unfolding execute_loop
  stops f idx T e = rw (e, execute_loop)

  rounds :
      (f : ℕ) (T : Timer) (n : TimerNode) (ns : List TimerNode)
      → T.second (T.time % 60) ≡ n ∷ ns
      → execute_loop handler (suc f) (T.time % 60) T
        ≡ execute_loop handler f (T.time % 60) (round T)
  unfolding execute_loop
  rounds f T n ns e = rw (e, execute_loop)

  nothing_due : (T : Timer) → T.second (T.time % 60) ≡ [] → some T ≡ some (round T)
  unfolding dispatch_list
  nothing_due T e =
      ap (λ second. some (record T { second = second }))
        (sym (link_clear_empty T.second (T.time % 60) e))
      ∙ ap
          (λ ns.
            some (
              dispatch_list handler ns []
                (record T { second = link_clear T.second (T.time % 60) })))
          (sym e)

  module _ (sane : IsSane handler) where
    -- The callbacks of a list that is due, each made at its time.
    dispatch_list-Valid :
        (ns : List TimerNode) (gone : List ℕ) (T : Timer)
        → All (λ n. n.expire ≡ T.time) ns
        → Valid T
        → IsQuiet T
        → Valid (dispatch_list handler ns gone T) × IsQuiet (dispatch_list handler ns gone T)
    unfolding dispatch_list call
    dispatch_list-Valid [] gone T due v q = (v, q)
    dispatch_list-Valid (n ∷ ns) gone T due v q =
        elim (Bool-cases (n.cancel == 0 && not (mem n.addr gone))) [
          | inl e ↦ rw (dispatch_live n ns gone T e) (
              dispatch_list-Valid ns _ (call handler n T) (rw (time-call n T) due.1)
                (call-Valid n T due.0 v)
                (apply-IsQuiet (handler n T.time) _ v.time_in (sane n T.time) q))
          | inr e ↦ rw (dispatch_dead n ns gone T e) (dispatch_list-Valid ns gone T due.1 v q)
        ]

    second_due : (c e : ℕ) → SecondOk c (c % 60) e → e ≡ c
    second_due c e h = omega arith

    -- `timer_execute` makes one round of callbacks.
    pub timer_execute-round :
        (f : ℕ) (T : Timer)
        → Valid T
        → (timer_execute handler (suc (suc f)) T ≡ some (round T))
          × Valid (round T)
          × ((round T).time ≡ T.time)
          × IsQuiet (round T)
    unfolding timer_execute
    timer_execute-round f T v = (go (T.second (T.time % 60)) refl, after.0, same, after.1)
      where
        same : (round T).time ≡ T.time
        same = time-dispatch_list (T.second (T.time % 60)) [] _

        after : Valid (round T) × IsQuiet (round T)
        after =
            dispatch_list-Valid (T.second (T.time % 60)) [] _
              (All-map (T.second (T.time % 60)) (λ n h. second_due T.time n.expire h)
                (v.second_ok (T.time % 60)))
              (record {
                time_in = v.time_in;
                second_ok = λ i. All-link_clear _ T.second _ i (v.second_ok i);
                minute_ok = v.minute_ok;
                hour_ok = v.hour_ok;
                on_time = v.on_time;
              })
              (link_clear_self T.second (T.time % 60))

        quiet : (round T).second (T.time % 60) ≡ []
        quiet = ap (λ c. (round T).second (c % 60)) (sym same) ∙ after.1

        go :
            (ns : List TimerNode)
            → T.second (T.time % 60) ≡ ns
            → execute_loop handler (suc (suc f)) (T.time % 60) T ≡ some (round T)
        go [] e = stops (suc f) (T.time % 60) T e ∙ nothing_due T e
        go (n ∷ ns) e = rounds (suc f) T n ns e ∙ stops f (T.time % 60) (round T) quiet

    -- `timer_update` makes the callbacks of the current time, a tick, and those of the next.
    abbrev pub updated : Timer → Timer
    updated T = round (timer_shift (round T))

    pub timer_update-updated :
        (f : ℕ) (T : Timer)
        → Valid T
        → T.time + 1 < 2 ^ 31
        → (timer_update handler (suc (suc f)) T ≡ some (updated T))
          × Valid (updated T)
          × ((updated T).time ≡ T.time + 1)
    unfolding timer_update
    timer_update-updated f T v ht =
        let (e1, v1, t1, q1) = timer_execute-round f T v in
        let (v2, t2, same) = timer_shift-Valid (round T) v1 (rw t1 ht) q1 in
        let (e3, v3, t3, q3) = timer_execute-round f (timer_shift (round T)) v2 in
        (rw (e1, e3) refl, v3, t3 ∙ (t2 ∙ ap (λ t. t + 1) t1))

    -- Any number of ticks: every callback made so far was made at the time for which it was set.
    pub updates-Valid :
        (others : ℕ → List Request) (f n : ℕ) (T : Timer)
        → Valid T
        → T.time + n < 2 ^ 31
        → (U : Timer) × (updates handler others (suc (suc f)) n T ≡ some U)
          × Valid U
          × (U.time ≡ T.time + n)
    unfolding updates
    updates-Valid others f zero T v ht = (T, refl, v, omega arith)
    updates-Valid others f (suc n) T v ht =
        let same = time-apply (others n) T in
        let (run, vu, tu) =
          timer_update-updated f (apply (others n) T) (apply-Valid (others n) T v)
            (omega (arith, same)) in
        let (V, run', vv, tv) =
          updates-Valid others f n (updated (apply (others n) T)) vu (omega (arith, tu, same)) in
        (V, rw (run, run') refl, vv, omega (arith, tv, tu, same))
