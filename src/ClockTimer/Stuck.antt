-- ===== src/ClockTimer/Stuck.antt =====
-- Slot 0 of the minutes, and `timer_shift`.
use mathlib.Core.Path.{subst}
use mathlib.Core.Option.{some-injective}
use cpp_infra.Common.{
  >>=-eq-some, All, Any, Bool-cases, List, [], arith, inl, inr, ne_of_==, pos, refl, some, suc, sym,
  zero, ℕ, ◌%◌, ◌+◌, ◌/◌, ◌<◌, ◌==◌, ◌^◌, ◌∷◌, ◌≡◌, ◌≤◌,
}
use cpp_infra.ClockTimer.{
  TimerNode, Timer, link_to, link_clear, new_node, add_timer, Request, execute_loop, timer_execute,
  timer_shift, timer_update, updates, remap_minute, remap_hour, apply, add_node,
}
use cpp_infra.ClockTimer.Lists.{link_clear_ne, Any-link_to_new}
use native.Mathlib.Nat.{mod-lt}
use cpp_infra.ClockTimer.Execute.{IsSane, updates-Valid}
use cpp_infra.ClockTimer.Valid.{
  Valid, Placed, in_second, in_minute, in_hour, add_node-Placed, add_node-Valid, time-add_node,
}
use cpp_infra.ClockTimer.Keeps.{Spares, dispatch_list-Keeps, add_all-Keeps, apply-Keeps}
use cpp_infra.ClockTimer.Fires.{Armed}
use cpp_infra.ClockTimer.Calls.{LeavesAlone, spares, All-Spares}

module _ (P : TimerNode → Type 0) (handler : TimerNode → ℕ → List Request)
    (spared : (n : TimerNode) (c : ℕ) → All (Spares P) (handler n c)) where
  execute_loop-stuck :
      (f idx : ℕ) (T U : Timer)
      → execute_loop handler f idx T ≡ some U
      → Any P (T.minute 0)
      → Any P (U.minute 0)
  unfolding execute_loop
  execute_loop-stuck zero idx T U run h = absurd (cc run)
  execute_loop-stuck (suc f) idx T U run h =
      go (T.second idx) refl (λ V r g. execute_loop-stuck f idx V U r g)
    where
      go :
          (ns : List TimerNode)
          → T.second idx ≡ ns
          → ((V : Timer)
              → execute_loop handler f idx V ≡ some U
              → Any P (V.minute 0)
              → Any P (U.minute 0))
          → Any P (U.minute 0)
      go [] e rest = rw (← some-injective _ _ (rw (e, execute_loop) at run)) h
      go (n ∷ ns) e rest = rest _ (rw (e, execute_loop) at run) (
          (dispatch_list-Keeps P handler spared (n ∷ ns) []
              (record T { second = link_clear T.second idx })).minute
            0 h)

  timer_shift-stuck : (T : Timer) → Any P (T.minute 0) → Any P ((timer_shift T).minute 0)
  unfolding timer_shift remap_minute remap_hour
  timer_shift-stuck T h = elim (Bool-cases (ct == 0)) [
    | inl z ↦ rw z ((add_all-Keeps P (T.hour 0) _).minute 0 h)
    | inr nz ↦ elim (Bool-cases (ct % 60 == 0)) [
      | inr off ↦ rw (nz, off) h
      | inl on ↦ elim (Bool-cases (ct / 60 % 60 == 0)) [
        | inr m ↦
            rw (nz, on, m)
              ((add_all-Keeps P (T.minute (ct / 60 % 60)) _).minute 0
                (rw (link_clear_ne T.minute (ct / 60 % 60) 0 (λ e. ne_of_== _ _ m (sym e))) h))
        | inl m ↦ elim (Bool-cases (ct / 3600 % 12 == 0)) [
          | inr k ↦ rw (nz, on, m, k) ((add_all-Keeps P (T.hour (ct / 3600 % 12)) _).minute 0 h)
          | inl k ↦ rw (nz, on, m, k) h
        ]
      ]
    ]
  ]
    where
      ct : ℕ
      ct = (T.time + 1) % 2 ^ 32 % 43200

  timer_update-stuck :
      (f : ℕ) (T U : Timer)
      → timer_update handler f T ≡ some U
      → Any P (T.minute 0)
      → Any P (U.minute 0)
  unfolding timer_update timer_execute
  timer_update-stuck f T U run h =
      let (T1, e1, r1) = >>=-eq-some (timer_execute handler f T) _ run in
      execute_loop-stuck f _ (timer_shift T1) U r1
        (timer_shift-stuck T1 (execute_loop-stuck f _ T T1 e1 h))

  -- Whatever number of updates is made, a node in slot 0 of the minutes stays there.
  pub updates-stuck :
      (others : ℕ → List Request)
      → ((i : ℕ) → All (Spares P) (others i))
      → (f n : ℕ) (T U : Timer) → updates handler others f n T ≡ some U
      → Any P (T.minute 0)
      → Any P (U.minute 0)
  unfolding updates
  updates-stuck others apart f zero T U run h = rw (← some-injective _ _ run) h
  updates-stuck others apart f (suc n) T U run h =
      let (T1, e1, r1) = >>=-eq-some (timer_update handler f (apply (others n) T)) _ run in
      updates-stuck others apart f n T1 U r1 (
        timer_update-stuck f (apply (others n) T) T1 e1
          ((apply-Keeps P (others n) T (apart n)).minute 0 h))

-- On a valid wheel, a timer of one minute to one hour whose minute of expiry is the first of an hour, and
-- that no request cancels: any number of updates, also past its time, is made, and the timer is still in
-- slot 0 of the minutes, whatever other timers are added and cancelled by then. The clock stays below
-- 2 ^ 31 seconds.
pub add_timer-stuck_clock :
    (handler : TimerNode → ℕ → List Request) (others : ℕ → List Request) (addr n func f m : ℕ)
    (T : Timer)
    → IsSane handler
    → ((d : TimerNode) (c : ℕ) → All (LeavesAlone addr) (handler d c))
    → ((i : ℕ) → All (LeavesAlone addr) (others i))
    → Valid T
    → T.time + suc n < 2 ^ 31
    → T.time + m < 2 ^ 31
    → 60 ≤ suc n
    → suc n < 3600
    → (T.time + suc n) / 60 % 60 ≡ 0
    → (U : Timer) × (updates handler others
          (suc (suc f))
          m
          (add_timer handler addr (pos (suc n)) func T).0
        ≡ some U)
      × Valid U
      × (U.time ≡ T.time + m)
      × Any (Armed addr (T.time + suc n)) (U.minute 0)
unfolding add_timer
add_timer-stuck_clock handler others addr n func f m T sane alone others_alone v ht hm lo hi
      zero_slot =
    let same = time-add_node T node in
    let (U, run, vu, tu) =
      updates-Valid handler sane others f m (add_node T node)
        (add_node-Valid T node (mod-lt _ (omega arith)) v) (omega (arith, same)) in
    (
      U,
      run,
      vu,
      omega (arith, tu, same),
      updates-stuck (Armed addr (T.time + suc n)) handler
          (spares addr (T.time + suc n) handler alone) others
          (λ i. All-Spares addr (T.time + suc n) handler alone (others i) (others_alone i))
          (suc (suc f)) m _ U run
          (go (add_node-Placed T node (omega arith) (rw due (omega arith)))),
    )
  where
    node : TimerNode
    node = new_node addr (pos (suc n)) func T

    due : (suc n % 2 ^ 32 + T.time) % 2 ^ 32 ≡ T.time + suc n
    due = omega arith

    slot : (T.time + suc n) / 60 % 60 ≡ 0 → node.expire / 60 % 60 ≡ 0
    slot z = rw due z

    go : {r : Timer} → Placed T node r → Any (Armed addr (T.time + suc n)) (r.minute 0)
    go (in_second l h q) = absurd (omega (arith, rw due at h))
    go (in_hour far q) = absurd (omega (arith, (rw due at far) (omega arith)))
    go (in_minute l h q) = rw q (
        subst (λ i. Any (Armed addr (T.time + suc n)) (link_to T.minute i node 0))
          (sym (slot zero_slot))
          (Any-link_to_new (Armed addr (T.time + suc n)) T.minute 0 node (refl, due, refl)))
