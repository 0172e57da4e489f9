-- ===== src/Timewheel/Calls.antt =====
-- The tick at which a timer that nobody cancels is called.
use native.Mathlib.Nat.{mod-lt}
use mathlib.Core.Path.{subst}
use native.Mathlib.Decide.{ℕ_discrete}
use cpp_infra.Common.{
  All, All-map, Any, Bool-cases, List, [], ap, arith, false, inl, inr, mem, mem-append, ne_test,
  not, pos, refl, some, suc, sym, that, this, true, zero, ℕ, ◌%◌, ◌&&◌, ◌*◌, ◌+◌, ◌/◌, ◌<◌, ◌==◌,
  ◌^◌, ◌∙◌, ◌∷◌, ◌≡◌, ◌≢◌, ◌≤◌, ◌⊎◌,
}
use cpp_infra.Timewheel.{
  add_timer, TimerNode, Timer, sub32, link, link_level, add_node, add_timer, new_node, link_clear,
  Request, arm, disarm, disarmed, call, dispatch_list, updates, apply,
}
use cpp_infra.Timewheel.Distance.{span, Waits-placed, near_due, sub32_self, sub32-tick, sub32_zero}
use cpp_infra.Timewheel.Valid.{
  Valid, Placed, close, far, add_node-Placed, add_node-Valid, time-add_node, fired-apply,
  apply-Valid, time-apply,
}
use cpp_infra.Timewheel.Execute.{
  IsSane, round, dispatch_live, dispatch_dead, time-dispatch_list, time-call,
}
use cpp_infra.Timewheel.Keeps.{
  Any-link_new, Any-link_level_new, Spares, dispatch_list-Keeps, apply-Keeps,
}
use cpp_infra.Timewheel.Update.{Updated, timer_update-Updated}
use cpp_infra.Timewheel.Fires.{
  Armed, Called, Pending, soon, later, timer_shift-Pending, Pending-Keeps,
}

clear_ne : (slots : ℕ → List TimerNode) (i j : ℕ) → j ≢ i → link_clear slots i j ≡ slots j
unfolding link_clear
clear_ne slots i j ne = ground arith

module _ (a : ℕ) where
  -- The request does not cancel the timer at `a`.
  abbrev pub LeavesAlone : Request → Type 0
  LeavesAlone (arm addr old n func threadid) = Unit
  LeavesAlone (disarm b) = a ≢ b

  mem-disarmed : (rs : List Request) → All LeavesAlone rs → mem a (disarmed rs) ≡ false
  unfolding disarmed
  mem-disarmed [] h = refl
  mem-disarmed (arm addr old n func threadid ∷ rs) h = mem-disarmed rs h.1
  mem-disarmed (disarm b ∷ rs) h = rw (ne_test a b h.0) (mem-disarmed rs h.1)

module _ (a e : ℕ) (handler : TimerNode → ℕ → List Request)
    (alone : (n : TimerNode) (c : ℕ) → All (LeavesAlone a) (handler n c)) where
  pub All-Spares : (rs : List Request) → All (LeavesAlone a) rs → All (Spares (Armed a e)) rs
  All-Spares rs h = All-map rs one h
    where
      one : (r : Request) → LeavesAlone a r → Spares (Armed a e) r
      one (arm addr old k func threadid) h = tt
      one (disarm b) h = λ m p q. h (sym p.0 ∙ q)

  pub spares : (n : TimerNode) (c : ℕ) → All (Spares (Armed a e)) (handler n c)
  spares n c = All-Spares (handler n c) (alone n c)

  call_records : (n : TimerNode) (T : Timer) → (call handler n T).fired ≡ (T.time, n) ∷ T.fired
  unfolding call
  call_records n T = fired-apply (handler n T.time) _

  dispatch_list-Called :
      (ns : List TimerNode) (gone : List ℕ) (T : Timer)
      → Called a e T
      → Called a e (dispatch_list handler ns gone T)
  unfolding dispatch_list
  dispatch_list-Called [] gone T h = h
  dispatch_list-Called (n ∷ ns) gone T h =
      elim (Bool-cases (n.cancel == 0 && not (mem n.addr gone))) [
        | inl l ↦
            rw (dispatch_live handler n ns gone T l)
              (dispatch_list-Called ns _ _ (rw (call_records n T) (that h)))
        | inr d ↦ rw (dispatch_dead handler n ns gone T d) (dispatch_list-Called ns gone T h)
      ]

  -- A list that is due and holds the timer calls it.
  dispatch_list-calls :
      (ns : List TimerNode) (gone : List ℕ) (T : Timer)
      → e ≡ T.time
      → mem a gone ≡ false
      → Any (Armed a e) ns
      → Called a e (dispatch_list handler ns gone T)
  dispatch_list-calls (n ∷ ns) gone T now g (this p) =
      let live : (n.cancel == 0 && not (mem n.addr gone)) ≡ true =
        ground (arith, rw (← p.0) at g) in
      rw (dispatch_live handler n ns gone T live)
        (dispatch_list-Called ns _ _ (rw (call_records n T) (this (sym now, p.0))))
  dispatch_list-calls (n ∷ ns) gone T now g (that h) =
      elim (Bool-cases (n.cancel == 0 && not (mem n.addr gone))) [
        | inl l ↦ rw (dispatch_live handler n ns gone T l) (
            dispatch_list-calls ns _ _ (now ∙ sym (time-call handler n T))
              (mem-append a (disarmed (handler n T.time)) gone (mem-disarmed a _ (alone n T.time))
                g)
              h)
        | inr d ↦ rw (dispatch_dead handler n ns gone T d) (dispatch_list-calls ns gone T now g h)
      ]
  dispatch_list-calls [] gone T now g h = elim h [ ]

  module _ (sane : IsSane handler) where
    round-Called : (T : Timer) → Called a e T → Called a e (round handler sane T)
    round-Called T h = dispatch_list-Called (T.near (T.time % 256)) [] _ h

    -- One run of `timer_execute`: the timer is called if its time is now, and stays otherwise.
    round-Pending :
        (T : Timer)
        → Valid T
        → e < 2 ^ 32
        → Pending a e T
        → Called a e (round handler sane T) ⊎ ((e ≢ T.time) × Pending a e (round handler sane T))
    round-Pending T v he (later k hk h w d) = inr (
      (λ now. absurd (omega (arith, sub32_self T.time v.time_in, ap (λ x. sub32 x T.time) now))),
      Pending-Keeps a e
          (dispatch_list-Keeps (Armed a e) handler spares (T.near (T.time % 256)) [] _)
          (time-dispatch_list handler (T.near (T.time % 256)) [] _) (later k hk h w d),
    )
    round-Pending T v he (soon h d) = elim (ℕ_discrete e T.time) [
      | yes now ↦ inl (
          dispatch_list-calls (T.near (T.time % 256)) [] _ now refl
            (subst (λ x. Any (Armed a e) (T.near (x % 256))) now h))
      | no ne ↦ inr (
        ne,
        Pending-Keeps a e
            (dispatch_list-Keeps (Armed a e) handler spares (T.near (T.time % 256)) [] _)
            (time-dispatch_list handler (T.near (T.time % 256)) [] _)
            (soon
              (rw
                (clear_ne T.near (T.time % 256) (e % 256)
                  (λ same. ne (near_due T.time e v.time_in (he, same, d))))
                h)
              d),
      )
    ]

    update-Called : (f : ℕ) (T U : Timer) → Updated handler sane f T U → Called a e T → Called a e U
    update-Called f T U u c =
        rw u.last (round-Called u.middle (rw u.first_fired (round-Called T c)))

    -- One update: the timer is called, or one tick nearer.
    update-Pending :
        (f : ℕ) (T U : Timer)
        → Valid T
        → e < 2 ^ 32
        → Updated handler sane f T U
        → Pending a e T
        → Called a e U ⊎ (Pending a e U × (e ≢ U.time) × (sub32 e U.time + 1 ≡ sub32 e T.time))
    update-Pending f T U v he u p = elim (round-Pending T v he p) [
      | inl c ↦ inl (rw u.last (round-Called u.middle (rw u.first_fired c)))
      | inr (ne, q) ↦
          let p2 =
            timer_shift-Pending a e (round handler sane T) u.middle (rw u.first_time v.time_in) he
              (rw u.first_time ne) u.shifted q in
          elim (round-Pending u.middle u.middle_valid he p2) [
            | inl c ↦ inl (rw u.last c)
            | inr (ne2, q2) ↦ inr (
              rw u.last q2,
              rw (u.last, time-dispatch_list handler (u.middle.near (u.middle.time % 256)) [] _)
                  ne2,
              rw
                  (
                    u.last,
                    time-dispatch_list handler (u.middle.near (u.middle.time % 256)) [] _,
                    u.middle_time,
                  )
                  (sub32-tick e T.time he v.time_in (λ z. ne (sub32_zero e T.time he v.time_in z))),
            )
          ]
    ]

    -- The timer is called already, or within `n` updates.
    abbrev Left : ℕ → Timer → Type 0
    Left n T = Called a e T ⊎ (Pending a e T × (e ≢ T.time) × (sub32 e T.time ≤ n))

    update-Left :
        (f n : ℕ) (T U : Timer)
        → Valid T
        → e < 2 ^ 32
        → Updated handler sane f T U
        → Pending a e T
        → sub32 e T.time ≤ suc n
        → Left n U
    update-Left f n T U v he u p d = elim (update-Pending f T U v he u p) [
      | inl c ↦ inl c
      | inr (q, ne, nearer) ↦ inr (q, ne, omega arith)
    ]

    -- The calls of other threads between two updates.
    module _ (others : ℕ → List Request)
        (others_alone : (i : ℕ) → All (LeavesAlone a) (others i)) where
      apply-Pending : (i : ℕ) (T : Timer) → Pending a e T → Pending a e (apply (others i) T)
      apply-Pending i T p =
          Pending-Keeps a e
            (apply-Keeps (Armed a e) (others i) T (All-Spares (others i) (others_alone i)))
            (time-apply (others i) T) p

      apply-Left : (i n : ℕ) (T : Timer) → Left n T → Left n (apply (others i) T)
      apply-Left i n T (inl c) = inl (rw (fired-apply (others i) T) c)
      apply-Left i n T (inr (p, ne, d)) =
          inr (apply-Pending i T p, rw (time-apply (others i) T) ne, rw (time-apply (others i) T) d)

      updates-Left :
          (f n : ℕ) (T : Timer)
          → Valid T
          → e < 2 ^ 32
          → Left n T
          → (U : Timer) × (updates handler others (suc (suc f)) n T ≡ some U) × Called a e U
      unfolding updates
      updates-Left f zero T v he (inl c) = (T, refl, c)
      updates-Left f zero T v he (inr (p, ne, d)) =
          absurd (ne (sub32_zero e T.time he v.time_in (omega arith)))
      updates-Left f (suc n) T v he left =
          let v' = apply-Valid (others n) T v in
          let (U, run, vu, tu, u) = timer_update-Updated handler sane f (apply (others n) T) v' in
          let (V, run', c') =
            updates-Left f n U vu he (step n f U v' u (apply-Left n (suc n) T left)) in
          (V, rw (run, run'), c')
        where
          step :
              (n f : ℕ) (U : Timer)
              → Valid (apply (others n) T)
              → Updated handler sane f (apply (others n) T) U
              → Left (suc n) (apply (others n) T)
              → Left n U
          step n f U v' u (inl c) = inl (update-Called f (apply (others n) T) U u c)
          step n f U v' u (inr (p, ne, d)) = update-Left f n (apply (others n) T) U v' he u p d

      -- A timer that stands in the wheel where a tick will come for it, and that no request cancels, has
      -- been called, at its time, once as many updates are made as ticks are left (one at least).
      pub updates-Called :
          (f n : ℕ) (T : Timer)
          → Valid T
          → e < 2 ^ 32
          → Pending a e T
          → sub32 e T.time ≤ suc n
          → (U : Timer) × (updates handler others (suc (suc f)) (suc n) T ≡ some U) × Called a e U
      unfolding updates
      updates-Called f n T v he p d =
          let v' = apply-Valid (others n) T v in
          let (U, run, vu, tu, u) = timer_update-Updated handler sane f (apply (others n) T) v' in
          let (V, run', c') = updates-Left f n U vu he (
            update-Left f n (apply (others n) T) U v' he u (apply-Pending n T p)
              (rw (time-apply (others n) T) d)) in
          (V, rw (run, run'), c')

-- The timer set at `c` for `e` does not go to slot 0 of a level below the last.
abbrev pub IsReached : (e c : ℕ) → Type 0
IsReached e c = (k : ℕ) → k < 3 → span k ≤ sub32 e c → sub32 e c < span k * 64 → e / span k % 64 ≢ 0

-- Such a timer stands where a tick will come for it.
add_node-Pending :
    (a e : ℕ) (T : Timer) (n : TimerNode)
    → T.time < 2 ^ 32
    → e < 2 ^ 32
    → Armed a e n
    → IsReached e T.time
    → Pending a e (add_node T n)
unfolding link_level
add_node-Pending a e T n ht he armed reached = go (add_node-Placed T n)
  where
    go : {r : Timer} → Placed T n r → Pending a e r
    go (close d q) = rw q (
        soon
          (subst (λ x. Any (Armed a e) (link T.near (x % 256) n (e % 256))) (sym armed.1)
            (Any-link_new (Armed a e) T.near (e % 256) n armed))
          (rw armed.1 at d))
    go (far k hk lo hi q) = rw q (
        subst (λ x. Pending a e (link_level k (x / span k % 64) n T)) (sym armed.1)
          (later k hk (Any-link_level_new (Armed a e) k (e / span k % 64) n T armed)
            (Waits-placed k T.time e hk he (rw armed.1 at lo) (rw armed.1 at hi))
            (λ h. reached k h (rw armed.1 at lo) (rw armed.1 at hi))))

-- the time for which `add_timer` sets a timer of `n + 1` ticks
abbrev pub due : ℕ → Timer → ℕ
due n T = (suc n % 2 ^ 32 + T.time) % 2 ^ 32

pub due_ahead :
    (n c : ℕ) → c < 2 ^ 32 → suc n < 2 ^ 31 → sub32 ((suc n % 2 ^ 32 + c) % 2 ^ 32) c ≡ suc n
unfolding sub32
due_ahead n c hc h = omega arith

-- On a valid wheel, a timer of a positive time, added to memory whose `cancel` byte was 0 and not
-- to slot 0 of a level below the last, that no request cancels, is called at its time: exactly as
-- many updates later as it was set for, whatever other timers are added and cancelled by then, by the
-- callbacks and, between the updates, by other threads.
pub add_timer-Called :
    (handler : TimerNode → ℕ → List Request) (others : ℕ → List Request)
    (addr n func threadid f : ℕ) (T : Timer)
    → IsSane handler
    → ((m : TimerNode) (c : ℕ) → All (LeavesAlone addr) (handler m c))
    → ((i : ℕ) → All (LeavesAlone addr) (others i))
    → Valid T
    → suc n < 2 ^ 31
    → IsReached (due n T) T.time
    → (U : Timer) × (updates handler others
          (suc (suc f))
          (suc n)
          (add_timer handler addr 0 (pos (suc n)) func threadid T).0
        ≡ some U)
      × Called addr (due n T) U
unfolding add_timer
add_timer-Called handler others addr n func threadid f T sane alone others_alone v h reached =
    let node = new_node addr 0 (pos (suc n)) func threadid T in
    let in_range : due n T < 2 ^ 32 = mod-lt _ (omega arith) in
    updates-Called addr (due n T) handler alone sane others others_alone f n (add_node T node)
      (add_node-Valid T node in_range v) in_range
      (add_node-Pending addr (due n T) T node v.time_in in_range (refl, refl, refl) reached)
      (rw (time-add_node T node) (omega (arith, due_ahead n T.time v.time_in h)))
