-- ===== src/Timewheel/Stuck.antt =====
-- Slot 0 of the levels below the last, and `timer_shift`.
use mathlib.Core.Option.{some-injective}
use cpp_infra.Common.{
  >>=-eq-some, All, Any, Bool-cases, List, Option, [], arith, eq_of_==, inl, inr, ne_test, pos,
  refl, some, suc, sym, zero, ℕ, ◌%◌, ◌*◌, ◌+◌, ◌/◌, ◌<◌, ◌==◌, ◌^◌, ◌∙◌, ◌∷◌, ◌≡◌, ◌≢◌, ◌≤◌,
}
use cpp_infra.Timewheel.{
  TimerNode, Timer, sub32, new_node, add_timer, link_level, link_clear, set_level, Request,
  execute_loop, timer_execute, timer_shift, timer_update, updates, move_list, apply, add_node,
}
use cpp_infra.Timewheel.Distance.{tick, span, span_large, same_level}
use cpp_infra.Timewheel.Shift.{Shifted, still, moves, timer_shift-Shifted}
use native.Mathlib.Nat.{mod-lt}
use cpp_infra.Timewheel.Execute.{IsSane}
use cpp_infra.Timewheel.Update.{updates-Valid}
use cpp_infra.Timewheel.Valid.{
  Valid, Placed, close, far, add_node-Placed, add_node-Valid, time-add_node,
}
use cpp_infra.Timewheel.Fires.{Armed}
use cpp_infra.Timewheel.Calls.{LeavesAlone, due, due_ahead, spares, All-Spares}
use cpp_infra.Timewheel.Keeps.{
  Any-link_level_new, Spares, dispatch_list-Keeps, add_all-Keeps, apply-Keeps,
}

module _ (P : TimerNode → Type 0) (handler : TimerNode → ℕ → List Request)
    (spares : (n : TimerNode) (c : ℕ) → All (Spares P) (handler n c)) where
  execute_loop-stuck :
      (f idx : ℕ) (T U : Timer)
      → execute_loop handler f idx T ≡ some U
      → (k j : ℕ) → Any P (T.t k j)
      → Any P (U.t k j)
  unfolding execute_loop
  execute_loop-stuck zero idx T U run k j h = absurd (cc run)
  execute_loop-stuck (suc f) idx T U run k j h =
      go (T.near idx) refl (λ V r g. execute_loop-stuck f idx V U r k j g)
    where
      go :
          (ns : List TimerNode)
          → T.near idx ≡ ns
          → ((V : Timer)
              → execute_loop handler f idx V ≡ some U
              → Any P (V.t k j)
              → Any P (U.t k j))
          → Any P (U.t k j)
      go [] e rest = rw (← some-injective _ _ (rw (e, execute_loop) at run)) h
      go (n ∷ ns) e rest = rest _ (rw (e, execute_loop) at run) (
          (dispatch_list-Keeps P handler spares (n ∷ ns) []
              (record T { near = link_clear T.near idx })).t
            k j h)

  timer_shift-stuck :
      (T U : Timer) → timer_shift T ≡ some U → (k : ℕ) → k < 3 → Any P (T.t k 0) → Any P (U.t k 0)
  unfolding move_list set_level link_clear
  timer_shift-stuck T U run k hk h = go (timer_shift-Shifted T) run
    where
      untouched :
          (l : ℕ)
          → (l < 3 → tick T.time / span l % 64 ≢ 0)
          → Any P (set_level T.t l (link_clear (T.t l) (tick T.time / span l % 64)) k 0)
      untouched l d = elim (Bool-cases (l == k)) [
        | inl e ↦
            rw
              (
                e,
                ne_test (tick T.time / span l % 64) 0 (d (rw (eq_of_== l k e) hk)),
                eq_of_== l k e,
              )
              h
        | inr e ↦ rw e h
      ]

      go : {r : Option Timer} → Shifted T r → r ≡ some U → Any P (U.t k 0)
      go (still off q) w = rw (← some-injective _ _ (sym q ∙ w)) h
      go (moves l hl z d q) w =
          rw (← some-injective _ _ (sym q ∙ w))
            ((add_all-Keeps P (T.t l (tick T.time / span l % 64)) _).t k 0 (untouched l d))

  timer_update-stuck :
      (f : ℕ) (T U : Timer)
      → timer_update handler f T ≡ some U
      → (k : ℕ) → k < 3
      → Any P (T.t k 0)
      → Any P (U.t k 0)
  unfolding timer_update timer_execute
  timer_update-stuck f T U run k hk h =
      let (T1, e1, r1) = >>=-eq-some (timer_execute handler f T) _ run in
      let (T2, e2, r2) = >>=-eq-some (timer_shift T1) _ r1 in
      execute_loop-stuck f _ T2 U r2 k 0
        (timer_shift-stuck T1 T2 e2 k hk (execute_loop-stuck f _ T T1 e1 k 0 h))

  -- Whatever number of updates is made, a node in slot 0 of a level below the last stays there.
  pub updates-stuck :
      (others : ℕ → List Request)
      → ((i : ℕ) → All (Spares P) (others i))
      → (f n : ℕ) (T U : Timer) → updates handler others f n T ≡ some U
      → (k : ℕ) → k < 3
      → Any P (T.t k 0)
      → Any P (U.t k 0)
  unfolding updates
  updates-stuck others spared f zero T U run k hk h = rw (← some-injective _ _ run) h
  updates-stuck others spared f (suc n) T U run k hk h =
      let (T1, e1, r1) = >>=-eq-some (timer_update handler f (apply (others n) T)) _ run in
      updates-stuck others spared f n T1 U r1 k hk (
        timer_update-stuck f (apply (others n) T) T1 e1 k hk
          ((apply-Keeps P (others n) T (spared n)).t k 0 h))

-- On a valid wheel, a timer of a positive time that `add_timer` puts into slot 0 of a level below the
-- last, and that no request cancels: any number of updates, also past its time, is made, and the timer is
-- still in that slot, whatever other timers are added and cancelled by then.
pub add_timer-stuck :
    (handler : TimerNode → ℕ → List Request) (others : ℕ → List Request)
    (addr n func threadid f m k : ℕ) (T : Timer)
    → IsSane handler
    → ((d : TimerNode) (c : ℕ) → All (LeavesAlone addr) (handler d c))
    → ((i : ℕ) → All (LeavesAlone addr) (others i))
    → Valid T
    → suc n < 2 ^ 31
    → k < 3
    → span k ≤ suc n
    → suc n < span k * 64
    → due n T / span k % 64 ≡ 0
    → (U : Timer) × (updates handler others
          (suc (suc f))
          m
          (add_timer handler addr 0 (pos (suc n)) func threadid T).0
        ≡ some U)
      × Valid U
      × (U.time ≡ (T.time + m) % 2 ^ 32)
      × Any (Armed addr (due n T)) (U.t k 0)
unfolding add_timer link_level
add_timer-stuck handler others addr n func threadid f m k T sane alone others_alone v h hk lo hi
      zero_slot =
    let same = time-add_node T node in
    let (U, run, vu, tu) =
      updates-Valid handler sane others f m (add_node T node)
        (add_node-Valid T node (mod-lt _ (omega arith)) v) in
    (
      U,
      run,
      vu,
      omega (arith, tu, same),
      updates-stuck (Armed addr (due n T)) handler (spares addr (due n T) handler alone) others
          (λ i. All-Spares addr (due n T) handler alone (others i) (others_alone i)) (suc (suc f)) m
          _ U run k hk (go (add_node-Placed T node)),
    )
  where
    node : TimerNode
    node = new_node addr 0 (pos (suc n)) func threadid T

    distance : sub32 (due n T) T.time ≡ suc n
    distance = due_ahead n T.time v.time_in h

    go : {r : Timer} → Placed T node r → Any (Armed addr (due n T)) (r.t k 0)
    go (close d q) = absurd (omega (arith, distance, span_large k))
    go (far l hl lo' hi' q) =
        let same : l ≡ k =
          same_level l k (suc n) (omega (arith, distance)) (omega (arith, distance)) lo hi in
        rw (q, same, zero_slot)
          (Any-link_level_new (Armed addr (due n T)) k 0 node T (refl, refl, refl))
