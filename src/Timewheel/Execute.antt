-- ===== src/Timewheel/Execute.antt =====
-- `timer_execute`: the callbacks of the current time, with whatever they add and cancel.
use mathlib.Core.Path.{fun_ext}
use cpp_infra.Common.{
  All, All-map, Bool-cases, List, [], ap, arith, eq_of_==, false, if◌then◌else◌, inl, inr, mem, not,
  pos, refl, some, suc, sym, true, ℕ, ◌%◌, ◌&&◌, ◌++◌, ◌+◌, ◌<◌, ◌==◌, ◌^◌, ◌∙◌, ◌∷◌, ◌≡◌, ◌≢◌,
}
use cpp_infra.Timewheel.{
  TimerNode, Timer, sub32, link, link_clear, link_level, add_node, new_node, cancel_in, del_timer,
  Request, arm, disarm, apply, disarmed, call, dispatch_list, execute_loop, timer_execute,
}
use cpp_infra.Timewheel.Distance.{near_due}
use cpp_infra.Timewheel.Valid.{
  Valid, Placed, close, far, add_node-Placed, apply-Valid, time-add_node, time-apply,
}

-- The times of a callback's calls of `add_timer` fit an int.
abbrev pub IsInt : Request → Type 0
IsInt (arm addr old n func threadid) = suc n < 2 ^ 31
IsInt (disarm a) = Unit

abbrev pub IsSane : (TimerNode → ℕ → List Request) → Type 0
IsSane handler = (n : TimerNode) (c : ℕ) → All IsInt (handler n c)

-- Nothing is left to call at the current time.
abbrev pub IsQuiet : Timer → Type 0
IsQuiet T = T.near (T.time % 256) ≡ []

armed_later :
    (n c : ℕ)
    → c < 2 ^ 32
    → suc n < 2 ^ 31
    → sub32 ((suc n % 2 ^ 32 + c) % 2 ^ 32) c < 256
    → (suc n % 2 ^ 32 + c) % 2 ^ 32 % 256 ≢ c % 256
unfolding sub32
armed_later n c hc h d e = omega arith

link_ne :
    (slots : ℕ → List TimerNode) (i : ℕ) (n : TimerNode) (j : ℕ)
    → i ≢ j
    → link slots i n j ≡ slots j
unfolding link
link_ne slots i n j ne = ground arith

-- A timer armed now is not called now.
arm-IsQuiet :
    (addr old n func threadid : ℕ) (T : Timer)
    → T.time < 2 ^ 32
    → suc n < 2 ^ 31
    → IsQuiet T
    → IsQuiet (add_node T (new_node addr old (pos (suc n)) func threadid T))
unfolding link_level
arm-IsQuiet addr old n func threadid T ht h q =
    go (add_node-Placed T (new_node addr old (pos (suc n)) func threadid T))
  where
    go : {r : Timer} → Placed T (new_node addr old (pos (suc n)) func threadid T) r → IsQuiet r
    go (close d e) =
        rw
          (
            e,
            link_ne T.near _ (new_node addr old (pos (suc n)) func threadid T) (T.time % 256)
                (armed_later n T.time ht h d),
          )
          q
    go (far k hk lo hi e) = rw e q

cancel-nil : (a : ℕ) (ns : List TimerNode) → ns ≡ [] → cancel_in a ns ≡ []
unfolding cancel_in
cancel-nil a ns e = rw e

apply-IsQuiet :
    (rs : List Request) (T : Timer)
    → T.time < 2 ^ 32
    → All IsInt rs
    → IsQuiet T
    → IsQuiet (apply rs T)
unfolding apply del_timer
apply-IsQuiet [] T ht h q = q
apply-IsQuiet (arm addr old n func threadid ∷ rs) T ht h q =
    apply-IsQuiet rs _ (rw (time-add_node T (new_node addr old (pos (suc n)) func threadid T)) ht)
      h.1 (arm-IsQuiet addr old n func threadid T ht h.0 q)
apply-IsQuiet (disarm a ∷ rs) T ht h q =
    apply-IsQuiet rs _ ht h.1 (cancel-nil a (T.near (T.time % 256)) q)

module _ (handler : TimerNode → ℕ → List Request) where
  pub time-call : (n : TimerNode) (T : Timer) → (call handler n T).time ≡ T.time
  unfolding call
  time-call n T = time-apply (handler n T.time) _

  call-Valid : (n : TimerNode) (T : Timer) → n.expire ≡ T.time → Valid T → Valid (call handler n T)
  unfolding call
  call-Valid n T e v = apply-Valid (handler n T.time) _ (record {
    time_in = v.time_in;
    near_ok = v.near_ok;
    level_ok = v.level_ok;
    on_time = (e, v.on_time);
  })

  -- A node that is called, and one that is cancelled.
  pub dispatch_live :
      (n : TimerNode) (ns : List TimerNode) (gone : List ℕ) (T : Timer)
      → (n.cancel == 0 && not (mem n.addr gone)) ≡ true
      → dispatch_list handler (n ∷ ns) gone T
        ≡ dispatch_list handler ns (disarmed (handler n T.time) ++ gone) (call handler n T)
  unfolding dispatch_list
  dispatch_live n ns gone T e =
      ap
        (λ b.
          dispatch_list handler ns (if b then disarmed (handler n T.time) ++ gone else gone)
            (if b then call handler n T else T))
        e

  pub dispatch_dead :
      (n : TimerNode) (ns : List TimerNode) (gone : List ℕ) (T : Timer)
      → (n.cancel == 0 && not (mem n.addr gone)) ≡ false
      → dispatch_list handler (n ∷ ns) gone T ≡ dispatch_list handler ns gone T
  unfolding dispatch_list
  dispatch_dead n ns gone T e =
      ap
        (λ b.
          dispatch_list handler ns (if b then disarmed (handler n T.time) ++ gone else gone)
            (if b then call handler n T else T))
        e

  pub time-dispatch_list :
      (ns : List TimerNode) (gone : List ℕ) (T : Timer)
      → (dispatch_list handler ns gone T).time ≡ T.time
  unfolding dispatch_list
  time-dispatch_list [] gone T = refl
  time-dispatch_list (n ∷ ns) gone T = elim (Bool-cases (n.cancel == 0 && not (mem n.addr gone))) [
    | inl e ↦ rw (dispatch_live n ns gone T e) (time-dispatch_list ns _ _ ∙ time-call n T)
    | inr e ↦ rw (dispatch_dead n ns gone T e) (time-dispatch_list ns gone T)
  ]

  module _ (sane : IsSane handler) where
    call-IsQuiet :
        (n : TimerNode) (T : Timer) → T.time < 2 ^ 32 → IsQuiet T → IsQuiet (call handler n T)
    unfolding call
    call-IsQuiet n T ht q = apply-IsQuiet (handler n T.time) _ ht (sane n T.time) q

    -- The callbacks of a list that is due, each made at its time.
    dispatch_list-Valid :
        (ns : List TimerNode) (gone : List ℕ) (T : Timer)
        → All (λ n. n.expire ≡ T.time) ns
        → Valid T
        → IsQuiet T
        → Valid (dispatch_list handler ns gone T) × IsQuiet (dispatch_list handler ns gone T)
    unfolding dispatch_list
    dispatch_list-Valid [] gone T due v q = (v, q)
    dispatch_list-Valid (n ∷ ns) gone T due v q =
        elim (Bool-cases (n.cancel == 0 && not (mem n.addr gone))) [
          | inl e ↦ rw (dispatch_live n ns gone T e) (
              dispatch_list-Valid ns _ (call handler n T) (rw (time-call n T) due.1)
                (call-Valid n T due.0 v) (call-IsQuiet n T v.time_in q))
          | inr e ↦ rw (dispatch_dead n ns gone T e) (dispatch_list-Valid ns gone T due.1 v q)
        ]

    cleared-Valid : (T : Timer) (i : ℕ) → Valid T → Valid (record T { near = link_clear T.near i })
    unfolding link_clear
    cleared-Valid T i v = record {
      time_in = v.time_in;
      near_ok = λ j. elim (Bool-cases (i == j)) [ inl e ↦ rw e tt | inr e ↦ rw e (v.near_ok j) ];
      level_ok = v.level_ok;
      on_time = v.on_time;
    }

    stops : (f idx : ℕ) (T : Timer) → T.near idx ≡ [] → execute_loop handler (suc f) idx T ≡ some T
    unfolding execute_loop
    stops f idx T e = rw (e, execute_loop)

    -- one round of the `while`
    abbrev pub round : Timer → Timer
    round T =
        dispatch_list handler (T.near (T.time % 256)) []
          (record T { near = link_clear T.near (T.time % 256) })

    rounds :
        (f : ℕ) (T : Timer) (n : TimerNode) (ns : List TimerNode)
        → T.near (T.time % 256) ≡ n ∷ ns
        → execute_loop handler (suc f) (T.time % 256) T
          ≡ execute_loop handler f (T.time % 256) (round T)
    unfolding execute_loop
    rounds f T n ns e = rw (e, execute_loop)

    due_now : (T : Timer) → Valid T → All (λ n. n.expire ≡ T.time) (T.near (T.time % 256))
    due_now T v =
        All-map (T.near (T.time % 256)) (λ n h. near_due T.time n.expire v.time_in h)
          (v.near_ok (T.time % 256))

    now_clear : (T : Timer) (i : ℕ) → link_clear T.near i i ≡ []
    unfolding link_clear
    now_clear T i = ground arith

    clear_empty : (T : Timer) (i : ℕ) → T.near i ≡ [] → link_clear T.near i ≡ T.near
    unfolding link_clear
    clear_empty T i e = fun_ext (λ j. elim (Bool-cases (i == j)) [
      | inl at ↦ rw at (sym e ∙ ap T.near (eq_of_== i j at))
      | inr off ↦ rw off
    ])

    nothing_due : (T : Timer) → T.near (T.time % 256) ≡ [] → some T ≡ some (round T)
    unfolding dispatch_list
    nothing_due T e =
        ap (λ near. some (record T { near = near })) (sym (clear_empty T (T.time % 256) e))
        ∙ ap
            (λ ns.
              some (
                dispatch_list handler ns [] (record T { near = link_clear T.near (T.time % 256) })))
            (sym e)

    -- `timer_execute` makes one round of callbacks.
    pub timer_execute-round :
        (f : ℕ) (T : Timer)
        → Valid T
        → (timer_execute handler (suc (suc f)) T ≡ some (round T))
          × Valid (round T)
          × ((round T).time ≡ T.time)
          × IsQuiet (round T)
    unfolding timer_execute
    timer_execute-round f T v = (go (T.near (T.time % 256)) refl, after.0, same, after.1)
      where
        same : (round T).time ≡ T.time
        same = time-dispatch_list (T.near (T.time % 256)) [] _

        after : Valid (round T) × IsQuiet (round T)
        after =
            dispatch_list-Valid (T.near (T.time % 256)) [] _ (due_now T v)
              (cleared-Valid T (T.time % 256) v) (now_clear T (T.time % 256))

        quiet : (round T).near (T.time % 256) ≡ []
        quiet = ap (λ c. (round T).near (c % 256)) (sym same) ∙ after.1

        go :
            (ns : List TimerNode)
            → T.near (T.time % 256) ≡ ns
            → execute_loop handler (suc (suc f)) (T.time % 256) T ≡ some (round T)
        go [] e = stops (suc f) (T.time % 256) T e ∙ nothing_due T e
        go (n ∷ ns) e = rounds (suc f) T n ns e ∙ stops f (T.time % 256) (round T) quiet
