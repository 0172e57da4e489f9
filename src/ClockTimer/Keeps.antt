-- ===== src/ClockTimer/Keeps.antt =====
-- What stays in the lists of the wheel while other nodes come and go.
use cpp_infra.Common.{
  All, Any, Bool-cases, List, [], inl, inr, ltb, mem, not, ℕ, ◌&&◌, ◌==◌, ◌∷◌, ◌≢◌,
}
use cpp_infra.ClockTimer.{
  sub32, TimerNode, Timer, add_node, add_all, del_timer, Request, arm, disarm, apply, call,
  dispatch_list,
}
use cpp_infra.ClockTimer.Lists.{Any-link_to, Any-cancel}
use cpp_infra.ClockTimer.Execute.{dispatch_live, dispatch_dead}

module _ (P : TimerNode → Type 0) where
  -- `U` has in each list what `T` has that satisfies `P`.
  pub record Keeps (T U : Timer) : Type 0 where
    pub second : (i : ℕ) → Any P (T.second i) → Any P (U.second i)
    pub minute : (i : ℕ) → Any P (T.minute i) → Any P (U.minute i)
    pub hour : (i : ℕ) → Any P (T.hour i) → Any P (U.hour i)

  -- A request that leaves the nodes with `P` as they are.
  abbrev pub Spares : Request → Type 0
  Spares (arm addr n func) = Unit
  Spares (disarm a) = (n : TimerNode) → P n → n.addr ≢ a

  pub Keeps-refl : (T : Timer) → Keeps T T
  Keeps-refl T = record { second = λ i h. h; minute = λ i h. h; hour = λ i h. h }

  pub Keeps-trans : {T U V : Timer} → Keeps T U → Keeps U V → Keeps T V
  Keeps-trans f g = record {
    second = λ i h. g.second i (f.second i h);
    minute = λ i h. g.minute i (f.minute i h);
    hour = λ i h. g.hour i (f.hour i h);
  }

  pub add_node-Keeps : (T : Timer) (n : TimerNode) → Keeps T (add_node T n)
  unfolding add_node
  add_node-Keeps T n = elim (Bool-cases (ltb (sub32 n.expire T.time) 60)) [
    | inl e ↦
        rw e (record { second = Any-link_to P T.second _ n; minute = λ i h. h; hour = λ i h. h })
    | inr e0 ↦ elim (Bool-cases (ltb (sub32 n.expire T.time) 3600)) [
      | inl e ↦
          rw (e0, e)
            (record { second = λ i h. h; minute = Any-link_to P T.minute _ n; hour = λ i h. h })
      | inr e ↦
          rw (e0, e)
            (record { second = λ i h. h; minute = λ i h. h; hour = Any-link_to P T.hour _ n })
    ]
  ]

  pub add_all-Keeps : (ns : List TimerNode) (T : Timer) → Keeps T (add_all ns T)
  unfolding add_all
  add_all-Keeps [] T = Keeps-refl T
  add_all-Keeps (n ∷ ns) T = Keeps-trans (add_node-Keeps T n) (add_all-Keeps ns _)

  pub apply-Keeps : (rs : List Request) (T : Timer) → All Spares rs → Keeps T (apply rs T)
  unfolding apply del_timer
  apply-Keeps [] T s = Keeps-refl T
  apply-Keeps (arm addr n func ∷ rs) T s = Keeps-trans (add_node-Keeps T _) (apply-Keeps rs _ s.1)
  apply-Keeps (disarm a ∷ rs) T s =
      Keeps-trans
        (record {
          second = λ i h. Any-cancel P a s.0 h;
          minute = λ i h. Any-cancel P a s.0 h;
          hour = λ i h. Any-cancel P a s.0 h;
        })
        (apply-Keeps rs _ s.1)

  module _ (handler : TimerNode → ℕ → List Request)
      (spares : (n : TimerNode) (c : ℕ) → All Spares (handler n c)) where
    call-Keeps : (n : TimerNode) (T : Timer) → Keeps T (call handler n T)
    unfolding call
    call-Keeps n T =
        let k =
          apply-Keeps (handler n T.time) (record T { fired = (T.time, n) ∷ T.fired })
            (spares n T.time) in
        record { second = k.second; minute = k.minute; hour = k.hour }

    pub dispatch_list-Keeps :
        (ns : List TimerNode) (gone : List ℕ) (T : Timer)
        → Keeps T (dispatch_list handler ns gone T)
    unfolding dispatch_list
    dispatch_list-Keeps [] gone T = Keeps-refl T
    dispatch_list-Keeps (n ∷ ns) gone T =
        elim (Bool-cases (n.cancel == 0 && not (mem n.addr gone))) [
          | inl e ↦
              rw (dispatch_live handler n ns gone T e)
                (Keeps-trans (call-Keeps n T) (dispatch_list-Keeps ns _ _))
          | inr e ↦ rw (dispatch_dead handler n ns gone T e) (dispatch_list-Keeps ns gone T)
        ]
