-- ===== src/Timewheel/Keeps.antt =====
-- What stays in the lists of the wheel while other nodes come and go.
use cpp_infra.Common.{
  All, Any, Any-append_left, Any-append_right, Bool-cases, List, [], eq_of_==, eq_self, inl, inr,
  mem, ne_test, not, that, this, ℕ, ◌&&◌, ◌==◌, ◌∷◌, ◌≢◌,
}
use cpp_infra.Timewheel.{
  TimerNode, Timer, link, link_level, set_level, add_node, add_all, cancel_in, del_timer, Request,
  arm, disarm, apply, call, dispatch_list,
}
use cpp_infra.Timewheel.Valid.{Placed, close, far, add_node-Placed}
use cpp_infra.Timewheel.Execute.{dispatch_live, dispatch_dead}

module _ (P : TimerNode → Type 0) where
  -- `U` has in each list what `T` has that satisfies `P`.
  pub record Keeps (T U : Timer) : Type 0 where
    pub near : (i : ℕ) → Any P (T.near i) → Any P (U.near i)
    pub t : (k j : ℕ) → Any P (T.t k j) → Any P (U.t k j)

  -- A request that leaves the nodes with `P` as they are.
  abbrev pub Spares : Request → Type 0
  Spares (arm addr old n func threadid) = Unit
  Spares (disarm a) = (n : TimerNode) → P n → n.addr ≢ a

  pub Keeps-refl : (T : Timer) → Keeps T T
  Keeps-refl T = record { near = λ i h. h; t = λ k j h. h }

  pub Keeps-trans : {T U V : Timer} → Keeps T U → Keeps U V → Keeps T V
  Keeps-trans f g = record { near = λ i h. g.near i (f.near i h); t = λ k j h. g.t k j (f.t k j h) }

  pub Any-link :
      (slots : ℕ → List TimerNode) (i : ℕ) (n : TimerNode) (j : ℕ)
      → Any P (slots j)
      → Any P (link slots i n j)
  unfolding link
  Any-link slots i n j h = elim (Bool-cases (i == j)) [
    | inl e ↦ rw e (Any-append_left (n ∷ []) h)
    | inr e ↦ rw e h
  ]

  pub Any-link_new :
      (slots : ℕ → List TimerNode) (i : ℕ) (n : TimerNode) → P n → Any P (link slots i n i)
  unfolding link
  Any-link_new slots i n p = rw (eq_self i) (Any-append_right (slots i) (this p))

  pub link_level-Keeps : (k i : ℕ) (n : TimerNode) (T : Timer) → Keeps T (link_level k i n T)
  unfolding link_level set_level
  link_level-Keeps k i n T = record {
    near = λ j h. h;
    t = λ l j h. elim (Bool-cases (k == l)) [
      | inl e ↦ rw e (Any-link (T.t k) i n j (rw (eq_of_== k l e) h))
      | inr e ↦ rw e h
    ];
  }

  pub Any-link_level_new :
      (k i : ℕ) (n : TimerNode) (T : Timer) → P n → Any P ((link_level k i n T).t k i)
  unfolding link_level set_level
  Any-link_level_new k i n T p = rw (eq_self k) (Any-link_new (T.t k) i n p)

  pub add_node-Keeps : (T : Timer) (n : TimerNode) → Keeps T (add_node T n)
  add_node-Keeps T n = go (add_node-Placed T n)
    where
      go : {r : Timer} → Placed T n r → Keeps T r
      go (close d e) = rw e (record { near = λ i h. Any-link T.near _ n i h; t = λ k j h. h })
      go (far k hk lo hi e) = rw e (link_level-Keeps k _ n T)

  pub add_all-Keeps : (ns : List TimerNode) (T : Timer) → Keeps T (add_all ns T)
  unfolding add_all
  add_all-Keeps [] T = Keeps-refl T
  add_all-Keeps (n ∷ ns) T = Keeps-trans (add_node-Keeps T n) (add_all-Keeps ns _)

  Any-cancel :
      (a : ℕ) {ns : List TimerNode}
      → ((n : TimerNode) → P n → n.addr ≢ a)
      → Any P ns
      → Any P (cancel_in a ns)
  unfolding cancel_in
  Any-cancel a f (this {x} p) = rw (ne_test x.addr a (f x p)) (this p)
  Any-cancel a f (that h) = that (Any-cancel a f h)

  pub apply-Keeps : (rs : List Request) (T : Timer) → All Spares rs → Keeps T (apply rs T)
  unfolding apply del_timer
  apply-Keeps [] T s = Keeps-refl T
  apply-Keeps (arm addr old n func threadid ∷ rs) T s =
      Keeps-trans (add_node-Keeps T _) (apply-Keeps rs _ s.1)
  apply-Keeps (disarm a ∷ rs) T s =
      Keeps-trans (record { near = λ i h. Any-cancel a s.0 h; t = λ k j h. Any-cancel a s.0 h })
        (apply-Keeps rs _ s.1)

  module _ (handler : TimerNode → ℕ → List Request)
      (spares : (n : TimerNode) (c : ℕ) → All Spares (handler n c)) where
    pub call-Keeps : (n : TimerNode) (T : Timer) → Keeps T (call handler n T)
    unfolding call
    call-Keeps n T =
        let k =
          apply-Keeps (handler n T.time) (record T { fired = (T.time, n) ∷ T.fired })
            (spares n T.time) in
        record { near = k.near; t = k.t }

    pub dispatch_list-Keeps :
        (ns : List TimerNode) (gone : List ℕ) (T : Timer)
        → Keeps T (dispatch_list handler ns gone T)
    unfolding dispatch_list
    dispatch_list-Keeps [] gone T = Keeps-refl T
    dispatch_list-Keeps (n ∷ ns) gone T =
        elim (Bool-cases (n.cancel == 0 && not (mem n.addr gone))) [
          | inl e ↦
              rw (dispatch_live handler n ns gone T e)
                (Keeps-trans (call-Keeps n T) (dispatch_list-Keeps ns _ _))
          | inr e ↦ rw (dispatch_dead handler n ns gone T e) (dispatch_list-Keeps ns gone T)
        ]
