-- ===== src/Timewheel/Valid.antt =====
-- The invariant of the wheel, and the operations that add and cancel.
use native.Mathlib.Nat.{mod-lt}
use mathlib.Core.Path.{subst}
use cpp_infra.Common.{
  All, All-append, Bool-cases, List, [], arith, eq_of_==, inl, inr, ltb, refl, ℕ, ◌%◌, ◌*◌, ◌/◌,
  ◌<◌, ◌==◌, ◌^◌, ◌∙◌, ◌∷◌, ◌≡◌, ◌≤◌, ◌⊎◌,
}
use cpp_infra.Timewheel.{
  TimerNode, Timer, sub32, link, set_level, link_level, add_node, add_all, cancel_in, del_timer,
  Request, arm, disarm, apply, init_timer,
}
use cpp_infra.Timewheel.Distance.{span, NearOk, Waits, Waits-placed}

-- A node of `t[k][j]` waits for its turn, or stands in slot 0 of a level below the last.
abbrev pub LevelOk : (c k j : ℕ) → TimerNode → Type 0
LevelOk c k j n = Waits c k j n.expire ⊎ ((k < 3) × (j ≡ 0))

-- Every node is placed well, and every callback was made at the time for which it was set.
pub record Valid (T : Timer) : Type 0 where
  pub time_in : T.time < 2 ^ 32
  pub near_ok : (i : ℕ) → All (λ n. NearOk T.time i n.expire) (T.near i)
  pub level_ok : (k j : ℕ) → k < 4 → All (LevelOk T.time k j) (T.t k j)
  pub on_time : All (λ (c, n). n.expire ≡ c) T.fired

module _ (P : TimerNode → Type 0) where
  pub All-link :
      (slots : ℕ → List TimerNode) (i : ℕ) (n : TimerNode) (j : ℕ)
      → All P (slots j)
      → (i ≡ j → P n)
      → All P (link slots i n j)
  unfolding link
  All-link slots i n j h new = elim (Bool-cases (i == j)) [
    | inl e ↦ rw e (All-append P (slots j) (n ∷ []) h (new (eq_of_== i j e), tt))
    | inr e ↦ rw e h
  ]

  pub All-cancel :
      (a : ℕ) (ns : List TimerNode)
      → ((n : TimerNode) → P n → P (record n { cancel = 1 }))
      → All P ns
      → All P (cancel_in a ns)
  unfolding cancel_in
  All-cancel a [] f h = tt
  All-cancel a (n ∷ ns) f h = elim (Bool-cases (n.addr == a)) [
    | inl e ↦ rw e (f n h.0, All-cancel a ns f h.1)
    | inr e ↦ rw e (h.0, All-cancel a ns f h.1)
  ]

link_level-Valid :
    (k : ℕ) (n : TimerNode) (T : Timer)
    → k < 4
    → Waits T.time k (n.expire / span k % 64) n.expire
    → Valid T
    → Valid (link_level k (n.expire / span k % 64) n T)
unfolding link_level set_level
link_level-Valid k n T hk w v = record {
  time_in = v.time_in;
  near_ok = v.near_ok;
  level_ok = λ l j hl. elim (Bool-cases (k == l)) [
    | inl e ↦ rw e (
        subst (λ m. All (LevelOk T.time m j) (link (T.t k) (n.expire / span k % 64) n j))
          (eq_of_== k l e)
          (All-link (LevelOk T.time k j) (T.t k) (n.expire / span k % 64) n j (v.level_ok k j hk)
            (λ at. inl (w.0, at, w.2, w.3))))
    | inr e ↦ rw e (v.level_ok l j hl)
  ];
  on_time = v.on_time;
}

-- The list that `add_node` chooses.
pub data Placed (T : Timer) (n : TimerNode) (r : Timer) : Type 0 where
  close :
      sub32 n.expire T.time < 256
      → r ≡ record T { near = link T.near (n.expire % 256) n }
      → Placed T n r
  far :
      (k : ℕ)
      → k < 4
      → span k ≤ sub32 n.expire T.time
      → sub32 n.expire T.time < span k * 64
      → r ≡ link_level k (n.expire / span k % 64) n T
      → Placed T n r

sub32-lt : (a b : ℕ) → sub32 a b < 2 ^ 32
unfolding sub32
sub32-lt a b = omega arith

pub add_node-Placed : (T : Timer) (n : TimerNode) → Placed T n (add_node T n)
unfolding add_node
add_node-Placed T n =
    let d = sub32 n.expire T.time in
    elim (Bool-cases (ltb d 256)) [
      | inl e ↦ close (ground arith) (rw e)
      | inr e0 ↦ elim (Bool-cases (ltb d (2 ^ 14))) [
        | inl e ↦ far 0 (omega arith) (ground arith) (ground arith) (rw (e0, e))
        | inr e1 ↦ elim (Bool-cases (ltb d (2 ^ 20))) [
          | inl e ↦ far 1 (omega arith) (ground arith) (ground arith) (rw (e0, e1, e))
          | inr e2 ↦ elim (Bool-cases (ltb d (2 ^ 26))) [
            | inl e ↦ far 2 (omega arith) (ground arith) (ground arith) (rw (e0, e1, e2, e))
            | inr e3 ↦
                far 3 (omega arith) (ground arith) (ground (arith, sub32-lt n.expire T.time))
                  (rw (e0, e1, e2, e3))
          ]
        ]
      ]
    ]

-- Linking a node keeps the wheel valid, whatever the time at which the node expires.
pub add_node-Valid :
    (T : Timer) (n : TimerNode) → n.expire < 2 ^ 32 → Valid T → Valid (add_node T n)
add_node-Valid T n h v = go (add_node-Placed T n)
  where
    go : {r : Timer} → Placed T n r → Valid r
    go (close d e) = rw e (record {
      time_in = v.time_in;
      near_ok = λ i.
          All-link (λ m. NearOk T.time i m.expire) T.near _ n i (v.near_ok i) (λ at. (h, at, d));
      level_ok = v.level_ok;
      on_time = v.on_time;
    })
    go (far k hk lo hi e) =
        rw e (link_level-Valid k n T hk (Waits-placed k T.time n.expire hk h lo hi) v)

pub add_all-Valid :
    (ns : List TimerNode) (T : Timer)
    → All (λ n. n.expire < 2 ^ 32) ns
    → Valid T
    → Valid (add_all ns T)
unfolding add_all
add_all-Valid [] T h v = v
add_all-Valid (n ∷ ns) T h v = add_all-Valid ns (add_node T n) h.1 (add_node-Valid T n h.0 v)

pub del_timer-Valid : (a : ℕ) (T : Timer) → Valid T → Valid (del_timer a T)
unfolding del_timer
del_timer-Valid a T v = record {
  time_in = v.time_in;
  near_ok = λ i. All-cancel _ a (T.near i) (λ n h. h) (v.near_ok i);
  level_ok = λ k j hk. All-cancel _ a (T.t k j) (λ n h. h) (v.level_ok k j hk);
  on_time = v.on_time;
}

pub apply-Valid : (rs : List Request) (T : Timer) → Valid T → Valid (apply rs T)
unfolding apply
apply-Valid [] T v = v
apply-Valid (arm addr old n func threadid ∷ rs) T v =
    apply-Valid rs _ (add_node-Valid T _ (mod-lt _ (omega arith)) v)
apply-Valid (disarm a ∷ rs) T v = apply-Valid rs _ (del_timer-Valid a T v)

pub time-add_node : (T : Timer) (n : TimerNode) → (add_node T n).time ≡ T.time
unfolding add_node link_level
time-add_node T n = ground arith

pub fired-add_node : (T : Timer) (n : TimerNode) → (add_node T n).fired ≡ T.fired
unfolding add_node link_level
fired-add_node T n = ground arith

pub time-add_all : (ns : List TimerNode) (T : Timer) → (add_all ns T).time ≡ T.time
unfolding add_all
time-add_all [] T = refl
time-add_all (n ∷ ns) T = time-add_all ns _ ∙ time-add_node T n

pub fired-add_all : (ns : List TimerNode) (T : Timer) → (add_all ns T).fired ≡ T.fired
unfolding add_all
fired-add_all [] T = refl
fired-add_all (n ∷ ns) T = fired-add_all ns _ ∙ fired-add_node T n

pub time-apply : (rs : List Request) (T : Timer) → (apply rs T).time ≡ T.time
unfolding apply del_timer
time-apply [] T = refl
time-apply (arm addr old n func threadid ∷ rs) T = time-apply rs _ ∙ time-add_node T _
time-apply (disarm a ∷ rs) T = time-apply rs _

pub fired-apply : (rs : List Request) (T : Timer) → (apply rs T).fired ≡ T.fired
unfolding apply del_timer
fired-apply [] T = refl
fired-apply (arm addr old n func threadid ∷ rs) T = fired-apply rs _ ∙ fired-add_node T _
fired-apply (disarm a ∷ rs) T = fired-apply rs _

-- A wheel that `init_timer` makes is valid.
pub init_timer-Valid : (now : ℕ) → Valid (init_timer now)
unfolding init_timer
init_timer-Valid now = record {
  time_in = omega arith;
  near_ok = λ i. tt;
  level_ok = λ k j h. tt;
  on_time = tt;
}
