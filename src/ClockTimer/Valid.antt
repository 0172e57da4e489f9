-- ===== src/ClockTimer/Valid.antt =====
-- The invariant of the wheel, and the operations that add and cancel.
use native.Mathlib.Nat.{mod-lt}
use cpp_infra.Common.{
  All, Bool-cases, List, [], arith, inl, inr, ltb, refl, ℕ, ◌%◌, ◌+◌, ◌/◌, ◌<◌, ◌^◌, ◌∙◌, ◌∷◌, ◌≡◌,
  ◌≤◌,
}
use cpp_infra.ClockTimer.{
  TimerNode, Timer, sub32, link_to, add_node, add_all, del_timer, Request, arm, disarm, apply,
  init_timer,
}
use cpp_infra.ClockTimer.Lists.{All-link_to, All-cancel}

-- A node that expires at `e` may stand in `second[i]` at the time `c`.
abbrev pub SecondOk : (c i e : ℕ) → Type 0
SecondOk c i e = (e % 60 ≡ i) × (c ≤ e) × (e < c + 60)

abbrev pub ExpireOk : TimerNode → Type 0
ExpireOk n = n.expire < 2 ^ 32

-- The nodes of the seconds expire within a minute, at the second of their slot; every callback was
-- made at the time for which it was set; and the clock has run for less than 2 ^ 31 seconds.
pub record Valid (T : Timer) : Type 0 where
  pub time_in : T.time < 2 ^ 31
  pub second_ok : (i : ℕ) → All (λ n. SecondOk T.time i n.expire) (T.second i)
  pub minute_ok : (i : ℕ) → All ExpireOk (T.minute i)
  pub hour_ok : (i : ℕ) → All ExpireOk (T.hour i)
  pub on_time : All (λ (c, n). n.expire ≡ c) T.fired

-- The list that `add_node` chooses.
pub data Placed (T : Timer) (n : TimerNode) (r : Timer) : Type 0 where
  in_second :
      T.time ≤ n.expire
      → n.expire < T.time + 60
      → r ≡ record T { second = link_to T.second (n.expire % 60) n }
      → Placed T n r
  in_minute :
      T.time + 60 ≤ n.expire
      → n.expire < T.time + 3600
      → r ≡ record T { minute = link_to T.minute (n.expire / 60 % 60) n }
      → Placed T n r
  in_hour :
      (T.time ≤ n.expire → T.time + 3600 ≤ n.expire)
      → r ≡ record T { hour = link_to T.hour (n.expire / 3600 % 12) n }
      → Placed T n r

near_of : (e c k : ℕ) → e < 2 ^ 32 → c < 2 ^ 31 → k ≤ 3600 → sub32 e c < k → (c ≤ e) × (e < c + k)
unfolding sub32
near_of e c k he hc hk h = (omega arith, omega arith)

far_of : (e c k : ℕ) → e < 2 ^ 32 → c < 2 ^ 31 → k ≤ sub32 e c → c ≤ e → c + k ≤ e
unfolding sub32
far_of e c k he hc h le = omega arith

pub add_node-Placed :
    (T : Timer) (n : TimerNode) → T.time < 2 ^ 31 → n.expire < 2 ^ 32 → Placed T n (add_node T n)
unfolding add_node
add_node-Placed T n ht he = elim (Bool-cases (ltb d 60)) [
  | inl e ↦
      let near = near_of n.expire T.time 60 he ht (omega arith) (ground arith) in
      in_second near.0 near.1 (rw e)
  | inr e0 ↦ elim (Bool-cases (ltb d 3600)) [
    | inl e ↦
        let near = near_of n.expire T.time 3600 he ht (omega arith) (ground arith) in
        in_minute (far_of n.expire T.time 60 he ht (ground arith) near.0) near.1 (rw (e0, e))
    | inr e ↦ in_hour (far_of n.expire T.time 3600 he ht (ground arith)) (rw (e0, e))
  ]
]
  where
    d : ℕ
    d = sub32 n.expire T.time

pub add_node-Valid : (T : Timer) (n : TimerNode) → ExpireOk n → Valid T → Valid (add_node T n)
add_node-Valid T n h v = go (add_node-Placed T n v.time_in h)
  where
    go : {r : Timer} → Placed T n r → Valid r
    go (in_second lo hi e) = rw e (record {
      time_in = v.time_in;
      second_ok = λ i.
          All-link_to (λ m. SecondOk T.time i m.expire) T.second _ n i (v.second_ok i)
            (λ at. (at, lo, hi));
      minute_ok = v.minute_ok;
      hour_ok = v.hour_ok;
      on_time = v.on_time;
    })
    go (in_minute lo hi e) = rw e (record {
      time_in = v.time_in;
      second_ok = v.second_ok;
      minute_ok = λ i. All-link_to ExpireOk T.minute _ n i (v.minute_ok i) (λ at. h);
      hour_ok = v.hour_ok;
      on_time = v.on_time;
    })
    go (in_hour far e) = rw e (record {
      time_in = v.time_in;
      second_ok = v.second_ok;
      minute_ok = v.minute_ok;
      hour_ok = λ i. All-link_to ExpireOk T.hour _ n i (v.hour_ok i) (λ at. h);
      on_time = v.on_time;
    })

pub add_all-Valid :
    (ns : List TimerNode) (T : Timer) → All ExpireOk ns → Valid T → Valid (add_all ns T)
unfolding add_all
add_all-Valid [] T h v = v
add_all-Valid (n ∷ ns) T h v = add_all-Valid ns (add_node T n) h.1 (add_node-Valid T n h.0 v)

pub del_timer-Valid : (a : ℕ) (T : Timer) → Valid T → Valid (del_timer a T)
unfolding del_timer
del_timer-Valid a T v = record {
  time_in = v.time_in;
  second_ok = λ i. All-cancel _ a (T.second i) (λ n h. h) (v.second_ok i);
  minute_ok = λ i. All-cancel _ a (T.minute i) (λ n h. h) (v.minute_ok i);
  hour_ok = λ i. All-cancel _ a (T.hour i) (λ n h. h) (v.hour_ok i);
  on_time = v.on_time;
}

pub apply-Valid : (rs : List Request) (T : Timer) → Valid T → Valid (apply rs T)
unfolding apply
apply-Valid [] T v = v
apply-Valid (arm addr n func ∷ rs) T v =
    apply-Valid rs _ (add_node-Valid T _ (mod-lt _ (omega arith)) v)
apply-Valid (disarm a ∷ rs) T v = apply-Valid rs _ (del_timer-Valid a T v)

pub time-add_node : (T : Timer) (n : TimerNode) → (add_node T n).time ≡ T.time
unfolding add_node
time-add_node T n = ground arith

pub fired-add_node : (T : Timer) (n : TimerNode) → (add_node T n).fired ≡ T.fired
unfolding add_node
fired-add_node T n = ground arith

pub time-add_all : (ns : List TimerNode) (T : Timer) → (add_all ns T).time ≡ T.time
unfolding add_all
time-add_all [] T = refl
time-add_all (n ∷ ns) T = time-add_all ns _ ∙ time-add_node T n

pub fired-add_all : (ns : List TimerNode) (T : Timer) → (add_all ns T).fired ≡ T.fired
unfolding add_all
fired-add_all [] T = refl
fired-add_all (n ∷ ns) T = fired-add_all ns _ ∙ fired-add_node T n

pub time-apply : (rs : List Request) (T : Timer) → (apply rs T).time ≡ T.time
unfolding apply del_timer
time-apply [] T = refl
time-apply (arm addr n func ∷ rs) T = time-apply rs _ ∙ time-add_node T _
time-apply (disarm a ∷ rs) T = time-apply rs _

pub fired-apply : (rs : List Request) (T : Timer) → (apply rs T).fired ≡ T.fired
unfolding apply del_timer
fired-apply [] T = refl
fired-apply (arm addr n func ∷ rs) T = fired-apply rs _ ∙ fired-add_node T _
fired-apply (disarm a ∷ rs) T = fired-apply rs _

-- A wheel that `init_timer` makes is valid.
pub init_timer-Valid : (now : ℕ) → Valid (init_timer now)
unfolding init_timer
init_timer-Valid now = record {
  time_in = omega arith;
  second_ok = λ i. tt;
  minute_ok = λ i. tt;
  hour_ok = λ i. tt;
  on_time = tt;
}
