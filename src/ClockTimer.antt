-- ===== src/ClockTimer.antt =====
-- timer/clock-timer.c and timer/clock-timer.h: a wheel of seconds, minutes and hours.
-- A `link_list_t` is the list of its nodes, oldest first. A node carries its address, by which the
-- caller cancels it. The arrays `second[60]`, `minute[60]` and `hour[12]` are functions of their
-- indices; every index that the code forms is a remainder. uint32_t arithmetic is written out
-- modulo 2 ^ 32. `fired` is a record of the callbacks made, last first, each with the wheel's time
-- at the call. The lock is held in every function but for the calls of callbacks; the calls of
-- `add_timer`, with a positive time, and of `del_timer` that a callback or another thread makes
-- then are the parameter `handler`, a function of the node and the time.
pub mod Lists
pub mod Valid
pub mod Shift
pub mod Execute
pub mod Keeps
pub mod Fires
pub mod Calls
pub mod Stuck
mod Tests
use cpp_infra.Common.{
  List, Option, [], if◌then◌else◌, is_positive, ltb, mem, none, not, pos, some, suc, to_u32, zero,
  ℕ, ℤ, ◌%◌, ◌&&◌, ◌++◌, ◌+◌, ◌-◌, ◌/◌, ◌==◌, ◌>>=◌, ◌^◌, ◌∷◌,
}

-- `struct timer_node`; the callback is a number
pub record TimerNode : Type 0 where
  pub addr : ℕ
  pub expire : ℕ
  pub callback : ℕ
  pub cancel : ℕ

-- `struct timer`
pub record Timer : Type 0 where
  pub second : ℕ → List TimerNode
  pub minute : ℕ → List TimerNode
  pub hour : ℕ → List TimerNode
  pub time : ℕ
  pub current_point : ℕ
  pub fired : List (ℕ × TimerNode)

unfoldable pub sub32 : ℕ → ℕ → ℕ
sub32 a b = (a + 2 ^ 32 - b) % 2 ^ 32

-- `link_to(&slots[i], node)`
unfoldable pub link_to : (ℕ → List TimerNode) → ℕ → TimerNode → ℕ → List TimerNode
link_to slots i node j = if i == j then slots j ++ node ∷ [] else slots j

-- `link_clear(&slots[i])`, without the list that it returns
unfoldable pub link_clear : (ℕ → List TimerNode) → ℕ → ℕ → List TimerNode
link_clear slots i j = if i == j then [] else slots j

unfoldable pub add_node : Timer → TimerNode → Timer
add_node T node =
    let time = node.expire in
    let msec = sub32 time T.time in
    if ltb msec 60
    then record T { second = link_to T.second (time % 60) node }
    else if ltb msec 3600
    then record T { minute = link_to T.minute (time / 60 % 60) node }
    else record T { hour = link_to T.hour (time / 3600 % 12) node }

-- the `while (current)` of `remap`
unfoldable pub add_all : List TimerNode → Timer → Timer
add_all [] T = T
add_all (n ∷ ns) T = add_all ns (add_node T n)

-- `remap(T, T->minute, idx)`
unfoldable pub remap_minute : Timer → ℕ → Timer
remap_minute T idx = add_all (T.minute idx) (record T { minute = link_clear T.minute idx })

-- `remap(T, T->hour, idx)`
unfoldable pub remap_hour : Timer → ℕ → Timer
remap_hour T idx = add_all (T.hour idx) (record T { hour = link_clear T.hour idx })

unfoldable pub timer_shift : Timer → Timer
timer_shift T =
    let next = (T.time + 1) % 2 ^ 32 in
    let T' = record T { time = next } in
    let ct = next % 43200 in
    let minute_idx = ct / 60 % 60 in
    let hour_idx = ct / 3600 % 12 in
    if ct == 0
    then remap_hour T' 0
    else if not (ct % 60 == 0)
    then T'
    else if not (minute_idx == 0)
    then remap_minute T' minute_idx
    else if not (hour_idx == 0)
    then remap_hour T' hour_idx
    else T'

-- the node that `add_timer` makes at the address `addr`
abbrev pub new_node : ℕ → ℤ → (func : ℕ) → Timer → TimerNode
new_node addr time func T = record {
  addr = addr;
  expire = (to_u32 time + T.time) % 2 ^ 32;
  callback = func;
  cancel = 0;
}

-- `del_timer`, on each list that may hold the node
unfoldable pub cancel_in : ℕ → List TimerNode → List TimerNode
cancel_in a [] = []
cancel_in a (n ∷ ns) = (if n.addr == a then record n { cancel = 1 } else n) ∷ cancel_in a ns

unfoldable pub del_timer : ℕ → Timer → Timer
del_timer a T = record T {
  second = λ i. cancel_in a (T.second i);
  minute = λ i. cancel_in a (T.minute i);
  hour = λ i. cancel_in a (T.hour i);
}

-- A call that a callback, or another thread while the lock is free, makes: `add_timer` with the
-- time `n + 1`, or `del_timer`.
pub data Request : Type 0 where
  arm : (addr n func : ℕ) → Request
  disarm : ℕ → Request

unfoldable pub apply : List Request → Timer → Timer
apply [] T = T
apply (arm addr n func ∷ rs) T = apply rs (add_node T (new_node addr (pos (suc n)) func T))
apply (disarm a ∷ rs) T = apply rs (del_timer a T)

-- the addresses that a list of requests cancels
unfoldable pub disarmed : List Request → List ℕ
disarmed [] = []
disarmed (arm addr n func ∷ rs) = disarmed rs
disarmed (disarm a ∷ rs) = a ∷ disarmed rs

module _ (handler : TimerNode → ℕ → List Request) where
  -- the callback of `n`, recorded
  unfoldable pub call : TimerNode → Timer → Timer
  call n T = apply (handler n T.time) (record T { fired = (T.time, n) ∷ T.fired })

  -- `cancelled` are the addresses passed to `del_timer` since the list was taken off the wheel.
  unfoldable pub dispatch_list : List TimerNode → List ℕ → Timer → Timer
  dispatch_list [] cancelled T = T
  dispatch_list (n ∷ ns) cancelled T =
      let live = n.cancel == 0 && not (mem n.addr cancelled) in
      dispatch_list ns (if live then disarmed (handler n T.time) ++ cancelled else cancelled)
        (if live then call n T else T)

  -- the `while` of `timer_execute`, on fuel
  unfoldable pub execute_loop : ℕ → ℕ → Timer → Option Timer
  execute_loop zero idx T = none
  execute_loop (suc f) idx T = elim (T.second idx) [
    | [] ↦ some T
    | n ∷ ns ↦
        execute_loop f idx
          (dispatch_list (n ∷ ns) [] (record T { second = link_clear T.second idx }))
  ]

  unfoldable pub timer_execute : ℕ → Timer → Option Timer
  timer_execute f T = execute_loop f (T.time % 60) T

  unfoldable pub timer_update : ℕ → Timer → Option Timer
  timer_update f T = do T1 ← timer_execute f T; timer_execute f (timer_shift T1)

  -- The `for` of `check_timer`. The lock is free between the updates: `others n` is what other threads call
  -- before the update after which `n` are left.
  unfoldable pub updates : (others : ℕ → List Request) → ℕ → ℕ → Timer → Option Timer
  updates others f zero T = some T
  updates others f (suc n) T = do T' ← timer_update f (apply (others n) T); updates others f n T'

  -- one round of the `while` of `check_timer`, where `cp` is what `now_time` returns
  unfoldable pub check_timer : (others : ℕ → List Request) → ℕ → ℕ → Timer → Option Timer
  check_timer others f cp T =
      let diff = (cp + 2 ^ 64 - T.current_point) % 2 ^ 64 % 2 ^ 32 in
      if cp == T.current_point
      then some T
      else updates others f diff (record T { current_point = cp })

  -- The option is the pointer that is returned.
  unfoldable pub add_timer : ℕ → ℤ → (func : ℕ) → Timer → Timer × Option ℕ
  add_timer addr time func T =
      let node = new_node addr time func T in
      if is_positive time then (add_node T node, some addr) else (call node T, none)

-- `create_timer` and `init_timer`; `now` is what `now_time` returns.
unfoldable pub init_timer : ℕ → Timer
init_timer now = record {
  second = λ i. [];
  minute = λ i. [];
  hour = λ i. [];
  time = 0;
  current_point = now;
  fired = [];
}

-- `clear_timer` frees every node of every list
unfoldable pub clear_timer : Timer → Timer
clear_timer T = record T { second = λ i. []; minute = λ i. []; hour = λ i. [] }
