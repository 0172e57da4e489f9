-- ===== src/Timewheel.antt =====
-- timer/timewheel.c and timer/timewheel.h: the hierarchical timing wheel.
-- A `link_list_t` is the list of its nodes, oldest first: `link` appends at the tail, `link_clear`
-- empties it. A node carries its address, by which the caller cancels it. The arrays `near[256]` and
-- `t[4][64]` are functions of their indices; the indices that the code forms are in range
-- (Timewheel.Shift for the level, `%` for the rest). uint32_t arithmetic is written out modulo 2 ^ 32.
-- `fired` is a record of the callbacks made, last first, each with the wheel's time at the call.
-- The lock is held in every function but for the calls of callbacks. The calls of `add_timer` and
-- `del_timer` that a callback makes, or that another thread makes in that gap, are the parameter
-- `handler`, a function of the node and the time. Such a call of `add_timer` has a positive time:
-- with another time it would run the next callback inside this one, which is not modelled.
pub mod Distance
pub mod Valid
pub mod Shift
pub mod Execute
pub mod Keeps
pub mod Fires
pub mod Calls
pub mod Update
pub mod Stuck
mod Tests
use cpp_infra.Common.{
  List, Option, [], if◌then◌else◌, is_positive, ltb, mem, none, not, pos, some, suc, to_u32, zero,
  ℕ, ℤ, ◌%◌, ◌&&◌, ◌*◌, ◌++◌, ◌+◌, ◌-◌, ◌/◌, ◌==◌, ◌>>=◌, ◌^◌, ◌∷◌,
}

pub record TimerNode : Type 0 where
  pub addr : ℕ
  pub expire : ℕ
  pub callback : ℕ
  pub cancel : ℕ
  pub id : ℕ

pub record Timer : Type 0 where
  pub near : ℕ → List TimerNode
  pub t : ℕ → ℕ → List TimerNode
  pub time : ℕ
  pub current_point : ℕ
  pub fired : List (ℕ × TimerNode)

-- `uint32_t msec = time - current_time`
unfoldable pub sub32 : ℕ → ℕ → ℕ
sub32 a b = (a + 2 ^ 32 - b) % 2 ^ 32

-- `link(&slots[i], node)`
unfoldable pub link : (ℕ → List TimerNode) → ℕ → TimerNode → ℕ → List TimerNode
link slots i node j = if i == j then slots j ++ node ∷ [] else slots j

-- `link_clear(&slots[i])`, without the list that it returns
unfoldable pub link_clear : (ℕ → List TimerNode) → ℕ → ℕ → List TimerNode
link_clear slots i j = if i == j then [] else slots j

-- the array `t` with the level `k` replaced
unfoldable pub set_level :
    (ℕ → ℕ → List TimerNode) → ℕ → (ℕ → List TimerNode) → ℕ → ℕ → List TimerNode
set_level t k slots l = if k == l then slots else t l

-- `link(&T->t[k][i], node)`
unfoldable pub link_level : ℕ → ℕ → TimerNode → Timer → Timer
link_level k i node T = record T { t = set_level T.t k (link (T.t k) i node) }

unfoldable pub add_node : Timer → TimerNode → Timer
add_node T node =
    let time = node.expire in
    let msec = sub32 time T.time in
    if ltb msec 256
    then record T { near = link T.near (time % 256) node }
    else if ltb msec (2 ^ 14)
    then link_level 0 (time / 2 ^ 8 % 64) node T
    else if ltb msec (2 ^ 20)
    then link_level 1 (time / 2 ^ 14 % 64) node T
    else if ltb msec (2 ^ 26)
    then link_level 2 (time / 2 ^ 20 % 64) node T
    else link_level 3 (time / 2 ^ 26 % 64) node T

-- the `while (current)` of `move_list`
unfoldable pub add_all : List TimerNode → Timer → Timer
add_all [] T = T
add_all (n ∷ ns) T = add_all ns (add_node T n)

unfoldable pub move_list : Timer → ℕ → ℕ → Timer
move_list T level idx =
    add_all (T.t level idx) (record T { t = set_level T.t level (link_clear (T.t level) idx) })

-- The `while` of `timer_shift` at the level `i`; `none` is a read past `t[3]`. The `mask` is an int
-- whose last doubling overflows to 0, and `ct & (mask - 1)` is then `ct`, as `ct % 0` is.
unfoldable pub shift_loop : ℕ → Timer → (ct mask time i : ℕ) → Option Timer
shift_loop zero T ct mask time i = if ct % mask == 0 then none else some T
shift_loop (suc rest) T ct mask time i =
    let idx = time % 64 in
    let up = shift_loop rest T ct (mask * 64 % 2 ^ 32) (time / 64) (i + 1) in
    if ct % mask == 0 then (if idx == 0 then up else some (move_list T i idx)) else some T

unfoldable pub timer_shift : Timer → Option Timer
timer_shift T =
    let ct = (T.time + 1) % 2 ^ 32 in
    let T' = record T { time = ct } in
    if ct == 0 then some (move_list T' 3 0) else shift_loop 4 T' ct 256 (ct / 2 ^ 8) 0

-- the node that `add_timer` makes: `addr` is what `malloc` returns and `old` what its `cancel` byte
-- holds, which nothing sets
abbrev pub new_node : (addr old : ℕ) → ℤ → (func threadid : ℕ) → Timer → TimerNode
new_node addr old time func threadid T = record {
  addr = addr;
  expire = (to_u32 time + T.time) % 2 ^ 32;
  callback = func;
  cancel = old;
  id = threadid;
}

-- `del_timer`, on each list that may hold the node
unfoldable pub cancel_in : ℕ → List TimerNode → List TimerNode
cancel_in a [] = []
cancel_in a (n ∷ ns) = (if n.addr == a then record n { cancel = 1 } else n) ∷ cancel_in a ns

unfoldable pub del_timer : ℕ → Timer → Timer
del_timer a T = record T { near = λ i. cancel_in a (T.near i); t = λ k i. cancel_in a (T.t k i) }

-- A call that a callback, or another thread while the lock is free, makes: `add_timer` with the
-- time `n + 1`, or `del_timer`.
pub data Request : Type 0 where
  arm : (addr old n func threadid : ℕ) → Request
  disarm : ℕ → Request

unfoldable pub apply : List Request → Timer → Timer
apply [] T = T
apply (arm addr old n func threadid ∷ rs) T =
    apply rs (add_node T (new_node addr old (pos (suc n)) func threadid T))
apply (disarm a ∷ rs) T = apply rs (del_timer a T)

-- the addresses that a list of requests cancels
unfoldable pub disarmed : List Request → List ℕ
disarmed [] = []
disarmed (arm addr old n func threadid ∷ rs) = disarmed rs
disarmed (disarm a ∷ rs) = a ∷ disarmed rs

module _ (handler : TimerNode → ℕ → List Request) where
  -- the callback of `n`, recorded
  unfoldable pub call : TimerNode → Timer → Timer
  call n T = apply (handler n T.time) (record T { fired = (T.time, n) ∷ T.fired })

  -- `cancelled` are the addresses passed to `del_timer` since the list was taken off the wheel.
  unfoldable pub dispatch_list : List TimerNode → List ℕ → Timer → Timer
  dispatch_list [] cancelled T = T
  dispatch_list (n ∷ ns) cancelled T =
      let live = n.cancel == 0 && not (mem n.addr cancelled) in
      dispatch_list ns (if live then disarmed (handler n T.time) ++ cancelled else cancelled)
        (if live then call n T else T)

  -- the `while` of `timer_execute`, on fuel
  unfoldable pub execute_loop : ℕ → ℕ → Timer → Option Timer
  execute_loop zero idx T = none
  execute_loop (suc f) idx T = elim (T.near idx) [
    | [] ↦ some T
    | n ∷ ns ↦
        execute_loop f idx (dispatch_list (n ∷ ns) [] (record T { near = link_clear T.near idx }))
  ]

  unfoldable pub timer_execute : ℕ → Timer → Option Timer
  timer_execute f T = execute_loop f (T.time % 256) T

  unfoldable pub timer_update : ℕ → Timer → Option Timer
  timer_update f T = do T1 ← timer_execute f T; T2 ← timer_shift T1; timer_execute f T2

  -- The `for` of `expire_timer`. The lock is free between the updates: `others n` is what other threads call
  -- before the update after which `n` are left.
  unfoldable pub updates : (others : ℕ → List Request) → ℕ → ℕ → Timer → Option Timer
  updates others f zero T = some T
  updates others f (suc n) T = do T' ← timer_update f (apply (others n) T); updates others f n T'

  -- `cp` is what `gettime` returns.
  unfoldable pub expire_timer : (others : ℕ → List Request) → ℕ → ℕ → Timer → Option Timer
  expire_timer others f cp T =
      let diff = (cp + 2 ^ 64 - T.current_point) % 2 ^ 64 % 2 ^ 32 in
      if cp == T.current_point
      then some T
      else updates others f diff (record T { current_point = cp })

  -- The option is the pointer that is returned.
  unfoldable pub add_timer : (addr old : ℕ) → ℤ → (func threadid : ℕ) → Timer → Timer × Option ℕ
  add_timer addr old time func threadid T =
      let node = new_node addr old time func threadid T in
      if is_positive time then (add_node T node, some addr) else (call node T, none)

-- `timer_create_timer` and `init_timer`; `now` is what `gettime` returns.
unfoldable pub init_timer : ℕ → Timer
init_timer now = record { near = λ i. []; t = λ k i. []; time = 0; current_point = now; fired = [] }

-- `clear_timer` frees every node of every list
unfoldable pub clear_timer : Timer → Timer
clear_timer T = record T { near = λ i. []; t = λ k i. [] }
