-- ===== src/TimerMap.antt =====
-- network_timer/Timer.h: the timers of the event loop, a std::multimap from the time of expiry to the
-- node. The multimap is the list of its nodes in its order; a node is its address and `timeout_`. The
-- clock is a parameter, and so is what a callback does with the timers. uint64_t arithmetic is written
-- out modulo 2 ^ 64. `none` is an `erase` of an iterator whose node is gone, or a loop out of fuel.
pub mod Order
pub mod Handle
pub mod Wait
mod Tests
use cpp_infra.Common.{
  List, Option, [], if◌then◌else◌, last, leb, ltb, negsuc, none, pos, some, suc, zero, ℕ, ℤ, ◌%◌,
  ◌++◌, ◌+◌, ◌-◌, ◌==◌, ◌>>=◌, ◌^◌, ◌∷◌,
}

pub record TimerNode : Type 0 where
  pub node : ℕ
  pub timeout : ℕ

-- `insert` of a multimap: behind the nodes of the same key
unfoldable pub insert : TimerNode → List TimerNode → List TimerNode
insert n [] = n ∷ []
insert n (m ∷ ms) =
    let rest = insert n ms in if leb m.timeout n.timeout then m ∷ rest else n ∷ m ∷ ms

-- `AddTimeout` at the time `now`; `rbegin()` is the last node, and `emplace_hint` at the end, of a key
-- that belongs there, appends
unfoldable pub add_timeout : (now diff node : ℕ) → List TimerNode → List TimerNode
add_timeout now diff node map =
    let n : TimerNode = record { node = node; timeout = (now + diff) % 2 ^ 64 } in
    elim (last map) [
      | none ↦ insert n map
      | some l ↦ (if ltb n.timeout l.timeout then insert n map else map ++ n ∷ [])
    ]

-- `DelTimeout`: the search goes through `equal_range(node->timeout_)`
unfoldable pub del_timeout : TimerNode → List TimerNode → List TimerNode
del_timeout n [] = []
del_timeout n (m ∷ ms) =
    let rest = del_timeout n ms in
    if ltb m.timeout n.timeout
    then m ∷ rest
    else if m.timeout == n.timeout
    then (if m.node == n.node then ms else m ∷ rest)
    else m ∷ ms

-- the conversion of a `uint64_t` to `int`
abbrev pub to_int : ℕ → ℤ
to_int d = let r = d % 2 ^ 32 in if ltb r (2 ^ 31) then pos r else negsuc (2 ^ 32 - 1 - r)

-- `WaitTime` at the time `now`
unfoldable pub wait_time : ℕ → List TimerNode → ℤ
wait_time now [] = negsuc 0
wait_time now (m ∷ ms) =
    let diff = (m.timeout + 2 ^ 64 - now) % 2 ^ 64 in to_int (if ltb 0 diff then diff else 0)

-- What a callback does with the timers.
pub data Call : Type 0 where
  adds : (now diff node : ℕ) → Call
  deletes : TimerNode → Call

unfoldable pub calls : List Call → List TimerNode → List TimerNode
calls [] map = map
calls (adds now diff node ∷ cs) map = calls cs (add_timeout now diff node map)
calls (deletes n ∷ cs) map = calls cs (del_timeout n map)

-- `erase(iter)`, where `iter` is at the node: what is before it and what is behind it
abbrev pub erase_at : ℕ → List TimerNode → Option (List TimerNode × List TimerNode)
erase_at node [] = none
erase_at node (m ∷ ms) =
    let rest = (do (before, behind) ← erase_at node ms; some (m ∷ before, behind)) in
    if m.node == node then some ([], ms) else rest

-- The loop of `HandleTimeout`, with `iter` between the two parts of the map; `clock i` is the time in
-- the round `i`. It gives the map and the nodes whose callbacks ran, in order.
unfoldable pub handle_loop :
    (fuel : ℕ) (clock : ℕ → ℕ) (callback : TimerNode → List Call) (i : ℕ)
    (before behind : List TimerNode)
    → Option (List TimerNode × List TimerNode)
handle_loop zero clock callback i before behind = none
handle_loop (suc fuel) clock callback i before [] = some (before, [])
handle_loop (suc fuel) clock callback i before (n ∷ ns) =
    let round = do
      (before', behind') ← erase_at n.node (calls (callback n) (before ++ n ∷ ns))
      (map, called) ← handle_loop fuel clock callback (i + 1) before' behind'
      some (map, n ∷ called)
    in if leb n.timeout (clock i) then round else some (before ++ n ∷ ns, [])

-- `HandleTimeout`
unfoldable pub handle_timeout :
    (fuel : ℕ) (clock : ℕ → ℕ) (callback : TimerNode → List Call)
    → List TimerNode
    → Option (List TimerNode × List TimerNode)
handle_timeout fuel clock callback map = handle_loop fuel clock callback 0 [] map
