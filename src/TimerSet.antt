-- ===== src/TimerSet.antt =====
-- timer/timer.cc: timers in a std::set, ordered by the time of expiry and then by the id. The set is the
-- list of its nodes in its order; the callback of a node is a function of its id. The clock is a
-- parameter, and so is what a callback does with the timers. time_t values are not negative here and stay
-- below 2 ^ 63, and so do the ids. `none` is an `erase` of an iterator whose node is gone, or a loop out of fuel.
pub mod Order
pub mod Handle
mod Tests
use cpp_infra.Common.{
  Bool, List, Option, [], false, if◌then◌else◌, last, leb, ltb, negsuc, none, pos, some, suc, true,
  zero, ℕ, ℤ, ◌++◌, ◌+◌, ◌-◌, ◌==◌, ◌>>=◌, ◌∷◌,
}

pub record TimerNode : Type 0 where
  pub expire : ℕ
  pub id : ℕ

pub record Timer : Type 0 where
  pub gid : ℕ
  pub timeouts : List TimerNode

-- `operator <`
abbrev pub less : TimerNode → TimerNode → Bool
less l r =
    if ltb l.expire r.expire then true else if ltb r.expire l.expire then false else ltb l.id r.id

-- `emplace`: nothing is inserted where the set has an equivalent node
unfoldable pub emplace : TimerNode → List TimerNode → List TimerNode
emplace n [] = n ∷ []
emplace n (m ∷ ms) =
    let rest = emplace n ms in
    if less m n then m ∷ rest else if less n m then n ∷ m ∷ ms else m ∷ ms

-- `AddTimer` at the time `tick`: the node returned and the timers; `emplace_hint` at the end, of a node
-- that belongs there, appends
unfoldable pub add_timer : (tick msec : ℕ) → Timer → TimerNode × Timer
add_timer tick msec t =
    let n : TimerNode = record { expire = tick + msec; id = t.gid } in
    let timeouts : List TimerNode = elim (last t.timeouts) [
      | none ↦ emplace n t.timeouts
      | some l ↦ (if leb n.expire l.expire then emplace n t.timeouts else t.timeouts ++ n ∷ [])
    ] in
    (n, record { gid = t.gid + 1; timeouts = timeouts })

-- `find` and `erase`: whether the node was found, and the set
unfoldable pub erase : TimerNode → List TimerNode → Bool × List TimerNode
erase n [] = (false, [])
erase n (m ∷ ms) =
    let (found, rest) = erase n ms in
    if less m n then (found, m ∷ rest) else if less n m then (false, m ∷ ms) else (true, ms)

-- `DelTimer`
unfoldable pub del_timer : TimerNode → Timer → Bool × Timer
del_timer n t = let (found, rest) = erase n t.timeouts in (found, record t { timeouts = rest })

-- `TimeToSleep` at the time `tick`
unfoldable pub time_to_sleep : ℕ → Timer → ℤ
time_to_sleep tick t = elim t.timeouts [
  | [] ↦ negsuc 0
  | n ∷ ns ↦ (if ltb tick n.expire then pos (n.expire - tick) else pos 0)
]

-- What a callback does with the timers.
pub data Call : Type 0 where
  adds : (tick msec : ℕ) → Call
  deletes : TimerNode → Call

unfoldable pub calls : List Call → Timer → Timer
calls [] t = t
calls (adds tick msec ∷ cs) t = calls cs (add_timer tick msec t).1
calls (deletes n ∷ cs) t = calls cs (del_timer n t).1

-- `erase(iter)`, where `iter` is at the node: what is before it and what is behind it
abbrev pub erase_at : ℕ → List TimerNode → Option (List TimerNode × List TimerNode)
erase_at id [] = none
erase_at id (m ∷ ms) =
    let rest = (do (before, behind) ← erase_at id ms; some (m ∷ before, behind)) in
    if m.id == id then some ([], ms) else rest

-- The loop of `HandleTimer`, with `iter` between the two parts of the set. It gives the timers and the
-- nodes whose callbacks ran, in order.
unfoldable pub handle_loop :
    (fuel now : ℕ) (callback : TimerNode → List Call) (gid : ℕ) (before behind : List TimerNode)
    → Option (Timer × List TimerNode)
handle_loop zero now callback gid before behind = none
handle_loop (suc fuel) now callback gid before [] =
    some (record { gid = gid; timeouts = before }, [])
handle_loop (suc fuel) now callback gid before (n ∷ ns) =
    let t = calls (callback n) (record { gid = gid; timeouts = before ++ n ∷ ns }) in
    let round = do
      (before', behind') ← erase_at n.id t.timeouts
      (t', called) ← handle_loop fuel now callback t.gid before' behind'
      some (t', n ∷ called)
    in if leb n.expire now
      then round
      else some (record { gid = gid; timeouts = before ++ n ∷ ns }, [])

-- `HandleTimer`
unfoldable pub handle_timer :
    (fuel now : ℕ) (callback : TimerNode → List Call) → Timer → Option (Timer × List TimerNode)
handle_timer fuel now callback t = handle_loop fuel now callback t.gid [] t.timeouts
