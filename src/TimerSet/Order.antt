-- ===== src/TimerSet/Order.antt =====
-- The order of the timers, and a timer that is added and deleted.
use cpp_infra.Common.{
  All, All-map, Bool-cases, List, Option-cases, [], ap, arith, false, gt_of_leb, inl, inr, last,
  leb, refl, some, sym, true, ℕ, ◌++◌, ◌+◌, ◌<◌, ◌∷◌, ◌≡◌, ◌≤◌,
}
use mathlib.Core.Option.{some-injective}
use cpp_infra.TimerSet.{TimerNode, Timer, less, emplace, add_timer, erase, del_timer}

abbrev pub AllAbove : TimerNode → List TimerNode → Type 0
AllAbove n ms = All (λ m. less n m ≡ true) ms

abbrev pub Sorted : List TimerNode → Type 0
Sorted [] = Unit
Sorted (m ∷ ms) = AllAbove m ms × Sorted ms

-- The ids that were given out are below `gid`.
pub record IsTimer (t : Timer) : Type 0 where
  pub sorted : Sorted t.timeouts
  pub issued : All (λ m. m.id < t.gid) t.timeouts

-- Nodes of different ids are in the one order or in the other.
less_other : (m n : TimerNode) → m.id < n.id → less m n ≡ false → less n m ≡ true
less_other m n lt e = ground arith

less_expire : (m n : TimerNode) → m.expire < n.expire → less m n ≡ true
less_expire m n lt = ground arith

expire_le : (m n : TimerNode) → less m n ≡ true → m.expire ≤ n.expire
expire_le m n e = ground arith

emplace_last :
    (n l : TimerNode) (ms : List TimerNode)
    → Sorted ms
    → last ms ≡ some l
    → l.expire < n.expire
    → emplace n ms ≡ ms ++ n ∷ []
unfolding emplace
emplace_last n l [] sorted e lt = absurd (cc e)
emplace_last n l (m ∷ []) sorted e lt =
    let same : m.expire ≡ l.expire = ap (λ k. k.expire) (some-injective _ _ e) in
    rw (less_expire m n (omega arith)) refl
emplace_last n l (m ∷ (k ∷ ks)) (least, sorted) e lt =
    rw (less_expire m n (omega (arith, below_last (k ∷ ks) least e)))
      (ap (λ ms. m ∷ ms) (emplace_last n l (k ∷ ks) sorted e lt))
  where
    below_last : (ms : List TimerNode) → AllAbove m ms → last ms ≡ some l → m.expire ≤ l.expire
    below_last [] all e = absurd (cc e)
    below_last (k ∷ []) (here, there) e =
        let same : k.expire ≡ l.expire = ap (λ k. k.expire) (some-injective _ _ e) in
        let le = expire_le m k here in omega arith
    below_last (k ∷ (j ∷ js)) (here, there) e = below_last (j ∷ js) there e

less_self : (n : TimerNode) → less n n ≡ false
less_self n = ground arith

erase-emplace :
    (n : TimerNode) (ms : List TimerNode)
    → All (λ m. m.id < n.id) ms
    → erase n (emplace n ms) ≡ (true, ms)
unfolding erase emplace
erase-emplace n [] issued = rw (less_self n) refl
erase-emplace n (m ∷ ms) (lt, issued) = elim (Bool-cases (less m n)) [
  | inl e ↦ rw (e, erase-emplace n ms issued, e) refl
  | inr e ↦ let other = less_other m n lt e in rw (e, other, less_self n) refl
]

less_trans : (m n k : TimerNode) → less m n ≡ true → less n k ≡ true → less m k ≡ true
less_trans m n k e e' = ground arith

AllAbove-emplace :
    (m n : TimerNode) (ms : List TimerNode)
    → less m n ≡ true
    → AllAbove m ms
    → AllAbove m (emplace n ms)
unfolding emplace
AllAbove-emplace m n [] e all = (e, tt)
AllAbove-emplace m n (k ∷ ks) e (here, there) = elim (Bool-cases (less k n)) [
  | inl e1 ↦ rw e1 (here, AllAbove-emplace m n ks e there)
  | inr e1 ↦ elim (Bool-cases (less n k)) [
    | inl e2 ↦ rw (e1, e2) (e, (here, there))
    | inr e2 ↦ rw (e1, e2) (here, there)
  ]
]

emplace-Sorted : (n : TimerNode) (ms : List TimerNode) → Sorted ms → Sorted (emplace n ms)
unfolding emplace
emplace-Sorted n [] sorted = (tt, tt)
emplace-Sorted n (m ∷ ms) (least, sorted) = elim (Bool-cases (less m n)) [
  | inl e1 ↦ rw e1 (AllAbove-emplace m n ms e1 least, emplace-Sorted n ms sorted)
  | inr e1 ↦ elim (Bool-cases (less n m)) [
    | inl e2 ↦ rw (e1, e2) ((e2, All-map ms (λ k e. less_trans n m k e2 e) least), (least, sorted))
    | inr e2 ↦ rw (e1, e2) (least, sorted)
  ]
]

issued-emplace :
    (gid : ℕ) (n : TimerNode) (ms : List TimerNode)
    → n.id < gid
    → All (λ m. m.id < gid) ms
    → All (λ m. m.id < gid) (emplace n ms)
unfolding emplace
issued-emplace gid n [] lt all = (lt, tt)
issued-emplace gid n (m ∷ ms) lt (here, there) = elim (Bool-cases (less m n)) [
  | inl e1 ↦ rw e1 (here, issued-emplace gid n ms lt there)
  | inr e1 ↦ elim (Bool-cases (less n m)) [
    | inl e2 ↦ rw (e1, e2) (lt, (here, there))
    | inr e2 ↦ rw (e1, e2) (here, there)
  ]
]

module _ (tick msec : ℕ) (t : Timer) (ok : IsTimer t) where
  abbrev added : TimerNode
  added = record { expire = tick + msec; id = t.gid }

  -- Both ways of `AddTimer` put the node where `emplace` does.
  added_timeouts :
      add_timer tick msec t
      ≡ (added, record { gid = t.gid + 1; timeouts = emplace added t.timeouts })
  unfolding add_timer
  added_timeouts = elim (Option-cases (last t.timeouts)) [
    | inl e ↦ rw (add_timer, e) refl
    | inr (l, e) ↦ elim (Bool-cases (leb (tick + msec) l.expire)) [
      | inl e1 ↦ rw (add_timer, e, e1) refl
      | inr e1 ↦
          rw (add_timer, e, e1)
            (ap (λ ms. (added, record { gid = t.gid + 1; timeouts = ms }))
              (sym (
                emplace_last added l t.timeouts ok.sorted e (gt_of_leb (tick + msec) l.expire e1))))
    ]
  ]

  added-IsTimer : IsTimer (record { gid = t.gid + 1; timeouts = emplace added t.timeouts })
  added-IsTimer = record {
    sorted = emplace-Sorted added t.timeouts ok.sorted;
    issued =
        issued-emplace (t.gid + 1) added t.timeouts (omega arith)
          (All-map t.timeouts (λ m lt. omega arith) ok.issued);
  }

-- On timers in the order of the set, with ids below the next one: `AddTimer` keeps this, and `DelTimer` of
-- the node that it returned finds it, also among nodes of the same time, and gives back the timers of before.
pub del_timer-add_timer :
    (tick msec : ℕ) (t : Timer)
    → IsTimer t
    → IsTimer (add_timer tick msec t).1
      × (del_timer (add_timer tick msec t).0 (add_timer tick msec t).1
          ≡ (true, record t { gid = t.gid + 1 }))
unfolding del_timer
del_timer-add_timer tick msec t ok = rw (added_timeouts tick msec t ok) (
  added-IsTimer tick msec t ok,
  rw (erase-emplace (added tick msec t ok) t.timeouts ok.issued) refl,
)
