-- ===== src/TimerMap/Order.antt =====
-- The order of the timers.
use mathlib.Core.Path.{subst}
use cpp_infra.Common.{
  All, All-map, Bool-cases, List, Option-cases, [], ap, arith, ge_of_ltb, gt_of_leb, inl, inr, last,
  le_of_leb, leb, leb-true, ltb, refl, some, sym, ℕ, ◌%◌, ◌++◌, ◌+◌, ◌==◌, ◌^◌, ◌∷◌, ◌≡◌, ◌≤◌,
}
use mathlib.Core.Option.{some-injective}
use cpp_infra.TimerMap.{TimerNode, insert, add_timeout, del_timeout}

abbrev pub AllFrom : ℕ → List TimerNode → Type 0
AllFrom t map = All (λ m. t ≤ m.timeout) map

-- By time of expiry.
abbrev pub Sorted : List TimerNode → Type 0
Sorted [] = Unit
Sorted (m ∷ ms) = AllFrom m.timeout ms × Sorted ms

AllFrom-insert :
    (t : ℕ) (n : TimerNode) (map : List TimerNode)
    → t ≤ n.timeout
    → AllFrom t map
    → AllFrom t (insert n map)
unfolding insert
AllFrom-insert t n [] le all = (le, tt)
AllFrom-insert t n (m ∷ ms) le (here, there) = elim (Bool-cases (leb m.timeout n.timeout)) [
  | inl e ↦ rw e (here, AllFrom-insert t n ms le there)
  | inr e ↦ rw e (le, (here, there))
]

pub insert-Sorted : (n : TimerNode) (map : List TimerNode) → Sorted map → Sorted (insert n map)
unfolding insert
insert-Sorted n [] sorted = (tt, tt)
insert-Sorted n (m ∷ ms) (least, sorted) = elim (Bool-cases (leb m.timeout n.timeout)) [
  | inl e ↦ rw e (
    AllFrom-insert m.timeout n ms (le_of_leb m.timeout n.timeout e) least,
    insert-Sorted n ms sorted,
  )
  | inr e ↦
      let lt = gt_of_leb m.timeout n.timeout e in
      rw e ((omega arith, All-map ms (λ k le. omega arith) least), (least, sorted))
]

-- At or behind the last key, a node is inserted at the end.
insert_last :
    (n l : TimerNode) (map : List TimerNode)
    → Sorted map
    → last map ≡ some l
    → l.timeout ≤ n.timeout
    → insert n map ≡ map ++ n ∷ []
unfolding insert
insert_last n l [] sorted e le = absurd (cc e)
insert_last n l (m ∷ []) sorted e le =
    let same : m.timeout ≡ l.timeout = ap (λ k. k.timeout) (some-injective _ _ e) in
    rw (leb-true m.timeout n.timeout (omega arith)) refl
insert_last n l (m ∷ (k ∷ ks)) (least, sorted) e le =
    let below : m.timeout ≤ n.timeout = omega (arith, below_last l (k ∷ ks) least e) in
    rw (leb-true m.timeout n.timeout below)
      (ap (λ ms. m ∷ ms) (insert_last n l (k ∷ ks) sorted e le))
  where
    below_last :
        (l : TimerNode) (ms : List TimerNode)
        → AllFrom m.timeout ms
        → last ms ≡ some l
        → m.timeout ≤ l.timeout
    below_last l [] all e = absurd (cc e)
    below_last l (k ∷ []) (here, there) e =
        let same : k.timeout ≡ l.timeout = ap (λ k. k.timeout) (some-injective _ _ e) in omega arith
    below_last l (k ∷ (j ∷ js)) (here, there) e = below_last l (j ∷ js) there e

-- On timers in their order, `AddTimeout` inserts the node by its time of expiry, modulo 2 ^ 64, behind
-- the nodes of the same time, on the way of `insert` and on that of `emplace_hint`, and keeps the order.
pub add_timeout-insert :
    (now diff node : ℕ) (map : List TimerNode)
    → Sorted map
    → (add_timeout now diff node map
        ≡ insert (record { node = node; timeout = (now + diff) % 2 ^ 64 }) map)
      × Sorted (add_timeout now diff node map)
unfolding add_timeout
add_timeout-insert now diff node map sorted =
    (same, subst Sorted (sym same) (insert-Sorted n map sorted))
  where
    n : TimerNode
    n = record { node = node; timeout = (now + diff) % 2 ^ 64 }

    same : add_timeout now diff node map ≡ insert n map
    same = elim (Option-cases (last map)) [
      | inl e ↦ rw (add_timeout, e) refl
      | inr (l, e) ↦ elim (Bool-cases (ltb n.timeout l.timeout)) [
        | inl e' ↦ rw (add_timeout, e, e') refl
        | inr e' ↦
            rw (add_timeout, e, e')
              (sym (insert_last n l map sorted e (ge_of_ltb n.timeout l.timeout e')))
      ]
    ]

AllFrom-del :
    (t : ℕ) (n : TimerNode) (map : List TimerNode) → AllFrom t map → AllFrom t (del_timeout n map)
unfolding del_timeout
AllFrom-del t n [] all = tt
AllFrom-del t n (m ∷ ms) (here, there) = elim (Bool-cases (ltb m.timeout n.timeout)) [
  | inl e ↦ rw e (here, AllFrom-del t n ms there)
  | inr e ↦ elim (Bool-cases (m.timeout == n.timeout)) [
    | inl e' ↦ elim (Bool-cases (m.node == n.node)) [
      | inl e'' ↦ rw (e, e', e'') there
      | inr e'' ↦ rw (e, e', e'') (here, AllFrom-del t n ms there)
    ]
    | inr e' ↦ rw (e, e') (here, there)
  ]
]

pub del_timeout-Sorted :
    (n : TimerNode) (map : List TimerNode) → Sorted map → Sorted (del_timeout n map)
unfolding del_timeout
del_timeout-Sorted n [] sorted = tt
del_timeout-Sorted n (m ∷ ms) (least, sorted) = elim (Bool-cases (ltb m.timeout n.timeout)) [
  | inl e ↦ rw e (AllFrom-del m.timeout n ms least, del_timeout-Sorted n ms sorted)
  | inr e ↦ elim (Bool-cases (m.timeout == n.timeout)) [
    | inl e' ↦ elim (Bool-cases (m.node == n.node)) [
      | inl e'' ↦ rw (e, e', e'') sorted
      | inr e'' ↦ rw (e, e', e'') (AllFrom-del m.timeout n ms least, del_timeout-Sorted n ms sorted)
    ]
    | inr e' ↦ rw (e, e') (least, sorted)
  ]
]
