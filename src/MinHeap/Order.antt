-- ===== src/MinHeap/Order.antt =====
-- The heap order of the keys `v` of an array, with a hole that moves up or down: `v` is the array
-- with the new key in the hole.
use mathlib.Core.Path.{subst}
use native.Mathlib.Decide.{ℕ_discrete}
use cpp_infra.Common.{ap, arith, sym, ℕ, ◌-◌, ◌/◌, ◌<◌, ◌≡◌, ◌≢◌, ◌≤◌}

abbrev pub parent : ℕ → ℕ
parent j = (j - 1) / 2

abbrev pub Edge : (ℕ → ℕ) → ℕ → Type 0
Edge v j = v (parent j) ≤ v j

-- Every parent of the first `n` slots is no greater than its child.
abbrev pub Ordered : (ℕ → ℕ) → ℕ → Type 0
Ordered v n = (j : ℕ) → 0 < j → j < n → Edge v j

-- The order holds but at the slot `h`, and across it.
pub record Hole (v : ℕ → ℕ) (n h : ℕ) : Type 0 where
  pub away : (j : ℕ) → 0 < j → j < n → j ≢ h → parent j ≢ h → Edge v j
  pub across : (j : ℕ) → 0 < h → 0 < j → j < n → parent j ≡ h → v (parent h) ≤ v j

-- The key at `h` may be too small.
abbrev pub Up : (ℕ → ℕ) → ℕ → ℕ → Type 0
Up v n h = Hole v n h × ((j : ℕ) → 0 < j → j < n → parent j ≡ h → Edge v j)

-- The key at `h` may be too large.
abbrev pub Down : (ℕ → ℕ) → ℕ → ℕ → Type 0
Down v n h = Hole v n h × (0 < h → Edge v h)

-- `v'` is `v` with two slots swapped.
pub record Swap (v v' : ℕ → ℕ) (i k : ℕ) : Type 0 where
  pub left : v' i ≡ v k
  pub right : v' k ≡ v i
  pub others : (j : ℕ) → j ≢ i → j ≢ k → v' j ≡ v j

pub Up-done : {v : ℕ → ℕ} {n h : ℕ} → Up v n h → (0 < h → Edge v h) → Ordered v n
Up-done {v} {n} {h} u top j pos_j lt = elim (ℕ_discrete j h) [
  | yes e ↦ subst (Edge v) (sym e) (top (omega (arith, e)))
  | no ne ↦ elim (ℕ_discrete (parent j) h) [
    | yes e ↦ u.1 j pos_j lt e
    | no ne' ↦ u.0.away j pos_j lt ne ne'
  ]
]

pub Down-done :
    {v : ℕ → ℕ} {n h : ℕ}
    → Down v n h
    → ((j : ℕ) → 0 < j → j < n → parent j ≡ h → Edge v j)
    → Ordered v n
Down-done d low = Up-done (d.0, low) d.1

-- Moving the parent of the hole down into it.
pub Up-step :
    {v v' : ℕ → ℕ} {n h : ℕ}
    → Up v n h
    → 0 < h
    → h < n
    → v h ≤ v (parent h)
    → Swap v v' h (parent h)
    → Up v' n (parent h)
Up-step {v} {v'} {n} {h} u gt in_range le sw = (record { away = away; across = across }, children)
  where
    up_up : 0 < parent h → v (parent (parent h)) ≤ v (parent h)
    up_up at = u.0.away (parent h) at (omega arith) (omega arith) (omega arith)

    child_of_up : (j : ℕ) → 0 < j → j < n → parent j ≡ parent h → v (parent h) ≤ v' j
    child_of_up j at lt e = elim (ℕ_discrete j h) [
      | yes is_h ↦ rw (is_h, sw.left) (omega arith)
      | no ne ↦
          rw (sw.others j ne (omega (arith, e)))
            (subst (λ k. v k ≤ v j) e (u.0.away j at lt ne (omega (arith, e))))
    ]

    away : (j : ℕ) → 0 < j → j < n → j ≢ parent h → parent j ≢ parent h → Edge v' j
    away j at lt ne ne_up =
        let not_h : j ≢ h = λ e. ne_up (ap parent e) in
        elim (ℕ_discrete (parent j) h) [
          | yes e ↦ rw (sw.others j not_h ne, e, sw.left) (u.0.across j gt at lt e)
          | no other ↦
              rw (sw.others j not_h ne, sw.others (parent j) other ne_up)
                (u.0.away j at lt not_h other)
        ]

    across :
        (j : ℕ) → 0 < parent h → 0 < j → j < n → parent j ≡ parent h → v' (parent (parent h)) ≤ v' j
    across j up_at at lt e =
        rw (sw.others (parent (parent h)) (omega arith) (omega arith))
          (omega (arith, up_up up_at, child_of_up j at lt e))

    children : (j : ℕ) → 0 < j → j < n → parent j ≡ parent h → Edge v' j
    children j at lt e = rw (e, sw.right) (omega (arith, le, child_of_up j at lt e))

-- Moving the least child `c` of the hole up into it.
pub Down-step :
    {v v' : ℕ → ℕ} {n h : ℕ} (c : ℕ)
    → Down v n h
    → 0 < c
    → c < n
    → parent c ≡ h
    → ((j : ℕ) → 0 < j → j < n → parent j ≡ h → v c ≤ v j)
    → v c ≤ v h
    → Swap v v' h c
    → Down v' n c
Down-step {v} {v'} {n} {h} c d gt in_range e least le sw =
    (record { away = away; across = across }, λ at. rw (e, sw.left, sw.right) le)
  where
    away : (j : ℕ) → 0 < j → j < n → j ≢ c → parent j ≢ c → Edge v' j
    away j at lt ne ne_up = elim (ℕ_discrete (parent j) h) [
      | yes is_h ↦ rw (is_h, sw.left, sw.others j (omega (arith, is_h)) ne) (least j at lt is_h)
      | no other ↦ elim (ℕ_discrete j h) [
        | yes j_h ↦
            rw (sw.others (parent j) other ne_up, j_h, sw.left)
              (d.0.across c (omega (arith, j_h)) gt in_range e)
        | no j_other ↦
            rw (sw.others j j_other ne, sw.others (parent j) other ne_up)
              (d.0.away j at lt j_other other)
      ]
    ]

    across : (j : ℕ) → 0 < c → 0 < j → j < n → parent j ≡ c → v' (parent c) ≤ v' j
    across j c_at at lt is_c =
        rw (e, sw.left, sw.others j (omega (arith, e, is_c)) (omega (arith, is_c)))
          (subst (λ k. v k ≤ v j) is_c
            (d.0.away j at lt (omega (arith, e, is_c)) (omega (arith, e, is_c))))
