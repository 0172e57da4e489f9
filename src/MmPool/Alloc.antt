-- ===== src/MmPool/Alloc.antt =====
-- `mp_alloc` and `mp_nalloc`: what they hand out, and the pool they leave.
use mathlib.Core.Option.{some-injective}
use mathlib.Core.Path.{subst}
use cpp_infra.Common.{
  >>=-eq-some, All, Any, Bool-cases, List, Option-cases, [], ap, arith, false, inl, inr, leb, ltb,
  max, none, refl, some, suc, that, this, true, zero, ℕ, ◌%◌, ◌+◌, ◌<◌, ◌==◌, ◌∷◌, ◌≡◌, ◌≤◌,
}
use cpp_infra.MmPool.{
  Node, Large, Pool, System, align_ptr, large_size, reuse, enter, alloc_large, mp_alloc, mp_nalloc,
}
use cpp_infra.MmPool.Packed.{NodeOk, Valid}
use cpp_infra.MmPool.Walk.{Fits}
use cpp_infra.MmPool.Block.{SystemOk, Outcome, small, large, refused, alloc_small-Outcome}

reuse-Any :
    (p n : ℕ) (ls : List Large) {ls' : List Large}
    → reuse p n ls ≡ some ls'
    → Any (λ l. l.alloc ≡ p) ls'
unfolding reuse
reuse-Any p n [] e = absurd (cc e)
reuse-Any p n (l ∷ ls) {ls'} e = elim (Bool-cases (l.alloc == 0)) [
  | inl z ↦
      let eq : some (record l { alloc = p } ∷ ls) ≡ some ls' = rw z at e in
      subst (Any (λ l. l.alloc ≡ p)) (some-injective _ _ eq) (this refl)
  | inr nz ↦ elim (Bool-cases (ltb 3 n)) [
    | inl stop ↦ let eq : none ≡ some ls' = rw (nz, stop) at e in absurd (cc eq)
    | inr go ↦
        let (r, found, eq) =
          >>=-eq-some (reuse p (n + 1) ls) (λ r. some (l ∷ r)) (rw (nz, go) at e) in
        subst (Any (λ l. l.alloc ≡ p)) (some-injective _ _ eq) (that (reuse-Any p (n + 1) ls found))
  ]
]

abbrev pub IsAligned : ℕ → Type 0
IsAligned p = p % 32 ≡ 0

IsAligned-ptr : (p : ℕ) → IsAligned (align_ptr p)
IsAligned-ptr p = omega arith

-- Every node's `last`, rounded up, is still in the node.
abbrev pub Roomy : Pool → Type 0
Roomy pool = All (Fits align_ptr) pool.nodes

mp_alloc-small :
    (f : ℕ) (sys : System) (size : ℕ) (pool : Pool)
    → Valid pool
    → SystemOk sys pool.nodes
    → Roomy pool
    → size ≤ pool.max
    → (r : ℕ × Pool) × (mp_alloc (suc f) sys size pool ≡ some r) × Outcome IsAligned sys size pool r
unfolding mp_alloc
mp_alloc-small f sys size pool v ok roomy le = (
  _,
  rw small_test refl,
  alloc_small-Outcome IsAligned align_ptr sys size pool v ok le roomy IsAligned-ptr IsAligned-ptr,
)
  where
    small_test : leb size pool.max ≡ true
    small_test = ground arith

enter-Outcome :
    (IsPlace : ℕ → Type 0) (sys : System) (size p : ℕ) (pool : Pool) (r : ℕ × Pool)
    → Valid pool
    → pool.max < size
    → large_size ≤ pool.max
    → sys.malloc ≡ some p
    → Outcome IsAligned sys large_size pool r
    → Outcome IsPlace sys size pool (enter p r)
enter-Outcome IsPlace sys size p pool (zero, pool') v gt room m (refused e why) = refused e why
enter-Outcome IsPlace sys size p pool (zero, pool') v gt room m (large lt w q any kept) =
    absurd (omega arith)
enter-Outcome IsPlace sys size p pool (zero, pool') v gt room m
      (small le w same place ne handed apart kept) =
    absurd (ne refl)
enter-Outcome IsPlace sys size p pool (suc at, pool') v gt room m (refused e why) =
    absurd (omega (arith, ap (λ r. r.0) e))
enter-Outcome IsPlace sys size p pool (suc at, pool') v gt room m (large lt w q any kept) =
    absurd (omega arith)
enter-Outcome IsPlace sys size p pool (suc at, pool') v gt room m
      (small le w same place ne handed apart kept) =
    large gt (record { nodes_ok = w.nodes_ok; separate = w.separate; has_head = w.has_head }) m
      (this refl) kept

abbrev with_large : Pool → List Large → Pool
with_large pool ls = record pool { large = ls }

alloc_large-Outcome :
    (IsPlace : ℕ → Type 0) (f : ℕ) (sys : System) (size : ℕ) (pool : Pool)
    → Valid pool
    → SystemOk sys pool.nodes
    → Roomy pool
    → pool.max < size
    → large_size ≤ pool.max
    → (r : ℕ × Pool) × (alloc_large (mp_alloc (suc f) sys) sys pool ≡ some r)
      × Outcome IsPlace sys size pool r
unfolding alloc_large
alloc_large-Outcome IsPlace f sys size pool v ok roomy gt room = elim (Option-cases sys.malloc) [
  | inl e ↦ ((0, pool), rw (alloc_large, e) refl, refused refl (inr e))
  | inr (p, e) ↦ elim (Option-cases (reuse p 0 pool.large)) [
    | inr (ls, found) ↦ (
      (p, with_large pool ls),
      rw (alloc_large, e, found) refl,
      large gt (record { nodes_ok = v.nodes_ok; separate = v.separate; has_head = v.has_head }) e
          (reuse-Any p 0 pool.large found) (λ b h. h),
    )
    | inl full ↦
        let (r, run, o) = mp_alloc-small f sys large_size pool v ok roomy room in
        (
          enter p r,
          rw (alloc_large, e, full, run) refl,
          enter-Outcome IsPlace sys size p pool r v gt room e o,
        )
  ]
]

-- On a valid pool of at least 16 bytes, where the `last` of every node, rounded up, is still in the
-- node, `mp_alloc` of any size ends. It returns an aligned block of a node, inside its storage and
-- overlapping no block that the nodes handed out before, or a block from malloc that is entered in the
-- list; or it returns the null pointer, where the system gave no memory, and the pool is as it was.
-- The pool is valid after it, and holds all blocks that were handed out before.
pub mp_alloc-Outcome :
    (f : ℕ) (sys : System) (size : ℕ) (pool : Pool)
    → Valid pool
    → SystemOk sys pool.nodes
    → Roomy pool
    → large_size ≤ pool.max
    → (r : ℕ × Pool) × (mp_alloc (suc (suc f)) sys size pool ≡ some r)
      × Outcome IsAligned sys size pool r
unfolding mp_alloc
mp_alloc-Outcome f sys size pool v ok roomy room = elim (Bool-cases (leb size pool.max)) [
  | inl e ↦ mp_alloc-small (suc f) sys size pool v ok roomy (le_of e)
  | inr e ↦ rw e (alloc_large-Outcome IsAligned f sys size pool v ok roomy (gt_of e) room)
]
  where
    le_of : leb size pool.max ≡ true → size ≤ pool.max
    le_of e = ground arith

    gt_of : leb size pool.max ≡ false → pool.max < size
    gt_of e = ground arith

Fits-unrounded : (max : ℕ) (ns : List Node) → All (NodeOk max) ns → All (Fits (λ p. p)) ns
Fits-unrounded max [] ok = tt
Fits-unrounded max (n ∷ ns) ok = ((omega arith, ok.0.inside), Fits-unrounded max ns ok.1)

-- On a valid pool, `mp_nalloc` of a size up to `max` ends with a block of a node, inside its storage
-- and overlapping no block that the nodes handed out before, or with the null pointer, where the system gave no
-- memory; however little room the nodes have.
pub mp_nalloc-Outcome :
    (f : ℕ) (sys : System) (size : ℕ) (pool : Pool)
    → Valid pool
    → SystemOk sys pool.nodes
    → size ≤ pool.max
    → (r : ℕ × Pool) × (mp_nalloc f sys size pool ≡ some r)
      × Outcome (λ p. Unit {0}) sys size pool r
unfolding mp_nalloc
mp_nalloc-Outcome f sys size pool v ok le = (
  _,
  rw small_test refl,
  alloc_small-Outcome (λ p. Unit {0}) (λ p. p) sys size pool v ok le
      (Fits-unrounded pool.max pool.nodes v.nodes_ok) (λ p. tt) (λ p. tt),
)
  where
    small_test : leb size pool.max ≡ true
    small_test = ground arith
