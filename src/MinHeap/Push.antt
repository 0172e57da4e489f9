-- ===== src/MinHeap/Push.antt =====
-- `min_heap_push_` and `min_heap_reserve_`.
use cpp_infra.Common.{
  Bool, Bool-cases, Option, arith, false, inl, inr, ltb, none, refl, some, suc, true, ℕ, ◌%◌, ◌+◌,
  ◌<◌, ◌^◌, ◌≡◌, ◌≢◌, ◌≤◌, ◌⊎◌,
}
use cpp_infra.MinHeap.{MinHeap, set, new_capacity, reserve, push}
use cpp_infra.MinHeap.Order.{Edge, Up, parent}
use cpp_infra.MinHeap.Places.{set_there}
use cpp_infra.MinHeap.Up.{IsHeap, shift_up-Restored}
use cpp_infra.MinHeap.Laws.{With, filled_behind}

-- What `min_heap_reserve_` returned: -1 where the storage was too small and `realloc` failed, or
-- the heap with storage for `n` entries.
Reserved : (ℕ → Bool) → ℕ → MinHeap → Type 0
Reserved realloc n s =
    ((reserve realloc n s ≡ none) × (s.a < n) × (realloc (new_capacity s.a n) ≡ false))
    ⊎ ((a : ℕ) × (reserve realloc n s ≡ some (record s { a = a })) × (n ≤ a))

reserve-Reserved : (realloc : ℕ → Bool) (n : ℕ) (s : MinHeap) → Reserved realloc n s
unfolding reserve Reserved
reserve-Reserved realloc n s = elim (Bool-cases (ltb s.a n)) [
  | inl e ↦ elim (Bool-cases (realloc (new_capacity s.a n))) [
    | inl ok ↦ inr (new_capacity s.a n, rw (e, ok) refl, enough)
    | inr failed ↦ inl (rw (e, failed) refl, less e, failed)
  ]
  | inr e ↦ inr (s.a, rw e refl, not_less e)
]
  where
    enough : n ≤ new_capacity s.a n
    enough = ground arith

    less : ltb s.a n ≡ true → s.a < n
    less e = ground arith

    not_less : ltb s.a n ≡ false → n ≤ s.a
    not_less e = ground arith

-- What a push of `e` did.
pub data Pushed (realloc : ℕ → Bool) (s : MinHeap) (M : ℕ → Type 0) (e : ℕ)
    : Option (Bool × MinHeap) → Type 0 where
  -- the entry is in the heap
  added :
      (s' : MinHeap)
      → IsHeap s' (With M e)
      → s'.n ≡ s.n + 1
      → s'.time ≡ s.time
      → Pushed realloc s M e (some (true, s'))
  -- the storage was full and could not grow: nothing has changed
  refused :
      s.a < s.n + 1
      → realloc (new_capacity s.a (s.n + 1)) ≡ false
      → Pushed realloc s M e (some (false, s))

-- `min_heap_push_` of an entry that is not in the heap, on a heap of less than 2 ^ 31 - 1 entries,
-- either returns 0 and the entry is in the heap with the others, each at its index and in heap order,
-- or returns -1, where the storage was full and `realloc` failed, and the heap is as it was.
pub push-Pushed :
    (realloc : ℕ → Bool) {s : MinHeap} {M : ℕ → Type 0} (e : ℕ)
    → IsHeap s M
    → ¬ M e
    → s.n + 1 < 2 ^ 31
    → Pushed realloc s M e (push realloc e s)
unfolding push Reserved
push-Pushed realloc {s} {M} e h new small =
    rw (push, count)
      (elim (reserve-Reserved realloc (s.n + 1) s) [
        | inl (eq, full, failed) ↦ rw eq (refused full failed)
        | inr (a, eq, enough) ↦
            let f = filled_behind e a h new (omega (arith, enough)) small in
            let r =
              shift_up-Restored (suc s.n) (record s { n = s.n + 1; a = a }) s.n e f (omega arith)
                up in
            rw (eq, count, r.1) (added r.0 r.2 r.4 r.3)
      ])
  where
    count : (s.n + 1) % 2 ^ 32 ≡ s.n + 1
    count = omega arith

    away :
        (j : ℕ)
        → 0 < j
        → j < s.n + 1
        → j ≢ s.n
        → parent j ≢ s.n
        → Edge (λ i. s.time (set s.p s.n e i)) j
    away j at lt ne ne_up =
        rw (set_there s.p s.n e j ne, set_there s.p s.n e (parent j) ne_up)
          (h.ordered j at (omega arith))

    up : Up (λ i. s.time (set s.p s.n e i)) (s.n + 1) s.n
    up = (
      record { away = away; across = λ j at at_j lt p. absurd (omega (arith, p)) },
      λ j at lt p. absurd (omega (arith, p)),
    )
