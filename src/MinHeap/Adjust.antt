-- ===== src/MinHeap/Adjust.antt =====
-- `min_heap_adjust_`.
use mathlib.Core.Path.{subst}
use native.Mathlib.Decide.{ℕ_discrete}
use cpp_infra.Common.{Bool, arith, ne_test, refl, some, sym, true, ℕ, ◌<◌, ◌≡◌, ◌≢◌}
use cpp_infra.MinHeap.{MinHeap, set, no_idx, adjust}
use cpp_infra.MinHeap.Places.{entries_differ, set_here, set_there}
use cpp_infra.MinHeap.Move.{Filled}
use cpp_infra.MinHeap.Up.{IsHeap}
use cpp_infra.MinHeap.Place.{place-Restored, Ordered-Hole}

-- the heap after `e->time = t`
abbrev pub retime : ℕ → ℕ → MinHeap → MinHeap
retime e t s = record s { time = set s.time e t }

-- An array is the same with an entry written to its own slot.
refilled : {s : MinHeap} {M : ℕ → Type 0} (i : ℕ) → IsHeap s M → i < s.n → Filled s i (s.p i) M
refilled {s} {M} i h lt = (record { at = at; find = find }, lt, h.room, h.small)
  where
    same_p : (j : ℕ) → set s.p i (s.p i) j ≡ s.p j
    same_p j = elim (ℕ_discrete j i) [
      | yes e ↦ rw (e, set_here s.p i (s.p i)) refl
      | no ne ↦ set_there s.p i (s.p i) j ne
    ]

    same_idx : (t : ℕ) → set s.idx (s.p i) i t ≡ s.idx t
    same_idx t = elim (ℕ_discrete t (s.p i)) [
      | yes e ↦ rw (e, set_here s.idx (s.p i) i) (sym (h.places.at i lt).1)
      | no ne ↦ set_there s.idx (s.p i) i t ne
    ]

    at :
        (j : ℕ)
        → j < s.n
        → M (set s.p i (s.p i) j) × (set s.idx (s.p i) i (set s.p i (s.p i) j) ≡ j)
    at j j_lt = rw (same_p j, same_idx (s.p j)) (h.places.at j j_lt)

    find :
        (t : ℕ)
        → M t
        → (set s.idx (s.p i) i t < s.n) × (set s.p i (s.p i) (set s.idx (s.p i) i t) ≡ t)
    find t m = rw (same_idx t, same_p (s.idx t)) (h.places.find t m)

-- What an adjust did: a heap of the same entries, with the new times.
abbrev pub Adjusted : (ℕ → Bool) → ℕ → MinHeap → (ℕ → Type 0) → Type 0
Adjusted realloc e s M =
    (s' : MinHeap) × (adjust realloc e s ≡ some (true, s'))
    × IsHeap s' M
    × (s'.time ≡ s.time)
    × (s'.n ≡ s.n)

adjust-Adjusted_at :
    (realloc : ℕ → Bool) {s : MinHeap} {M : ℕ → Type 0} (i t : ℕ)
    → IsHeap s M
    → i < s.n
    → Adjusted realloc (s.p i) (retime (s.p i) t s) M
unfolding adjust
adjust-Adjusted_at realloc {s} {M} i t h lt =
    let r =
      place-Restored (retime (s.p i) t s) i (s.p i) (refilled i h lt)
        (Ordered-Hole s.n i h.ordered (omega arith) lt same) in
    rw ((h.places.at i lt).1, ne_test no_idx i (omega (arith, h.small)), r.1)
      (r.0, refl, r.2, r.3, r.4)
  where
    same : (j : ℕ) → j < s.n → j ≢ i → set s.time (s.p i) t (set s.p i (s.p i) j) ≡ s.time (s.p j)
    same j j_lt ne =
        rw
          (
            set_there s.p i (s.p i) j ne,
            set_there s.time (s.p i) t (s.p j) (entries_differ h.places j i j_lt lt ne),
          )
          refl

-- `min_heap_adjust_` after the time of an entry of the heap was changed, to any time, returns 0
-- and restores the heap order: the same entries, each at its index.
pub adjust-Adjusted :
    (realloc : ℕ → Bool) {s : MinHeap} {M : ℕ → Type 0} (e t : ℕ)
    → IsHeap s M
    → M e
    → Adjusted realloc e (retime e t s) M
adjust-Adjusted realloc {s} {M} e t h m =
    let f = h.places.find e m in
    subst (λ u. Adjusted realloc u (retime u t s) M) f.1
      (adjust-Adjusted_at realloc (s.idx e) t h f.0)
