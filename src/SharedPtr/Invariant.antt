-- ===== src/SharedPtr/Invariant.antt =====
-- What holds of the handles, the counters and the objects between operations.
use cpp_infra.Common.{ap, inl, inr, none, some, sym, true, ℕ, ◌<◌, ◌^◌, ◌∙◌, ◌≡◌, ◌⊎◌}
use cpp_infra.SharedPtr.{SharedPtr, Store, null}
use cpp_infra.SharedPtr.Count.{owners}

-- With the handles below `n`: a counter that is allocated has the number of its owners, at least one;
-- the owners of a counter share one object, which is allocated and has no other counter.
pub record Sound (n : ℕ) (s : Store) : Type 0 where
  pub counted :
      (b : ℕ)
      → s.counter_live b ≡ true
      → (s.count b ≡ owners s.handles b n) × (0 < owners s.handles b n)
  pub held :
      (k b : ℕ)
      → (s.handles k).ref_count ≡ some b
      → (k < n)
        × (s.counter_live b ≡ true)
        × ((p : ℕ) × (((s.handles k).ptr ≡ some p) × (s.object_live p ≡ true)))
  pub bare : (k : ℕ) → (s.handles k).ref_count ≡ none → (s.handles k).ptr ≡ none
  pub same :
      (k l b : ℕ)
      → (s.handles k).ref_count ≡ some b
      → (s.handles l).ref_count ≡ some b
      → (s.handles k).ptr ≡ (s.handles l).ptr
  pub apart :
      (k l p : ℕ)
      → (s.handles k).ptr ≡ some p
      → (s.handles l).ptr ≡ some p
      → (s.handles k).ref_count ≡ (s.handles l).ref_count
  pub bounded : n < 2 ^ 64

-- Handles that are, each, one of those of before, or null.
abbrev pub Renamed : ℕ → (ℕ → SharedPtr) → (ℕ → SharedPtr) → Type 0
Renamed n hs hs' = (k : ℕ) → (hs' k ≡ null) ⊎ ((j : ℕ) × ((hs' k ≡ hs j) × (j < n → k < n)))

module _ (n : ℕ) (s : Store) (sound : Sound n s) (s' : Store)
    (moved : Renamed n s.handles s'.handles) where
  source_ref :
      (k b : ℕ)
      → (s'.handles k).ref_count ≡ some b
      → (j : ℕ) × ((s'.handles k ≡ s.handles j)
          × ((s.handles j).ref_count ≡ some b)
          × (j < n → k < n))
  source_ref k b e = elim (moved k) [
    | inl gone ↦
        (let both : none ≡ some b = ap (λ x. x.ref_count) (sym gone) ∙ e in absurd (cc both))
    | inr (j, (same, below)) ↦ (j, (same, ap (λ x. x.ref_count) (sym same) ∙ e, below))
  ]

  source_ptr :
      (k p : ℕ)
      → (s'.handles k).ptr ≡ some p
      → (j : ℕ) × ((s'.handles k ≡ s.handles j) × ((s.handles j).ptr ≡ some p))
  source_ptr k p e = elim (moved k) [
    | inl gone ↦ (let both : none ≡ some p = ap (λ x. x.ptr) (sym gone) ∙ e in absurd (cc both))
    | inr (j, (same, below)) ↦ (j, (same, ap (λ x. x.ptr) (sym same) ∙ e))
  ]

  pub Renamed-Sound :
      ((b : ℕ)
        → s'.counter_live b ≡ true
        → (s'.count b ≡ owners s'.handles b n) × (0 < owners s'.handles b n))
      → ((k b : ℕ)
          → (s'.handles k).ref_count ≡ some b
          → s.counter_live b ≡ true
          → s'.counter_live b ≡ true)
      → ((k b p : ℕ)
          → (s'.handles k).ref_count ≡ some b
          → (s'.handles k).ptr ≡ some p
          → s.object_live p ≡ true
          → s'.object_live p ≡ true)
      → Sound n s'
  Renamed-Sound counted counters objects = record {
    counted = counted;
    held = λ k b e.
        (let (j, (same, from, below)) = source_ref k b e in
          let (lt, live, (p, (at, object))) = sound.held j b from in
          let at' : (s'.handles k).ptr ≡ some p = ap (λ x. x.ptr) same ∙ at in
          (below lt, counters k b e live, (p, (at', objects k b p e at' object))));
    bare = λ k e. elim (moved k) [
      | inl gone ↦ ap (λ x. x.ptr) gone
      | inr (j, (same, below)) ↦
          ap (λ x. x.ptr) same ∙ sound.bare j (ap (λ x. x.ref_count) (sym same) ∙ e)
    ];
    same = λ k l b e e'.
        (let (j, (at, from, below)) = source_ref k b e in
          let (i, (at', from', below')) = source_ref l b e' in
          ap (λ x. x.ptr) at ∙ (sound.same j i b from from' ∙ ap (λ x. x.ptr) (sym at')));
    apart = λ k l p e e'.
        (let (j, (at, from)) = source_ptr k p e in
          let (i, (at', from')) = source_ptr l p e' in
          ap (λ x. x.ref_count) at
          ∙ (sound.apart j i p from from' ∙ ap (λ x. x.ref_count) (sym at')));
    bounded = sound.bounded;
  }
