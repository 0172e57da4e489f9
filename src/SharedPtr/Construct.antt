-- ===== src/SharedPtr/Construct.antt =====
-- A null handle that becomes the owner of a new object.
use cpp_infra.Common.{
  Option, ap, arith, false, inl, inr, none, refl, some, sym, true, update, update_here,
  update_there, ℕ, ◌<◌, ◌∙◌, ◌≡◌, ◌≢◌, ◌⊎◌,
}
use native.Mathlib.Decide.{ℕ_discrete}
use cpp_infra.SharedPtr.{SharedPtr, Store, null, put, construct}
use cpp_infra.SharedPtr.Count.{one, owners, owners-update, one_self, one_other, owners-none}
use cpp_infra.SharedPtr.Invariant.{Sound, Renamed-Sound}

-- The argument of a constructor or of `reset`: null, or a live object that no handle points to; `b` is
-- what `new` returns, not allocated so far.
abbrev pub Fresh : Store → Option ℕ → ℕ → Type 0
Fresh s none b = Unit
Fresh s (some p) b =
    (s.counter_live b ≡ false) × (s.object_live p ≡ true) × ((k : ℕ) → (s.handles k).ptr ≢ some p)

module _ (n : ℕ) (s : Store) (sound : Sound n s) (h : ℕ) (lt : h < n)
    (empty : s.handles h ≡ null) where
  none_here : (b : ℕ) → one (s.handles h).ref_count b ≡ 0
  none_here b = ap (λ x. one x.ref_count b) empty

  still_null : Sound n (put h null s)
  still_null =
      Renamed-Sound n s sound (put h null s)
        (λ k. elim (ℕ_discrete k h) [
          | yes e ↦ inl (ap (update s.handles h null) e ∙ update_here s.handles h null)
          | no ne ↦ inr (k, (update_there s.handles h null k ne, λ below. below))
        ])
        (λ b live.
          (let (count, some_owner) = sound.counted b live in
            let change = owners-update s.handles h null b n lt in
            let nothing = none_here b in (omega arith, omega arith)))
        (λ k b e' live. live) (λ k b p e' at live. live)

  module _ (p b : ℕ) (fresh : Fresh s (some p) b) where
    abbrev owner : SharedPtr
    owner = record { ptr = some p; ref_count = some b }

    abbrev owned : ℕ → SharedPtr
    owned = update s.handles h owner

    abbrev made : Store
    made = record s {
      handles = owned;
      count = update s.count b 1;
      counter_live = update s.counter_live b true;
    }

    no_owner : (k : ℕ) → (s.handles k).ref_count ≢ some b
    no_owner k e =
        let (below, live, rest) = sound.held k b e in
        let both : false ≡ true = sym fresh.0 ∙ live in absurd (cc both)

    view : (k : ℕ) → ((k ≡ h) × (owned k ≡ owner)) ⊎ ((k ≢ h) × (owned k ≡ s.handles k))
    view k = elim (ℕ_discrete k h) [
      | yes e ↦ inl (e, ap owned e ∙ update_here s.handles h owner)
      | no ne ↦ inr (ne, update_there s.handles h owner k ne)
    ]

    counted_made :
        (c : ℕ)
        → update s.counter_live b true c ≡ true
        → (update s.count b 1 c ≡ owners owned c n) × (0 < owners owned c n)
    counted_made c live =
        let change = owners-update s.handles h owner c n lt in
        let nothing = none_here c in
        elim (ℕ_discrete c b) [
          | yes e ↦
              let nobody : owners s.handles c n ≡ 0 =
                owners-none s.handles c n (λ k e'. no_owner k (e' ∙ ap some e)) in
              let here : one (some b) c ≡ 1 = ap (one (some b)) e ∙ one_self b in
              (ap (update s.count b 1) e ∙ (update_here s.count b 1 ∙ omega arith), omega arith)
          | no ne ↦
              let (count, some_owner) =
                sound.counted c (sym (update_there s.counter_live b true c ne) ∙ live) in
              let there : one (some b) c ≡ 0 = one_other b c (λ e. ne (sym e)) in
              (update_there s.count b 1 c ne ∙ omega arith, omega arith)
        ]

    held_made :
        (k c : ℕ)
        → (owned k).ref_count ≡ some c
        → (k < n)
          × (update s.counter_live b true c ≡ true)
          × ((o : ℕ) × (((owned k).ptr ≡ some o) × (s.object_live o ≡ true)))
    held_made k c e = elim (view k) [
      | inl (at, new) ↦
          let same : some b ≡ some c = sym (ap (λ x. x.ref_count) new) ∙ e in
          let same' : c ≡ b = cc same in
          (
            omega (arith, at),
            ap (update s.counter_live b true) same' ∙ update_here s.counter_live b true,
            (p, (ap (λ x. x.ptr) new, fresh.1)),
          )
      | inr (ne, old) ↦
          let there : (s.handles k).ref_count ≡ some c = sym (ap (λ x. x.ref_count) old) ∙ e in
          let (below, live, (o, (points, object))) = sound.held k c there in
          let apart : c ≢ b = λ same. no_owner k (there ∙ ap some same) in
          (
            below,
            update_there s.counter_live b true c apart ∙ live,
            (o, (ap (λ x. x.ptr) old ∙ points, object)),
          )
    ]

    same_made :
        (k l c : ℕ)
        → (owned k).ref_count ≡ some c
        → (owned l).ref_count ≡ some c
        → (owned k).ptr ≡ (owned l).ptr
    same_made k l c e e' = elim (view k) [
      | inl (at, new) ↦ elim (view l) [
        | inl (at', new') ↦ ap (λ x. x.ptr) (new ∙ sym new')
        | inr (ne', old') ↦ absurd (
            no_owner l
              (ap (λ x. x.ref_count) (sym old') ∙ (e' ∙ (sym e ∙ ap (λ x. x.ref_count) new))))
      ]
      | inr (ne, old) ↦ elim (view l) [
        | inl (at', new') ↦ absurd (
            no_owner k
              (ap (λ x. x.ref_count) (sym old) ∙ (e ∙ (sym e' ∙ ap (λ x. x.ref_count) new'))))
        | inr (ne', old') ↦
            ap (λ x. x.ptr) old
            ∙ (sound.same k l c (ap (λ x. x.ref_count) (sym old) ∙ e)
                  (ap (λ x. x.ref_count) (sym old') ∙ e')
                ∙ ap (λ x. x.ptr) (sym old'))
      ]
    ]

    apart_made :
        (k l o : ℕ)
        → (owned k).ptr ≡ some o
        → (owned l).ptr ≡ some o
        → (owned k).ref_count ≡ (owned l).ref_count
    apart_made k l o e e' = elim (view k) [
      | inl (at, new) ↦ elim (view l) [
        | inl (at', new') ↦ ap (λ x. x.ref_count) (new ∙ sym new')
        | inr (ne', old') ↦
            absurd (fresh.2 l (ap (λ x. x.ptr) (sym old') ∙ (e' ∙ (sym e ∙ ap (λ x. x.ptr) new))))
      ]
      | inr (ne, old) ↦ elim (view l) [
        | inl (at', new') ↦
            absurd (fresh.2 k (ap (λ x. x.ptr) (sym old) ∙ (e ∙ (sym e' ∙ ap (λ x. x.ptr) new'))))
        | inr (ne', old') ↦
            ap (λ x. x.ref_count) old
            ∙ (sound.apart k l o (ap (λ x. x.ptr) (sym old) ∙ e) (ap (λ x. x.ptr) (sym old') ∙ e')
                ∙ ap (λ x. x.ref_count) (sym old'))
      ]
    ]

    made-Sound : Sound n made
    made-Sound = record {
      counted = counted_made;
      held = held_made;
      bare = λ k e. elim (view k) [
        | inl (at, new) ↦
            (let both : some b ≡ none = sym (ap (λ x. x.ref_count) new) ∙ e in absurd (cc both))
        | inr (ne, old) ↦ ap (λ x. x.ptr) old ∙ sound.bare k (ap (λ x. x.ref_count) (sym old) ∙ e)
      ];
      same = same_made;
      apart = apart_made;
      bounded = sound.bounded;
    }

  pub construct-Sound :
      (ptr : Option ℕ) (b : ℕ)
      → Fresh s ptr b
      → (s' : Store) × ((construct h ptr b s ≡ some s') × Sound n s')
  unfolding construct
  construct-Sound none b fresh = (put h null s, (refl, still_null))
  construct-Sound (some p) b fresh = (made p b fresh, (refl, made-Sound p b fresh))
