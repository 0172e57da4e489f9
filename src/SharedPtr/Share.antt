-- ===== src/SharedPtr/Share.antt =====
-- A null handle that takes what another one holds, or a new object.
use cpp_infra.Common.{
  Option-cases, ap, arith, inl, inr, refl, some, sym, update, update_here, update_there, ℕ, ◌%◌,
  ◌+◌, ◌<◌, ◌^◌, ◌∙◌, ◌≡◌, ◌≢◌,
}
use native.Mathlib.Decide.{ℕ_discrete}
use cpp_infra.SharedPtr.{SharedPtr, Store, null, put, fetch_add, copy, move}
use cpp_infra.SharedPtr.Count.{one, owners, owners-update, one_self, one_other, owners_le}
use cpp_infra.SharedPtr.Invariant.{Sound, Renamed, Renamed-Sound}

module _ (n : ℕ) (s : Store) (sound : Sound n s) (h : ℕ) (lt : h < n)
    (empty : s.handles h ≡ null) where
  none_here : (b : ℕ) → one (s.handles h).ref_count b ≡ 0
  none_here b = ap (λ x. one x.ref_count b) empty

  module _ (other : ℕ) where
    abbrev shared : ℕ → SharedPtr
    shared = update s.handles h (s.handles other)

    shared-Renamed : Renamed n s.handles shared
    shared-Renamed k = elim (ℕ_discrete k h) [
      | yes e ↦ inr (
        other,
        (ap shared e ∙ update_here s.handles h (s.handles other), λ below. omega (arith, e)),
      )
      | no ne ↦ inr (k, (update_there s.handles h (s.handles other) k ne, λ below. below))
    ]

    joined : (b : ℕ) → owners shared b n ≡ owners s.handles b n + one (s.handles other).ref_count b
    joined b =
        let change = owners-update s.handles h (s.handles other) b n lt in
        let nothing = none_here b in omega arith

    pub copy-Sound : (s' : Store) × ((copy h other s ≡ some s') × Sound n s')
    unfolding copy
    copy-Sound = elim (Option-cases (s.handles other).ref_count) [
      | inl e ↦ (
        put h (s.handles other) s,
        (
          ap (λ o. fetch_add o (put h (s.handles other) s)) e,
          Renamed-Sound n s sound (put h (s.handles other) s) shared-Renamed
              (λ b live.
                (let (count, some_owner) = sound.counted b live in
                  let change = joined b in
                  let nothing : one (s.handles other).ref_count b ≡ 0 = ap (λ o. one o b) e in
                  (omega arith, omega arith)))
              (λ k b e' live. live) (λ k b p e' at live. live),
        ),
      )
      | inr (b0, e) ↦
          let (below, live, rest) = sound.held other b0 e in
          let up = (s.count b0 + 1) % 2 ^ 64 in
          (
            record s { handles = shared; count = update s.count b0 up },
            (
              ap (λ o. fetch_add o (put h (s.handles other) s)) e ∙ rw live refl,
              Renamed-Sound n s sound (record s { handles = shared; count = update s.count b0 up })
                  shared-Renamed
                  (λ b live_b.
                    (let (count, some_owner) = sound.counted b live_b in
                      let change = joined b in
                      elim (ℕ_discrete b b0) [
                        | yes same ↦
                            let one_more : one (s.handles other).ref_count b ≡ 1 =
                              ap (λ o. one o b) (e ∙ ap some (sym same)) ∙ one_self b in
                            let few = owners_le shared b n in
                            let bound = sound.bounded in
                            let count0 : s.count b0 ≡ s.count b = ap s.count (sym same) in
                            (
                              ap (update s.count b0 up) same
                                  ∙ (update_here s.count b0 up ∙ omega arith),
                              omega arith,
                            )
                        | no ne ↦
                            let nothing : one (s.handles other).ref_count b ≡ 0 =
                              ap (λ o. one o b) e ∙ one_other b0 b (λ same. ne (sym same)) in
                            (update_there s.count b0 up b ne ∙ omega arith, omega arith)
                      ]))
                  (λ k b e' live_b. live_b) (λ k b p e' at live_p. live_p),
            ),
          )
    ]

    module _ (ne : other ≢ h) (below : other < n) where
      abbrev moved : ℕ → SharedPtr
      moved = update shared other null

      moved-Renamed : Renamed n s.handles moved
      moved-Renamed k = elim (ℕ_discrete k other) [
        | yes e ↦ inl (ap moved e ∙ update_here shared other null)
        | no apart ↦ elim (shared-Renamed k) [
          | inl gone ↦ inl (update_there shared other null k apart ∙ gone)
          | inr (j, (same, kept)) ↦ inr (j, (update_there shared other null k apart ∙ same, kept))
        ]
      ]

      pub move-Sound : (s' : Store) × ((move h other s ≡ some s') × Sound n s')
      unfolding move
      move-Sound = (
        put other null (put h (s.handles other) s),
        (
          refl,
          Renamed-Sound n s sound (put other null (put h (s.handles other) s)) moved-Renamed
              (λ b live.
                (let (count, some_owner) = sound.counted b live in
                  let change = joined b in
                  let back = owners-update shared other null b n below in
                  let same : one (shared other).ref_count b ≡ one (s.handles other).ref_count b =
                    ap (λ x. one x.ref_count b)
                      (update_there s.handles h (s.handles other) other ne) in
                  (omega arith, omega arith)))
              (λ k b e' live. live) (λ k b p e' at live. live),
        ),
      )
