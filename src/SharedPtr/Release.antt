-- ===== src/SharedPtr/Release.antt =====
-- A handle that gives up what it holds.
use cpp_infra.Common.{
  Option-cases, ap, arith, false, inl, inr, last, ne_test, none, refl, some, sym, true, update,
  update_here, update_there, ℕ, ◌+◌, ◌<◌, ◌==◌, ◌∙◌, ◌≡◌, ◌≢◌,
}
use native.Mathlib.Decide.{ℕ_discrete}
use cpp_infra.SharedPtr.{SharedPtr, Store, sub64, null, put, fetch_sub, release}
use cpp_infra.SharedPtr.Count.{
  one, owners, owners-update, one_self, one_other, owners-some, owners_le,
}
use cpp_infra.SharedPtr.Invariant.{Sound, Renamed, Renamed-Sound}

-- What `release` of the handle `h` leaves, once `h` holds null pointers.
pub record Released (n : ℕ) (h : ℕ) (s s' : Store) : Type 0 where
  pub done : release h s ≡ some s'
  pub handles : s'.handles ≡ s.handles
  pub sound : Sound n (put h null s')
  pub counters : (b : ℕ) → s.counter_live b ≡ false → s'.counter_live b ≡ false
  pub objects :
      (p : ℕ) → ((k : ℕ) → (s.handles k).ptr ≢ some p) → s'.object_live p ≡ s.object_live p

module _ (n : ℕ) (s : Store) (sound : Sound n s) (h : ℕ) (lt : h < n) where
  abbrev hs' : ℕ → SharedPtr
  hs' = update s.handles h null

  cleared-Renamed : Renamed n s.handles hs'
  cleared-Renamed k = elim (ℕ_discrete k h) [
    | yes e ↦ inl (ap hs' e ∙ update_here s.handles h null)
    | no ne ↦ inr (k, (update_there s.handles h null k ne, λ below. below))
  ]

  left : (b : ℕ) → owners hs' b n + one (s.handles h).ref_count b ≡ owners s.handles b n
  left b = let change = owners-update s.handles h null b n lt in omega arith

  -- The handle holds null pointers.
  Released-null : (s.handles h).ref_count ≡ none → Released n h s s
  unfolding release
  Released-null e = record {
    done = ap (λ o. fetch_sub (s.handles h).ptr o s) e;
    handles = refl;
    sound =
        Renamed-Sound n s sound (put h null s) cleared-Renamed
          (λ b live.
            (let (count, some_owner) = sound.counted b live in
              let change = left b in
              let nothing : one (s.handles h).ref_count b ≡ 0 = ap (λ o. one o b) e in
              (omega arith, omega arith)))
          (λ k b e' live. live) (λ k b p e' at live. live);
    counters = λ b dead. dead;
    objects = λ p free. refl;
  }

  module _ (b0 p0 : ℕ) (owns : (s.handles h).ref_count ≡ some b0)
      (points : (s.handles h).ptr ≡ some p0) (live : s.counter_live b0 ≡ true)
      (object : s.object_live p0 ≡ true) where
    counted_here : s.count b0 ≡ owners s.handles b0 n
    counted_here = (sound.counted b0 live).0

    one_here : one (s.handles h).ref_count b0 ≡ 1
    one_here = ap (λ o. one o b0) owns ∙ one_self b0

    one_there : (b : ℕ) → b ≢ b0 → one (s.handles h).ref_count b ≡ 0
    one_there b ne = ap (λ o. one o b) owns ∙ one_other b0 b (λ e. ne (sym e))

    -- The handle is not the last owner.
    Released-one :
        s.count b0 ≢ 1
        → Released n h s (record s { count = update s.count b0 (sub64 (s.count b0) 1) })
    unfolding release
    Released-one more = record {
      done =
          ap (λ o. fetch_sub (s.handles h).ptr o s) owns
          ∙ rw (live, ne_test (s.count b0) 1 more) refl;
      handles = refl;
      sound =
          Renamed-Sound n s sound
            (record s { handles = hs'; count = update s.count b0 (sub64 (s.count b0) 1) })
            cleared-Renamed
            (λ b live_b. elim (ℕ_discrete b b0) [
              | yes e ↦ rw e (
                  let (count, some_owner) = sound.counted b0 live in
                  let change = left b0 in
                  let here = one_here in
                  let new = update_here s.count b0 (sub64 (s.count b0) 1) in
                  let few = owners_le s.handles b0 n in
                  let bound = sound.bounded in (new ∙ omega arith, omega arith))
              | no ne ↦
                  let (count, some_owner) = sound.counted b live_b in
                  let change = left b in
                  let there = one_there b ne in
                  (update_there s.count b0 (sub64 (s.count b0) 1) b ne ∙ omega arith, omega arith)
            ])
            (λ k b e' live_b. live_b) (λ k b p e' at live_p. live_p);
      counters = λ b dead. dead;
      objects = λ p free. refl;
    }

    nobody_left :
        s.count b0 ≡ 1
        → (k b : ℕ) → (hs' k).ref_count ≡ some b
        → (b ≢ b0) × ((k ≢ h) × ((s.handles k).ref_count ≡ some b))
    nobody_left last k b e = elim (ℕ_discrete k h) [
      | yes at ↦
          let both : none ≡ some b =
            ap (λ x. x.ref_count) (sym (ap hs' at ∙ update_here s.handles h null)) ∙ e in
          absurd (cc both)
      | no ne ↦
          let there : (s.handles k).ref_count ≡ some b =
            ap (λ x. x.ref_count) (sym (update_there s.handles h null k ne)) ∙ e in
          let (below, live_b, rest) = sound.held k b there in
          (
            λ same.
                (let counted = owners-some hs' b0 k n below (e ∙ ap some same) in
                  let change = left b0 in
                  let here = one_here in let count = counted_here in absurd (omega arith)),
            (ne, there),
          )
    ]

    -- The handle is the last owner: the object and the counter are deleted.
    Released-last :
        s.count b0 ≡ 1
        → Released n h s (record s {
          count = update s.count b0 (sub64 (s.count b0) 1);
          object_live = update s.object_live p0 false;
          counter_live = update s.counter_live b0 false;
        })
    unfolding release
    Released-last last = record {
      done =
          ap (λ o. fetch_sub (s.handles h).ptr o s) owns
          ∙ (ap (λ o. fetch_sub o (some b0) s) points ∙ rw (live, test, object) refl);
      handles = refl;
      sound =
          Renamed-Sound n s sound
            (record s {
              handles = hs';
              count = update s.count b0 (sub64 (s.count b0) 1);
              object_live = update s.object_live p0 false;
              counter_live = update s.counter_live b0 false;
            })
            cleared-Renamed
            (λ b live_b. elim (ℕ_discrete b b0) [
              | yes e ↦
                  let both : false ≡ true =
                    sym
                      (ap (update s.counter_live b0 false) e ∙ update_here s.counter_live b0 false)
                    ∙ live_b in
                  absurd (cc both)
              | no ne ↦
                  let (count, some_owner) =
                    sound.counted b (sym (update_there s.counter_live b0 false b ne) ∙ live_b) in
                  let change = left b in
                  let there = one_there b ne in
                  (update_there s.count b0 (sub64 (s.count b0) 1) b ne ∙ omega arith, omega arith)
            ])
            (λ k b e' live_b.
              (let (ne, rest) = nobody_left last k b e' in
                update_there s.counter_live b0 false b ne ∙ live_b))
            (λ k b p e' at live_p.
              (let (ne, (apart, there)) = nobody_left last k b e' in
                let at' : (s.handles k).ptr ≡ some p =
                  ap (λ x. x.ptr) (sym (update_there s.handles h null k apart)) ∙ at in
                let other : p ≢ p0 = λ same.
                  (let shared : some b ≡ some b0 =
                      sym there ∙ (sound.apart k h p at' (points ∙ ap some (sym same)) ∙ owns) in
                    ne (cc shared)) in
                update_there s.object_live p0 false p other ∙ live_p));
      counters = λ b dead. elim (ℕ_discrete b b0) [
        | yes e ↦ ap (update s.counter_live b0 false) e ∙ update_here s.counter_live b0 false
        | no ne ↦ update_there s.counter_live b0 false b ne ∙ dead
      ];
      objects =
          λ p free. update_there s.object_live p0 false p (λ e. free h (points ∙ ap some (sym e)));
    }
      where
        test : (s.count b0 == 1) ≡ true
        test = ap (λ k. k == 1) last

  pub release-Released : (s' : Store) × Released n h s s'
  release-Released = elim (Option-cases (s.handles h).ref_count) [
    | inl e ↦ (s, Released-null e)
    | inr (b, owns) ↦
        let (below, live, (p, (points, object))) = sound.held h b owns in
        elim (ℕ_discrete (s.count b) 1) [
          | yes last ↦ (_, Released-last b p owns points live object last)
          | no more ↦ (_, Released-one b p owns points live object more)
        ]
  ]
