-- ===== src/Timewheel/Fires.antt =====
-- Where a timer is in the wheel until the tick for which it is set.
use native.Mathlib.Nat.{mod-lt}
use mathlib.Core.Path.{subst}
use native.Mathlib.Decide.{ℕ_discrete}
use mathlib.Core.Option.{some-injective}
use cpp_infra.Common.{
  Any, Bool-cases, List, Option, [], ap, arith, eq_of_==, inl, inr, some, sym, that, this, ℕ, ◌%◌,
  ◌+◌, ◌/◌, ◌<◌, ◌==◌, ◌^◌, ◌∙◌, ◌∷◌, ◌≡◌, ◌≢◌, ◌⊎◌,
}
use cpp_infra.Timewheel.{
  TimerNode, Timer, sub32, link, link_clear, link_level, set_level, add_node, add_all, timer_shift,
  move_list,
}
use cpp_infra.Timewheel.Distance.{
  tick, Waits, span, Waits-tick, Waits-turn, Waits-placed, digit_pos, lower_of_span, IsTurn,
  sub32-tick, sub32_zero,
}
use cpp_infra.Timewheel.Valid.{Placed, close, far, add_node-Placed, time-add_node, time-add_all}
use cpp_infra.Timewheel.Shift.{
  Shifted, still, moves, timer_shift-Shifted, ticked, skipped, span_256,
}
use cpp_infra.Timewheel.Keeps.{Keeps, Any-link_new, Any-link_level_new, add_all-Keeps}

IsTurn-or_not : (c l j : ℕ) → IsTurn c l j ⊎ (¬ (IsTurn c l j))
IsTurn-or_not c l j = elim (ℕ_discrete (c % span l) 0) [
  | yes z ↦ elim (ℕ_discrete (c / span l % 64) j) [ yes d ↦ inl (z, d) | no nd ↦ inr (λ t. nd t.1) ]
  | no nz ↦ inr (λ t. nz t.0)
]

elsewhere :
    (T : Timer) (k i l j : ℕ)
    → ¬ ((l ≡ k) × (j ≡ i))
    → set_level T.t k (link_clear (T.t k) i) l j ≡ T.t l j
unfolding set_level link_clear
elsewhere T k i l j other = elim (Bool-cases (k == l)) [
  | inl e ↦ rw e (elim (Bool-cases (i == j)) [
    | inl at ↦ absurd (other (sym (eq_of_== k l e), sym (eq_of_== i j at)))
    | inr off ↦ rw off (ap (λ m. T.t m j) (eq_of_== k l e))
  ])
  | inr e ↦ rw e
]

module _ (a e : ℕ) where
  -- the timer at the address `a`, set for the time `e` and not cancelled
  abbrev pub Armed : TimerNode → Type 0
  Armed n = (n.addr ≡ a) × (n.expire ≡ e) × (n.cancel ≡ 0)

  -- its callback has been made, at its time
  abbrev pub Called : Timer → Type 0
  Called T = Any (λ (c, n). (c ≡ e) × (n.addr ≡ a)) T.fired

  -- It stands in the wheel, where a tick will come for it.
  pub data Pending (T : Timer) : Type 0 where
    soon : Any Armed (T.near (e % 256)) → sub32 e T.time < 256 → Pending T
    later :
        (k : ℕ)
        → k < 4
        → Any Armed (T.t k (e / span k % 64))
        → Waits T.time k (e / span k % 64) e
        → (k < 3 → e / span k % 64 ≢ 0)
        → Pending T

  pub Pending-Keeps : {T U : Timer} → Keeps Armed T U → U.time ≡ T.time → Pending T → Pending U
  Pending-Keeps k t (soon h d) = soon (k.near _ h) (rw t d)
  Pending-Keeps k t (later l hl h w d) = later l hl (k.t l _ h) (rw t w) d

  -- Added when a span has just begun of which less than a whole is left, it waits below.
  lands :
      (l : ℕ) (T : Timer) (n : TimerNode)
      → l < 4
      → e < 2 ^ 32
      → T.time < 2 ^ 32
      → T.time % span l ≡ 0
      → sub32 e T.time < span l
      → Armed n
      → Pending (add_node T n)
  unfolding link_level
  lands l T n hl he ht z d armed = go (add_node-Placed T n)
    where
      go : {r : Timer} → Placed T n r → Pending r
      go (close d' q) = rw q (
          soon
            (subst (λ x. Any Armed (link T.near (x % 256) n (e % 256))) (sym armed.1)
              (Any-link_new Armed T.near (e % 256) n armed))
            (rw armed.1 at d'))
      go (far k hk lo hi q) = rw q (
          subst (λ x. Pending (link_level k (x / span k % 64) n T)) (sym armed.1)
            (later k hk (Any-link_level_new Armed k (e / span k % 64) n T armed)
              (Waits-placed k T.time e hk he (rw armed.1 at lo) (rw armed.1 at hi))
              (λ _.
                digit_pos k l T.time e (lower_of_span k l (omega (arith, rw armed.1 at lo))) hl ht
                  he z (rw armed.1 at lo) (rw armed.1 at hi))))

  lands_all :
      (l : ℕ) (ns : List TimerNode) (T : Timer)
      → l < 4
      → e < 2 ^ 32
      → T.time < 2 ^ 32
      → T.time % span l ≡ 0
      → sub32 e T.time < span l
      → Any Armed ns
      → Pending (add_all ns T)
  unfolding add_all
  lands_all l [] T hl he ht z d h = elim h [ ]
  lands_all l (n ∷ ns) T hl he ht z d (this p) =
      Pending-Keeps (add_all-Keeps Armed ns _) (time-add_all ns _) (lands l T n hl he ht z d p)
  lands_all l (n ∷ ns) T hl he ht z d (that h) =
      lands_all l ns _ hl he (rw (time-add_node T n) ht) (rw (time-add_node T n) z)
        (rw (time-add_node T n) d) h

  near_still :
      (T : Timer)
      → T.time < 2 ^ 32
      → e < 2 ^ 32
      → e ≢ T.time
      → sub32 e T.time < 256
      → sub32 e (tick T.time) < 256
  near_still T ht he ne d =
      omega (arith, sub32-tick e T.time he ht (λ z. ne (sub32_zero e T.time he ht z)))

  move_list-Pending :
      (T : Timer) (k : ℕ)
      → T.time < 2 ^ 32
      → e < 2 ^ 32
      → e ≢ T.time
      → k < 4
      → tick T.time % span k ≡ 0
      → (k < 3 → tick T.time / span k % 64 ≢ 0)
      → Pending T
      → Pending (move_list (ticked T) k (tick T.time / span k % 64))
  unfolding move_list
  move_list-Pending T k ht he ne hk z d p = go p
    where
      ct : ℕ
      ct = tick T.time

      idx : ℕ
      idx = ct / span k % 64

      cleared : Timer
      cleared = record (ticked T) { t = set_level T.t k (link_clear (T.t k) idx) }

      rest : Pending cleared → Pending (add_all (T.t k idx) cleared)
      rest =
          Pending-Keeps (add_all-Keeps Armed (T.t k idx) cleared) (time-add_all (T.t k idx) cleared)

      stays : (l j : ℕ) → ¬ ((l ≡ k) × (j ≡ idx)) → Any Armed (T.t l j) → Any Armed (cleared.t l j)
      stays l j other h = rw (elsewhere T k idx l j other) h

      go : Pending T → Pending (add_all (T.t k idx) cleared)
      go (soon h near) = rest (soon h (near_still T ht he ne near))
      go (later l hl h wait dig) = elim (IsTurn-or_not ct l (e / span l % 64)) [
        | inl turn ↦ elim (skipped k l ct (e / span l % 64) hk hl z d turn) [
          | inl here ↦
              lands_all k (T.t k idx) cleared hk he (mod-lt (T.time + 1) (omega arith)) z
                (rw (← here.0) (Waits-turn l T.time _ e hl ht wait turn))
                (rw (← here.1, ← here.0) h)
          | inr zero_slot ↦ absurd (dig zero_slot.0 zero_slot.1)
        ]
        | inr off ↦ rest (
            later l hl
              (stays l _
                (λ same. off (
                  ap (λ m. ct % span m) same.0 ∙ z,
                  ap (λ m. ct / span m % 64) same.0 ∙ sym same.1,
                ))
                h)
              (Waits-tick l T.time _ e hl ht wait off) dig)
      ]

  -- A tick leaves the timer pending.
  pub timer_shift-Pending :
      (T U : Timer)
      → T.time < 2 ^ 32
      → e < 2 ^ 32
      → e ≢ T.time
      → timer_shift T ≡ some U
      → Pending T
      → Pending U
  timer_shift-Pending T U ht he ne run p = go (timer_shift-Shifted T) run p
    where
      go : {r : Option Timer} → Shifted T r → r ≡ some U → Pending T → Pending U
      go (still off q) w (soon h d) =
          rw (← some-injective _ _ (sym q ∙ w)) (soon h (near_still T ht he ne d))
      go (still off q) w (later l hl h wait dig) =
          rw (← some-injective _ _ (sym q ∙ w))
            (later l hl h (Waits-tick l T.time _ e hl ht wait (λ t. off (span_256 l _ hl t.0))) dig)
      go (moves k hk z d q) w p =
          rw (← some-injective _ _ (sym q ∙ w)) (move_list-Pending T k ht he ne hk z d p)
