-- ===== src/Timewheel/Shift.antt =====
-- `timer_shift`: which list a tick moves, and how far the loop goes.
use native.Mathlib.Nat.{mod-lt}
use native.Mathlib.Decide.{ℕ_discrete, dec_lt}
use cpp_infra.Common.{
  All, All-map, Bool-cases, Option, [], ap, arith, eq_of_==, false, inl, inr, ne_of_==, refl, some,
  suc, sym, true, zero, ℕ, ◌%◌, ◌*◌, ◌+◌, ◌/◌, ◌<◌, ◌==◌, ◌^◌, ◌∙◌, ◌≡◌, ◌≢◌, ◌⊎◌,
}
use cpp_infra.Timewheel.{
  TimerNode, Timer, link_clear, set_level, move_list, shift_loop, timer_shift,
}
use cpp_infra.Timewheel.Distance.{span, tick, NearOk, IsTurn, near_tick, Waits-tick}
use cpp_infra.Timewheel.Valid.{Valid, LevelOk, add_all-Valid, time-add_all, fired-add_all}

-- the wheel with its clock one tick on and nothing moved
abbrev pub ticked : Timer → Timer
ticked T = record T { time = tick T.time }

-- What `timer_shift` does: nothing but the tick, or the move of one list of a level whose turn it
-- is, whose index is not 0 below the last level.
pub data Shifted (T : Timer) (r : Option Timer) : Type 0 where
  still : tick T.time % 256 ≢ 0 → r ≡ some (ticked T) → Shifted T r
  moves :
      (k : ℕ)
      → k < 4
      → tick T.time % span k ≡ 0
      → (k < 3 → tick T.time / span k % 64 ≢ 0)
      → r ≡ some (move_list (ticked T) k (tick T.time / span k % 64))
      → Shifted T r

module _ (T : Timer) (ct : ℕ) where
  loop_stops :
      (f mask time i : ℕ) → (ct % mask == 0) ≡ false → shift_loop f T ct mask time i ≡ some T
  unfolding shift_loop
  loop_stops zero mask time i e = rw e
  loop_stops (suc f) mask time i e = rw e

  loop_moves :
      (f mask time i : ℕ)
      → (ct % mask == 0) ≡ true
      → (time % 64 == 0) ≡ false
      → shift_loop (suc f) T ct mask time i ≡ some (move_list T i (time % 64))
  unfolding shift_loop
  loop_moves f mask time i e z = rw (e, z)

  loop_rises :
      (f mask time i : ℕ)
      → (ct % mask == 0) ≡ true
      → (time % 64 == 0) ≡ true
      → shift_loop (suc f) T ct mask time i
        ≡ shift_loop f T ct (mask * 64 % 2 ^ 32) (time / 64) (i + 1)
  unfolding shift_loop
  loop_rises f mask time i e z = rw (e, z)

module _ (T : Timer) where
  -- the loop at the level `k`, with `f` levels left
  abbrev loop_at : ℕ → ℕ → Option Timer
  loop_at f k = shift_loop f (ticked T) (tick T.time) (span k) (tick T.time / span k) k

  -- It moves the list of its level if the index there is not 0, and rises otherwise.
  rise :
      (f k : ℕ)
      → k < 4
      → tick T.time % span k ≡ 0
      → (tick T.time / span k % 64 ≡ 0
          → shift_loop f
              (ticked T)
              (tick T.time)
              (span k * 64 % 2 ^ 32)
              (tick T.time / span k / 64)
              (k + 1)
            ≡ loop_at f (suc k))
      → (tick T.time / span k % 64 ≡ 0 → Shifted T (loop_at f (suc k)))
      → Shifted T (loop_at (suc f) k)
  rise f k hk z next rest = elim (Bool-cases (tick T.time / span k % 64 == 0)) [
    | inl e ↦
        rw (loop_rises (ticked T) (tick T.time) f (span k) (tick T.time / span k) k (rw z) e)
          (rw (next (eq_of_== _ 0 e)) (rest (eq_of_== _ 0 e)))
    | inr e ↦
        moves k hk z (λ _. ne_of_== _ 0 e)
          (loop_moves (ticked T) (tick T.time) f (span k) (tick T.time / span k) k (rw z) e)
  ]

  from_3 : tick T.time ≢ 0 → tick T.time % span 3 ≡ 0 → Shifted T (loop_at 1 3)
  from_3 ne z =
      rise 0 3 (omega arith) z (λ d. absurd (ne (omega arith))) (λ d. absurd (ne (omega arith)))

  from_2 : tick T.time ≢ 0 → tick T.time % span 2 ≡ 0 → Shifted T (loop_at 2 2)
  from_2 ne z =
      rise 1 2 (omega arith) z
        (λ d. ap (λ t. shift_loop 1 (ticked T) (tick T.time) (2 ^ 26) t 3) (omega arith))
        (λ d. from_3 ne (omega arith))

  from_1 : tick T.time ≢ 0 → tick T.time % span 1 ≡ 0 → Shifted T (loop_at 3 1)
  from_1 ne z =
      rise 2 1 (omega arith) z
        (λ d. ap (λ t. shift_loop 2 (ticked T) (tick T.time) (2 ^ 20) t 2) (omega arith))
        (λ d. from_2 ne (omega arith))

  from_0 : tick T.time ≢ 0 → Shifted T (loop_at 4 0)
  from_0 ne = elim (Bool-cases (tick T.time % 256 == 0)) [
    | inl e ↦
        rise 3 0 (omega arith) (eq_of_== _ 0 e)
          (λ d. ap (λ t. shift_loop 3 (ticked T) (tick T.time) (2 ^ 14) t 1) (omega arith))
          (λ d. from_1 ne (ground arith))
    | inr e ↦ still (ne_of_== _ 0 e) (loop_stops (ticked T) (tick T.time) 4 256 _ 0 e)
  ]

  pub timer_shift-Shifted : Shifted T (timer_shift T)
  unfolding timer_shift
  timer_shift-Shifted = elim (Bool-cases (tick T.time == 0)) [
    | inl e ↦
        let z = eq_of_== _ 0 e in
        rw e (
          moves 3 (omega arith) (omega arith) (λ h. absurd (omega arith))
            (ap (λ i. some (move_list (ticked T) 3 i)) (omega arith)))
    | inr e ↦ rw e (from_0 (ne_of_== _ 0 e))
  ]

-- The index of a level is 0 at the multiples of a higher level's span.
pub digit_zero : (k l c : ℕ) → k < l → l < 4 → c % span l ≡ 0 → c / span k % 64 ≡ 0
digit_zero zero (suc zero) c h hl z = omega arith
digit_zero zero (suc (suc zero)) c h hl z = omega arith
digit_zero zero (suc (suc (suc zero))) c h hl z = omega arith
digit_zero (suc zero) (suc (suc zero)) c h hl z = omega arith
digit_zero (suc zero) (suc (suc (suc zero))) c h hl z = omega arith
digit_zero (suc (suc zero)) (suc (suc (suc zero))) c h hl z = omega arith
digit_zero k l c h hl z = absurd (omega arith)

-- A list whose turn it is, and that the tick does not move, is a slot 0 below the last level.
pub skipped :
    (k l c j : ℕ)
    → k < 4
    → l < 4
    → c % span k ≡ 0
    → (k < 3 → c / span k % 64 ≢ 0)
    → IsTurn c l j
    → ((l ≡ k) × (j ≡ c / span k % 64)) ⊎ ((l < 3) × (j ≡ 0))
skipped k l c j hk hl z d t = elim (dec_lt l k) [
  | yes lower ↦ inr (omega arith, sym t.1 ∙ digit_zero l k c lower hk z)
  | no not_lower ↦ elim (dec_lt k l) [
    | yes higher ↦ absurd (d (omega arith) (digit_zero k l c higher hl t.0))
    | no same ↦ let e : l ≡ k = omega arith in inl (e, sym t.1 ∙ ap (λ m. c / span m % 64) e)
  ]
]

-- What the tick does to a list that is not moved: its nodes still stand well.
level_tick :
    (T : Timer) (l j : ℕ)
    → l < 4
    → Valid T
    → (IsTurn (tick T.time) l j → (l < 3) × (j ≡ 0))
    → All (LevelOk (tick T.time) l j) (T.t l j)
level_tick T l j hl v stuck = All-map (T.t l j) one (v.level_ok l j hl)
  where
    one : (n : TimerNode) → LevelOk T.time l j n → LevelOk (tick T.time) l j n
    one n (inr s) = inr s
    one n (inl w) = elim (ℕ_discrete (tick T.time % span l) 0) [
      | yes z ↦ elim (ℕ_discrete (tick T.time / span l % 64) j) [
        | yes d ↦ inr (stuck (z, d))
        | no nd ↦ inl (Waits-tick l T.time j n.expire hl v.time_in w (λ t. nd t.1))
      ]
      | no nz ↦ inl (Waits-tick l T.time j n.expire hl v.time_in w (λ t. nz t.0))
    ]

near_ticked :
    (T : Timer) (i : ℕ)
    → Valid T
    → T.near (T.time % 256) ≡ []
    → All (λ n. NearOk (tick T.time) i n.expire) (T.near i)
near_ticked T i v empty = elim (ℕ_discrete i (T.time % 256)) [
  | yes e ↦ rw (e, empty) tt
  | no ne ↦ All-map (T.near i) (λ n h. near_tick T.time i n.expire v.time_in h ne) (v.near_ok i)
]

-- Every node of a level expires at a 32-bit time, but for those that no tick moves.
moved-lt :
    (T : Timer) (k : ℕ)
    → k < 4
    → Valid T
    → (k < 3 → tick T.time / span k % 64 ≢ 0)
    → All (λ n. n.expire < 2 ^ 32) (T.t k (tick T.time / span k % 64))
moved-lt T k hk v d =
    All-map (T.t k (tick T.time / span k % 64)) (λ n. one n)
      (v.level_ok k (tick T.time / span k % 64) hk)
  where
    one : (n : TimerNode) → LevelOk T.time k (tick T.time / span k % 64) n → n.expire < 2 ^ 32
    one n (inl w) = w.0
    one n (inr s) = absurd (d s.0 s.1)

cleared_tick :
    (T : Timer) (k : ℕ)
    → k < 4
    → tick T.time % span k ≡ 0
    → (k < 3 → tick T.time / span k % 64 ≢ 0)
    → Valid T
    → (l j : ℕ) → l < 4
    → All
        (LevelOk (tick T.time) l j)
        (set_level T.t k (link_clear (T.t k) (tick T.time / span k % 64)) l j)
unfolding set_level link_clear
cleared_tick T k hk z d v l j hl = elim (Bool-cases (k == l)) [
  | inl e ↦ rw e (elim (Bool-cases (tick T.time / span k % 64 == j)) [
    | inl at ↦ rw at tt
    | inr off ↦
        rw (off, eq_of_== k l e)
          (level_tick T l j hl v (λ t. other t (λ q. ne_of_== _ j off (sym q))))
  ])
  | inr e ↦ rw e (level_tick T l j hl v (λ t. same t (λ q. ne_of_== k l e (sym q))))
]
  where
    other : IsTurn (tick T.time) l j → j ≢ tick T.time / span k % 64 → (l < 3) × (j ≡ 0)
    other t ne = elim (skipped k l (tick T.time) j hk hl z d t) [
      | inl q ↦ absurd (ne q.1)
      | inr q ↦ q
    ]

    same : IsTurn (tick T.time) l j → l ≢ k → (l < 3) × (j ≡ 0)
    same t ne = elim (skipped k l (tick T.time) j hk hl z d t) [
      | inl q ↦ absurd (ne q.0)
      | inr q ↦ q
    ]

move_list-Valid :
    (T : Timer) (k : ℕ)
    → k < 4
    → tick T.time % span k ≡ 0
    → (k < 3 → tick T.time / span k % 64 ≢ 0)
    → Valid T
    → T.near (T.time % 256) ≡ []
    → Valid (move_list (ticked T) k (tick T.time / span k % 64))
unfolding move_list
move_list-Valid T k hk z d v empty =
    add_all-Valid (T.t k (tick T.time / span k % 64)) _ (moved-lt T k hk v d) (record {
      time_in = mod-lt (T.time + 1) (omega arith);
      near_ok = λ i. near_ticked T i v empty;
      level_ok = λ l j hl. cleared_tick T k hk z d v l j hl;
      on_time = v.on_time;
    })

-- A multiple of a level's span is a multiple of 256.
pub span_256 : (l c : ℕ) → l < 4 → c % span l ≡ 0 → c % 256 ≡ 0
span_256 zero c hl z = omega arith
span_256 (suc zero) c hl z = omega arith
span_256 (suc (suc zero)) c hl z = omega arith
span_256 (suc (suc (suc zero))) c hl z = omega arith
span_256 (suc (suc (suc (suc l)))) c hl z = absurd (omega arith)

-- After the callbacks of the current time, a tick keeps the wheel valid.
pub timer_shift-Valid :
    (T : Timer)
    → Valid T
    → T.near (T.time % 256) ≡ []
    → (T' : Timer) × (timer_shift T ≡ some T')
      × Valid T'
      × (T'.time ≡ tick T.time)
      × (T'.fired ≡ T.fired)
unfolding move_list
timer_shift-Valid T v empty = go (timer_shift-Shifted T)
  where
    go :
        {r : Option Timer}
        → Shifted T r
        → (T' : Timer) × (r ≡ some T') × Valid T' × (T'.time ≡ tick T.time) × (T'.fired ≡ T.fired)
    go (still ne e) = (
      ticked T,
      e,
      record {
        time_in = mod-lt (T.time + 1) (omega arith);
        near_ok = λ i. near_ticked T i v empty;
        level_ok = λ l j hl. level_tick T l j hl v (λ t. absurd (ne (span_256 l _ hl t.0)));
        on_time = v.on_time;
      },
      refl,
      refl,
    )
    go (moves k hk z d e) = (
      move_list (ticked T) k (tick T.time / span k % 64),
      e,
      move_list-Valid T k hk z d v empty,
      time-add_all (T.t k (tick T.time / span k % 64)) _,
      fired-add_all (T.t k (tick T.time / span k % 64)) _,
    )
