-- ===== src/Timewheel/Distance.antt =====
-- When a node in a slot is due to be moved: arithmetic on the uint32_t clock.
use native.Mathlib.Decide.{dec_lt, ℕ_discrete}
use cpp_infra.Common.{arith, suc, zero, ℕ, ◌%◌, ◌*◌, ◌+◌, ◌/◌, ◌<◌, ◌^◌, ◌≡◌, ◌≢◌, ◌≤◌}
use cpp_infra.Timewheel.{sub32}

-- the ticks that a slot of `t[k]` covers
abbrev pub span : ℕ → ℕ
span zero = 256
span (suc k) = span k * 64

abbrev pub tick : ℕ → ℕ
tick c = (c + 1) % 2 ^ 32

-- A node that expires at `e` may stand in `near[i]` at the time `c`.
abbrev pub NearOk : (c i e : ℕ) → Type 0
NearOk c i e = (e < 2 ^ 32) × (e % 256 ≡ i) × (sub32 e c < 256)

-- A node that expires at `e` stands in `t[k][j]` at the time `c` with its move still ahead: the
-- slot is moved when the clock reaches `e - e % span k`, less than a turn of the level from now.
abbrev pub Waits : (c k j e : ℕ) → Type 0
Waits c k j e =
    (e < 2 ^ 32)
    × (e / span k % 64 ≡ j)
    × (e % span k < sub32 e c)
    × (sub32 e c ≤ e % span k + 64 * span k)

-- the tick to `c` moves the slot `t[k][j]`, were it not for the code's test of `idx`
abbrev pub IsTurn : (c k j : ℕ) → Type 0
IsTurn c k j = (c % span k ≡ 0) × (c / span k % 64 ≡ j)

pub sub32_zero : (e c : ℕ) → e < 2 ^ 32 → c < 2 ^ 32 → sub32 e c ≡ 0 → e ≡ c
unfolding sub32
sub32_zero e c he hc h = omega arith

pub sub32_self : (c : ℕ) → c < 2 ^ 32 → sub32 c c ≡ 0
unfolding sub32
sub32_self c hc = omega arith

pub sub32-tick :
    (e c : ℕ) → e < 2 ^ 32 → c < 2 ^ 32 → sub32 e c ≢ 0 → sub32 e (tick c) + 1 ≡ sub32 e c
unfolding sub32
sub32-tick e c he hc h = omega arith

pub near_due : (c e : ℕ) → c < 2 ^ 32 → NearOk c (c % 256) e → e ≡ c
unfolding sub32
near_due c e hc h = omega arith

pub near_ahead : (c i e : ℕ) → c < 2 ^ 32 → NearOk c i e → i ≢ c % 256 → sub32 e c ≢ 0
unfolding sub32
near_ahead c i e hc h ne z = omega arith

pub near_tick : (c i e : ℕ) → c < 2 ^ 32 → NearOk c i e → i ≢ c % 256 → NearOk (tick c) i e
near_tick c i e hc h ne =
    (h.0, h.1, omega (arith, sub32-tick e c h.0 hc (near_ahead c i e hc h ne)))

-- A node whose move is due stands in a slot whose turn it is.
IsTurn-of_due :
    (k c j e : ℕ)
    → k < 4
    → c < 2 ^ 32
    → Waits c k j e
    → sub32 e (tick c) ≡ e % span k
    → IsTurn (tick c) k j
unfolding sub32
IsTurn-of_due zero c j e hk hc h due = omega arith
IsTurn-of_due (suc zero) c j e hk hc h due = omega arith
IsTurn-of_due (suc (suc zero)) c j e hk hc h due = omega arith
IsTurn-of_due (suc (suc (suc zero))) c j e hk hc h due = omega arith
IsTurn-of_due (suc (suc (suc (suc k)))) c j e hk hc h due = absurd (omega arith)

-- A waiting node goes on waiting when the tick is not its turn.
pub Waits-tick :
    (k c j e : ℕ)
    → k < 4
    → c < 2 ^ 32
    → Waits c k j e
    → ¬ (IsTurn (tick c) k j)
    → Waits (tick c) k j e
Waits-tick k c j e hk hc h ne =
    let ahead = sub32-tick e c h.0 hc (omega arith) in
    elim (ℕ_discrete (sub32 e (tick c)) (e % span k)) [
      | yes due ↦ absurd (ne (IsTurn-of_due k c j e hk hc h due))
      | no later ↦ (h.0, h.1, omega (arith, ahead), omega (arith, ahead))
    ]

-- When its turn comes, less than the slot's span is left.
pub Waits-turn :
    (k c j e : ℕ)
    → k < 4
    → c < 2 ^ 32
    → Waits c k j e
    → IsTurn (tick c) k j
    → sub32 e (tick c) < span k
unfolding sub32
Waits-turn zero c j e hk hc h t = omega arith
Waits-turn (suc zero) c j e hk hc h t = omega arith
Waits-turn (suc (suc zero)) c j e hk hc h t = omega arith
Waits-turn (suc (suc (suc zero))) c j e hk hc h t = omega arith
Waits-turn (suc (suc (suc (suc k)))) c j e hk hc h t = absurd (omega arith)

-- Where `add_node` puts a node: it stands well there.
pub Waits-placed :
    (k c e : ℕ)
    → k < 4
    → e < 2 ^ 32
    → span k ≤ sub32 e c
    → sub32 e c < span k * 64
    → Waits c k (e / span k % 64) e
unfolding sub32
Waits-placed zero c e hk he lo hi = omega arith
Waits-placed (suc zero) c e hk he lo hi = omega arith
Waits-placed (suc (suc zero)) c e hk he lo hi = omega arith
Waits-placed (suc (suc (suc zero))) c e hk he lo hi = omega arith
Waits-placed (suc (suc (suc (suc k)))) c e hk he lo hi = absurd (omega arith)

-- A node placed when a longer span has just begun does not land in slot 0 of a lower level.
pub digit_pos :
    (k l c e : ℕ)
    → k < l
    → l < 4
    → c < 2 ^ 32
    → e < 2 ^ 32
    → c % span l ≡ 0
    → span k ≤ sub32 e c
    → sub32 e c < span k * 64
    → e / span k % 64 ≢ 0
unfolding sub32
digit_pos zero (suc zero) c e hk hl hc he t lo hi z = omega arith
digit_pos zero (suc (suc zero)) c e hk hl hc he t lo hi z = omega arith
digit_pos zero (suc (suc (suc zero))) c e hk hl hc he t lo hi z = omega arith
digit_pos (suc zero) (suc (suc zero)) c e hk hl hc he t lo hi z = omega arith
digit_pos (suc zero) (suc (suc (suc zero))) c e hk hl hc he t lo hi z = omega arith
digit_pos (suc (suc zero)) (suc (suc (suc zero))) c e hk hl hc he t lo hi z = omega arith
digit_pos k zero c e hk hl hc he t lo hi z = absurd (omega arith)
digit_pos k l c e hk hl hc he t lo hi z = absurd (omega arith)

span_mono : (l k : ℕ) → l ≤ k → span l ≤ span k
span_mono l zero h = rw (le_zero l h) (omega arith)
  where
    le_zero : (m : ℕ) → m ≤ 0 → m ≡ 0
    le_zero m h = omega arith
span_mono l (suc k) h = elim (ℕ_discrete l (suc k)) [
  | yes e ↦ rw e (omega arith)
  | no ne ↦ omega (arith, span_mono l k (omega arith))
]

-- A shorter span is that of a lower level.
pub lower_of_span : (k l : ℕ) → span k < span l → k < l
lower_of_span k l h = elim (dec_lt k l) [
  | yes p ↦ p
  | no n ↦ absurd (omega (arith, span_mono l k (omega arith)))
]

pub span_large : (k : ℕ) → 256 ≤ span k
span_large k = span_mono 0 k (omega arith)

-- A distance belongs to one level.
pub same_level : (l k d : ℕ) → span l ≤ d → d < span l * 64 → span k ≤ d → d < span k * 64 → l ≡ k
same_level l k d lo hi lo' hi' =
    omega (arith, lower_of_span l (suc k) (omega arith), lower_of_span k (suc l) (omega arith))
