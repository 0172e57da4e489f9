-- ===== src/RingBuffer/Wrap.antt =====
-- Indices that go round at a capacity.
use native.Mathlib.Nat.{pow-suc, mod-add-mod, mod-eq_of_lt, mod-eq-sub-mod}
use native.Mathlib.Decide.{dec_lt}
use cpp_infra.Common.{ap, arith, inl, inr, suc, zero, ℕ, ◌%◌, ◌+◌, ◌-◌, ◌<◌, ◌^◌, ◌≡◌, ◌≤◌, ◌⊎◌}

-- An offset of at most one round either stays below the capacity or comes round once.
pub wrap_cases :
    (cap b i : ℕ)
    → b < cap
    → i ≤ cap
    → ((b + i < cap) × ((b + i) % cap ≡ b + i)) ⊎ ((cap ≤ b + i) × ((b + i) % cap ≡ b + i - cap))
wrap_cases cap b i hb hi = elim (dec_lt (b + i) cap) [
  | yes p ↦ inl (p, mod-eq_of_lt p)
  | no p ↦ inr (
    omega arith,
    omega (
      arith,
      mod-eq-sub-mod {n = b + i} {m = cap} (omega arith),
      mod-eq_of_lt {n = b + i - cap} {m = cap} (omega arith),
    ),
  )
]

pub pow-pos : (k : ℕ) → 0 < 2 ^ k
pow-pos zero = omega arith
pow-pos (suc k) = omega (arith, pow-suc 2 k, pow-pos k)

-- One step on, then `i`, is `i + 1` on.
pub turn : (cap base i : ℕ) → ((base + 1) % cap + i) % cap ≡ (base + suc i) % cap
turn cap base i = rw mod-add-mod (ap (λ k. k % cap) (omega arith))
