-- ===== src/SharedPtr/Count.antt =====
-- How many of the first `n` handles refer to a counter.
use cpp_infra.Common.{
  Option, ap, arith, eq_self, if◌then◌else◌, ne_test, none, refl, some, suc, sym, total,
  total-update, total_zero, update, zero, ℕ, ◌+◌, ◌<◌, ◌==◌, ◌∙◌, ◌≡◌, ◌≢◌, ◌≤◌,
}
use native.Mathlib.Decide.{ℕ_discrete}
use cpp_infra.SharedPtr.{SharedPtr}

-- 1 for a handle that refers to the counter `b`, 0 for another
abbrev pub one : Option ℕ → ℕ → ℕ
one none b = 0
one (some c) b = if c == b then 1 else 0

abbrev pub refers : ℕ → SharedPtr → ℕ
refers b x = one x.ref_count b

abbrev pub owners : (ℕ → SharedPtr) → ℕ → ℕ → ℕ
owners hs b n = total (refers b) hs n

-- A change of one handle changes the number by that handle.
pub owners-update :
    (hs : ℕ → SharedPtr) (h : ℕ) (x : SharedPtr) (b n : ℕ)
    → h < n
    → owners (update hs h x) b n + one (hs h).ref_count b ≡ owners hs b n + one x.ref_count b
owners-update hs h x b n lt = total-update (refers b) hs h x n lt

pub one_self : (b : ℕ) → one (some b) b ≡ 1
one_self b = rw (eq_self b) refl

pub one_other : (c b : ℕ) → c ≢ b → one (some c) b ≡ 0
one_other c b ne = rw (ne_test c b ne) refl

pub owners-some :
    (hs : ℕ → SharedPtr) (b h n : ℕ) → h < n → (hs h).ref_count ≡ some b → 0 < owners hs b n
owners-some hs b h zero lt e = absurd (omega arith)
owners-some hs b h (suc n) lt e = elim (ℕ_discrete h n) [
  | yes same ↦
      let here : one (hs n).ref_count b ≡ 1 =
        ap (λ k. one (hs k).ref_count b) (sym same) ∙ (ap (λ o. one o b) e ∙ one_self b) in
      omega arith
  | no ne ↦ let rest = owners-some hs b h n (omega arith) e in omega arith
]

-- No more than the handles.
pub owners_le : (hs : ℕ → SharedPtr) (b n : ℕ) → owners hs b n ≤ n
owners_le hs b zero = omega arith
owners_le hs b (suc n) =
    let rest = owners_le hs b n in let at_most = one_le (hs n).ref_count in omega arith
  where
    one_le : (o : Option ℕ) → one o b ≤ 1
    one_le none = omega arith
    one_le (some c) = elim (ℕ_discrete c b) [
      | yes e ↦ let v = ap (λ k. one (some k) b) e ∙ one_self b in omega arith
      | no ne ↦ let v = one_other c b ne in omega arith
    ]

pub owners-none :
    (hs : ℕ → SharedPtr) (b n : ℕ) → ((k : ℕ) → (hs k).ref_count ≢ some b) → owners hs b n ≡ 0
owners-none hs b n nobody = total_zero (refers b) hs n (λ k lt. not_one (hs k).ref_count (nobody k))
  where
    not_one : (o : Option ℕ) → o ≢ some b → one o b ≡ 0
    not_one none ne = refl
    not_one (some c) ne = one_other c b (λ e. ne (ap some e))
