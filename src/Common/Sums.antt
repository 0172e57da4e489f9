-- ===== src/Common/Sums.antt =====
-- A change of a function at one place, sums over the numbers below a bound, and occurrences in a list.
use Prim.Native.Nat.{ℕ, zero, suc, ◌+◌, ◌<◌, ◌≤◌}
use mathlib.Core.Path.{◌≡◌, refl, sym, ap, ap₂, ◌∙◌}
use mathlib.Core.Logic.{◌≢◌}
use mathlib.Core.List.{List, [], ◌∷◌, ◌++◌}
use native.Mathlib.Omega.{arith}
use native.Mathlib.Decide.{ℕ_discrete}
use cpp_infra.Common.Tests.{◌==◌, if◌then◌else◌, eq_self, ne_test}

abbrev pub update {ℓ} : {A : Type ℓ} → (ℕ → A) → ℕ → A → ℕ → A
update f i v k = if k == i then v else f k

pub update_here {ℓ} : {A : Type ℓ} (f : ℕ → A) (i : ℕ) (v : A) → update f i v i ≡ v
update_here f i v = rw (eq_self i) refl

pub update_there {ℓ} :
    {A : Type ℓ} (f : ℕ → A) (i : ℕ) (v : A) (k : ℕ) → k ≢ i → update f i v k ≡ f k
update_there f i v k ne = rw (ne_test k i ne) refl

abbrev pub total {ℓ} : {A : Type ℓ} → (A → ℕ) → (ℕ → A) → ℕ → ℕ
total g f zero = 0
total g f (suc n) = total g f n + g (f n)

module _ {ℓ} {A : Type ℓ} (g : A → ℕ) (f : ℕ → A) (i : ℕ) (v : A) where
  total_above : (n : ℕ) → n ≤ i → total g (update f i v) n ≡ total g f n
  total_above zero le = refl
  total_above (suc n) le =
      ap₂ (λ k x. k + g x) (total_above n (omega arith)) (update_there f i v n (omega arith))

  -- The sum changes by the one term.
  pub total-update : (n : ℕ) → i < n → total g (update f i v) n + g (f i) ≡ total g f n + g v
  total-update zero lt = absurd (omega arith)
  total-update (suc n) lt = elim (ℕ_discrete i n) [
    | yes e ↦
        let same = total_above n (omega arith) in
        let new : g (update f i v n) ≡ g v =
          ap (λ k. g (update f i v k)) (sym e) ∙ ap g (update_here f i v) in
        let old : g (f n) ≡ g (f i) = ap (λ k. g (f k)) (sym e) in omega arith
    | no ne ↦
        let rest = total-update n (omega arith) in
        let same : g (update f i v n) ≡ g (f n) = ap g (update_there f i v n (λ e. ne (sym e))) in
        omega arith
  ]

pub total_zero {ℓ} :
    {A : Type ℓ} (g : A → ℕ) (f : ℕ → A) (n : ℕ) → ((k : ℕ) → k < n → g (f k) ≡ 0) → total g f n ≡ 0
total_zero g f zero nothing = refl
total_zero g f (suc n) nothing =
    let rest = total_zero g f n (λ k lt. nothing k (omega arith)) in
    let here = nothing n (omega arith) in omega arith

abbrev pub occurs : ℕ → List ℕ → ℕ
occurs t [] = 0
occurs t (x ∷ xs) = (if x == t then 1 else 0) + occurs t xs

pub occurs-append : (t : ℕ) (xs ys : List ℕ) → occurs t (xs ++ ys) ≡ occurs t xs + occurs t ys
occurs-append t [] ys = omega arith
occurs-append t (x ∷ xs) ys = let rest = occurs-append t xs ys in omega arith
