-- ===== src/MinHeap/Places.antt =====
-- The array and the index fields agree: the array holds each entry of a set `M` once, at its index.
use native.Mathlib.Decide.{ℕ_discrete}
use cpp_infra.Common.{ap, eq_self, ne_test, refl, sym, ℕ, ◌<◌, ◌∙◌, ◌≡◌, ◌≢◌}
use cpp_infra.MinHeap.{set}
use cpp_infra.MinHeap.Order.{Swap}

pub record Places (q x : ℕ → ℕ) (n : ℕ) (M : ℕ → Type 0) : Type 0 where
  pub at : (i : ℕ) → i < n → M (q i) × (x (q i) ≡ i)
  pub find : (t : ℕ) → M t → (x t < n) × (q (x t) ≡ t)

pub set_here : (f : ℕ → ℕ) (i v : ℕ) → set f i v i ≡ v
set_here f i v = rw (eq_self i) refl

pub set_there : (f : ℕ → ℕ) (i v k : ℕ) → k ≢ i → set f i v k ≡ f k
set_there f i v k ne = rw (ne_test k i ne) refl

module _ {q x : ℕ → ℕ} {n : ℕ} {M : ℕ → Type 0} where
  -- Different slots hold different entries.
  pub entries_differ : Places q x n M → (i k : ℕ) → i < n → k < n → i ≢ k → q i ≢ q k
  entries_differ w i k lt lt' ne e = ne (sym (w.at i lt).1 ∙ (ap x e ∙ (w.at k lt').1))

  -- Swapping two slots, and the indices of their entries.
  pub Places-swap :
      {q' x' : ℕ → ℕ} (i k : ℕ)
      → Places q x n M
      → i < n
      → k < n
      → i ≢ k
      → Swap q q' i k
      → x' (q k) ≡ i
      → x' (q i) ≡ k
      → ((t : ℕ) → t ≢ q i → t ≢ q k → x' t ≡ x t)
      → Places q' x' n M
  Places-swap {q'} {x'} i k w lt lt' ne sw xk xi same = record { at = at; find = find }
    where
      at : (j : ℕ) → j < n → M (q' j) × (x' (q' j) ≡ j)
      at j j_lt = elim (ℕ_discrete j i) [
        | yes e ↦ rw (e, sw.left) ((w.at k lt').0, xk)
        | no ne_i ↦ elim (ℕ_discrete j k) [
          | yes e ↦ rw (e, sw.right) ((w.at i lt).0, xi)
          | no ne_k ↦ rw (sw.others j ne_i ne_k) (
            (w.at j j_lt).0,
            same (q j) (entries_differ w j i j_lt lt ne_i) (entries_differ w j k j_lt lt' ne_k)
                ∙ (w.at j j_lt).1,
          )
        ]
      ]

      find : (t : ℕ) → M t → (x' t < n) × (q' (x' t) ≡ t)
      find t m = elim (ℕ_discrete t (q k)) [
        | yes e ↦ rw (e, xk) (lt, sw.left)
        | no ne_k ↦ elim (ℕ_discrete t (q i)) [
          | yes e ↦ rw (e, xi) (lt', sw.right)
          | no ne_i ↦
              let f = w.find t m in
              rw (same t ne_i ne_k) (
                f.0,
                sw.others (x t) (λ e. ne_i (sym f.1 ∙ ap q e)) (λ e. ne_k (sym f.1 ∙ ap q e)) ∙ f.1,
              )
        ]
      ]
