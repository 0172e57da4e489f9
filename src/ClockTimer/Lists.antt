-- ===== src/ClockTimer/Lists.antt =====
-- What the list operations of the wheel keep of a property of nodes.
use mathlib.Core.Path.{fun_ext}
use cpp_infra.Common.{
  All, All-append, Any, Any-append_left, Any-append_right, Bool-cases, List, [], ap, arith,
  eq_of_==, eq_self, inl, inr, ne_test, sym, that, this, ℕ, ◌==◌, ◌∙◌, ◌∷◌, ◌≡◌, ◌≢◌,
}
use cpp_infra.ClockTimer.{TimerNode, link_to, link_clear, cancel_in}

module _ (P : TimerNode → Type 0) where
  pub All-link_to :
      (slots : ℕ → List TimerNode) (i : ℕ) (n : TimerNode) (j : ℕ)
      → All P (slots j)
      → (i ≡ j → P n)
      → All P (link_to slots i n j)
  unfolding link_to
  All-link_to slots i n j h new = elim (Bool-cases (i == j)) [
    | inl e ↦ rw e (All-append P (slots j) (n ∷ []) h (new (eq_of_== i j e), tt))
    | inr e ↦ rw e h
  ]

  pub All-link_clear :
      (slots : ℕ → List TimerNode) (i j : ℕ) → All P (slots j) → All P (link_clear slots i j)
  unfolding link_clear
  All-link_clear slots i j h = elim (Bool-cases (i == j)) [ inl e ↦ rw e tt | inr e ↦ rw e h ]

  pub All-cancel :
      (a : ℕ) (ns : List TimerNode)
      → ((n : TimerNode) → P n → P (record n { cancel = 1 }))
      → All P ns
      → All P (cancel_in a ns)
  unfolding cancel_in
  All-cancel a [] f h = tt
  All-cancel a (n ∷ ns) f h = elim (Bool-cases (n.addr == a)) [
    | inl e ↦ rw e (f n h.0, All-cancel a ns f h.1)
    | inr e ↦ rw e (h.0, All-cancel a ns f h.1)
  ]

  pub Any-link_to :
      (slots : ℕ → List TimerNode) (i : ℕ) (n : TimerNode) (j : ℕ)
      → Any P (slots j)
      → Any P (link_to slots i n j)
  unfolding link_to
  Any-link_to slots i n j h = elim (Bool-cases (i == j)) [
    | inl e ↦ rw e (Any-append_left (n ∷ []) h)
    | inr e ↦ rw e h
  ]

  pub Any-link_to_new :
      (slots : ℕ → List TimerNode) (i : ℕ) (n : TimerNode) → P n → Any P (link_to slots i n i)
  unfolding link_to
  Any-link_to_new slots i n p = rw (eq_self i) (Any-append_right (slots i) (this p))

  pub Any-cancel :
      (a : ℕ) {ns : List TimerNode}
      → ((n : TimerNode) → P n → n.addr ≢ a)
      → Any P ns
      → Any P (cancel_in a ns)
  unfolding cancel_in
  Any-cancel a f (this {x} p) = rw (ne_test x.addr a (f x p)) (this p)
  Any-cancel a f (that h) = that (Any-cancel a f h)

pub link_to_ne :
    (slots : ℕ → List TimerNode) (i : ℕ) (n : TimerNode) (j : ℕ)
    → i ≢ j
    → link_to slots i n j ≡ slots j
unfolding link_to
link_to_ne slots i n j ne = ground arith

pub link_clear_ne : (slots : ℕ → List TimerNode) (i j : ℕ) → j ≢ i → link_clear slots i j ≡ slots j
unfolding link_clear
link_clear_ne slots i j ne = ground arith

pub link_clear_self : (slots : ℕ → List TimerNode) (i : ℕ) → link_clear slots i i ≡ []
unfolding link_clear
link_clear_self slots i = ground arith

pub link_clear_empty :
    (slots : ℕ → List TimerNode) (i : ℕ) → slots i ≡ [] → link_clear slots i ≡ slots
unfolding link_clear
link_clear_empty slots i e = fun_ext (λ j. elim (Bool-cases (i == j)) [
  | inl at ↦ rw at (sym e ∙ ap slots (eq_of_== i j at))
  | inr off ↦ rw off
])

pub cancel-nil : (a : ℕ) (ns : List TimerNode) → ns ≡ [] → cancel_in a ns ≡ []
unfolding cancel_in
cancel-nil a ns e = rw e
