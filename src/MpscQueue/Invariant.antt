-- ===== src/MpscQueue/Invariant.antt =====
-- What holds of the nodes in every state that the threads can reach.
use mathlib.Core.Path.{ap₂}
use cpp_infra.Common.{
  List, [], ap, arith, eq_self, none, refl, some, suc, true, zero, ℕ, ◌++◌, ◌+◌, ◌<◌, ◌∷◌, ◌≡◌, ◌≢◌,
  ◌≤◌, ◌⊎◌,
}
use cpp_infra.MpscQueue.{MpscQueue, Consumer, linking, ready, found, deleting, new}

abbrev pub values : (ℕ → ℕ) → (ℕ → ℕ) → (lo count : ℕ) → List ℕ
values value seq lo zero = []
values value seq lo (suc count) = values value seq lo count ++ value (seq (lo + count + 1)) ∷ []

-- The node at the place `i` of the order is linked to the next, or a producer is about to link it.
abbrev pub Linked : MpscQueue → (ℕ → ℕ) → ℕ → Type 0
Linked q seq i =
    (q.next (seq i) ≡ some (seq (i + 1)))
    ⊎ ((q.next (seq i) ≡ none) × ((t : ℕ) × (q.producers t ≡ linking (seq i) (seq (i + 1)))))

-- What the consumer relies on.
abbrev pub ConsumerOk : MpscQueue → (ℕ → ℕ) → (lo hi : ℕ) → Consumer → Type 0
ConsumerOk q seq lo hi ready = Unit
ConsumerOk q seq lo hi (found n) = (lo < hi) × (n ≡ seq (lo + 1)) × (q.next (seq lo) ≡ some n)
ConsumerOk q seq lo hi (deleting old) =
    (q.live old ≡ true) × ((i : ℕ) → lo ≤ i → i ≤ hi → seq i ≢ old)

-- `seq` is the order of the nodes: `_tail` is at the place `lo`, `_head` at the place `hi`.
pub record Sound (q : MpscQueue) : Type 0 where
  pub seq : ℕ → ℕ
  pub lo : ℕ
  pub count : ℕ
  pub tail_at : q.tail ≡ seq lo
  pub head_at : q.head ≡ seq (lo + count)
  pub alive : (i : ℕ) → lo ≤ i → i ≤ lo + count → q.live (seq i) ≡ true
  pub distinct :
      (i j : ℕ) → lo ≤ i → i ≤ lo + count → lo ≤ j → j ≤ lo + count → seq i ≡ seq j → i ≡ j
  pub linked : (i : ℕ) → lo ≤ i → i < lo + count → Linked q seq i
  pub last_free : q.next (seq (lo + count)) ≡ none
  pub producing :
      (t prev node : ℕ)
      → q.producers t ≡ linking prev node
      → (i : ℕ) × (lo ≤ i)
        × (i < lo + count)
        × (prev ≡ seq i)
        × (node ≡ seq (i + 1))
        × (q.next prev ≡ none)
  pub alone :
      (t u prev n m : ℕ) → q.producers t ≡ linking prev n → q.producers u ≡ linking prev m → t ≡ u
  pub consuming : ConsumerOk q seq lo (lo + count) q.consumer
  pub fifo : q.pushed ≡ q.popped ++ values q.value seq lo count

pub values_last :
    (v seq : ℕ → ℕ) (lo count : ℕ)
    → values v seq lo (count + 1) ≡ values v seq lo count ++ v (seq (lo + count + 1)) ∷ []
values_last v seq lo count = let up : count + 1 ≡ suc count = omega arith in ap (values v seq lo) up

pub values_ext :
    (v v' seq seq' : ℕ → ℕ) (lo count : ℕ)
    → ((i : ℕ) → lo < i → i ≤ lo + count → v' (seq' i) ≡ v (seq i))
    → values v' seq' lo count ≡ values v seq lo count
values_ext v v' seq seq' lo zero same = refl
values_ext v v' seq seq' lo (suc count) same =
    ap₂ (λ xs x. xs ++ x ∷ [])
      (values_ext v v' seq seq' lo count (λ i gt le. same i gt (omega arith)))
      (same (lo + count + 1) (omega arith) (omega arith))

pub values_shift :
    (v seq : ℕ → ℕ) (lo count : ℕ)
    → values v seq lo (suc count) ≡ v (seq (lo + 1)) ∷ values v seq (lo + 1) count
values_shift v seq lo zero = ap (λ i. v (seq i) ∷ []) (omega arith)
values_shift v seq lo (suc count) =
    ap₂ (λ xs x. xs ++ x ∷ []) (values_shift v seq lo count) (ap (λ i. v (seq i)) (omega arith))

pub new-Sound : (dummy : ℕ) → Sound (new dummy)
unfolding new
new-Sound dummy = record {
  seq = λ i. dummy;
  lo = 0;
  count = 0;
  tail_at = refl;
  head_at = refl;
  alive = λ i ge le. eq_self dummy;
  distinct = λ i j lo_i hi_i lo_j hi_j e. omega arith;
  linked = λ i ge lt. absurd (omega arith);
  last_free = refl;
  producing = λ t prev node e. absurd (cc e);
  alone = λ t u prev n m e. absurd (cc e);
  consuming = tt;
  fifo = refl;
}
