-- ===== src/RingBuffer/Refine.antt =====
-- A ring whose slots hold a queue, one operation at a time.
use native.Mathlib.Nat.{mod-eq_of_lt, mod-lt, mod-add-mod}
use native.Mathlib.Decide.{dec_lt}
use cpp_infra.Common.{
  Bool-cases, List, Option, [], ap, arith, false, get_elem?, get_elem?-none, if◌then◌else◌, inl,
  inr, length, length-append, none, refl, some, suc, sym, true, zero, ℕ, ◌%◌, ◌++◌, ◌+◌, ◌-◌, ◌<◌,
  ◌==◌, ◌^◌, ◌∙◌, ◌∷◌, ◌≡◌, ◌⊎◌,
}
use cpp_infra.RingBuffer.{
  pop, new, destroy, destroy_loop, size, RingBuffer, put_slot, next_index, push,
}
use cpp_infra.RingBuffer.Wrap.{pow-pos, wrap_cases, turn}

module _ {A : Type 0} (cap : ℕ) where
  -- The slots from `base` on, once round, hold `xs` in order and then nothing.
  abbrev pub Holds : (ℕ → Option A) → ℕ → List A → Type 0
  Holds b base xs = (i : ℕ) → i < cap → b ((base + i) % cap) ≡ get_elem? xs i

  pub get_elem?-snoc :
      (xs : List A) (v : A) (i : ℕ)
      → get_elem? (xs ++ v ∷ []) i ≡ (if length xs == i then some v else get_elem? xs i)
  get_elem?-snoc [] v zero = refl
  get_elem?-snoc [] v (suc i) = ground arith
  get_elem?-snoc (x ∷ xs) v zero = ground arith
  get_elem?-snoc (x ∷ xs) v (suc i) = ground (arith, get_elem?-snoc xs v i)

  pub Holds-put :
      (b : ℕ → Option A) (base : ℕ) (xs : List A) (v : A)
      → base < cap
      → length xs < cap
      → Holds b base xs
      → Holds (put_slot b ((base + length xs) % cap) (some v)) base (xs ++ v ∷ [])
  unfolding put_slot
  Holds-put b base xs v hb hl h i hi = ground (
    arith,
    h i hi,
    get_elem?-snoc xs v i,
    wrap_cases cap base i hb (omega arith),
    wrap_cases cap base (length xs) hb (omega arith),
  )

  pub Holds-take :
      (b : ℕ → Option A) (base : ℕ) (x : A) (xs : List A)
      → base < cap
      → suc (length xs) < cap
      → Holds b base (x ∷ xs)
      → Holds (put_slot b base none) ((base + 1) % cap) xs
  unfolding put_slot
  Holds-take b base x xs hb hl h i hi =
      let e : ((base + 1) % cap + i) % cap ≡ (base + suc i) % cap = turn cap base i in
      elim (dec_lt (suc i) cap) [
        | yes p ↦ rw e (ground (arith, h (suc i) p, wrap_cases cap base (suc i) hb hi))
        | no p ↦
            let end : (base + suc i) % cap ≡ base =
              ground (arith, wrap_cases cap base (suc i) hb hi) in
            rw (e, end) (ground (arith, get_elem?-none xs i (omega arith)))
      ]

-- The ring stands for the queue `xs`, oldest first: one slot at least is free, `write` lies just
-- past the queue, and exactly the slots of the queue hold objects.
pub record IsQueue {A : Type 0} (k : ℕ) (r : RingBuffer A) (xs : List A) : Type 0 where
  pub read_in : r.read < 2 ^ k
  pub room : length xs < 2 ^ k
  pub write_at : r.write ≡ (r.read + length xs) % 2 ^ k
  pub slots : Holds (2 ^ k) r.buffer r.read xs

module _ {A : Type 0} (k : ℕ) (r : RingBuffer A) where
  -- the test of Push: the next write index is the read index only when one slot is left
  full_iff :
      (xs : List A) → IsQueue k r xs → (next_index k r.write == r.read) ≡ (suc (length xs) == 2 ^ k)
  full_iff xs q =
      let e : next_index k r.write ≡ (r.read + suc (length xs)) % 2 ^ k =
        rw (q.write_at) (rw mod-add-mod (ap (λ n. n % 2 ^ k) (omega arith))) in
      rw e (
        ground
          (arith, q.read_in, q.room, wrap_cases (2 ^ k) r.read (suc (length xs)) q.read_in q.room))

  empty_nil : IsQueue k r [] → (r.read == r.write) ≡ true
  empty_nil q =
      ground (arith, q.read_in, q.write_at, wrap_cases (2 ^ k) r.read 0 q.read_in (omega arith))

  empty_cons : (x : A) (xs : List A) → IsQueue k r (x ∷ xs) → (r.read == r.write) ≡ false
  empty_cons x xs q = ground (
    arith,
    q.read_in,
    q.room,
    q.write_at,
    wrap_cases (2 ^ k) r.read (suc (length xs)) q.read_in (omega (arith, q.room)),
  )

  pushed :
      (xs : List A) (v : A)
      → IsQueue k r xs
      → suc (length xs) < 2 ^ k
      → IsQueue k
          (record r { buffer = put_slot r.buffer r.write (some v); write = next_index k r.write })
          (xs ++ v ∷ [])
  pushed xs v q h = record {
    read_in = q.read_in;
    room = omega (arith, length-append xs (v ∷ []));
    write_at =
        rw (q.write_at, mod-add-mod)
          (ap (λ n. n % 2 ^ k) (omega (arith, length-append xs (v ∷ []))));
    slots = rw q.write_at (Holds-put (2 ^ k) r.buffer r.read xs v q.read_in q.room q.slots);
  }

  popped :
      (x : A) (xs : List A)
      → IsQueue k r (x ∷ xs)
      → IsQueue k
          (record r { buffer = put_slot r.buffer r.read none; read = next_index k r.read })
          xs
  popped x xs q = record {
    read_in = mod-lt _ (pow-pos k);
    room = omega (arith, q.room);
    write_at = q.write_at ∙ sym (turn (2 ^ k) r.read (length xs));
    slots = Holds-take (2 ^ k) r.buffer r.read x xs q.read_in q.room q.slots;
  }

  front : (x : A) (xs : List A) → IsQueue k r (x ∷ xs) → r.buffer r.read ≡ some x
  front x xs q =
      ground (arith, q.slots 0 (pow-pos k), wrap_cases (2 ^ k) r.read 0 q.read_in (omega arith))

  -- Push refuses exactly when the queue holds Capacity - 1 values, and changes nothing then;
  -- otherwise it appends the value.
  pub push_refines :
      (xs : List A) (v : A)
      → IsQueue k r xs
      → ((suc (length xs) ≡ 2 ^ k) × (push k v r ≡ (r, false)))
        ⊎ ((suc (length xs) < 2 ^ k)
            × ((push k v r).1 ≡ true)
            × IsQueue k (push k v r).0 (xs ++ v ∷ []))
  unfolding push
  push_refines xs v q = elim (Bool-cases (suc (length xs) == 2 ^ k)) [
    | inl full ↦ inl (ground arith, rw (full_iff xs q, full))
    | inr free ↦ inr (
      ground (arith, q.room),
      rw (full_iff xs q, free),
      rw (full_iff xs q, free) (pushed xs v q (ground (arith, q.room))),
    )
  ]

  -- Pop refuses exactly when the queue is empty, and changes nothing then; otherwise it hands over
  -- the oldest value and leaves the rest.
  pub pop_refines :
      (xs : List A)
      → IsQueue k r xs
      → ((xs ≡ []) × (pop k r ≡ (r, none)))
        ⊎ ((x : A) × (rest : List A) × (xs ≡ x ∷ rest)
            × ((pop k r).1 ≡ some x)
            × IsQueue k (pop k r).0 rest)
  unfolding pop
  pop_refines [] q = inl (refl, rw (empty_nil q))
  pop_refines (x ∷ xs) q =
      inr
        (x, xs, refl, rw (empty_cons x xs q) (front x xs q), rw (empty_cons x xs q) (popped x xs q))

  -- Size is the number of values held.
  pub size-IsQueue : (xs : List A) → IsQueue k r xs → size k r ≡ length xs
  unfolding size
  size-IsQueue xs q = ground (
    arith,
    q.read_in,
    q.room,
    q.write_at,
    wrap_cases (2 ^ k) r.read (length xs) q.read_in (omega (arith, q.room)),
  )

-- Slots that hold nothing once round from `base` hold nothing at all.
all_empty :
    {A : Type 0} (cap : ℕ) (b : ℕ → Option A) (base : ℕ)
    → base < cap
    → Holds cap b base []
    → (i : ℕ) → i < cap
    → b i ≡ none
all_empty cap b base hb h i hi = elim (dec_lt i base) [
  | yes p ↦ ground (
    arith,
    h (i + cap - base) (omega arith),
    wrap_cases cap base (i + cap - base) hb (omega arith),
  )
  | no p ↦
      ground (arith, h (i - base) (omega arith), wrap_cases cap base (i - base) hb (omega arith))
]

module _ {A : Type 0} (k : ℕ) (w : ℕ) where
  -- The destructor's loop, started on a queue with fuel for each value, leaves no object behind.
  destroy_loop_lem :
      (f : ℕ) (r : ℕ) (b : ℕ → Option A) (xs : List A)
      → IsQueue k (record { buffer = b; read = r; write = w }) xs
      → length xs < f
      → (b' : ℕ → Option A) × (destroy_loop k f r w b ≡ some b')
        × ((i : ℕ) → i < 2 ^ k → b' i ≡ none)
  unfolding destroy_loop
  destroy_loop_lem zero r b xs q h = absurd (omega arith)
  destroy_loop_lem (suc f) r b [] q h = (
    b,
    rw (empty_nil k (record { buffer = b; read = r; write = w }) q),
    all_empty (2 ^ k) b r q.read_in q.slots,
  )
  destroy_loop_lem (suc f) r b (x ∷ xs) q h =
      rw (empty_cons k (record { buffer = b; read = r; write = w }) x xs q) (
        destroy_loop_lem f (next_index k r) (put_slot b r none) xs
          (popped k (record { buffer = b; read = r; write = w }) x xs q) (omega arith))

-- The destructor ends, and leaves no constructed object in the storage.
pub destroy_total :
    {A : Type 0} (k : ℕ) (r : RingBuffer A) (xs : List A)
    → IsQueue k r xs
    → (b : ℕ → Option A) × (destroy k r ≡ some b) × ((i : ℕ) → i < 2 ^ k → b i ≡ none)
unfolding destroy
destroy_total k r xs q = destroy_loop_lem k r.write (2 ^ k) r.read r.buffer xs q q.room

-- A new ring is empty.
pub new-IsQueue : (A : Type 0) (k : ℕ) → IsQueue k (new A) []
new-IsQueue A k = record {
  read_in = pow-pos k;
  room = pow-pos k;
  write_at = omega (arith, mod-eq_of_lt {n = 0} {m = 2 ^ k} (pow-pos k));
  slots = λ i hi. refl;
}
