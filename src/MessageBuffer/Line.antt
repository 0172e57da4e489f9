-- ===== src/MessageBuffer/Line.antt =====
-- GetDataUntilCRLF: the first line end in the bytes held.
use native.Mathlib.Decide.{dec_lt, ℕ_discrete}
use cpp_infra.Common.{
  Bool-cases, List, Option, Option-cases, [], ap, arith, eq_of_==, get_elem?, get_elem?-append_left,
  get_elem?-none, get_elem?-some, inl, inr, length, ne_of_==, ne_test, none, refl, some, suc, zero,
  ℕ, ◌++◌, ◌+◌, ◌-◌, ◌<◌, ◌==◌, ◌^◌, ◌∙◌, ◌≡◌, ◌≢◌, ◌≤◌,
}
use cpp_infra.MessageBuffer.{MessageBuffer, get_active_size, sub64, crlf_loop, get_data_until_crlf}
use cpp_infra.MessageBuffer.Content.{Holds, size_of, active_size, at_read}

-- At `i` of the bytes `xs` stands a line end.
abbrev pub IsEnd : List ℕ → ℕ → Type 0
IsEnd xs i = (get_elem? xs i ≡ some b'\r') × (get_elem? xs (i + 1) ≡ some b'\n')

-- What a search of the bytes `xs` from `i` returned: the first line end, or none where there is none.
pub data Found (xs : List ℕ) (i : ℕ) : Option ℕ → Type 0 where
  line :
      (j : ℕ) → i ≤ j → IsEnd xs j → ((k : ℕ) → i ≤ k → k < j → ¬ IsEnd xs k) → Found xs i (some j)
  no_line : ((k : ℕ) → i ≤ k → ¬ IsEnd xs k) → Found xs i none

from_next : {xs : List ℕ} {i : ℕ} {o : Option ℕ} → ¬ IsEnd xs i → Found xs (i + 1) o → Found xs i o
from_next {xs} {i} other (line j le end first) =
    line j (omega arith) end
      (λ k ge lt. elim (ℕ_discrete k i) [ yes e ↦ rw e other | no ne ↦ first k (omega arith) lt ])
from_next {xs} {i} other (no_line rest) =
    no_line (λ k ge. elim (ℕ_discrete k i) [ yes e ↦ rw e other | no ne ↦ rest k (omega arith) ])

at_last : (xs : List ℕ) (i k : ℕ) → i + 1 ≡ length xs → i ≤ k → ¬ IsEnd xs k
at_last xs i k h le end =
    let beyond = get_elem?-none xs (k + 1) (omega arith) in absurd (cc (beyond, end.1))

-- The loop over the bytes `xs`, with whatever follows them, finds the first line end from `i` on.
crlf_loop-Found :
    (rounds : ℕ) (xs after : List ℕ) (i : ℕ)
    → rounds + i + 1 ≡ length xs
    → (o : Option ℕ) × (crlf_loop rounds (xs ++ after) i ≡ some o) × Found xs i o
unfolding crlf_loop
crlf_loop-Found zero xs after i h = (none, refl, no_line (λ k le. at_last xs i k (omega arith) le))
crlf_loop-Found (suc rounds) xs after i h =
    let rest = crlf_loop-Found rounds xs after (i + 1) (omega arith) in
    let c = get_elem?-some xs i (omega arith) in
    let d = get_elem?-some xs (i + 1) (omega arith) in
    let same_c = get_elem?-append_left xs after i (omega arith) ∙ c.1 in
    let same_d = get_elem?-append_left xs after (i + 1) (omega arith) ∙ d.1 in
    rw (same_c, same_d)
      (elim (Bool-cases (c.0 == b'\r')) [
        | inl e ↦ elim (Bool-cases (d.0 == b'\n')) [
          | inl f ↦ (
            some i,
            rw (e, f) refl,
            line i (omega arith) (rw (c.1, eq_of_== _ _ e) refl, rw (d.1, eq_of_== _ _ f) refl)
                (λ k ge lt. absurd (omega arith)),
          )
          | inr f ↦
              (rest.0, rw (e, f) rest.1, from_next (λ end. ne_of_== _ _ f (cc (d.1, end.1))) rest.2)
        ]
        | inr e ↦ (rest.0, rw e rest.1, from_next (λ end. ne_of_== _ _ e (cc (c.1, end.0))) rest.2)
      ])

-- On a buffer that holds at least one byte, `GetDataUntilCRLF` reads only the storage and returns
-- the length of the first line, the least index of a CRLF in the bytes held, or the null pointer
-- where the bytes held have no CRLF.
pub get_data_until_crlf-Found :
    {b : MessageBuffer} {xs : List ℕ}
    → Holds b xs
    → 1 ≤ length xs
    → (o : Option ℕ) × (get_data_until_crlf b ≡ some o) × Found xs 0 o
unfolding get_data_until_crlf
get_data_until_crlf-Found {b} {xs} h some_bytes =
    rw (at_read h, rounds) (crlf_loop-Found (length xs - 1) xs h.after 0 (omega arith))
  where
    rounds : sub64 (get_active_size b) 1 ≡ length xs - 1
    rounds = rw (active_size h) (omega (arith, size_of h, h.small))

-- On a storage without '\r', the loop runs out of it where it has more rounds than there are bytes.
crlf_loop_outside :
    (rounds : ℕ) (bytes : List ℕ) (i : ℕ)
    → ((k : ℕ) → get_elem? bytes k ≢ some b'\r')
    → length bytes < rounds + i
    → i ≤ length bytes
    → crlf_loop rounds bytes i ≡ none
unfolding crlf_loop
crlf_loop_outside zero bytes i clean lt le = absurd (omega arith)
crlf_loop_outside (suc rounds) bytes i clean lt le = elim (Option-cases (get_elem? bytes i)) [
  | inl e ↦ rw e refl
  | inr (c, e) ↦
      let inside : i < length bytes = elim (dec_lt i (length bytes)) [
        | yes lt' ↦ lt'
        | no ge ↦ absurd (cc (e, get_elem?-none bytes i (omega arith)))
      ] in
      rw (e, ne_test c b'\r' (λ eq. clean i (rw e (ap some eq))))
        (crlf_loop_outside rounds bytes (i + 1) clean (omega arith) (omega arith))
]

-- On a buffer that holds no byte, `active_size - 1` is 2 ^ 64 - 1: the loop reads beyond the storage
-- when no '\r' lies behind the read position.
pub get_data_until_crlf_empty :
    {b : MessageBuffer} (h : Holds b [])
    → ((k : ℕ) → get_elem? h.after k ≢ some b'\r')
    → get_data_until_crlf b ≡ none
unfolding get_data_until_crlf
get_data_until_crlf_empty {b} h clean =
    rw (at_read h, rounds)
      (crlf_loop_outside (2 ^ 64 - 1) h.after 0 clean (omega (arith, size_of h, h.small))
        (omega arith))
  where
    rounds : sub64 (get_active_size b) 1 ≡ 2 ^ 64 - 1
    rounds = rw (active_size h) refl
