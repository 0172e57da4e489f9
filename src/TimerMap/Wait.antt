-- ===== src/TimerMap/Wait.antt =====
-- The time that the event loop waits.
use cpp_infra.Common.{
  List, ap, arith, if◌then◌else◌, inl, inr, ltb, ltb-false, ltb-true, negsuc, pos, refl, suc, zero,
  ℕ, ◌%◌, ◌+◌, ◌-◌, ◌<◌, ◌^◌, ◌∙◌, ◌∷◌, ◌≡◌, ◌≤◌, ◌⊎◌,
}
use native.Mathlib.Decide.{dec_lt}
use cpp_infra.TimerMap.{TimerNode, wait_time, to_int}

positive_part : (d : ℕ) → (if ltb 0 d then d else 0) ≡ d
positive_part zero = refl
positive_part (suc d) = rw (ltb-true 0 (suc d) (omega arith)) refl

to_int_small : (d : ℕ) → d < 2 ^ 31 → to_int d ≡ pos d
to_int_small d lt = let r : d % 2 ^ 32 ≡ d = omega arith in rw (r, ltb-true d (2 ^ 31) lt) refl

to_int_wrapped : (e : ℕ) → e < 2 ^ 31 → to_int (2 ^ 64 - 1 - e) ≡ negsuc e
to_int_wrapped e lt =
    let r : (2 ^ 64 - 1 - e) % 2 ^ 32 ≡ 2 ^ 32 - 1 - e = omega arith in
    rw (r, ltb-false (2 ^ 32 - 1 - e) (2 ^ 31) (omega arith)) (ap negsuc (omega arith))

-- With the first timer less than 2 ^ 31 milliseconds away, `WaitTime` is the time left where it has not
-- expired. Where it has, the unsigned difference is positive and wraps around: `WaitTime` is the
-- negative of the time since, with which epoll_wait waits without end.
pub wait_time_near :
    (now : ℕ) (n : TimerNode) (ms : List TimerNode)
    → now < 2 ^ 64
    → n.timeout < 2 ^ 64
    → n.timeout < now + 2 ^ 31
    → now < n.timeout + 2 ^ 31
    → ((now ≤ n.timeout) × (wait_time now (n ∷ ms) ≡ pos (n.timeout - now)))
      ⊎ ((n.timeout < now) × (wait_time now (n ∷ ms) ≡ negsuc (now - n.timeout - 1)))
unfolding wait_time
wait_time_near now n ms lt_now lt near near' = elim (dec_lt n.timeout now) [
  | yes past ↦
      let wrapped : (n.timeout + 2 ^ 64 - now) % 2 ^ 64 ≡ 2 ^ 64 - 1 - (now - n.timeout - 1) =
        omega arith in
      inr (
        past,
        ap to_int (positive_part _ ∙ wrapped) ∙ to_int_wrapped (now - n.timeout - 1) (omega arith),
      )
  | no ahead ↦
      let exact : (n.timeout + 2 ^ 64 - now) % 2 ^ 64 ≡ n.timeout - now = omega arith in
      inl (
        omega arith,
        ap to_int (positive_part _ ∙ exact) ∙ to_int_small (n.timeout - now) (omega arith),
      )
]
