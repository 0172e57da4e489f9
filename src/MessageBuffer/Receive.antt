-- ===== src/MessageBuffer/Receive.antt =====
-- Recv, and new buffers.
use mathlib.Core.List.{append_assoc}
use mathlib.Core.Path.{subst}
use cpp_infra.Common.{
  Bool-cases, List, Option-cases, [], ap, arith, drop, false, inl, inr, leb, length, length-append,
  length-drop, length-replicate, length-take, ltb, max, ne_test, none, refl, replicate, some, take,
  take-append-drop, true, zero, ℕ, ◌++◌, ◌+◌, ◌-◌, ◌/◌, ◌<◌, ◌^◌, ◌∙◌, ◌≡◌, ◌≤◌,
}
use cpp_infra.MessageBuffer.{
  add64, normalize, resize, MessageBuffer, failed, received, Recv, recv, new, fill, write_completed,
  econnreset, get_free_size, sub64, memcpy, write, write_from, ensure_free_space,
}
use cpp_infra.MessageBuffer.Content.{Holds, size_of, free_size}
use cpp_infra.MessageBuffer.Write.{append-Holds, write-Holds}

-- A new buffer holds no byte.
pub new-Holds : (size : ℕ) → size < 2 ^ 62 → Holds (new size) []
new-Holds size lt = record {
  before = [];
  after = replicate size 0;
  layout = refl;
  read_at = refl;
  write_at = refl;
  small = omega (arith, length-replicate size (zero));
}

-- What a `Recv` that reported no error did: the buffer now holds `xs`, and `n` bytes were counted.
pub record Delivered (r : Recv) (n : ℕ) (xs : List ℕ) : Type 0 where
  pub counted : r.count ≡ n
  pub no_error : r.error ≡ none
  pub content : Holds r.buffer xs

length-memcpy :
    (bytes : List ℕ) (at : ℕ) (src : List ℕ) {out : List ℕ}
    → memcpy bytes at src ≡ some out
    → length out ≡ length bytes
unfolding memcpy
length-memcpy bytes at src {out} h = elim (Bool-cases (leb (at + length src) (length bytes))) [
  | inl e ↦
      let eq : some (take at bytes ++ (src ++ drop (at + length src) bytes)) ≡ some out =
        rw e at h in
      let same : take at bytes ++ (src ++ drop (at + length src) bytes) ≡ out = cc eq in
      rw (← same) (
        omega (
          arith,
          length-append (take at bytes) (src ++ drop (at + length src) bytes),
          length-append src (drop (at + length src) bytes),
          length-take at bytes,
          length-drop (at + length src) bytes,
          le_of _ _ e,
        ))
  | inr e ↦ let eq : none ≡ some out = rw e at h in absurd (cc eq)
]
  where
    le_of : (a c : ℕ) → leb a c ≡ true → a ≤ c
    le_of a c h = ground arith

-- From `extra`, as many bytes as it has at most are written as from anywhere.
write_from-write :
    (src : List ℕ) {size : ℕ} (b : MessageBuffer)
    → size ≡ length src
    → length src ≤ 65535
    → write_from 65535 size src b ≡ write src b
unfolding write write_from
write_from-write src b e le = rw (e, readable, itself) refl
  where
    readable : leb (length src) 65535 ≡ true
    readable = ground arith

    itself : leb (length src) (length src) ≡ true
    itself = ground arith

fits_all :
    (src : List ℕ) {b : MessageBuffer} {xs : List ℕ} (h : Holds b xs)
    → length src ≤ length h.after
    → (b' : MessageBuffer) × (fill src b ≡ some b')
      × Holds (write_completed (length src) b') (xs ++ src)
      × (length b'.bytes ≡ length b.bytes)
fits_all src {b} {xs} h le =
    let a = append-Holds src (h, le) in
    (record b { bytes = a.0 }, rw a.1 refl, a.2, length-memcpy b.bytes b.wpos src a.1)

-- `Recv` on a descriptor from which `readv` gives the bytes `src`, at least one and no more than
-- the free space and the 65535 bytes of the stack buffer take: it stays inside the storage, returns
-- their number, reports no error, and the buffer holds them behind what it held.
pub recv-Delivered :
    (src : List ℕ) {b : MessageBuffer} {xs : List ℕ}
    → Holds b xs
    → 1 ≤ length src
    → length src ≤ get_free_size b + 65535
    → length b.bytes < 2 ^ 60
    → (r : Recv) × (recv (received src) b ≡ some r) × Delivered r (length src) (xs ++ src)
unfolding recv write_completed
recv-Delivered src {b} {xs} h one le small =
    rw (ne_test (length src) 0 (omega arith))
      (elim (Bool-cases (leb (length src) (get_free_size b))) [
        | inl e ↦
            let f = fits_all src h (omega (arith, free_size h, le_of _ _ e)) in
            rw (e, f.1) (_, refl, record { counted = refl; no_error = refl; content = f.2 })
        | inr e ↦
            let f =
              fits_all (take (get_free_size b) src) h
                (omega (arith, length-take (get_free_size b) src, free_size h)) in
            let filled =
              subst (λ n. Holds (write_completed n f.0) (xs ++ take (get_free_size b) src))
                (taken e) f.2 in
            let w =
              write-Holds (drop (get_free_size b) src) filled
                (omega (arith, length-drop (get_free_size b) src, free_size h, size_of h))
                (len (get_free_size b) f.0 f.3) in
            rw (e, f.1, write_from_extra e (write_completed (get_free_size b) f.0))
              (rw w.1 (
                _,
                refl,
                record {
                  counted = refl;
                  no_error = refl;
                  content =
                      subst (Holds w.0)
                        (append_assoc xs _ _
                          ∙ ap (◌++◌ xs) (take-append-drop (get_free_size b) src))
                        w.2;
                },
              ))
      ])
  where
    le_of : (a c : ℕ) → leb a c ≡ true → a ≤ c
    le_of a c h = ground arith

    taken :
        leb (length src) (get_free_size b) ≡ false
        → length (take (get_free_size b) src) ≡ get_free_size b
    taken e = ground (arith, length-take (get_free_size b) src)

    over : (a c : ℕ) → leb a c ≡ false → c < a
    over a c h = ground arith

    rest : ℕ
    rest = length (drop (get_free_size b) src)

    write_from_extra :
        leb (length src) (get_free_size b) ≡ false
        → (c : MessageBuffer)
        → write_from 65535 (sub64 (length src) (get_free_size b)) (drop (get_free_size b) src) c
          ≡ write (drop (get_free_size b) src) c
    write_from_extra e c = write_from-write (drop (get_free_size b) src) c (size e) (bound e)
      where
        size :
            leb (length src) (get_free_size b) ≡ false → sub64 (length src) (get_free_size b) ≡ rest
        size e =
            omega (
              arith,
              length-drop (get_free_size b) src,
              free_size h,
              size_of h,
              h.small,
              over _ _ e,
            )

        bound : leb (length src) (get_free_size b) ≡ false → rest ≤ 65535
        bound e = omega (arith, length-drop (get_free_size b) src)

    len :
        (k : ℕ) (b' : MessageBuffer)
        → length b'.bytes ≡ length b.bytes
        → length (write_completed k b').bytes < 2 ^ 60
    len k b' same = omega (arith, same)

-- `Recv` on a descriptor at its end changes nothing, stores ECONNRESET and returns 0.
pub recv_closed :
    (b : MessageBuffer)
    → recv (received []) b ≡ some (record { count = 0; error = some econnreset; buffer = b })
unfolding recv
recv_closed b = refl

-- On a buffer with nothing before its bytes and no free space, as `Recv` leaves a buffer that held
-- nothing at its start, `EnsureFreeSpace` of the size that `Recv` then computes from a failed `readv`
-- throws: the size of the storage would be 2 ^ 64 - 1.
pub ensure_free_space_throws :
    (b : MessageBuffer)
    → b.rpos ≡ 0
    → b.wpos ≡ length b.bytes
    → length b.bytes < 2 ^ 62
    → ensure_free_space (sub64 (2 ^ 64 - 1) (length b.bytes)) b ≡ none
unfolding ensure_free_space normalize resize
ensure_free_space_throws b front full lt = rw (at_front, too_small, too_large) refl
  where
    at_front : ltb 0 b.rpos ≡ false
    at_front = ground (arith, front)

    size : ℕ
    size = sub64 (2 ^ 64 - 1) (length b.bytes)

    too_small : ltb (sub64 (length b.bytes) (sub64 b.wpos b.rpos)) size ≡ true
    too_small = ground (arith, front, full, lt)

    too_large : ltb (2 ^ 63 - 1) (add64 (length b.bytes) (max size (length b.bytes / 2))) ≡ true
    too_large = ground (arith, lt)

-- More bytes than `extra` has are not written.
write_from-behind :
    (size : ℕ) (src : List ℕ) (b : MessageBuffer)
    → 65535 < size
    → write_from 65535 size src b ≡ none
unfolding write_from
write_from-behind size src b lt =
    rw (some_size, behind)
      (elim (Option-cases (ensure_free_space size b)) [
        | inl e ↦ rw e refl
        | inr (b', e) ↦ rw e refl
      ])
  where
    some_size : ltb 0 size ≡ true
    some_size = ground arith

    behind : leb size 65535 ≡ false
    behind = ground arith

-- `Recv` on a descriptor on which `readv` fails, for every errno: the test `n < 0` on an unsigned
-- number is never true, so the code takes the failure for 2 ^ 64 - 1 bytes received. It does not
-- return: `resize` throws, or `Write` copies from behind the stack buffer. No `errno` is stored.
pub recv-failed : (e : ℕ) {b : MessageBuffer} {xs : List ℕ} → Holds b xs → recv (failed e) b ≡ none
unfolding recv
recv-failed e {b} {xs} h = rw big (elim (Option-cases (fill (take (get_free_size b) []) b)) [
  | inl none_eq ↦ rw none_eq refl
  | inr (a, some_eq) ↦
      rw (some_eq, write_from-behind _ _ (write_completed (get_free_size b) a) nothing) refl
])
  where
    big : leb (2 ^ 64 - 1) (get_free_size b) ≡ false
    big = ground (arith, free_size h, size_of h, h.small)

    nothing : 65535 < sub64 (2 ^ 64 - 1) (get_free_size b)
    nothing = omega (arith, free_size h, size_of h, h.small)
