-- ===== src/MessageBuffer/Write.antt =====
-- EnsureFreeSpace, Write, ReadCompleted and WriteCompleted on a buffer that holds bytes.
use mathlib.Core.Path.{subst}
use mathlib.Core.List.{append-nil, append_assoc}
use cpp_infra.Common.{
  Bool-cases, List, [], ap, arith, drop, drop-add, false, inl, inr, leb, length, length-append,
  length-drop, length-take, ltb, max, refl, some, sym, take, take-append-drop, true, ℕ, ◌++◌, ◌+◌,
  ◌-◌, ◌/◌, ◌<◌, ◌^◌, ◌∙◌, ◌∷◌, ◌≡◌, ◌≤◌,
}
use cpp_infra.MessageBuffer.{
  MessageBuffer, read_completed, write_completed, normalize, get_active_size, get_buffer_size,
  sub64, add64, resize, resized, write_from, ensure_free_space, get_free_size, memcpy, write,
}
use cpp_infra.MessageBuffer.Content.{
  Holds, size_of, active_size, free_size, at_write, to_write, normalize-Holds, resized-Holds,
}

abbrev pub Room : ℕ → MessageBuffer → List ℕ → Type 0
Room size b xs = (h : Holds b xs) × (size ≤ length h.after)

Room-front :
    {size : ℕ} {b : MessageBuffer} {xs : List ℕ} (h : Holds b xs)
    → b.rpos ≡ 0
    → length xs + size ≤ length b.bytes
    → Room size b xs
Room-front h front fits = (h, omega (arith, size_of h, h.read_at))

resize-resized :
    (size : ℕ) (b : MessageBuffer) → size < 2 ^ 63 → resize size b ≡ some (resized size b)
unfolding resize
resize-resized size b lt = rw small refl
  where
    small : ltb (2 ^ 63 - 1) size ≡ false
    small = ground arith

-- `EnsureFreeSpace(size)`, for a size and a storage of less than 2 ^ 60 bytes, does not throw; after it
-- the buffer holds the same bytes and `size` more fit behind them.
pub ensure_free_space-Room :
    (size : ℕ) {b : MessageBuffer} {xs : List ℕ}
    → Holds b xs
    → size < 2 ^ 60
    → length b.bytes < 2 ^ 60
    → (b' : MessageBuffer) × (ensure_free_space size b ≡ some b') × Room size b' xs
unfolding ensure_free_space
ensure_free_space-Room size {b} {xs} h lt small =
    elim (Bool-cases (ltb (sub64 (get_buffer_size b) (get_active_size b)) size)) [
      | inl e ↦ (
        resized target (normalize b),
        rw (e, sum) (resize-resized target (normalize b) (omega (arith, small))),
        Room-front g.0 n.1 (omega (arith, g.1, total)),
      )
      | inr e ↦ elim (Bool-cases (ltb (get_free_size b) size)) [
        | inl f ↦ (
          normalize b,
          rw (e, f) refl,
          Room-front n.0 n.1 (omega (arith, n.2, total, active_size h, ge_of_ltb _ _ e)),
        )
        | inr f ↦ (b, rw (e, f) refl, (h, omega (arith, free_size h, ge_of_ltb _ _ f)))
      ]
    ]
  where
    n :
        Holds (normalize b) xs
        × ((normalize b).rpos ≡ 0)
        × (length (normalize b).bytes ≡ length b.bytes)
    n = normalize-Holds h

    total : length xs ≤ length b.bytes
    total = omega (arith, size_of h)

    ge_of_ltb : (a c : ℕ) → ltb a c ≡ false → c ≤ a
    ge_of_ltb a c h = ground arith

    target : ℕ
    target = length b.bytes + max size (length b.bytes / 2)

    sum :
        add64 (get_buffer_size (normalize b)) (max size (get_buffer_size (normalize b) / 2))
        ≡ target
    sum = rw n.2 (omega arith)

    g :
        Holds (resized target (normalize b)) xs
        × (length (resized target (normalize b)).bytes ≡ target)
    g = resized-Holds target n.0 (omega arith) (rw n.2 (omega arith))

-- `memcpy` to the write position of a buffer with room: the bytes appended are held, once
-- `WriteCompleted` has moved the position.
pub append-Holds :
    (src : List ℕ) {b : MessageBuffer} {xs : List ℕ} (r : Room (length src) b xs)
    → (bytes : List ℕ) × (memcpy b.bytes b.wpos src ≡ some bytes)
      × Holds (write_completed (length src) (record b { bytes = bytes })) (xs ++ src)
unfolding memcpy write_completed
append-Holds src {b} {xs} r = (
  _,
  rw (fits, to_write r.0, at_write') refl,
  record {
    before = r.0.before;
    after = drop (length src) r.0.after;
    layout = append_assoc r.0.before xs _ ∙ ap (◌++◌ r.0.before) (sym (append_assoc xs src _));
    read_at = r.0.read_at;
    write_at = rw sum (omega (arith, r.0.write_at, length-append xs src));
    small = omega (arith, len, size_of r.0, r.0.small, r.1);
  },
)
  where
    fits : leb (b.wpos + length src) (length b.bytes) ≡ true
    fits = ground (arith, size_of r.0, r.1, r.0.write_at)

    at_write' : drop (b.wpos + length src) b.bytes ≡ drop (length src) r.0.after
    at_write' = drop-add b.wpos (length src) b.bytes ∙ ap (drop (length src)) (at_write r.0)

    sum : add64 b.wpos (length src) ≡ b.wpos + length src
    sum = omega (arith, size_of r.0, r.0.small, r.1, r.0.write_at)

    len :
        length ((r.0.before ++ xs) ++ (src ++ drop (length src) r.0.after))
        ≡ length r.0.before + length xs + (length src + (length r.0.after - length src))
    len = omega (
      arith,
      length-append (r.0.before ++ xs) (src ++ drop (length src) r.0.after),
      length-append r.0.before xs,
      length-append src (drop (length src) r.0.after),
      length-drop (length src) r.0.after,
    )

-- `Write` of any bytes onto a buffer of less than 2 ^ 60 bytes succeeds, inside the storage, and
-- appends exactly these bytes to the bytes held.
pub write-Holds :
    (src : List ℕ) {b : MessageBuffer} {xs : List ℕ}
    → Holds b xs
    → length src < 2 ^ 60
    → length b.bytes < 2 ^ 60
    → (b' : MessageBuffer) × (write src b ≡ some b') × Holds b' (xs ++ src)
unfolding write write_from
write-Holds [] {b} {xs} h lt small = (b, refl, subst (Holds b) (sym (append-nil xs)) h)
write-Holds (c ∷ src) {b} {xs} h lt small =
    let r = ensure_free_space-Room (length (c ∷ src)) h lt small in
    let a = append-Holds (c ∷ src) r.2 in (_, rw (tested, itself, r.1, a.1) refl, a.2)
  where
    tested : ltb 0 (length (c ∷ src)) ≡ true
    tested = ground arith

    itself : leb (length (c ∷ src)) (length (c ∷ src)) ≡ true
    itself = ground arith

-- After `ReadCompleted(k)`, for no more than the bytes held, the first `k` bytes are gone.
pub read_completed-Holds :
    (k : ℕ) {b : MessageBuffer} {xs : List ℕ}
    → Holds b xs
    → k ≤ length xs
    → Holds (read_completed k b) (drop k xs)
unfolding read_completed
read_completed-Holds k {b} {xs} h le = record {
  before = h.before ++ take k xs;
  after = h.after;
  layout =
      h.layout
      ∙ (ap (λ ys. h.before ++ (ys ++ h.after)) (sym (take-append-drop k xs))
          ∙ (ap (◌++◌ h.before) (append_assoc (take k xs) _ _)
              ∙ sym (append_assoc h.before (take k xs) _)));
  read_at =
      omega (
        arith,
        length-append h.before (take k xs),
        length-take k xs,
        size_of h,
        h.small,
        h.read_at,
      );
  write_at =
      omega
        (arith, length-append h.before (take k xs), length-take k xs, length-drop k xs, h.write_at);
  small = h.small;
}
