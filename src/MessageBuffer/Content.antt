-- ===== src/MessageBuffer/Content.antt =====
-- What a buffer holds, and the operations that move it.
use mathlib.Core.List.{append_assoc}
use cpp_infra.Common.{
  Bool-cases, List, [], ap, arith, drop, drop-append_self, inl, inr, length, length-append,
  length-drop, length-replicate, length-take, ltb, refl, replicate, suc, take, take-append_self,
  zero, ℕ, ◌++◌, ◌+◌, ◌-◌, ◌<◌, ◌^◌, ◌∙◌, ◌∷◌, ◌≡◌, ◌≤◌,
}
use cpp_infra.MessageBuffer.{
  MessageBuffer, memmove, normalize, get_all_data, get_active_size, resized, get_free_size,
}

-- The bytes `xs` lie between the positions, and the storage is far from filling the address space.
pub record Holds (b : MessageBuffer) (xs : List ℕ) : Type 0 where
  pub before : List ℕ
  pub after : List ℕ
  pub layout : b.bytes ≡ before ++ (xs ++ after)
  pub read_at : b.rpos ≡ length before
  pub write_at : b.wpos ≡ length before + length xs
  pub small : length b.bytes < 2 ^ 62

pub size_of :
    {b : MessageBuffer} {xs : List ℕ} (h : Holds b xs)
    → length b.bytes ≡ length h.before + (length xs + length h.after)
size_of {b} {xs} h =
    ap length h.layout
    ∙ omega (arith, length-append h.before (xs ++ h.after), length-append xs h.after)

pub active_size : {b : MessageBuffer} {xs : List ℕ} → Holds b xs → get_active_size b ≡ length xs
active_size h = omega (arith, h.read_at, h.write_at, size_of h, h.small)

pub free_size :
    {b : MessageBuffer} {xs : List ℕ} (h : Holds b xs) → get_free_size b ≡ length h.after
free_size h = omega (arith, h.read_at, h.write_at, size_of h, h.small)

pub at_read :
    {b : MessageBuffer} {xs : List ℕ} (h : Holds b xs) → drop b.rpos b.bytes ≡ xs ++ h.after
at_read h = rw (h.layout, h.read_at) (drop-append_self h.before _)

pub at_write : {b : MessageBuffer} {xs : List ℕ} (h : Holds b xs) → drop b.wpos b.bytes ≡ h.after
at_write {b} {xs} h =
    rw (h.layout, h.write_at, ← length-append h.before xs, ← append_assoc h.before xs h.after)
      (drop-append_self (h.before ++ xs) h.after)

pub to_write :
    {b : MessageBuffer} {xs : List ℕ} (h : Holds b xs) → take b.wpos b.bytes ≡ h.before ++ xs
to_write {b} {xs} h =
    rw (h.layout, h.write_at, ← length-append h.before xs, ← append_assoc h.before xs h.after)
      (take-append_self (h.before ++ xs) h.after)

-- `GetAllData` points to exactly the bytes held.
pub get_all_data-Holds : {b : MessageBuffer} {xs : List ℕ} → Holds b xs → get_all_data b ≡ xs
unfolding get_all_data
get_all_data-Holds {b} {xs} h = rw (active_size h, at_read h) (take-append_self xs h.after)

-- `Normalize` moves the bytes to the front and changes none of them.
pub normalize-Holds :
    {b : MessageBuffer} {xs : List ℕ}
    → Holds b xs
    → Holds (normalize b) xs
      × ((normalize b).rpos ≡ 0)
      × (length (normalize b).bytes ≡ length b.bytes)
unfolding normalize memmove
normalize-Holds {b} {xs} h = elim (Bool-cases (ltb 0 b.rpos)) [
  | inl e ↦
      let same : take (get_active_size b) (drop b.rpos b.bytes) ≡ xs = get_all in
      let len : length (xs ++ drop (length xs) b.bytes) ≡ length b.bytes = omega (
        arith,
        length-append xs (drop (length xs) b.bytes),
        length-drop (length xs) b.bytes,
        size_of h,
      ) in
      rw (e, same, active_size h)
        (
          record {
            before = [];
            after = drop (length xs) b.bytes;
            layout = refl;
            read_at = refl;
            write_at = omega arith;
            small = rw len h.small;
          },
          refl,
          len,
        )
  | inr e ↦ rw e (h, ground arith, refl)
]
  where
    get_all : take (get_active_size b) (drop b.rpos b.bytes) ≡ xs
    get_all = rw (active_size h, at_read h) (take-append_self xs h.after)

take-length_le : (n : ℕ) (xs : List ℕ) → length xs ≤ n → take n xs ≡ xs
take-length_le zero [] le = refl
take-length_le zero (x ∷ xs) le = absurd (omega arith)
take-length_le (suc n) [] le = refl
take-length_le (suc n) (x ∷ xs) le = ap (◌∷◌ x) (take-length_le n xs (omega arith))

pub resized-Holds :
    (size : ℕ) {b : MessageBuffer} {xs : List ℕ}
    → Holds b xs
    → size < 2 ^ 62
    → length b.bytes ≤ size
    → (g : Holds (resized size b) xs) × (length (resized size b).bytes ≡ size)
resized-Holds size {b} {xs} h lt ge = (
  record {
    before = h.before;
    after = h.after ++ replicate (size - length b.bytes) 0;
    layout =
        ap (λ ys. ys ++ replicate (size - length b.bytes) 0) (take_all ∙ h.layout)
        ∙ (append_assoc h.before (xs ++ h.after) _
            ∙ ap (◌++◌ h.before) (append_assoc xs h.after _));
    read_at = h.read_at;
    write_at = h.write_at;
    small = rw len lt;
  },
  len,
)
  where
    take_all : take size b.bytes ≡ b.bytes
    take_all = take-length_le size b.bytes ge

    len : length (take size b.bytes ++ replicate (size - length b.bytes) 0) ≡ size
    len = omega (
      arith,
      length-append (take size b.bytes) (replicate (size - length b.bytes) 0),
      length-take size b.bytes,
      length-replicate (size - length b.bytes) (zero),
    )
