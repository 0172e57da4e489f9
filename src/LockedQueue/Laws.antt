-- ===== src/LockedQueue/Laws.antt =====
-- The order of a LockedQueue, and its lock across calls.
use mathlib.Core.List.{append-nil, append_assoc}
use mathlib.Core.Path.{subst}
use cpp_infra.Common.{
  Bool, List, Option, [], false, length, none, refl, some, suc, zero, ℕ, ◌++◌, ◌>>=◌, ◌∷◌, ◌≡◌,
}
use cpp_infra.LockedQueue.{LockedQueue, lock, unlock, add, readd, next, peek, pop_front}

module _ {ℓ} {A : Type ℓ} where
  -- calls of `add` in a row
  abbrev pub adds : List A → LockedQueue A → Option (LockedQueue A)
  adds [] q = some q
  adds (item ∷ items) q = do q' ← add item q; adds items q'

  -- calls of `next` in a row that all return true
  abbrev pub nexts : ℕ → LockedQueue A → Option (List A × LockedQueue A)
  nexts zero q = some ([], q)
  nexts (suc n) q = do r ← next q; item ← r.0; rest ← nexts n r.1; some (item ∷ rest.0, rest.1)

  -- a queue that nobody has locked
  abbrev pub free : List A → Bool → LockedQueue A
  free queue canceled = record { locked = false; queue = queue; canceled = canceled }

  nexts_lem :
      (items rest : List A) (canceled : Bool)
      → nexts (length items) (free (items ++ rest) canceled) ≡ some (items, free rest canceled)
  unfolding next lock unlock
  nexts_lem [] rest canceled = refl
  nexts_lem (item ∷ items) rest canceled = rw (nexts_lem items rest canceled) refl

  adds_lem :
      (items queue : List A) (canceled : Bool)
      → adds items (free queue canceled) ≡ some (free (queue ++ items) canceled)
  unfolding add lock unlock
  adds_lem [] queue canceled = rw (append-nil queue) refl
  adds_lem (item ∷ items) queue canceled =
      rw (adds_lem items (queue ++ (item ∷ [])) canceled, append_assoc queue (item ∷ []) items) refl

  -- On a queue that nobody has locked, any items added and as many items taken as there are then: none
  -- of the calls blocks, and they return what was queued and then the items, in order.
  pub nexts-adds :
      (items queue : List A) (canceled : Bool)
      → (do q ← adds items (free queue canceled); nexts (length (queue ++ items)) q)
        ≡ some (queue ++ items, free [] canceled)
  nexts-adds items queue canceled = rw (adds_lem items queue canceled) (
      subst
        (λ xs.
          nexts (length (queue ++ items)) (free xs canceled)
          ≡ some (queue ++ items, free [] canceled))
        (append-nil (queue ++ items)) (nexts_lem (queue ++ items) [] canceled))

  -- On a queue that nobody has locked, `readd` puts items back before the others: as many calls of
  -- `next` return exactly these and leave the queue as it was.
  pub nexts-readd :
      (items queue : List A) (canceled : Bool)
      → (do q ← readd items (free queue canceled); nexts (length items) q)
        ≡ some (items, free queue canceled)
  unfolding readd lock unlock
  nexts-readd items queue canceled = nexts_lem items queue canceled

  -- On a queue that nobody has locked and that is not empty, `peek` without unlocking keeps the lock:
  -- a `pop_front` blocks before an `unlock`, and after it removes the item that `peek` returned.
  pub peek-pop_front :
      (item : A) (queue : List A) (canceled : Bool)
      → (q : LockedQueue A) × (peek false (free (item ∷ queue) canceled) ≡ some (item, q))
        × (pop_front q ≡ none)
        × (pop_front (unlock q) ≡ some (free queue canceled))
  unfolding peek pop_front lock unlock
  peek-pop_front item queue canceled = (_, refl, refl, refl)
