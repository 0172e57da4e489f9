-- ===== src/LockedQueue.antt =====
-- free_queue/LockedQueue.h: a deque under a mutex. `none` is a thread that blocks on the mutex, which
-- it or another thread holds, or a `front` or `pop_front` of an empty deque.
mod Laws
mod Tests
use cpp_infra.Common.{
  Bool, List, Option, [], false, if◌then◌else◌, none, some, true, ◌++◌, ◌>>=◌, ◌∷◌,
}

-- `LockedQueue<T>`; `locked` says whether `_lock` is held
pub record LockedQueue {ℓ} (A : Type ℓ) : Type ℓ where
  pub locked : Bool
  pub queue : List A
  pub canceled : Bool

module _ {ℓ} {A : Type ℓ} where
  abbrev pub new : LockedQueue A
  new = record { locked = false; queue = []; canceled = false }

  unfoldable pub lock : LockedQueue A → Option (LockedQueue A)
  lock q = if q.locked then none else some (record q { locked = true })

  unfoldable pub unlock : LockedQueue A → LockedQueue A
  unlock q = record q { locked = false }

  unfoldable pub add : A → LockedQueue A → Option (LockedQueue A)
  add item q = do q' ← lock q; some (unlock (record q' { queue = q'.queue ++ (item ∷ []) }))

  -- `readd`, where the iterators give `items`
  unfoldable pub readd : List A → LockedQueue A → Option (LockedQueue A)
  readd items q = do q' ← lock q; some (unlock (record q' { queue = items ++ q'.queue }))

  -- the body of `next(result)`: the value, or none for false
  abbrev pub next_body : LockedQueue A → Option A × LockedQueue A
  next_body q = elim q.queue [
    | [] ↦ (none, q)
    | item ∷ rest ↦ (some item, record q { queue = rest })
  ]

  unfoldable pub next : LockedQueue A → Option (Option A × LockedQueue A)
  next q = do q' ← lock q; let r = next_body q'; some (r.0, unlock r.1)

  -- the body of `next(result, check)`, where `check` is `check.Process`; `result` is also assigned
  -- where the check fails
  abbrev pub next_checked_body : (A → Bool) → LockedQueue A → Option A × Bool × LockedQueue A
  next_checked_body check q = elim q.queue [
    | [] ↦ (none, false, q)
    | item ∷ rest ↦
        if check item then (some item, true, record q { queue = rest }) else (some item, false, q)
  ]

  -- The value assigned to `result`, the value returned, the queue.
  unfoldable pub next_checked :
      (A → Bool) → LockedQueue A → Option (Option A × Bool × LockedQueue A)
  next_checked check q = do
    q' ← lock q
    let r = next_checked_body check q'
    some (r.0, r.1, unlock r.2)

  abbrev pub front : List A → Option A
  front [] = none
  front (item ∷ rest) = some item

  unfoldable pub peek : Bool → LockedQueue A → Option (A × LockedQueue A)
  peek auto_unlock q = do
    q' ← lock q
    item ← front q'.queue
    some (item, if auto_unlock then unlock q' else q')

  unfoldable pub cancel : LockedQueue A → Option (LockedQueue A)
  cancel q = do q' ← lock q; some (unlock (record q' { canceled = true }))

  unfoldable pub cancelled : LockedQueue A → Option (Bool × LockedQueue A)
  cancelled q = do q' ← lock q; some (q'.canceled, unlock q')

  abbrev pub pop_body : LockedQueue A → Option (LockedQueue A)
  pop_body q = elim q.queue [ [] ↦ none | item ∷ rest ↦ some (record q { queue = rest }) ]

  unfoldable pub pop_front : LockedQueue A → Option (LockedQueue A)
  pop_front q = do q' ← lock q; popped ← pop_body q'; some (unlock popped)

  unfoldable pub empty : LockedQueue A → Option (Bool × LockedQueue A)
  empty q = do q' ← lock q; some (elim q'.queue [ [] ↦ true | item ∷ rest ↦ false ], unlock q')
