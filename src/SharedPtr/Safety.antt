-- ===== src/SharedPtr/Safety.antt =====
-- Every operation, on handles that keep the invariant.
use cpp_infra.Common.{Option, some, ℕ, ◌<◌, ◌≡◌, ◌≢◌}
use cpp_infra.SharedPtr.{
  SharedPtr, Store, null, Call, constructs, copies, copy_assigns, moves, move_assigns, resets,
  destroys,
}
use cpp_infra.SharedPtr.Invariant.{Sound}
use cpp_infra.SharedPtr.Release.{release-Released}
use cpp_infra.SharedPtr.Construct.{Fresh}

-- When a call may be made: on handles below `n`, a constructor where the handle does not exist yet.
abbrev pub Ready : ℕ → Call → Store → Type 0
Ready n (constructs h ptr b) s = (h < n) × (s.handles h ≡ null) × Fresh s ptr b
Ready n (copies h other) s = (h < n) × (s.handles h ≡ null)
Ready n (copy_assigns h other) s = h < n
Ready n (moves h other) s = (h < n) × (s.handles h ≡ null) × (other ≢ h) × (other < n)
Ready n (move_assigns h other) s = (h < n) × (other < n)
Ready n (resets h ptr b) s = (h < n) × Fresh s ptr b
Ready n (destroys h) s = h < n

abbrev pub Kept : ℕ → Option Store → Type 0
Kept n o = (s' : Store) × ((o ≡ some s') × Sound n s')

module _ (n : ℕ) (s : Store) (sound : Sound n s) (h : ℕ) (lt : h < n) where
  abbrev after : Store
  after = (release-Released n s sound h lt).0
