-- ===== src/SharedPtr/Tests.antt =====
-- Runs of the handles of atomic_lock/shared_ptr.h.
use cpp_infra.Common.{Bool, Option, false, refl, some, ℕ, ◌==◌, ◌>>=◌, ◌≡◌}
use cpp_infra.SharedPtr.{
  SharedPtr, Store, null, Call, constructs, copies, copy_assigns, moves, move_assigns, resets,
  destroys, run, use_count, get,
}

-- No handle exists; the object 50 does.
abbrev nothing_owned : Store
nothing_owned = record {
  handles = λ k. null;
  count = λ b. 0;
  counter_live = λ b. false;
  object_live = λ p. p == 50;
}

-- Two owners, then one, then none: the object is deleted with the last.
abbrev counts : Option (Option ℕ × Option ℕ × Bool)
counts = do
  s1 ← run (constructs 0 (some 50) 7) nothing_owned
  s2 ← run (copies 1 0) s1
  s3 ← run (copy_assigns 0 2) s2
  s4 ← run (destroys 1) s3
  some (use_count 0 s2, use_count 1 s3, s4.object_live 50)

counts_here : counts ≡ some (some 2, some 1, false)
unfolding run use_count cpp_infra.SharedPtr.construct cpp_infra.SharedPtr.copy
    cpp_infra.SharedPtr.copy_assign cpp_infra.SharedPtr.release cpp_infra.SharedPtr.destroy
counts_here = refl
