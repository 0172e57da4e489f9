-- ===== src/LockedQueue/Tests.antt =====
-- Runs of the theorems on concrete queues.
use cpp_infra.Common.{List, [], false, none, some, ℕ, ◌>>=◌, ◌∷◌, ◌≡◌}
use cpp_infra.LockedQueue.{LockedQueue, readd, peek, pop_front, unlock}
use cpp_infra.LockedQueue.Laws.{adds, nexts, free, nexts-adds, nexts-readd, peek-pop_front}

abbrev two : List ℕ
two = 1 ∷ 2 ∷ []

nexts-adds_example :
    (do q ← adds two (free (5 ∷ []) false); nexts 3 q) ≡ some (5 ∷ two, free [] false)
nexts-adds_example = nexts-adds two (5 ∷ []) false

nexts-readd_example :
    (do q ← readd two (free (5 ∷ []) false); nexts 2 q) ≡ some (two, free (5 ∷ []) false)
nexts-readd_example = nexts-readd two (5 ∷ []) false

peek-pop_front_example :
    (q : LockedQueue ℕ) × (peek false (free two false) ≡ some (1, q))
    × (pop_front q ≡ none)
    × (pop_front (unlock q) ≡ some (free (2 ∷ []) false))
peek-pop_front_example = peek-pop_front 1 (2 ∷ []) false
