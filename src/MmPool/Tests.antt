-- ===== src/MmPool/Tests.antt =====
-- Runs of the theorems on concrete pools.
use mathlib.Core.Option.{some-injective}
use cpp_infra.Common.{[], arith, inr, refl, some, ℕ, ◌<◌, ◌∷◌, ◌≡◌, ◌≤◌}
use cpp_infra.MmPool.{Node, Pool, System, large_size, create_pool, mp_alloc, mp_nalloc}
use cpp_infra.MmPool.Packed.{Valid, create_pool-Valid}
use cpp_infra.MmPool.Block.{SystemOk, Outcome}
use cpp_infra.MmPool.Alloc.{Roomy, IsAligned, mp_alloc-Outcome, mp_nalloc-Outcome}
use cpp_infra.MmPool.Overrun.{mp_alloc_overrun}

-- The pool of 4096 bytes in storage at the address 4096.
abbrev page : Pool
page = create_pool 4096 4096 []

abbrev system : System
system = record { memalign = some 12288; malloc = some 20000 }

page-Valid : Valid page
page-Valid = create_pool-Valid 4096 4096 (omega arith)

system-SystemOk : SystemOk system page.nodes
unfolding create_pool
system-SystemOk = record {
  memalign_ok = λ m e.
      (let eq : 12288 ≡ m = some-injective 12288 m e in
        (omega arith, omega arith, (inr (omega arith), tt)));
  malloc_ok = λ p e z. (let eq : 20000 ≡ p = some-injective 20000 p e in omega arith);
}

page-Roomy : Roomy page
unfolding create_pool
page-Roomy = ((omega arith, omega arith), tt)

page_max : large_size ≤ page.max
unfolding create_pool
page_max = omega arith

mp_alloc-Outcome_example :
    (r : ℕ × Pool) × (mp_alloc 2 system 512 page ≡ some r) × Outcome IsAligned system 512 page r
mp_alloc-Outcome_example =
    mp_alloc-Outcome 0 system 512 page page-Valid system-SystemOk page-Roomy page_max

small_request : 100 ≤ page.max
unfolding create_pool
small_request = omega arith

mp_nalloc-Outcome_example :
    (r : ℕ × Pool) × (mp_nalloc 1 system 100 page ≡ some r)
    × Outcome (λ p. Unit {0}) system 100 page r
mp_nalloc-Outcome_example =
    mp_nalloc-Outcome 1 system 100 page page-Valid system-SystemOk small_request

-- The head of that pool with 18 bytes left.
abbrev almost_full : Node
almost_full = record { base = 4120; last = 8230; end = 8248; failed = 0; blocks = [] }

abbrev full_page : Pool
full_page = record { base = 4096; max = 4095; current = 0; nodes = almost_full ∷ []; large = [] }

mp_alloc_overrun_example :
    (p : ℕ) × (pool' : Pool) × (mp_alloc 1 system 4095 full_page ≡ some (p, pool')) × (8248 < p)
mp_alloc_overrun_example =
    mp_alloc_overrun 0 system 4095 full_page almost_full [] refl (omega arith) (omega arith)
      (omega arith) (omega arith) (omega arith)
