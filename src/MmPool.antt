-- ===== src/MmPool.antt =====
-- mempool/mm_pool_.c: a pool that hands out blocks from nodes of memory, and large blocks from malloc.
-- Pointers are addresses, 0 the null pointer; size_t and pointer arithmetic is written out modulo
-- 2 ^ 64, and the sizes of the structs are those of a 64-bit machine. What `posix_memalign` and
-- `malloc` answer is a parameter, none for a failure. The contents of the memory are not modelled.
-- `blocks` records what was handed out of a node, last first; the code has no such field.
pub mod Packed
pub mod Walk
pub mod Block
pub mod Alloc
pub mod Overrun
mod Tests
use cpp_infra.Common.{
  List, Option, [], drop, if◌then◌else◌, leb, ltb, max, none, some, suc, take, zero, ℕ, ◌%◌, ◌*◌,
  ◌++◌, ◌+◌, ◌-◌, ◌/◌, ◌==◌, ◌>>=◌, ◌^◌, ◌∷◌,
}

-- `struct mp_node_s` at the address `base`; `next` is the order of the list of nodes
pub record Node : Type 0 where
  pub base : ℕ
  pub last : ℕ
  pub end : ℕ
  pub failed : ℕ
  pub blocks : List (ℕ × ℕ)

-- `struct mp_large_s` at the address `at`
pub record Large : Type 0 where
  pub at : ℕ
  pub alloc : ℕ

-- `struct mp_pool_s` at the address `base`; `current` is an index in the list of nodes, whose first is
-- `head`
pub record Pool : Type 0 where
  pub base : ℕ
  pub max : ℕ
  pub current : ℕ
  pub nodes : List Node
  pub large : List Large

-- what the next call of `posix_memalign`, of MP_ALIGNMENT, and of `malloc` return
pub record System : Type 0 where
  pub memalign : Option ℕ
  pub malloc : Option ℕ

abbrev pub add64 : ℕ → ℕ → ℕ
add64 a b = (a + b) % 2 ^ 64

abbrev pub sub64 : ℕ → ℕ → ℕ
sub64 a b = (a + 2 ^ 64 - b) % 2 ^ 64

-- `mp_align_ptr(p, MP_ALIGNMENT)`
abbrev pub align_ptr : ℕ → ℕ
align_ptr p = add64 p 31 / 32 * 32

-- sizeof(struct mp_pool_s), sizeof(struct mp_node_s), sizeof(struct mp_large_s)
abbrev pub pool_size : ℕ
pool_size = 24

abbrev pub node_size : ℕ
node_size = 32

abbrev pub large_size : ℕ
large_size = 16

-- `mp_create_pool`, where `p` is the address of the storage. Nothing sets `head->next`: `garbage` are the
-- nodes that the old contents of the memory lead to.
unfoldable pub create_pool : (size p : ℕ) (garbage : List Node) → Pool
create_pool size p garbage =
    let last = add64 (add64 p pool_size) node_size in
    record {
      base = p;
      max = if ltb size 4095 then size else 4095;
      current = 0;
      nodes =
          record {
            base = add64 p pool_size;
            last = last;
            end = add64 last size;
            failed = 0;
            blocks = [];
          }
          ∷ garbage;
      large = [];
    }

-- a block of `size` bytes at `m` from the node
abbrev pub carve : (m size : ℕ) → Node → Node
carve m size n = record n { last = add64 m size; blocks = (m, size) ∷ n.blocks }

-- The loop of `mp_alloc` and of `mp_nalloc` over the nodes from `current` on, where `place` is the
-- rounding of `last`: the block, and the nodes with the changed one, or none where no node has room.
unfoldable pub walk : (ℕ → ℕ) → (size : ℕ) → List Node → Option (ℕ × List Node)
walk place size [] = none
walk place size (n ∷ ns) =
    let rest = do r ← walk place size ns; some (r.0, n ∷ r.1)
    in if leb size (sub64 n.end (place n.last))
      then some (place n.last, carve (place n.last) size n ∷ ns)
      else rest

-- The loop of `mp_alloc_block` over the nodes from the `i`-th on: the nodes, and the new `current`.
unfoldable pub bump : (i current : ℕ) → List Node → List Node × ℕ
bump i current [] = ([], current)
bump i current (n ∷ []) = (n ∷ [], current)
bump i current (n ∷ m ∷ ns) =
    let rest = bump (i + 1) (if ltb 4 n.failed then i + 1 else current) (m ∷ ns) in
    (record n { failed = n.failed + 1 } ∷ rest.0, rest.1)

-- the size of the head's storage, that every further node gets too
abbrev pub psize : List Node → ℕ
psize [] = 0
psize (h ∷ ns) = sub64 h.end h.base

-- the node that `mp_alloc_block` makes in the storage at `m`
abbrev pub new_node : (m psize size : ℕ) → Node
new_node m psize size =
    let at = align_ptr (add64 m node_size) in
    record {
      base = m;
      last = add64 at size;
      end = add64 m psize;
      failed = 0;
      blocks = (at, size) ∷ [];
    }

-- `mp_alloc_block`; the pointer is 0 where `posix_memalign` fails
unfoldable pub alloc_block : System → (size : ℕ) → Pool → ℕ × Pool
alloc_block sys size pool = elim sys.memalign [
  | none ↦ (0, pool)
  | some m ↦
      let bumped = bump pool.current pool.current (drop pool.current pool.nodes) in
      (
        align_ptr (add64 m node_size),
        record pool {
          nodes =
              take pool.current pool.nodes
              ++ (bumped.0 ++ (new_node m (psize pool.nodes) size ∷ []));
          current = bumped.1;
        },
      )
]

-- the part of `mp_alloc` and `mp_nalloc` for sizes up to `max`
unfoldable pub alloc_small : (ℕ → ℕ) → System → (size : ℕ) → Pool → ℕ × Pool
alloc_small place sys size pool = elim (walk place size (drop pool.current pool.nodes)) [
  | none ↦ alloc_block sys size pool
  | some r ↦ (r.0, record pool { nodes = take pool.current pool.nodes ++ r.1 })
]

-- The loop of `mp_alloc_large`: the first of the first five entries that is free takes `p`; `n` counts
-- those passed.
unfoldable pub reuse : (p n : ℕ) → List Large → Option (List Large)
reuse p n [] = none
reuse p n (l ∷ ls) =
    let rest = do r ← reuse p (n + 1) ls; some (l ∷ r)
    in if l.alloc == 0 then some (record l { alloc = p } ∷ ls) else if ltb 3 n then none else rest

-- the end of `mp_alloc_large` and of `mp_memalign`: the entry for `p` is put into the block at `at`,
-- or `p` is freed again
abbrev pub enter : (p : ℕ) → ℕ × Pool → ℕ × Pool
enter p (zero, pool) = (0, pool)
enter p (suc at, pool) = (p, record pool { large = record { at = suc at; alloc = p } ∷ pool.large })

-- `mp_alloc_large`, where `alloc` is `mp_alloc`
unfoldable pub alloc_large : (ℕ → Pool → Option (ℕ × Pool)) → System → Pool → Option (ℕ × Pool)
alloc_large alloc sys pool = elim sys.malloc [
  | none ↦ some (0, pool)
  | some p ↦ elim (reuse p 0 pool.large) [
    | some ls ↦ some (p, record pool { large = ls })
    | none ↦ (do r ← alloc large_size pool; some (enter p r))
  ]
]

-- `mp_alloc`, on fuel: `mp_alloc_large` calls it again, for an entry; none is a call that runs out
unfoldable pub mp_alloc : (fuel : ℕ) → System → (size : ℕ) → Pool → Option (ℕ × Pool)
mp_alloc zero sys size pool = none
mp_alloc (suc f) sys size pool =
    let large = alloc_large (mp_alloc f sys) sys pool in
    if leb size pool.max then some (alloc_small align_ptr sys size pool) else large

unfoldable pub mp_nalloc : (fuel : ℕ) → System → (size : ℕ) → Pool → Option (ℕ × Pool)
mp_nalloc f sys size pool =
    let large = alloc_large (mp_alloc f sys) sys pool in
    if leb size pool.max then some (alloc_small (λ p. p) sys size pool) else large

-- `mp_calloc`: what it adds to `mp_alloc` is to the contents of the memory
unfoldable pub mp_calloc : (fuel : ℕ) → System → (size : ℕ) → Pool → Option (ℕ × Pool)
mp_calloc f sys size pool = mp_alloc f sys size pool

-- `mp_memalign`, where `p` is what its call of `posix_memalign` returns
unfoldable pub mp_memalign : (fuel : ℕ) → System → (p : Option ℕ) → Pool → Option (ℕ × Pool)
mp_memalign f sys none pool = some (0, pool)
mp_memalign f sys (some p) pool = do r ← mp_alloc f sys large_size pool; some (enter p r)

-- the loop of `mp_free`
unfoldable pub free_in : (p : ℕ) → List Large → List Large
free_in p [] = []
free_in p (l ∷ ls) = if p == l.alloc then record l { alloc = 0 } ∷ ls else l ∷ free_in p ls

unfoldable pub mp_free : (p : ℕ) → Pool → Pool
mp_free p pool = record pool { large = free_in p pool.large }

-- the nodes after the loop of `mp_reset_pool`
unfoldable pub reset_nodes : List Node → List Node
reset_nodes [] = []
reset_nodes (n ∷ ns) = record n { last = add64 n.base node_size; blocks = [] } ∷ reset_nodes ns

-- the large blocks that the loops of `mp_reset_pool` and `mp_destory_pool` free
unfoldable pub free_large : List Large → List ℕ
free_large [] = []
free_large (l ∷ ls) = if l.alloc == 0 then free_large ls else l.alloc ∷ free_large ls

-- `mp_reset_pool`: what it frees, and the pool
unfoldable pub reset_pool : Pool → List ℕ × Pool
reset_pool pool =
    (free_large pool.large, record pool { large = []; nodes = reset_nodes pool.nodes })

abbrev pub bases : List Node → List ℕ
bases [] = []
bases (n ∷ ns) = n.base ∷ bases ns

-- `mp_destory_pool`: what it frees, in order; the head lies in the storage of the pool
unfoldable pub destroy_pool : Pool → List ℕ
destroy_pool pool = free_large pool.large ++ (bases (drop 1 pool.nodes) ++ pool.base ∷ [])
