-- ===== src/MmPool/Overrun.antt =====
-- `mp_alloc` on a node whose `last`, rounded up, lies beyond its end.
use cpp_infra.Common.{
  List, arith, drop, leb, refl, some, suc, take, true, ℕ, ◌++◌, ◌<◌, ◌^◌, ◌∷◌, ◌≡◌, ◌≤◌,
}
use cpp_infra.MmPool.{Node, Pool, System, align_ptr, sub64, carve, walk, alloc_small, mp_alloc}

-- Where less than 32 bytes are left in the current node, and the end of the node is not aligned, so
-- that rounding `last` up passes it, `mp_alloc` of any size up to `max` returns memory that begins
-- behind the end of the node: the room left is computed as a negative number, of type size_t.
pub mp_alloc_overrun :
    (f : ℕ) (sys : System) (size : ℕ) (pool : Pool) (n : Node) (ns : List Node)
    → drop pool.current pool.nodes ≡ n ∷ ns
    → n.last ≤ n.end
    → n.end < align_ptr n.last
    → n.end < 2 ^ 63
    → pool.max < 2 ^ 63
    → size ≤ pool.max
    → (p : ℕ) × (pool' : Pool) × (mp_alloc (suc f) sys size pool ≡ some (p, pool')) × (n.end < p)
unfolding mp_alloc alloc_small walk
mp_alloc_overrun f sys size pool n ns at inside beyond small in_range le = (
  align_ptr n.last,
  record pool { nodes = take pool.current pool.nodes ++ (carve (align_ptr n.last) size n ∷ ns) },
  rw (small_test, alloc_small, at, room) refl,
  beyond,
)
  where
    small_test : leb size pool.max ≡ true
    small_test = ground arith

    room : leb size (sub64 n.end (align_ptr n.last)) ≡ true
    room = ground arith
