-- ===== src/MmPool/Packed.antt =====
-- The blocks of a node, and the invariant of a pool.
use mathlib.Core.Path.{subst}
use cpp_infra.Common.{
  All, All-append, Any, Any-append_right, List, List-cases, [], ap, arith, if◌then◌else◌, inl, inr,
  ltb, max, refl, sym, that, this, ℕ, ◌++◌, ◌+◌, ◌<◌, ◌^◌, ◌∷◌, ◌≡◌, ◌≢◌, ◌≤◌, ◌⊎◌,
}
use cpp_infra.MmPool.{
  Node, Pool, add64, node_size, pool_size, carve, create_pool, reset_nodes, reset_pool,
}

-- The blocks lie one above the other between `lo` and `hi`, none overlapping another.
abbrev pub Packed : (lo hi : ℕ) → List (ℕ × ℕ) → Type 0
Packed lo hi [] = lo ≤ hi
Packed lo hi (b ∷ bs) = (b.0 + b.1 ≤ hi) × Packed lo b.0 bs

-- The blocks lie behind the node's struct and below `last`, which is inside the node's storage; the
-- storage takes a block of `max` bytes.
pub record NodeOk (max : ℕ) (n : Node) : Type 0 where
  pub packed : Packed (n.base + 32) n.last n.blocks
  pub inside : n.last ≤ n.end
  pub in_memory : n.end < 2 ^ 63
  pub takes_max : n.base + 32 + max ≤ n.end

-- the storage of each node
abbrev pub places : List Node → List (ℕ × ℕ)
places [] = []
places (n ∷ ns) = (n.base, n.end) ∷ places ns

-- Storage from one address to another, and other storage, do not overlap.
abbrev pub Away : ℕ × ℕ → ℕ × ℕ → Type 0
Away p q = (p.1 ≤ q.0) ⊎ (q.1 ≤ p.0)

abbrev pub Separate : List (ℕ × ℕ) → Type 0
Separate [] = Unit
Separate (p ∷ ps) = All (Away p) ps × Separate ps

-- The nodes are well-formed, there is a head, and no node's storage overlaps another's.
pub record Valid (pool : Pool) : Type 0 where
  pub nodes_ok : All (NodeOk pool.max) pool.nodes
  pub separate : Separate (places pool.nodes)
  pub has_head : pool.nodes ≢ []

-- The block is among those that the nodes handed out.
abbrev pub Handed : ℕ × ℕ → List Node → Type 0
Handed b ns = Any (λ n. Any (λ c. c ≡ b) n.blocks) ns

-- Blocks of a position and a size do not overlap.
abbrev pub Apart : ℕ × ℕ → ℕ × ℕ → Type 0
Apart b c = (b.0 + b.1 ≤ c.0) ⊎ (c.0 + c.1 ≤ b.0)

pub places-append : (xs ys : List Node) → places (xs ++ ys) ≡ places xs ++ places ys
places-append [] ys = refl
places-append (x ∷ xs) ys = ap (◌∷◌ (x.base, x.end)) (places-append xs ys)

Away-sym : (p q : ℕ × ℕ) → Away p q → Away q p
Away-sym p q (inl le) = inr le
Away-sym p q (inr le) = inl le

-- Storage apart from the others may be added at the end.
pub Separate-append :
    (ps : List (ℕ × ℕ)) (q : ℕ × ℕ) → Separate ps → All (Away q) ps → Separate (ps ++ q ∷ [])
Separate-append [] q s away = (tt, tt)
Separate-append (p ∷ ps) q s away =
    (All-append (Away p) ps (q ∷ []) s.0 (Away-sym q p away.0, tt), Separate-append ps q s.1 away.1)

pub Packed-raise :
    (lo hi hi' : ℕ) (bs : List (ℕ × ℕ)) → Packed lo hi bs → hi ≤ hi' → Packed lo hi' bs
Packed-raise lo hi hi' [] p le = omega arith
Packed-raise lo hi hi' (b ∷ bs) p le = (omega (arith, p.0), p.1)

Packed-le : (lo hi : ℕ) (bs : List (ℕ × ℕ)) → Packed lo hi bs → lo ≤ hi
Packed-le lo hi [] p = p
Packed-le lo hi (b ∷ bs) p = omega (arith, p.0, Packed-le lo b.0 bs p.1)

Packed-above :
    (lo hi : ℕ) (b : ℕ × ℕ) (bs : List (ℕ × ℕ)) → Packed lo hi bs → Any (λ c. c ≡ b) bs → lo ≤ b.0
Packed-above lo hi b [] p h = elim h [ ]
Packed-above lo hi b (c ∷ bs) p (this e) = subst (λ d. lo ≤ d.0) e (Packed-le lo c.0 bs p.1)
Packed-above lo hi b (c ∷ bs) p (that h) = Packed-above lo c.0 b bs p.1 h

Packed-below :
    (lo hi : ℕ) (b : ℕ × ℕ) (bs : List (ℕ × ℕ))
    → Packed lo hi bs
    → Any (λ c. c ≡ b) bs
    → b.0 + b.1 ≤ hi
Packed-below lo hi b [] p h = elim h [ ]
Packed-below lo hi b (c ∷ bs) p (this e) = subst (λ d. d.0 + d.1 ≤ hi) e p.0
Packed-below lo hi b (c ∷ bs) p (that h) = omega (arith, p.0, Packed-below lo c.0 b bs p.1 h)

-- A block of a node lies behind its struct and below its `last`.
pub block_in :
    {max : ℕ} {n : Node} (b : ℕ × ℕ)
    → NodeOk max n
    → Any (λ c. c ≡ b) n.blocks
    → (n.base + 32 ≤ b.0) × (b.0 + b.1 ≤ n.last)
block_in {max} {n} b ok h = (
  Packed-above (n.base + 32) n.last b n.blocks ok.packed h,
  Packed-below (n.base + 32) n.last b n.blocks ok.packed h,
)

pub struct_below : {max : ℕ} {n : Node} → NodeOk max n → n.base + 32 ≤ n.last
struct_below {max} {n} ok = Packed-le (n.base + 32) n.last n.blocks ok.packed

-- Storage apart from that of the nodes is apart from their blocks.
pub Handed-Away :
    (max : ℕ) (q b : ℕ × ℕ) (ns : List Node)
    → All (NodeOk max) ns
    → All (Away q) (places ns)
    → Handed b ns
    → (q.1 ≤ b.0) ⊎ (b.0 + b.1 ≤ q.0)
Handed-Away max q b [] ok away h = elim h [ ]
Handed-Away max q b (n ∷ ns) ok away (that h) = Handed-Away max q b ns ok.1 away.1 h
Handed-Away max q b (n ∷ ns) ok away (this h) = elim away.0 [
  | inl le ↦ inl (omega (arith, le, block_in b ok.0 h))
  | inr le ↦ inr (omega (arith, le, block_in b ok.0 h, ok.0.inside))
]

-- The block is inside the node's storage.
abbrev pub Within : ℕ × ℕ → Node → Type 0
Within c n = (n.base ≤ c.0) × (c.0 + c.1 ≤ n.end)

-- A block of one node and a block inside another node, whose storage is apart.
pub home_Apart :
    {max : ℕ} {n : Node} (b c : ℕ × ℕ) (ns : List Node)
    → NodeOk max n
    → Any (λ d. d ≡ b) n.blocks
    → All (Away (n.base, n.end)) (places ns)
    → Any (Within c) ns
    → Apart c b
home_Apart b c [] ok h away home = elim home [ ]
home_Apart b c (m ∷ ns) ok h away (that home) = home_Apart b c ns ok h away.1 home
home_Apart {max} {n} b c (m ∷ ns) ok h away (this home) = elim away.0 [
  | inl le ↦ inr (omega (arith, le, home, block_in b ok h, ok.inside))
  | inr le ↦ inl (omega (arith, le, home, block_in b ok h))
]

-- A block of the first nodes and a block inside one of the nodes behind them.
pub front_Apart :
    (max : ℕ) (b c : ℕ × ℕ) (xs ys : List Node)
    → All (NodeOk max) xs
    → Separate (places (xs ++ ys))
    → Handed b xs
    → Any (Within c) ys
    → Apart c b
front_Apart max b c [] ys ok s h home = elim h [ ]
front_Apart max b c (x ∷ xs) ys ok s (this h) home =
    home_Apart b c (xs ++ ys) ok.0 h s.0 (Any-append_right xs home)
front_Apart max b c (x ∷ xs) ys ok s (that h) home = front_Apart max b c xs ys ok.1 s.1 h home

-- A block handed out is not at the null pointer.
pub Handed-ne : (max : ℕ) (b : ℕ × ℕ) (ns : List Node) → All (NodeOk max) ns → Handed b ns → b.0 ≢ 0
Handed-ne max b [] ok h e = elim h [ ]
Handed-ne max b (n ∷ ns) ok (this h) e =
    omega (arith, e, Packed-above (n.base + 32) n.last b n.blocks ok.0.packed h)
Handed-ne max b (n ∷ ns) ok (that h) e = Handed-ne max b ns ok.1 h e

-- A block cut from the free end of a node.
pub carve-NodeOk :
    (max m size : ℕ) (n : Node)
    → NodeOk max n
    → n.last ≤ m
    → m + size ≤ n.end
    → NodeOk max (carve m size n)
carve-NodeOk max m size n ok le fits = record {
  packed = (omega (arith, ok.in_memory), Packed-raise (n.base + 32) n.last m n.blocks ok.packed le);
  inside = omega (arith, ok.in_memory);
  in_memory = ok.in_memory;
  takes_max = ok.takes_max;
}

-- A pool that `mp_create_pool` makes in storage inside the address space is valid, if `head->next` reads
-- as the null pointer.
pub create_pool-Valid : (size p : ℕ) → p + 56 + size < 2 ^ 63 → Valid (create_pool size p [])
unfolding create_pool
create_pool-Valid size p h = record {
  nodes_ok = (
    record {
      packed = omega arith;
      inside = omega arith;
      in_memory = omega arith;
      takes_max = room;
    },
    tt,
  );
  separate = (tt, tt);
  has_head = λ e. cc e;
}
  where
    room :
        add64 p pool_size + 32 + (if ltb size 4095 then size else 4095)
        ≤ add64 (add64 (add64 p pool_size) node_size) size
    room = ground arith

reset_nodes-NodeOk :
    (max : ℕ) (ns : List Node) → All (NodeOk max) ns → All (NodeOk max) (reset_nodes ns)
unfolding reset_nodes
reset_nodes-NodeOk max [] h = tt
reset_nodes-NodeOk max (n ∷ ns) h = (
  record {
    packed = omega (arith, h.0.in_memory, h.0.takes_max);
    inside = omega (arith, h.0.in_memory, h.0.takes_max);
    in_memory = h.0.in_memory;
    takes_max = h.0.takes_max;
  },
  reset_nodes-NodeOk max ns h.1,
)

places-reset_nodes : (ns : List Node) → places (reset_nodes ns) ≡ places ns
unfolding reset_nodes
places-reset_nodes [] = refl
places-reset_nodes (n ∷ ns) = ap (◌∷◌ (n.base, n.end)) (places-reset_nodes ns)

-- `mp_reset_pool` keeps the pool valid, with no block handed out.
pub reset_pool-Valid : (pool : Pool) → Valid pool → Valid (reset_pool pool).1
unfolding reset_pool reset_nodes
reset_pool-Valid pool v = record {
  nodes_ok = reset_nodes-NodeOk pool.max pool.nodes v.nodes_ok;
  separate = subst Separate (sym (places-reset_nodes pool.nodes)) v.separate;
  has_head = elim (List-cases pool.nodes) [
    | inl e ↦ absurd (v.has_head e)
    | inr (n, ns, e) ↦ rw e (λ q. cc q)
  ];
}
