-- ===== src/MmPool/Block.antt =====
-- The blocks that come from the nodes of a pool, and from a new node.
use mathlib.Core.Path.{subst}
use mathlib.Core.List.{append_assoc}
use cpp_infra.Common.{
  All, All-append, All-drop, All-take, Any, Any-append_left, Any-append_right, Any-split, List,
  List-cases, Option-cases, [], ap, arith, drop, inl, inr, max, none, refl, some, sym, take,
  take-append-drop, that, this, ℕ, ◌%◌, ◌++◌, ◌+◌, ◌<◌, ◌^◌, ◌∙◌, ◌∷◌, ◌≡◌, ◌≢◌, ◌≤◌, ◌⊎◌,
}
use cpp_infra.MmPool.{
  Node, Pool, System, align_ptr, add64, node_size, bump, psize, new_node, alloc_block, alloc_small,
}
use cpp_infra.MmPool.Packed.{
  NodeOk, Valid, Handed, Handed-ne, places, Away, Separate, Apart, places-append, Separate-append,
  Handed-Away, front_Apart,
}
use cpp_infra.MmPool.Walk.{Fits, Carved, walk-Carved, bump-NodeOk, bump-Handed, places-bump}

-- What the manuals say of `posix_memalign` and `malloc`: storage inside the address space, aligned to
-- the 32 bytes asked for, that does not overlap the storage of the nodes, which is not freed; no block
-- at the null pointer.
pub record SystemOk (sys : System) (nodes : List Node) : Type 0 where
  pub memalign_ok :
      (m : ℕ)
      → sys.memalign ≡ some m
      → (m % 32 ≡ 0) × (m + psize nodes < 2 ^ 63) × All (Away (m, m + psize nodes)) (places nodes)
  pub malloc_ok : (p : ℕ) → sys.malloc ≡ some p → p ≢ 0

-- What an allocation of `size` bytes from `pool` gave.
pub data Outcome (IsPlace : ℕ → Type 0) (sys : System) (size : ℕ) (pool : Pool) (r : ℕ × Pool)
    : Type 0 where
  -- a block from a node, apart from all that the nodes handed out before
  small :
      size ≤ pool.max
      → Valid r.1
      → r.1.max ≡ pool.max
      → IsPlace r.0
      → r.0 ≢ 0
      → Handed (r.0, size) r.1.nodes
      → ((b : ℕ × ℕ) → Handed b pool.nodes → Apart (r.0, size) b)
      → ((b : ℕ × ℕ) → Handed b pool.nodes → Handed b r.1.nodes)
      → Outcome IsPlace sys size pool r
  -- a block from malloc, entered in the pool's list
  large :
      pool.max < size
      → Valid r.1
      → sys.malloc ≡ some r.0
      → Any (λ l. l.alloc ≡ r.0) r.1.large
      → ((b : ℕ × ℕ) → Handed b pool.nodes → Handed b r.1.nodes)
      → Outcome IsPlace sys size pool r
  -- the null pointer, where the system gave no memory
  refused :
      r ≡ (0, pool) → (sys.memalign ≡ none) ⊎ (sys.malloc ≡ none) → Outcome IsPlace sys size pool r

append_ne : {A : Type 0} (xs : List A) (y : A) (ys : List A) → (xs ++ y ∷ ys) ≢ []
append_ne [] y ys e = cc e
append_ne (x ∷ xs) y ys e = cc e

psize_room :
    (max : ℕ) (ns : List Node)
    → All (NodeOk max) ns
    → ns ≢ []
    → (max + 32 ≤ psize ns) × (psize ns < 2 ^ 63)
psize_room max [] ok ne = absurd (ne refl)
psize_room max (h ∷ ns) ok ne =
    let fits = ok.0.takes_max in
    let small = ok.0.in_memory in (omega (arith, fits, small), omega (arith, fits, small))

new_node-NodeOk :
    (max m psize size : ℕ)
    → m % 32 ≡ 0
    → m + psize < 2 ^ 63
    → max + 32 ≤ psize
    → size ≤ max
    → NodeOk max (new_node m psize size)
new_node-NodeOk max m psize size aligned in_range room le = record {
  packed = (omega arith, omega arith);
  inside = omega arith;
  in_memory = omega arith;
  takes_max = omega arith;
}

alloc_block-none :
    (sys : System) (size : ℕ) (pool : Pool)
    → sys.memalign ≡ none
    → alloc_block sys size pool ≡ (0, pool)
unfolding alloc_block
alloc_block-none sys size pool e = rw (alloc_block, e) refl

abbrev extended : (size : ℕ) → Pool → (m : ℕ) → ℕ × Pool
extended size pool m =
    let bumped = bump pool.current pool.current (drop pool.current pool.nodes) in
    (
      align_ptr (add64 m node_size),
      record pool {
        nodes =
            take pool.current pool.nodes ++ (bumped.0 ++ (new_node m (psize pool.nodes) size ∷ []));
        current = bumped.1;
      },
    )

alloc_block-some :
    (sys : System) (size : ℕ) (pool : Pool) (m : ℕ)
    → sys.memalign ≡ some m
    → alloc_block sys size pool ≡ extended size pool m
unfolding alloc_block
alloc_block-some sys size pool m e = rw (alloc_block, e) refl

Separate-right : (xs ys : List Node) → Separate (places (xs ++ ys)) → Separate (places ys)
Separate-right [] ys s = s
Separate-right (x ∷ xs) ys s = Separate-right xs ys s.1

module _ (IsPlace : ℕ → Type 0) where
  alloc_block-Outcome :
      (sys : System) (size : ℕ) (pool : Pool)
      → Valid pool
      → SystemOk sys pool.nodes
      → size ≤ pool.max
      → ((p : ℕ) → IsPlace (align_ptr p))
      → Outcome IsPlace sys size pool (alloc_block sys size pool)
  alloc_block-Outcome sys size pool v ok le place = elim (Option-cases sys.memalign) [
    | inl e ↦
        subst (Outcome IsPlace sys size pool) (sym (alloc_block-none sys size pool e))
          (refused refl (inl e))
    | inr (m, e) ↦
        let m_ok = ok.memalign_ok m e in
        subst (Outcome IsPlace sys size pool) (sym (alloc_block-some sys size pool m e)) (
          small le (valid m m_ok.0 m_ok.1 m_ok.2) refl (place (add64 m node_size))
            (omega (arith, m_ok.0, m_ok.1)) (handed m) (apart m m_ok.0 m_ok.1 m_ok.2) (kept m))
  ]
    where
      room : (pool.max + 32 ≤ psize pool.nodes) × (psize pool.nodes < 2 ^ 63)
      room = psize_room pool.max pool.nodes v.nodes_ok v.has_head

      bumped : List Node × ℕ
      bumped = bump pool.current pool.current (drop pool.current pool.nodes)

      nodes : ℕ → List Node
      nodes m =
          take pool.current pool.nodes ++ (bumped.0 ++ (new_node m (psize pool.nodes) size ∷ []))

      places_same : places (take pool.current pool.nodes ++ bumped.0) ≡ places pool.nodes
      places_same =
          places-append (take pool.current pool.nodes) bumped.0
          ∙ ap (◌++◌ (places (take pool.current pool.nodes)))
              (places-bump pool.current pool.current (drop pool.current pool.nodes))
          ∙ sym (places-append (take pool.current pool.nodes) (drop pool.current pool.nodes))
          ∙ ap places (take-append-drop pool.current pool.nodes)

      separate :
          (m : ℕ)
          → m + psize pool.nodes < 2 ^ 63
          → All (Away (m, m + psize pool.nodes)) (places pool.nodes)
          → Separate (places (nodes m))
      separate m in_memory away =
          subst Separate
            (sym (
              ap places (
                sym (
                  append_assoc (take pool.current pool.nodes) bumped.0
                    (new_node m (psize pool.nodes) size ∷ [])))
              ∙ places-append (take pool.current pool.nodes ++ bumped.0)
                  (new_node m (psize pool.nodes) size ∷ [])
              ∙ ap (λ ps. ps ++ (m, add64 m (psize pool.nodes)) ∷ []) places_same))
            (Separate-append (places pool.nodes) (m, add64 m (psize pool.nodes)) v.separate
              (subst (λ e. All (Away (m, e)) (places pool.nodes)) end away))
        where
          end : m + psize pool.nodes ≡ add64 m (psize pool.nodes)
          end = omega arith

      valid :
          (m : ℕ)
          → m % 32 ≡ 0
          → m + psize pool.nodes < 2 ^ 63
          → All (Away (m, m + psize pool.nodes)) (places pool.nodes)
          → Valid (record pool { nodes = nodes m; current = bumped.1 })
      valid m aligned in_memory away = record {
        separate = separate m in_memory away;
        nodes_ok =
            All-append (NodeOk pool.max) (take pool.current pool.nodes) _
              (All-take (NodeOk pool.max) pool.current pool.nodes v.nodes_ok)
              (All-append (NodeOk pool.max) bumped.0 _
                (bump-NodeOk pool.max pool.current pool.current _
                  (All-drop (NodeOk pool.max) pool.current pool.nodes v.nodes_ok))
                (
                  new_node-NodeOk pool.max m (psize pool.nodes) size aligned in_memory room.0 le,
                  tt,
                ));
        has_head = λ e.
            append_ne (take pool.current pool.nodes ++ bumped.0)
              (new_node m (psize pool.nodes) size) []
              (append_assoc (take pool.current pool.nodes) bumped.0
                  (new_node m (psize pool.nodes) size ∷ [])
                ∙ e);
      }

      apart :
          (m : ℕ)
          → m % 32 ≡ 0
          → m + psize pool.nodes < 2 ^ 63
          → All (Away (m, m + psize pool.nodes)) (places pool.nodes)
          → (b : ℕ × ℕ) → Handed b pool.nodes
          → Apart (align_ptr (add64 m node_size), size) b
      apart m aligned in_memory away b h =
          elim (Handed-Away pool.max (m, m + psize pool.nodes) b pool.nodes v.nodes_ok away h) [
            | inl above ↦ inl (omega (arith, above, room, le, aligned, in_memory))
            | inr below ↦ inr (omega (arith, below, aligned, in_memory))
          ]

      handed : (m : ℕ) → Handed (align_ptr (add64 m node_size), size) (nodes m)
      handed m =
          Any-append_right (take pool.current pool.nodes)
            (Any-append_right bumped.0 (this (this refl)))

      kept : (m : ℕ) (b : ℕ × ℕ) → Handed b pool.nodes → Handed b (nodes m)
      kept m b h = elim (Any-split (λ n. Any (λ c. c ≡ b) n.blocks) pool.current h) [
        | inl front ↦ Any-append_left _ front
        | inr back ↦
            Any-append_right (take pool.current pool.nodes)
              (Any-append_left _ (bump-Handed b pool.current pool.current _ back))
      ]

  pub alloc_small-Outcome :
      (place : ℕ → ℕ) (sys : System) (size : ℕ) (pool : Pool)
      → Valid pool
      → SystemOk sys pool.nodes
      → size ≤ pool.max
      → All (Fits place) pool.nodes
      → ((p : ℕ) → IsPlace (align_ptr p))
      → ((p : ℕ) → IsPlace (place p))
      → Outcome IsPlace sys size pool (alloc_small place sys size pool)
  unfolding alloc_small
  alloc_small-Outcome place sys size pool v ok le fits aligned placed =
      elim (walk-Carved place pool.max size (drop pool.current pool.nodes)
        (All-drop (NodeOk pool.max) pool.current pool.nodes v.nodes_ok)
        (All-drop (Fits place) pool.current pool.nodes fits) back_separate) [
          | inl e ↦ rw (alloc_small, e) (alloc_block-Outcome sys size pool v ok le aligned)
          | inr (r, e, c) ↦
              rw (alloc_small, e)
                (small le (valid r c) refl (is_place r c)
                  (Handed-ne pool.max (r.0, size) r.1 c.nodes_ok c.handed)
                  (Any-append_right (take pool.current pool.nodes) c.handed) (apart r c) (kept r c))
        ]
    where
      split : Separate (places (take pool.current pool.nodes ++ drop pool.current pool.nodes))
      split =
          subst (λ ns. Separate (places ns)) (sym (take-append-drop pool.current pool.nodes))
            v.separate

      back_separate : Separate (places (drop pool.current pool.nodes))
      back_separate = Separate-right (take pool.current pool.nodes) _ split

      apart :
          (r : ℕ × List Node)
          → Carved place pool.max size (drop pool.current pool.nodes) r
          → (b : ℕ × ℕ) → Handed b pool.nodes
          → Apart (r.0, size) b
      apart r c b h = elim (Any-split (λ n. Any (λ d. d ≡ b) n.blocks) pool.current h) [
        | inl front ↦
            front_Apart pool.max b (r.0, size) (take pool.current pool.nodes)
              (drop pool.current pool.nodes)
              (All-take (NodeOk pool.max) pool.current pool.nodes v.nodes_ok) split front c.home
        | inr back ↦ c.apart b back
      ]

      valid :
          (r : ℕ × List Node)
          → Carved place pool.max size (drop pool.current pool.nodes) r
          → Valid (record pool { nodes = take pool.current pool.nodes ++ r.1 })
      valid r c = record {
        nodes_ok =
            All-append (NodeOk pool.max) (take pool.current pool.nodes) r.1
              (All-take (NodeOk pool.max) pool.current pool.nodes v.nodes_ok) c.nodes_ok;
        separate =
            subst Separate
              (places-append (take pool.current pool.nodes) (drop pool.current pool.nodes)
                ∙ ap (◌++◌ (places (take pool.current pool.nodes))) (sym c.same_places)
                ∙ sym (places-append (take pool.current pool.nodes) r.1))
              split;
        has_head = elim (List-cases r.1) [
          | inl e ↦ absurd (elim (rw e at c.handed) [ ])
          | inr (n, ns, e) ↦ rw e (append_ne (take pool.current pool.nodes) n ns)
        ];
      }

      is_place :
          (r : ℕ × List Node)
          → Carved place pool.max size (drop pool.current pool.nodes) r
          → IsPlace r.0
      is_place r c = from (drop pool.current pool.nodes) c.placed
        where
          from : (ns : List Node) → Any (λ n. place n.last ≡ r.0) ns → IsPlace r.0
          from (n ∷ ns) (this p) = subst IsPlace p (placed n.last)
          from (n ∷ ns) (that h) = from ns h
          from [] h = elim h [ ]

      kept :
          (r : ℕ × List Node)
          → Carved place pool.max size (drop pool.current pool.nodes) r
          → (b : ℕ × ℕ) → Handed b pool.nodes
          → Handed b (take pool.current pool.nodes ++ r.1)
      kept r c b h = elim (Any-split (λ n. Any (λ d. d ≡ b) n.blocks) pool.current h) [
        | inl front ↦ Any-append_left _ front
        | inr back ↦ Any-append_right (take pool.current pool.nodes) (c.kept b back)
      ]
