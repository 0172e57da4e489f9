-- ===== src/MmPool/Walk.antt =====
-- The loops over the nodes.
use cpp_infra.Common.{
  All, Any, Bool-cases, List, [], ap, arith, if◌then◌else◌, inl, inr, leb, ltb, max, none, refl,
  some, that, this, ℕ, ◌+◌, ◌∷◌, ◌≡◌, ◌≢◌, ◌≤◌, ◌⊎◌,
}
use cpp_infra.MmPool.{Node, sub64, carve, walk, bump}
use cpp_infra.MmPool.Packed.{
  NodeOk, Handed, carve-NodeOk, places, Separate, Apart, Within, block_in, struct_below,
  Handed-Away, home_Apart,
}

-- The rounding of `last` stays inside the node.
abbrev pub Fits : (ℕ → ℕ) → Node → Type 0
Fits place n = (n.last ≤ place n.last) × (place n.last ≤ n.end)

-- What the loop of `mp_alloc` did: a block of the rounded `last` of some node, the nodes as before with
-- that block cut off.
pub record Carved (place : ℕ → ℕ) (max size : ℕ) (ns : List Node) (r : ℕ × List Node) : Type 0 where
  pub nodes_ok : All (NodeOk max) r.1
  pub handed : Handed (r.0, size) r.1
  pub kept : (b : ℕ × ℕ) → Handed b ns → Handed b r.1
  pub placed : Any (λ n. place n.last ≡ r.0) ns
  pub home : Any (Within (r.0, size)) ns
  pub apart : (b : ℕ × ℕ) → Handed b ns → Apart (r.0, size) b
  pub same_places : places r.1 ≡ places ns
  pub not_empty : ns ≢ [] → r.1 ≢ []

cons_ne : (n : Node) (ns : List Node) → (n ∷ ns) ≢ []
cons_ne n ns e = cc e

pub walk-Carved :
    (place : ℕ → ℕ) (max size : ℕ) (ns : List Node)
    → All (NodeOk max) ns
    → All (Fits place) ns
    → Separate (places ns)
    → (walk place size ns ≡ none)
      ⊎ ((r : ℕ × List Node) × (walk place size ns ≡ some r) × Carved place max size ns r)
unfolding walk
walk-Carved place max size [] ok fits sep = inl refl
walk-Carved place max size (n ∷ ns) ok fits sep =
    elim (Bool-cases (leb size (sub64 n.end (place n.last)))) [
      | inl e ↦
          let room : place n.last + size ≤ n.end = ground (arith, fits.0, ok.0.in_memory) in
          inr (
            _,
            rw e refl,
            record {
              nodes_ok = (carve-NodeOk max (place n.last) size n ok.0 fits.0.0 room, ok.1);
              handed = this (this refl);
              kept = λ b h. keep_carved b h;
              placed = this refl;
              home = this (omega (arith, struct_below ok.0, fits.0), room);
              apart = λ b h. apart_here room b h;
              same_places = refl;
              not_empty = λ ne. cons_ne _ _;
            },
          )
      | inr e ↦ elim (walk-Carved place max size ns ok.1 fits.1 sep.1) [
        | inl none_fits ↦ inl (rw (e, none_fits) refl)
        | inr (r, eq, c) ↦ inr (
          _,
          rw (e, eq) refl,
          record {
            nodes_ok = (ok.0, c.nodes_ok);
            handed = that c.handed;
            kept = λ b h. keep_rest b r c.kept h;
            placed = that c.placed;
            home = that c.home;
            apart = λ b h. apart_rest r c.home c.apart b h;
            same_places = ap (◌∷◌ (n.base, n.end)) c.same_places;
            not_empty = λ ne. cons_ne _ _;
          },
        )
      ]
    ]
  where
    keep_carved : (b : ℕ × ℕ) → Handed b (n ∷ ns) → Handed b (carve (place n.last) size n ∷ ns)
    keep_carved b (this p) = this (that p)
    keep_carved b (that h) = that h

    apart_here :
        place n.last + size ≤ n.end → (b : ℕ × ℕ) → Handed b (n ∷ ns) → Apart (place n.last, size) b
    apart_here room b (this h) = inr (omega (arith, block_in b ok.0 h, fits.0))
    apart_here room b (that h) = elim (Handed-Away max (n.base, n.end) b ns ok.1 sep.0 h) [
      | inl le ↦ inl (omega (arith, le, room))
      | inr le ↦ inr (omega (arith, le, struct_below ok.0, fits.0))
    ]

    apart_rest :
        (r : ℕ × List Node)
        → Any (Within (r.0, size)) ns
        → ((c : ℕ × ℕ) → Handed c ns → Apart (r.0, size) c)
        → (b : ℕ × ℕ) → Handed b (n ∷ ns)
        → Apart (r.0, size) b
    apart_rest r home f b (this h) = home_Apart b (r.0, size) ns ok.0 h sep.0 home
    apart_rest r home f b (that h) = f b h

    keep_rest :
        (b : ℕ × ℕ) (r : ℕ × List Node)
        → ((c : ℕ × ℕ) → Handed c ns → Handed c r.1)
        → Handed b (n ∷ ns)
        → Handed b (n ∷ r.1)
    keep_rest b r f (this p) = this p
    keep_rest b r f (that h) = that (f b h)

pub bump-NodeOk :
    (max i cur : ℕ) (ns : List Node) → All (NodeOk max) ns → All (NodeOk max) (bump i cur ns).0
unfolding bump
bump-NodeOk max i cur [] ok = tt
bump-NodeOk max i cur (n ∷ []) ok = ok
bump-NodeOk max i cur (n ∷ m ∷ ns) ok = (
  record {
    packed = ok.0.packed;
    inside = ok.0.inside;
    in_memory = ok.0.in_memory;
    takes_max = ok.0.takes_max;
  },
  bump-NodeOk max (i + 1) (if ltb 4 n.failed then i + 1 else cur) (m ∷ ns) ok.1,
)

pub places-bump : (i cur : ℕ) (ns : List Node) → places (bump i cur ns).0 ≡ places ns
unfolding bump
places-bump i cur [] = refl
places-bump i cur (n ∷ []) = refl
places-bump i cur (n ∷ m ∷ ns) =
    ap (◌∷◌ (n.base, n.end)) (places-bump (i + 1) (if ltb 4 n.failed then i + 1 else cur) (m ∷ ns))

pub bump-Handed :
    (b : ℕ × ℕ) (i cur : ℕ) (ns : List Node) → Handed b ns → Handed b (bump i cur ns).0
unfolding bump
bump-Handed b i cur [] h = h
bump-Handed b i cur (n ∷ []) h = h
bump-Handed b i cur (n ∷ m ∷ ns) (this p) = this p
bump-Handed b i cur (n ∷ m ∷ ns) (that h) =
    that (bump-Handed b (i + 1) (if ltb 4 n.failed then i + 1 else cur) (m ∷ ns) h)
