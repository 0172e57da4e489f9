-- ===== src/MinHeap.antt =====
-- timer/minheap.c, timer/minheap.h: a binary heap of timer entries, ordered by their time, in an
-- array `p` of pointers; each entry knows its index. An entry is a number, the fields of the entries
-- are functions of it. `none` is an access outside the array, or a loop out of fuel. Numbers of 32 bits wrap around.
mod Order
mod Places
mod Move
mod Up
mod Down
mod Laws
mod Push
mod Pop
mod Place
mod Erase
mod Adjust
mod Tests
use cpp_infra.Common.{
  Bool, Option, false, if◌then◌else◌, leb, ltb, none, some, suc, true, zero, ℕ, ◌%◌, ◌*◌, ◌+◌, ◌-◌,
  ◌/◌, ◌==◌, ◌>>=◌, ◌^◌,
}

-- `min_heap_t` and the fields `min_heap_idx` and `time` of the entries
pub record MinHeap : Type 0 where
  pub p : ℕ → ℕ
  pub n : ℕ
  pub a : ℕ
  pub idx : ℕ → ℕ
  pub time : ℕ → ℕ

-- (uint32_t) -1
abbrev pub no_idx : ℕ
no_idx = 2 ^ 32 - 1

abbrev pub sub32 : ℕ → ℕ → ℕ
sub32 x y = (x + 2 ^ 32 - y) % 2 ^ 32

abbrev pub set : (ℕ → ℕ) → ℕ → ℕ → ℕ → ℕ
set f i v k = if k == i then v else f k

-- `s->p[i]`
abbrev pub slot : ℕ → MinHeap → Option ℕ
slot i s = if ltb i s.a then some (s.p i) else none

-- `(s->p[i] = e)->min_heap_idx = i`
abbrev pub put : ℕ → ℕ → MinHeap → Option MinHeap
put i e s = if ltb i s.a then some (record s { p = set s.p i e; idx = set s.idx e i }) else none

-- `min_heap_elem_greater`
abbrev pub elem_greater : MinHeap → ℕ → ℕ → Bool
elem_greater s x y = ltb (s.time y) (s.time x)

unfoldable pub ctor : (ℕ → ℕ) → (ℕ → ℕ) → MinHeap
ctor idx time = record { p = λ i. 0; n = 0; a = 0; idx = idx; time = time }

unfoldable pub elem_init : ℕ → MinHeap → MinHeap
elem_init e s = record s { idx = set s.idx e no_idx }

unfoldable pub is_empty : MinHeap → Bool
is_empty s = 0 == s.n

unfoldable pub size : MinHeap → ℕ
size s = s.n

-- The outer none is an access outside the array, the inner one the null pointer.
unfoldable pub top : MinHeap → Option (Option ℕ)
top s = if s.n == 0 then some none else (do e ← slot 0 s; some (some e))

unfoldable pub elt_is_top : ℕ → MinHeap → Bool
elt_is_top e s = s.idx e == 0

-- The capacity that `min_heap_reserve_` asks `realloc` for.
abbrev pub new_capacity : ℕ → ℕ → ℕ
new_capacity a n =
    let doubled = if a == 0 then 8 else a * 2 % 2 ^ 32 in if ltb doubled n then n else doubled

-- `min_heap_reserve_`, where `realloc a` says whether the allocation of `a` pointers succeeds; `none`
-- is the value -1
unfoldable pub reserve : (ℕ → Bool) → ℕ → MinHeap → Option MinHeap
reserve realloc n s =
    if ltb s.a n
    then (if realloc (new_capacity s.a n) then some (record s { a = new_capacity s.a n }) else none)
    else some s

-- `min_heap_shift_up_`
unfoldable pub shift_up : (fuel hole e : ℕ) → MinHeap → Option MinHeap
shift_up zero hole e s = none
shift_up (suc fuel) hole e s =
    let parent = sub32 hole 1 / 2 in
    let next = do
      up ← slot parent s
      let move = do s' ← put hole up s; shift_up fuel parent e s'
      if elem_greater s up e then move else put hole e s
    in if hole == 0 then put hole e s else next

-- `min_heap_shift_up_unconditional_`: the first round of the loop is run without its test
unfoldable pub shift_up_unconditional : (hole e : ℕ) → MinHeap → Option MinHeap
shift_up_unconditional hole e s = do
  up ← slot (sub32 hole 1 / 2) s
  s' ← put hole up s
  shift_up (suc hole) (sub32 hole 1 / 2) e s'

-- `min_child -= min_child == s->n || greater(p[min_child], p[min_child - 1])`
unfoldable pub pick : ℕ → MinHeap → Option ℕ
pick right s =
    let both = do
      r ← slot right s
      l ← slot (sub32 right 1) s
      some (if elem_greater s r l then sub32 right 1 else right)
    in if right == s.n then some (sub32 right 1) else both

-- `min_heap_shift_down_`
unfoldable pub shift_down : (fuel hole e : ℕ) → MinHeap → Option MinHeap
shift_down zero hole e s = none
shift_down (suc fuel) hole e s =
    let right = 2 * (hole + 1) % 2 ^ 32 in
    let next = do
      child ← pick right s
      c ← slot child s
      let move = do s' ← put hole c s; shift_down fuel child e s'
      if elem_greater s e c then move else put hole e s
    in if leb right s.n then next else put hole e s

-- `min_heap_push_`: the value returned (true for 0, false for -1) and the heap
unfoldable pub push : (ℕ → Bool) → ℕ → MinHeap → Option (Bool × MinHeap)
push realloc e s =
    let run : MinHeap → Option (Bool × MinHeap) =
      λ r. do s' ← shift_up (suc s.n) s.n e (record r { n = (s.n + 1) % 2 ^ 32 }); some (true, s')
    in elim (reserve realloc ((s.n + 1) % 2 ^ 32) s) [ none ↦ some (false, s) | some r ↦ run r ]

-- `min_heap_pop_`: the entry returned (none for the null pointer) and the heap
unfoldable pub pop : MinHeap → Option (Option ℕ × MinHeap)
pop s =
    let run = do
      e ← slot 0 s
      last ← slot (s.n - 1) s
      s' ← shift_down (suc s.n) 0 last (record s { n = s.n - 1 })
      some (some e, record s' { idx = set s'.idx e no_idx })
    in if s.n == 0 then some (none, s) else run

-- The end that `min_heap_erase_` and `min_heap_adjust_` share: `e` goes to the hole at `i`.
unfoldable pub place : (i e : ℕ) → MinHeap → Option MinHeap
place i e s =
    let test = do
      up ← slot (sub32 i 1 / 2) s
      if elem_greater s up e then shift_up_unconditional i e s else shift_down (suc s.n) i e s
    in if ltb 0 i then test else shift_down (suc s.n) i e s

-- `min_heap_erase_`: the value returned (true for 0, false for -1) and the heap
unfoldable pub erase : ℕ → MinHeap → Option (Bool × MinHeap)
erase e s =
    let run = do
      last ← slot (sub32 s.n 1) s
      s' ← place (s.idx e) last (record s { n = sub32 s.n 1 })
      some (true, record s' { idx = set s'.idx e no_idx })
    in if no_idx == s.idx e then some (false, s) else run

-- `min_heap_adjust_`
unfoldable pub adjust : (ℕ → Bool) → ℕ → MinHeap → Option (Bool × MinHeap)
adjust realloc e s =
    if no_idx == s.idx e then push realloc e s else (do s' ← place (s.idx e) e s; some (true, s'))
