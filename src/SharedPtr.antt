-- ===== src/SharedPtr.antt =====
-- atomic_lock/shared_ptr.h: shared_ptr<T>, pointers that count their owners. A handle is a variable of
-- the type `shared_ptr<T>`, a number; one that does not exist (yet, or any more) is kept as one that
-- holds null pointers. Objects and counters are addresses. Each operation is one step: it makes at most
-- one change of each counter, and those are atomic. `none` is an access to deleted memory or a second
-- `delete`. The destructor of T is taken not to touch the handles.
pub mod Count
pub mod Invariant
pub mod Release
pub mod Share
pub mod Construct
pub mod Safety
mod Tests
use cpp_infra.Common.{
  Bool, Option, false, if◌then◌else◌, none, some, true, update, ℕ, ◌%◌, ◌+◌, ◌-◌, ◌==◌, ◌>>=◌, ◌^◌,
}

-- the members of `shared_ptr<T>`
pub record SharedPtr : Type 0 where
  pub ptr : Option ℕ
  pub ref_count : Option ℕ

pub record Store : Type 0 where
  pub handles : ℕ → SharedPtr
  pub count : ℕ → ℕ
  pub counter_live : ℕ → Bool
  pub object_live : ℕ → Bool

abbrev pub sub64 : ℕ → ℕ → ℕ
sub64 a b = (a + 2 ^ 64 - b) % 2 ^ 64

-- the default constructor
abbrev pub null : SharedPtr
null = record { ptr = none; ref_count = none }

abbrev pub put : ℕ → SharedPtr → Store → Store
put h x s = record s { handles = update s.handles h x }

-- `delete ptr_` and `delete ref_count_`
abbrev pub delete_both : Option ℕ → ℕ → Store → Option Store
delete_both none b s = some (record s { counter_live = update s.counter_live b false })
delete_both (some p) b s =
    if s.object_live p
    then some (record s {
      object_live = update s.object_live p false;
      counter_live = update s.counter_live b false;
    })
    else none

abbrev pub fetch_sub : Option ℕ → Option ℕ → Store → Option Store
fetch_sub ptr none s = some s
fetch_sub ptr (some b) s =
    let after = record s { count = update s.count b (sub64 (s.count b) 1) } in
    if s.counter_live b
    then (if s.count b == 1 then delete_both ptr b after else some after)
    else none

-- `release()` of the handle `h`
unfoldable pub release : ℕ → Store → Option Store
release h s = fetch_sub (s.handles h).ptr (s.handles h).ref_count s

-- `if (ref_count_) ref_count_->fetch_add(1)`
abbrev pub fetch_add : Option ℕ → Store → Option Store
fetch_add none s = some s
fetch_add (some b) s =
    if s.counter_live b
    then some (record s { count = update s.count b ((s.count b + 1) % 2 ^ 64) })
    else none

-- `new std::atomic<std::size_t>(1)` at the address `b`, for a `ptr` that is not null
abbrev pub own : Option ℕ → ℕ → Store → SharedPtr × Store
own none b s = (null, s)
own (some p) b s = (
  record { ptr = some p; ref_count = some b },
  record s { count = update s.count b 1; counter_live = update s.counter_live b true },
)

-- `shared_ptr(T* ptr)`
unfoldable pub construct : (h : ℕ) (ptr : Option ℕ) (b : ℕ) → Store → Option Store
construct h ptr b s = let (x, s') = own ptr b s in some (put h x s')

-- the copy constructor
unfoldable pub copy : (h other : ℕ) → Store → Option Store
copy h other s = fetch_add (s.handles other).ref_count (put h (s.handles other) s)

-- the copy assignment
unfoldable pub copy_assign : (h other : ℕ) → Store → Option Store
copy_assign h other s =
    let run = do
      s' ← release h s
      fetch_add (s'.handles other).ref_count (put h (s'.handles other) s')
    in if h == other then some s else run

-- the move constructor
unfoldable pub move : (h other : ℕ) → Store → Option Store
move h other s = some (put other null (put h (s.handles other) s))

-- the move assignment
unfoldable pub move_assign : (h other : ℕ) → Store → Option Store
move_assign h other s =
    let run = do s' ← release h s; some (put other null (put h (s'.handles other) s'))
    in if h == other then some s else run

-- `reset(p)`
unfoldable pub reset : (h : ℕ) (ptr : Option ℕ) (b : ℕ) → Store → Option Store
reset h ptr b s = do s' ← release h s; let (x, s'') = own ptr b s'; some (put h x s'')

-- the destructor
unfoldable pub destroy : ℕ → Store → Option Store
destroy h s = do s' ← release h s; some (put h null s')

unfoldable pub use_count : ℕ → Store → Option ℕ
use_count h s = elim (s.handles h).ref_count [
  | none ↦ some 0
  | some b ↦ (if s.counter_live b then some (s.count b) else none)
]

unfoldable pub get : ℕ → Store → Option ℕ
get h s = (s.handles h).ptr

pub data Call : Type 0 where
  constructs : (h : ℕ) (ptr : Option ℕ) (b : ℕ) → Call
  copies : (h other : ℕ) → Call
  copy_assigns : (h other : ℕ) → Call
  moves : (h other : ℕ) → Call
  move_assigns : (h other : ℕ) → Call
  resets : (h : ℕ) (ptr : Option ℕ) (b : ℕ) → Call
  destroys : (h : ℕ) → Call

unfoldable pub run : Call → Store → Option Store
run (constructs h ptr b) s = construct h ptr b s
run (copies h other) s = copy h other s
run (copy_assigns h other) s = copy_assign h other s
run (moves h other) s = move h other s
run (move_assigns h other) s = move_assign h other s
run (resets h ptr b) s = reset h ptr b s
run (destroys h) s = destroy h s
