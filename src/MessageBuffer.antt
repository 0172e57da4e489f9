-- ===== src/MessageBuffer.antt =====
-- network_buffer_design/MessageBuffer.h (network_timer/MessageBuffer.h is the same class): a
-- receive buffer over a vector of bytes with a read and a write position. size_t arithmetic is
-- written out modulo 2 ^ 64. `none` is a call that does not return: an exception of `resize`, or an
-- access outside the storage or behind the source. Memory is always given.
pub mod Content
pub mod Write
pub mod Line
pub mod Receive
mod Tests
use cpp_infra.Common.{
  List, Option, [], drop, get_elem?, if◌then◌else◌, leb, length, ltb, max, none, replicate, some,
  suc, take, zero, ℕ, ◌%◌, ◌++◌, ◌+◌, ◌-◌, ◌/◌, ◌==◌, ◌>>=◌, ◌^◌,
}

-- The member `buffer_` is `bytes`.
pub record MessageBuffer : Type 0 where
  pub bytes : List ℕ
  pub rpos : ℕ
  pub wpos : ℕ

abbrev pub add64 : ℕ → ℕ → ℕ
add64 a b = (a + b) % 2 ^ 64

abbrev pub sub64 : ℕ → ℕ → ℕ
sub64 a b = (a + 2 ^ 64 - b) % 2 ^ 64

-- `explicit MessageBuffer(size)`; the default constructor has the size 4096
abbrev pub new : ℕ → MessageBuffer
new size = record { bytes = replicate size 0; rpos = 0; wpos = 0 }

-- the move constructor: the new buffer, and what is left of the old
unfoldable pub move : MessageBuffer → MessageBuffer × MessageBuffer
move other = (
  record { bytes = other.bytes; rpos = other.rpos; wpos = other.wpos },
  record { bytes = []; rpos = 0; wpos = 0 },
)

unfoldable pub read_completed : ℕ → MessageBuffer → MessageBuffer
read_completed size b = record b { rpos = add64 b.rpos size }

unfoldable pub write_completed : ℕ → MessageBuffer → MessageBuffer
write_completed size b = record b { wpos = add64 b.wpos size }

abbrev pub get_active_size : MessageBuffer → ℕ
get_active_size b = sub64 b.wpos b.rpos

abbrev pub get_free_size : MessageBuffer → ℕ
get_free_size b = sub64 (length b.bytes) b.wpos

abbrev pub get_buffer_size : MessageBuffer → ℕ
get_buffer_size b = length b.bytes

-- `memmove` of `n` bytes from the position `from` to the front
unfoldable pub memmove : List ℕ → (from n : ℕ) → List ℕ
memmove bytes from n = take n (drop from bytes) ++ drop n bytes

unfoldable pub normalize : MessageBuffer → MessageBuffer
normalize b =
    if ltb 0 b.rpos
    then record {
      bytes = memmove b.bytes b.rpos (get_active_size b);
      rpos = 0;
      wpos = sub64 b.wpos b.rpos;
    }
    else b

abbrev pub resized : ℕ → MessageBuffer → MessageBuffer
resized size b = record b { bytes = take size b.bytes ++ replicate (size - length b.bytes) 0 }

-- `buffer_.resize(size)`; none is the `std::length_error` of a size above `max_size()`
unfoldable pub resize : ℕ → MessageBuffer → Option MessageBuffer
resize size b = if ltb (2 ^ 63 - 1) size then none else some (resized size b)

unfoldable pub ensure_free_space : ℕ → MessageBuffer → Option MessageBuffer
ensure_free_space size b =
    let moved = normalize b in
    if ltb (sub64 (get_buffer_size b) (get_active_size b)) size
    then resize (add64 (get_buffer_size moved) (max size (get_buffer_size moved / 2))) moved
    else if ltb (get_free_size b) size
    then some moved
    else some b

-- `memcpy` of `data` to the position `at`
unfoldable pub memcpy : List ℕ → ℕ → List ℕ → Option (List ℕ)
memcpy bytes at src =
    if leb (at + length src) (length bytes)
    then some (take at bytes ++ (src ++ drop (at + length src) bytes))
    else none

-- `Write(data, size)`, where `readable` bytes lie at `data` and `src` is the first `size` of them, if
-- there are that many
unfoldable pub write_from : (readable size : ℕ) → List ℕ → MessageBuffer → Option MessageBuffer
write_from readable size src b =
    let written = do
      b' ← ensure_free_space size b
      bytes ← if leb size readable then memcpy b'.bytes b'.wpos src else none
      some (write_completed size (record b' { bytes = bytes }))
    in if ltb 0 size then written else some b

-- `Write(data, size)`, where `src` is the `size` bytes at `data`
unfoldable pub write : List ℕ → MessageBuffer → Option MessageBuffer
write src b = write_from (length src) (length src) src b

-- the bytes that `GetAllData` points to
unfoldable pub get_all_data : MessageBuffer → List ℕ
get_all_data b = take (get_active_size b) (drop b.rpos b.bytes)

-- The loop of `GetDataUntilCRLF` with `rounds` left, at `i`; `data` is what lies at the read pointer
-- and the inner option the length of the line, none for the null pointer.
unfoldable pub crlf_loop : ℕ → List ℕ → ℕ → Option (Option ℕ)
crlf_loop zero line i = some none
crlf_loop (suc rounds) line i =
    let rest = crlf_loop rounds line (i + 1) in
    do
      c ← get_elem? line i
      let next = do d ← get_elem? line (i + 1); if d == b'\n' then some (some i) else rest
      if c == b'\r' then next else rest

unfoldable pub get_data_until_crlf : MessageBuffer → Option (Option ℕ)
get_data_until_crlf b = crlf_loop (sub64 (get_active_size b) 1) (drop b.rpos b.bytes) 0

-- What `readv` does: it fails with an `errno`, or it hands over bytes, first into the free space
-- and then into `extra`, of 65535 bytes.
pub data Readv : Type 0 where
  failed : ℕ → Readv
  received : List ℕ → Readv

-- The value that `Recv` returns, the `errno` that it stores (none if it stores none), the buffer.
pub record Recv : Type 0 where
  pub count : ℕ
  pub error : Option ℕ
  pub buffer : MessageBuffer

abbrev pub econnreset : ℕ
econnreset = 104

-- the bytes that `readv` puts into the free space: a write that stays inside it
abbrev pub fill : List ℕ → MessageBuffer → Option MessageBuffer
fill src b = do bytes ← memcpy b.bytes b.wpos src; some (record b { bytes = bytes })

-- `std::size_t n = readv(...)`: the value -1 of a failure is 2 ^ 64 - 1, so that `n < 0` is never true.
-- `Write` reads its bytes from `extra`, of 65535 bytes.
unfoldable pub recv : Readv → MessageBuffer → Option Recv
recv r b =
    let src : List ℕ = elim r [ failed e ↦ [] | received bytes ↦ bytes ] in
    let n : ℕ = elim r [ failed e ↦ 2 ^ 64 - 1 | received bytes ↦ length bytes ] in
    let free = get_free_size b in
    let extra = drop free src in
    let spill = do
      filled ← fill (take free src) b
      b' ← write_from 65535 (sub64 n free) extra (write_completed free filled)
      some (record { count = n; error = none; buffer = b' })
    in let fits = do
      filled ← fill src b
      some (record { count = n; error = none; buffer = write_completed n filled })
      in if n == 0
        then some (record { count = 0; error = some econnreset; buffer = b })
        else if leb n free
        then fits
        else spill
