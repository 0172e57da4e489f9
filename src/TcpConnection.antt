-- ===== src/TcpConnection.antt =====
-- network_timer/TcpConnection.cc: a connection of the event loop, over MessageBuffer. `::send` and
-- `readv` are parameters: each call is given what the socket does in it. `interest` is what epoll has
-- for the descriptor. A descriptor that was closed takes no byte of this connection; `stale` counts the
-- calls of `::send` with its number. `accepted` records the bytes that Send took over, `wire` those that
-- the socket took, `received` those that readv gave, `closes` the calls of `close`; the code has no
-- such fields. `none` is an access outside the storage of the buffer. Sizes are below 2 ^ 31.
pub mod Output
pub mod Drain
pub mod Stream
pub mod Stale
mod Tests
use cpp_infra.Common.{
  Bool, List, Option, [], drop, false, if◌then◌else◌, length, ltb, min, negsuc, none, not, pos,
  some, take, true, ℕ, ℤ, ◌%◌, ◌&&◌, ◌++◌, ◌+◌, ◌==◌, ◌>>=◌, ◌^◌, ◌||◌, ◌∷◌, ◌≡◌,
}
use cpp_infra.MessageBuffer.{
  MessageBuffer, Readv, failed, received, Recv, recv, read_completed, get_all_data, get_active_size,
  get_data_until_crlf, new,
}

-- EPOLLIN | EPOLLRDHUP, the same with EPOLLOUT, or nothing (the descriptor was removed)
pub data Interest : Type 0 where
  reading : Interest
  writing : Interest
  removed : Interest

-- What `::send` does: the socket has room for so many bytes, or has none (EAGAIN), or is broken.
pub data Sent : Type 0 where
  wrote : (room : ℕ) → Sent
  would_block : Sent
  broken : Sent

pub record TcpConn : Type 0 where
  pub closed : Bool
  pub output_buffer : List ℕ
  pub input_buffer : MessageBuffer
  pub interest : Interest
  pub accepted : List ℕ
  pub wire : List ℕ
  pub received_bytes : List ℕ
  pub closes : ℕ
  pub stale : ℕ

unfoldable pub connect : TcpConn
connect = record {
  closed = false;
  output_buffer = [];
  input_buffer = new 4096;
  interest = reading;
  accepted = [];
  wire = [];
  received_bytes = [];
  closes = 0;
  stale = 0;
}

-- `epoll_ctl(EPOLL_CTL_MOD)`, which fails for a descriptor that was removed
abbrev pub mod_event : Interest → Interest → Interest
mod_event reading wanted = wanted
mod_event writing wanted = wanted
mod_event removed wanted = removed

abbrev pub enable_write : TcpConn → TcpConn
enable_write c = record c { interest = mod_event c.interest writing }

abbrev pub disable_write : TcpConn → TcpConn
disable_write c = record c { interest = mod_event c.interest reading }

unfoldable pub close : TcpConn → TcpConn
close c =
    if c.closed then c else record c { closed = true; interest = removed; closes = c.closes + 1 }

abbrev pub is_empty : List ℕ → Bool
is_empty [] = true
is_empty (x ∷ xs) = false

-- `output_buffer_.append(data)` and `EnableWrite()`
abbrev pub append : List ℕ → TcpConn → TcpConn
append bytes c = enable_write (record c { output_buffer = c.output_buffer ++ bytes })

-- the first `n` bytes of `bytes` go to the socket
abbrev pub transmit : ℕ → List ℕ → TcpConn → TcpConn
transmit n bytes c =
    if c.closed
    then record c { stale = c.stale + 1 }
    else record c { wire = c.wire ++ take n bytes }

-- `Send`: the value returned and the connection. A `data` of nullptr is the empty list.
unfoldable pub send : List ℕ → Sent → TcpConn → ℤ × TcpConn
send bytes result c =
    let taken = record c { accepted = c.accepted ++ bytes } in
    let n : ℕ → ℕ = λ room. min room (length bytes) in
    let call : ℤ × TcpConn = elim result [
      | wrote room ↦ (
        pos (n room),
        (let c' = transmit (n room) bytes taken in
            if ltb (n room) (length bytes) then append (drop (n room) bytes) c' else c'),
      )
      | would_block ↦ (negsuc 0, append bytes taken)
      | broken ↦ (negsuc 0, close c)
    ] in
    if c.closed || is_empty bytes
    then (negsuc 0, c)
    else if not (is_empty c.output_buffer)
    then (pos (length bytes), append bytes taken)
    else call

unfoldable pub handle_write : Sent → TcpConn → TcpConn
handle_write result c = elim result [
  | wrote room ↦
      let n = min room (length c.output_buffer) in
      let c' = transmit n c.output_buffer c in
      let c'' = record c' { output_buffer = drop n c.output_buffer } in
      if ltb 0 n then (if is_empty c''.output_buffer then disable_write c'' else c'') else c'
  | would_block ↦ (if c.closed then record c { stale = c.stale + 1 } else c)
  | broken ↦ (if c.closed then record c { stale = c.stale + 1 } else close c)
]

-- `GetAllData`
unfoldable pub take_all_data : TcpConn → List ℕ × TcpConn
take_all_data c = (
  get_all_data c.input_buffer,
  record c { input_buffer = read_completed (get_active_size c.input_buffer) c.input_buffer },
)

-- `GetDataUntilCrLf`
unfoldable pub take_until_crlf : TcpConn → Option (List ℕ × TcpConn)
take_until_crlf c = do
  line ← get_data_until_crlf c.input_buffer
  elim line [
    | none ↦ some ([], c)
    | some n ↦
        let here = drop c.input_buffer.rpos c.input_buffer.bytes in
        some (take n here, record c { input_buffer = read_completed (n + 2) c.input_buffer })
  ]

-- What the read callback does with the connection.
pub data Request : Type 0 where
  sends : List ℕ → Sent → Request
  takes_all : Request
  takes_line : Request

unfoldable pub request : Request → TcpConn → Option TcpConn
request (sends bytes result) c = some (send bytes result c).1
request takes_all c = some (take_all_data c).1
request takes_line c = do (line, c') ← take_until_crlf c; some c'

unfoldable pub requests : List Request → TcpConn → Option TcpConn
requests [] c = some c
requests (r ∷ rs) c = do c' ← request r c; requests rs c'

abbrev pub bytes_of : Readv → List ℕ
bytes_of (failed e) = []
bytes_of (received bytes) = bytes

abbrev pub eagain : ℕ
eagain = 11

-- The end of `HandleRead`, where `Recv` did not give a positive number, which `int n` holds.
abbrev pub read_failed : (n : ℕ) (err : Option ℕ) → TcpConn → TcpConn
read_failed n none c = close c
read_failed n (some err) c = if n == 0 then close c else if err == eagain then c else close c

-- `HandleRead`; the callback's requests are `read_cb`
unfoldable pub handle_read : Readv → List Request → TcpConn → Option TcpConn
handle_read r read_cb c = do
  got ← recv r c.input_buffer
  let c' = record c { input_buffer = got.buffer; received_bytes = c.received_bytes ++ bytes_of r }
  let n = got.count % 2 ^ 32
  if ltb 0 n && ltb n (2 ^ 31) then requests read_cb c' else some (read_failed n got.error c')

-- The bits of `events` that `HandleIO` tests: EPOLLIN, EPOLLOUT, and EPOLLERR | EPOLLHUP | EPOLLRDHUP.
pub record Events : Type 0 where
  pub readable : Bool
  pub writable : Bool
  pub hung_up : Bool

unfoldable pub handle_io : Events → Readv → List Request → Sent → TcpConn → Option TcpConn
handle_io events r read_cb result c =
    let run = do
      c1 ← if events.readable then handle_read r read_cb c else some c
      let c2 = if events.writable then handle_write result c1 else c1
      some (if events.hung_up then close c2 else c2)
    in if c.closed then some c else run

-- What is reached from a new connection by calls of its users and by events.
pub data Reach : TcpConn → Type 0 where
  start : Reach connect
  asks : {c c' : TcpConn} (r : Request) → Reach c → request r c ≡ some c' → Reach c'
  polls :
      {c c' : TcpConn} (events : Events) (r : Readv) (read_cb : List Request) (result : Sent)
      → Reach c
      → handle_io events r read_cb result c ≡ some c'
      → Reach c'
