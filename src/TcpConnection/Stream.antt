-- ===== src/TcpConnection/Stream.antt =====
-- What a connection sends, and when it is closed.
use mathlib.Core.Path.{subst}
use cpp_infra.Common.{
  Bool, Bool-cases, List, Option, Option-cases, [], drop, false, if◌then◌else◌, inl, inr, ltb, none,
  refl, some, sym, take, true, ℕ, ◌%◌, ◌&&◌, ◌++◌, ◌+◌, ◌==◌, ◌>>=◌, ◌^◌, ◌∙◌, ◌∷◌, ◌≡◌, ◌⊎◌,
}
use mathlib.Core.Option.{some-injective}
use cpp_infra.MessageBuffer.{
  MessageBuffer, get_data_until_crlf, read_completed, get_active_size, Readv, recv,
}
use cpp_infra.TcpConnection.{
  Sent, TcpConn, connect, close, handle_write, take_all_data, take_until_crlf, Request, sends,
  takes_all, takes_line, request, requests, bytes_of, read_failed, handle_read, Events, handle_io,
  Reach, start, asks, polls, eagain,
}
use cpp_infra.TcpConnection.Output.{IsOpen, IsClosed, IsSound, close-IsClosed, send-IsSound}
use cpp_infra.TcpConnection.Drain.{handle_write-IsSound}

-- Only the input changes.
input-IsSound :
    (c : TcpConn) (b : MessageBuffer) (got : List ℕ)
    → IsSound c
    → IsSound (record c { input_buffer = b; received_bytes = got })
input-IsSound c b got (inl s) = inl (record {
  is_open = s.is_open;
  stream = s.stream;
  interested = s.interested;
  not_closed = s.not_closed;
  not_stale = s.not_stale;
})
input-IsSound c b got (inr s) =
    inr (record { is_closed = s.is_closed; once = s.once; unregistered = s.unregistered })

line-IsSound :
    (line : Option ℕ) (c : TcpConn) {out : List ℕ × TcpConn}
    → (elim line [
      | none ↦ some ([], c)
      | some n ↦
          let here = drop c.input_buffer.rpos c.input_buffer.bytes in
          some (take n here, record c { input_buffer = read_completed (n + 2) c.input_buffer })
    ])
      ≡ some out
    → IsSound c
    → IsSound out.1
line-IsSound none c e s = subst (λ o. IsSound o.1) (some-injective _ _ e) s
line-IsSound (some n) c e s =
    subst (λ o. IsSound o.1) (some-injective _ _ e)
      (input-IsSound c (read_completed (n + 2) c.input_buffer) c.received_bytes s)

take_until_crlf-IsSound :
    (c : TcpConn) {out : List ℕ × TcpConn}
    → take_until_crlf c ≡ some out
    → IsSound c
    → IsSound out.1
unfolding take_until_crlf
take_until_crlf-IsSound c {out} e s = elim (Option-cases (get_data_until_crlf c.input_buffer)) [
  | inl e' ↦ (let both : none ≡ some out = rw e' at e in absurd (cc both))
  | inr (line, e') ↦ line-IsSound line c (rw e' at e) s
]

request-IsSound : (r : Request) {c c' : TcpConn} → request r c ≡ some c' → IsSound c → IsSound c'
unfolding request take_all_data
request-IsSound (sends xs result) {c} {c'} e s =
    subst IsSound (some-injective _ _ e) (send-IsSound xs result c s)
request-IsSound takes_all {c} {c'} e s = subst IsSound (some-injective _ _ e) (
    input-IsSound c (read_completed (get_active_size c.input_buffer) c.input_buffer)
      c.received_bytes s)
request-IsSound takes_line {c} {c'} e s = elim (Option-cases (take_until_crlf c)) [
  | inl e' ↦ (let both : none ≡ some c' = rw e' at e in absurd (cc both))
  | inr (out, e') ↦
      (let same : some out.1 ≡ some c' = rw e' at e in
        subst IsSound (some-injective _ _ same) (take_until_crlf-IsSound c e' s))
]

requests-IsSound :
    (rs : List Request) {c c' : TcpConn} → requests rs c ≡ some c' → IsSound c → IsSound c'
unfolding requests
requests-IsSound [] e s = subst IsSound (some-injective _ _ e) s
requests-IsSound (r ∷ rs) {c} {c'} e s = elim (Option-cases (request r c)) [
  | inl e' ↦ (let both : none ≡ some c' = rw e' at e in absurd (cc both))
  | inr (d, e') ↦ requests-IsSound rs (rw e' at e) (request-IsSound r e' s)
]

read_failed-IsSound :
    (n : ℕ) (err : Option ℕ) (c : TcpConn) → IsSound c → IsSound (read_failed n err c)
read_failed-IsSound n none c s = inr (close-IsClosed c s)
read_failed-IsSound n (some err) c s = elim (Bool-cases (n == 0)) [
  | inl e ↦ rw e (inr (close-IsClosed c s))
  | inr e ↦ elim (Bool-cases (err == eagain)) [
    | inl e' ↦ rw (e, e') s
    | inr e' ↦ rw (e, e') (inr (close-IsClosed c s))
  ]
]

handle_read-IsSound :
    (r : Readv) (read_cb : List Request) {c c' : TcpConn}
    → handle_read r read_cb c ≡ some c'
    → IsSound c
    → IsSound c'
unfolding handle_read
handle_read-IsSound r read_cb {c} {c'} e s = elim (Option-cases (recv r c.input_buffer)) [
  | inl e' ↦ (let both : none ≡ some c' = rw e' at e in absurd (cc both))
  | inr (got, e') ↦
      let now = input-IsSound c got.buffer (c.received_bytes ++ bytes_of r) s in
      let n = got.count % 2 ^ 32 in
      elim (Bool-cases (ltb 0 n && ltb n (2 ^ 31))) [
        | inl yes_read ↦ requests-IsSound read_cb (rw (e', yes_read) at e) now
        | inr not_read ↦
            subst IsSound (some-injective _ _ (rw (e', not_read) at e))
              (read_failed-IsSound n got.error _ now)
      ]
]

-- the end of `HandleIO`, from the write on
written-IsSound :
    (events : Events) (result : Sent) (c : TcpConn)
    → IsSound c
    → IsSound (
        let c2 = if events.writable then handle_write result c else c in
        if events.hung_up then close c2 else c2)
written-IsSound events result c s = hang_up events.hung_up _ (write events.writable)
  where
    write : (b : Bool) → IsSound (if b then handle_write result c else c)
    write true = handle_write-IsSound result c s
    write false = s

    hang_up : (b : Bool) (c' : TcpConn) → IsSound c' → IsSound (if b then close c' else c')
    hang_up true c' s' = inr (close-IsClosed c' s')
    hang_up false c' s' = s'

module _ (events : Events) (r : Readv) (read_cb : List Request) (result : Sent) where
  abbrev pub after_read : TcpConn → TcpConn
  after_read c1 =
      let c2 = if events.writable then handle_write result c1 else c1 in
      if events.hung_up then close c2 else c2

  io_closed : (c : TcpConn) → c.closed ≡ true → handle_io events r read_cb result c ≡ some c
  unfolding handle_io
  io_closed c e = rw e refl

  pub io_open :
      (c : TcpConn)
      → c.closed ≡ false
      → handle_io events r read_cb result c ≡ (do
        c1 ← if events.readable then handle_read r read_cb c else some c
        some (after_read c1))
  unfolding handle_io
  io_open c e = rw e refl

  after_read-IsSound :
      (o : Option TcpConn) {c' : TcpConn}
      → ((c1 : TcpConn) → o ≡ some c1 → IsSound c1)
      → (do c1 ← o; some (after_read c1)) ≡ some c'
      → IsSound c'
  after_read-IsSound none sound e = absurd (cc e)
  after_read-IsSound (some c1) sound e =
      subst IsSound (some-injective _ _ e) (written-IsSound events result c1 (sound c1 refl))

  was_read :
      (b : Bool) (c c1 : TcpConn)
      → (if b then handle_read r read_cb c else some c) ≡ some c1
      → IsSound c
      → IsSound c1
  was_read true c c1 e s = handle_read-IsSound r read_cb e s
  was_read false c c1 e s = subst IsSound (some-injective _ _ e) s

  handle_io-IsSound :
      {c c' : TcpConn} → handle_io events r read_cb result c ≡ some c' → IsSound c → IsSound c'
  handle_io-IsSound {c} {c'} e s = elim (Bool-cases c.closed) [
    | inl e' ↦ subst IsSound (some-injective _ _ (sym (io_closed c e') ∙ e)) s
    | inr e' ↦
        after_read-IsSound (if events.readable then handle_read r read_cb c else some c)
          (λ c1 e1. was_read events.readable c c1 e1 s) (sym (io_open c e') ∙ e)
  ]

-- In every state that a connection reaches by the calls of its users and by events, with any results
-- of `::send` and `readv`: either it is open, the bytes that Send took over are, in order, those that
-- the socket took and then those that wait, EPOLLOUT is asked for just while bytes wait, and no
-- `::send` was called on a closed descriptor; or it is closed, and its descriptor was removed from
-- epoll and closed exactly once.
pub Reach-IsSound_conn : (c : TcpConn) → Reach c → IsOpen c ⊎ IsClosed c
unfolding connect
Reach-IsSound_conn c start = inl (record {
  is_open = refl;
  stream = refl;
  interested = refl;
  not_closed = refl;
  not_stale = refl;
})
Reach-IsSound_conn c' (asks {c} r before e) = request-IsSound r e (Reach-IsSound_conn c before)
Reach-IsSound_conn c' (polls {c} events r read_cb result before e) =
    handle_io-IsSound events r read_cb result e (Reach-IsSound_conn c before)
