-- ===== src/TcpConnection/Stale.antt =====
-- An event that both closes a connection and writes to it.
use cpp_infra.Common.{
  Bool, Bool-cases, List, [], ap, drop, false, if◌then◌else◌, inl, inr, length, ltb, min, refl,
  some, true, ◌++◌, ◌+◌, ◌>>=◌, ◌∙◌, ◌≡◌,
}
use cpp_infra.MessageBuffer.{received}
use cpp_infra.MessageBuffer.Receive.{recv_closed}
use cpp_infra.TcpConnection.{
  is_empty, removed, Sent, wrote, would_block, broken, TcpConn, close, Request, handle_write,
  handle_read, Events, handle_io,
}
use cpp_infra.TcpConnection.Output.{close_open, close_closed}
use cpp_infra.TcpConnection.Stream.{io_open, after_read}

write_stale :
    (result : Sent) (c : TcpConn)
    → c.closed ≡ true
    → ((handle_write result c).stale ≡ c.stale + 1)
      × ((handle_write result c).closed ≡ true)
      × ((handle_write result c).closes ≡ c.closes)
unfolding handle_write
write_stale (wrote room) c e = elim (Bool-cases (ltb 0 (min room (length c.output_buffer)))) [
  | inl e' ↦
      elim (Bool-cases (is_empty (drop (min room (length c.output_buffer)) c.output_buffer))) [
        | inl e'' ↦ rw (e, e', e'') (refl, refl, refl)
        | inr e'' ↦ rw (e, e', e'') (refl, refl, refl)
      ]
  | inr e' ↦ rw (e, e') (refl, refl, refl)
]
write_stale would_block c e = rw e (refl, refl, refl)
write_stale broken c e = rw e (refl, refl, refl)

-- what `HandleRead` leaves where the peer has closed its end
abbrev ended : TcpConn → TcpConn
ended c = record c {
  closed = true;
  interest = removed;
  closes = c.closes + 1;
  received_bytes = c.received_bytes ++ [];
}

read_ended :
    (read_cb : List Request) (c : TcpConn)
    → c.closed ≡ false
    → handle_read (received []) read_cb c ≡ some (ended c)
unfolding handle_read
read_ended read_cb c e =
    rw (recv_closed c.input_buffer)
      (ap some (close_open (record c { received_bytes = c.received_bytes ++ [] }) e))

close_same : (h : Bool) (c : TcpConn) → c.closed ≡ true → (if h then close c else c) ≡ c
close_same true c e = close_closed c e
close_same false c e = refl

-- On an open connection whose peer has closed its end, an event with both EPOLLIN and EPOLLOUT makes
-- `HandleIO` close the descriptor and then call `::send` with its number.
pub handle_io-stale :
    (hung_up : Bool) (read_cb : List Request) (result : Sent) (c : TcpConn)
    → c.closed ≡ false
    → (c' : TcpConn) × (handle_io
          (record { readable = true; writable = true; hung_up = hung_up })
          (received [])
          read_cb
          result
          c
        ≡ some c')
      × (c'.closed ≡ true)
      × (c'.closes ≡ c.closes + 1)
      × (c'.stale ≡ c.stale + 1)
handle_io-stale hung_up read_cb result c e =
    let (counted, shut, same) = write_stale result (ended c) refl in
    let events : Events = record { readable = true; writable = true; hung_up = hung_up } in
    (
      handle_write result (ended c),
      io_open events (received []) read_cb result c e
          ∙ (ap (λ o. do c1 ← o; some (after_read events (received []) read_cb result c1))
                (read_ended read_cb c e)
              ∙ ap some (close_same hung_up (handle_write result (ended c)) shut)),
      shut,
      same,
      counted,
    )
