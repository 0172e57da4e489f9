-- ===== src/TcpConnection/Tests.antt =====
-- Runs of a connection of network_timer/TcpConnection.cc.
use cpp_infra.Common.{[], false, refl, some, true, ◌+◌, ◌∷◌, ◌≡◌, ◌⊎◌}
use cpp_infra.MessageBuffer.{received}
use cpp_infra.TcpConnection.{
  wrote, broken, TcpConn, connect, send, handle_write, sends, request, Events, handle_io, Reach,
  start, asks, polls,
}
use cpp_infra.TcpConnection.Output.{IsOpen, IsClosed}
use cpp_infra.TcpConnection.Stream.{Reach-IsSound_conn}
use cpp_infra.TcpConnection.Stale.{handle_io-stale}

-- The socket took two of three bytes, and two more wait behind the third.
abbrev waiting : TcpConn
waiting = (send (8 ∷ 9 ∷ []) (wrote 5) (send (5 ∷ 6 ∷ 7 ∷ []) (wrote 2) connect).1).1

waiting_output : (waiting.wire ≡ 5 ∷ 6 ∷ []) × (waiting.output_buffer ≡ 7 ∷ 8 ∷ 9 ∷ [])
unfolding send connect
waiting_output = (refl, refl)

waiting-Reach : Reach waiting
unfolding request
waiting-Reach =
    asks (sends (8 ∷ 9 ∷ []) (wrote 5)) (asks (sends (5 ∷ 6 ∷ 7 ∷ []) (wrote 2)) start refl) refl

-- The socket has room for all of it.
abbrev writes : Events
writes = record { readable = false; writable = true; hung_up = false }

abbrev drained : TcpConn
drained = handle_write (wrote 10) waiting

drained-Reach : Reach drained
unfolding handle_io send connect
drained-Reach = polls writes (received []) [] (wrote 10) waiting-Reach refl

drained_wire : drained.wire ≡ 5 ∷ 6 ∷ 7 ∷ 8 ∷ 9 ∷ []
unfolding send connect handle_write
drained_wire = refl

Reach-IsSound_conn_example : IsOpen drained ⊎ IsClosed drained
Reach-IsSound_conn_example = Reach-IsSound_conn drained drained-Reach

handle_io-stale_example :
    (c' : TcpConn) × (handle_io
        (record { readable = true; writable = true; hung_up = false })
        (received [])
        []
        broken
        waiting
      ≡ some c')
    × (c'.closed ≡ true)
    × (c'.closes ≡ waiting.closes + 1)
    × (c'.stale ≡ waiting.stale + 1)
unfolding send connect
handle_io-stale_example = handle_io-stale false [] broken waiting refl
