-- ===== src/TcpConnection/Drain.antt =====
-- `HandleWrite`, once the socket has room again.
use mathlib.Core.Path.{subst}
use cpp_infra.Common.{
  Bool-cases, List, List-cases, [], ap, arith, drop, false, ge_of_ltb, inl, inr, length, ltb, min,
  refl, suc, sym, take, take-append-drop, true, zero, ℕ, ◌++◌, ◌∙◌, ◌∷◌, ◌≡◌, ◌≤◌,
}
use mathlib.Core.List.{append_assoc, append-nil}
use cpp_infra.TcpConnection.{
  Interest, reading, removed, Sent, wrote, would_block, broken, TcpConn, mod_event, close, is_empty,
  handle_write,
}
use cpp_infra.TcpConnection.Output.{IsOpen, IsClosed, IsSound, wanted, mod_wanted, close-IsClosed}

mod_removed : (i wish : Interest) → i ≡ removed → mod_event i wish ≡ removed
mod_removed i wish e = rw e refl

wanted-drop : (n : ℕ) (xs : List ℕ) → is_empty (drop n xs) ≡ false → wanted xs ≡ wanted (drop n xs)
wanted-drop zero xs e = refl
wanted-drop (suc n) [] e = refl
wanted-drop (suc n) (x ∷ xs) e = elim (List-cases (drop n xs)) [
  | inl e' ↦ (let both : true ≡ false = ap is_empty (sym e') ∙ e in absurd (cc both))
  | inr (y, ys, e') ↦ ap wanted (sym e')
]

wanted_empty : (xs : List ℕ) → is_empty xs ≡ true → wanted xs ≡ reading
wanted_empty [] e = refl
wanted_empty (x ∷ xs) e = absurd (cc e)

write-IsClosed : (result : Sent) (c : TcpConn) → IsClosed c → IsClosed (handle_write result c)
unfolding handle_write
write-IsClosed (wrote room) c s = elim (Bool-cases (ltb 0 (min room (length c.output_buffer)))) [
  | inl e ↦
      elim (Bool-cases (is_empty (drop (min room (length c.output_buffer)) c.output_buffer))) [
        | inl e' ↦
            rw (e, e', s.is_closed)
              (record {
                is_closed = refl;
                once = s.once;
                unregistered = mod_removed c.interest reading s.unregistered;
              })
        | inr e' ↦
            rw (e, e', s.is_closed)
              (record { is_closed = refl; once = s.once; unregistered = s.unregistered })
      ]
  | inr e ↦
      rw (e, s.is_closed)
        (record { is_closed = refl; once = s.once; unregistered = s.unregistered })
]
write-IsClosed would_block c s =
    rw s.is_closed (record { is_closed = refl; once = s.once; unregistered = s.unregistered })
write-IsClosed broken c s =
    rw s.is_closed (record { is_closed = refl; once = s.once; unregistered = s.unregistered })

module _ (c : TcpConn) (s : IsOpen c) where
  written : (n : ℕ) → c.accepted ≡ (c.wire ++ take n c.output_buffer) ++ drop n c.output_buffer
  written n =
      s.stream
      ∙ (ap (λ ys. c.wire ++ ys) (sym (take-append-drop n c.output_buffer))
          ∙ sym (append_assoc c.wire (take n c.output_buffer) (drop n c.output_buffer)))

  unwritten : (n : ℕ) → n ≤ 0 → c.accepted ≡ (c.wire ++ take n c.output_buffer) ++ c.output_buffer
  unwritten zero le = s.stream ∙ ap (λ ys. ys ++ c.output_buffer) (sym (append-nil c.wire))
  unwritten (suc n) le = absurd (omega arith)

  write_wrote : (room : ℕ) → IsOpen (handle_write (wrote room) c)
  unfolding handle_write
  write_wrote room = elim (Bool-cases (ltb 0 (min room (length c.output_buffer)))) [
    | inl e ↦
        elim (Bool-cases (is_empty (drop (min room (length c.output_buffer)) c.output_buffer))) [
          | inl e' ↦
              rw (e, e', s.is_open)
                (record {
                  is_open = refl;
                  stream = written (min room (length c.output_buffer));
                  interested =
                      mod_wanted c.interest reading c.output_buffer s.interested
                      ∙ sym (
                          wanted_empty (drop (min room (length c.output_buffer)) c.output_buffer)
                            e');
                  not_closed = s.not_closed;
                  not_stale = s.not_stale;
                })
          | inr e' ↦
              rw (e, e', s.is_open)
                (record {
                  is_open = refl;
                  stream = written (min room (length c.output_buffer));
                  interested =
                      s.interested
                      ∙ wanted-drop (min room (length c.output_buffer)) c.output_buffer e';
                  not_closed = s.not_closed;
                  not_stale = s.not_stale;
                })
        ]
    | inr e ↦
        rw (e, s.is_open)
          (record {
            is_open = refl;
            stream =
                unwritten (min room (length c.output_buffer))
                  (ge_of_ltb 0 (min room (length c.output_buffer)) e);
            interested = s.interested;
            not_closed = s.not_closed;
            not_stale = s.not_stale;
          })
  ]

  write_blocked : handle_write would_block c ≡ c
  unfolding handle_write
  write_blocked = rw s.is_open refl

  write_broken : handle_write broken c ≡ close c
  unfolding handle_write
  write_broken = rw s.is_open refl

pub handle_write-IsSound :
    (result : Sent) (c : TcpConn) → IsSound c → IsSound (handle_write result c)
handle_write-IsSound result c (inr s) = inr (write-IsClosed result c s)
handle_write-IsSound (wrote room) c (inl s) = inl (write_wrote c s room)
handle_write-IsSound would_block c (inl s) = inl (subst IsOpen (sym (write_blocked c s)) s)
handle_write-IsSound broken c (inl s) =
    inr (subst IsClosed (sym (write_broken c s)) (close-IsClosed c (inl s)))
