-- ===== src/TcpConnection/Output.antt =====
-- What a connection keeps of its output, and `Send`.
use mathlib.Core.Path.{subst}
use cpp_infra.Common.{
  Bool-cases, List, List-cases, [], ap, arith, drop, false, ge_of_ltb, if◌then◌else◌, inl, inr,
  length, lt_of_ltb, ltb, min, refl, suc, sym, take, take-append-drop, true, zero, ℕ, ◌++◌, ◌+◌,
  ◌<◌, ◌∙◌, ◌∷◌, ◌≡◌, ◌≤◌, ◌⊎◌,
}
use mathlib.Core.List.{append_assoc, append-nil}
use cpp_infra.TcpConnection.{
  Interest, reading, writing, removed, Sent, wrote, would_block, broken, TcpConn, mod_event, close,
  is_empty, append, send,
}

-- EPOLLOUT is asked for just while bytes wait.
abbrev pub wanted : List ℕ → Interest
wanted [] = reading
wanted (x ∷ xs) = writing

-- An open connection: what Send took over is what the socket took and then what waits.
pub record IsOpen (c : TcpConn) : Type 0 where
  pub is_open : c.closed ≡ false
  pub stream : c.accepted ≡ c.wire ++ c.output_buffer
  pub interested : c.interest ≡ wanted c.output_buffer
  pub not_closed : c.closes ≡ 0
  pub not_stale : c.stale ≡ 0

-- A closed one: its descriptor was removed and closed once.
pub record IsClosed (c : TcpConn) : Type 0 where
  pub is_closed : c.closed ≡ true
  pub once : c.closes ≡ 1
  pub unregistered : c.interest ≡ removed

abbrev pub IsSound : TcpConn → Type 0
IsSound c = IsOpen c ⊎ IsClosed c

pub mod_wanted : (i wish : Interest) (output : List ℕ) → i ≡ wanted output → mod_event i wish ≡ wish
mod_wanted i wish [] e = rw e refl
mod_wanted i wish (x ∷ xs) e = rw e refl

wanted_append : (xs : List ℕ) (y : ℕ) (ys : List ℕ) → wanted (xs ++ y ∷ ys) ≡ writing
wanted_append [] y ys = refl
wanted_append (x ∷ xs) y ys = refl

pub close_open :
    (c : TcpConn)
    → c.closed ≡ false
    → close c ≡ record c { closed = true; interest = removed; closes = c.closes + 1 }
unfolding close
close_open c e = rw e refl

pub close_closed : (c : TcpConn) → c.closed ≡ true → close c ≡ c
unfolding close
close_closed c e = rw e refl

pub close-IsClosed : (c : TcpConn) → IsSound c → IsClosed (close c)
close-IsClosed c (inl s) =
    subst IsClosed (sym (close_open c s.is_open))
      (record { is_closed = refl; once = ap (λ k. k + 1) s.not_closed; unregistered = refl })
close-IsClosed c (inr s) = subst IsClosed (sym (close_closed c s.is_closed)) s

append-IsOpen :
    (c : TcpConn) (rest wire accepted : List ℕ)
    → IsOpen c
    → is_empty rest ≡ false
    → accepted ≡ wire ++ (c.output_buffer ++ rest)
    → IsOpen (append rest (record c { wire = wire; accepted = accepted }))
append-IsOpen c [] wire accepted s e stream = absurd (cc e)
append-IsOpen c (x ∷ xs) wire accepted s e stream = record {
  is_open = s.is_open;
  stream = stream;
  interested =
      mod_wanted c.interest writing c.output_buffer s.interested
      ∙ sym (wanted_append c.output_buffer x xs);
  not_closed = s.not_closed;
  not_stale = s.not_stale;
}

drop_rest : (n : ℕ) (xs : List ℕ) → n < length xs → is_empty (drop n xs) ≡ false
drop_rest n [] lt = absurd (omega arith)
drop_rest zero (x ∷ xs) lt = refl
drop_rest (suc n) (x ∷ xs) lt = drop_rest n xs (omega arith)

take_all : (n : ℕ) (xs : List ℕ) → length xs ≤ n → take n xs ≡ xs
take_all zero [] le = refl
take_all (suc n) [] le = refl
take_all zero (x ∷ xs) le = absurd (omega arith)
take_all (suc n) (x ∷ xs) le = ap (λ ys. x ∷ ys) (take_all n xs (omega arith))

module _ (c : TcpConn) (x : ℕ) (xs : List ℕ) where
  abbrev bytes : List ℕ
  bytes = x ∷ xs

  abbrev accepted : List ℕ
  accepted = c.accepted ++ bytes

  abbrev given : ℕ → ℕ
  given room = min room (length bytes)

  -- the connection once the socket took what it has room for
  abbrev partly : ℕ → TcpConn
  partly room = record c { accepted = accepted; wire = c.wire ++ take (given room) bytes }

  send_queues :
      (result : Sent)
      → c.closed ≡ false
      → is_empty c.output_buffer ≡ false
      → (send bytes result c).1 ≡ append bytes (record c { accepted = accepted })
  unfolding send
  send_queues result e e' = rw (e, e') refl

  send_wrote :
      (room : ℕ)
      → c.closed ≡ false
      → is_empty c.output_buffer ≡ true
      → (send bytes (wrote room) c).1 ≡ (
          if ltb (given room) (length bytes)
          then append (drop (given room) bytes) (partly room)
          else partly room)
  unfolding send
  send_wrote room e e' = rw (e, e') refl

  send_blocked :
      c.closed ≡ false
      → is_empty c.output_buffer ≡ true
      → (send bytes would_block c).1 ≡ append bytes (record c { accepted = accepted })
  unfolding send
  send_blocked e e' = rw (e, e') refl

  send_broken :
      c.closed ≡ false → is_empty c.output_buffer ≡ true → (send bytes broken c).1 ≡ close c
  unfolding send
  send_broken e e' = rw (e, e') refl

  module _ (s : IsOpen c) where
    queued : IsOpen (append bytes (record c { accepted = accepted }))
    queued =
        append-IsOpen c bytes c.wire accepted s refl
          (ap (λ ys. ys ++ bytes) s.stream ∙ append_assoc c.wire c.output_buffer bytes)

    all_wire : c.output_buffer ≡ [] → accepted ≡ c.wire ++ bytes
    all_wire none_left =
        ap (λ ys. ys ++ bytes) (s.stream ∙ (ap (λ ys. c.wire ++ ys) none_left ∙ append-nil c.wire))

    split_stream :
        (n : ℕ)
        → c.output_buffer ≡ []
        → accepted ≡ (c.wire ++ take n bytes) ++ (c.output_buffer ++ drop n bytes)
    split_stream n none_left =
        all_wire none_left
        ∙ (ap (λ ys. c.wire ++ ys) (sym (take-append-drop n bytes))
            ∙ (sym (append_assoc c.wire (take n bytes) (drop n bytes))
                ∙ ap (λ ys. (c.wire ++ take n bytes) ++ (ys ++ drop n bytes)) (sym none_left)))

    partly_sent :
        (room : ℕ)
        → c.output_buffer ≡ []
        → IsOpen (
            if ltb (given room) (length bytes)
            then append (drop (given room) bytes) (partly room)
            else partly room)
    partly_sent room none_left = elim (Bool-cases (ltb (given room) (length bytes))) [
      | inl e ↦ rw e (
          append-IsOpen c (drop (given room) bytes) (c.wire ++ take (given room) bytes) accepted s
            (drop_rest (given room) bytes (lt_of_ltb (given room) (length bytes) e))
            (split_stream (given room) none_left))
      | inr e ↦ rw e (record {
        is_open = s.is_open;
        stream =
            all_wire none_left
            ∙ (ap (λ ys. c.wire ++ ys)
                  (sym (take_all (given room) bytes (ge_of_ltb (given room) (length bytes) e)))
                ∙ (sym (append-nil (c.wire ++ take (given room) bytes))
                    ∙ ap (λ ys. (c.wire ++ take (given room) bytes) ++ ys) (sym none_left)));
        interested = s.interested;
        not_closed = s.not_closed;
        not_stale = s.not_stale;
      })
    ]

    sent : (result : Sent) → c.output_buffer ≡ [] → IsSound (send bytes result c).1
    sent (wrote room) e =
        inl (subst IsOpen (sym (send_wrote room s.is_open (ap is_empty e))) (partly_sent room e))
    sent would_block e = inl (subst IsOpen (sym (send_blocked s.is_open (ap is_empty e))) queued)
    sent broken e =
        inr
          (subst IsClosed (sym (send_broken s.is_open (ap is_empty e))) (close-IsClosed c (inl s)))

send_nothing : (result : Sent) (c : TcpConn) → (send [] result c).1 ≡ c
unfolding send
send_nothing result c = elim (Bool-cases c.closed) [ inl e ↦ rw e refl | inr e ↦ rw e refl ]

send_closed :
    (xs : List ℕ) (result : Sent) (c : TcpConn) → c.closed ≡ true → (send xs result c).1 ≡ c
unfolding send
send_closed xs result c e = rw e refl

pub send-IsSound :
    (xs : List ℕ) (result : Sent) (c : TcpConn) → IsSound c → IsSound (send xs result c).1
send-IsSound xs result c (inr s) =
    inr (subst IsClosed (sym (send_closed xs result c s.is_closed)) s)
send-IsSound [] result c (inl s) = inl (subst IsOpen (sym (send_nothing result c)) s)
send-IsSound (x ∷ xs) result c (inl s) = elim (List-cases c.output_buffer) [
  | inl e ↦ sent c x xs s result e
  | inr (y, ys, e) ↦
      inl
        (subst IsOpen (sym (send_queues c x xs result s.is_open (ap is_empty e))) (queued c x xs s))
]
