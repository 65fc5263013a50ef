-- ===== src/Transport/Laws.antt =====
-- The message loops deliver all of a message or report a failure, and never reorder or skip bytes.
use driver_uu_remote.Base.{
  ℕ, zero, suc, ◌+◌, ◌-◌, ◌≤◌, ◌≡◌, refl, sym, ap, ◌∙◌, min, inl, inr, Bool, true, List, [], ◌∷◌,
  ◌++◌, none, some, take, drop, length, length-drop, take-append-drop, take-append-take, drop-drop,
  append_assoc, append-nil, ◌==◌, Bool-cases, arith,
}
use driver_uu_remote.Transport.{
  Answer, moved, failed, closed, interrupted, Conn, int_max, send_loop, socket_send_all, recv_loop,
  socket_recv_all,
}

-- What a sender has done when it stops: a prefix of the message, all of it if it reports success,
-- and nothing read.
pub record Sent (bytes : List ℕ) (before : Conn) (done : Bool) (after : Conn) : Type 0 where
  pub count : ℕ
  pub prefix : after.sent ≡ before.sent ++ take count bytes
  pub whole : done ≡ true → take count bytes ≡ bytes
  pub unread : after.incoming ≡ before.incoming

pub Sent-more :
    (n : ℕ) (bytes : List ℕ) (before : Conn) (done : Bool) (after : Conn)
    → Sent (drop n bytes) (record before { sent = before.sent ++ take n bytes }) done after
    → Sent bytes before done after
Sent-more n bytes before done after s = record {
  count = n + s.count;
  prefix =
      s.prefix
      ∙ append_assoc before.sent (take n bytes) (take s.count (drop n bytes))
      ∙ ap (λ xs. before.sent ++ xs) (take-append-take n s.count bytes);
  whole = λ e.
      sym (take-append-take n s.count bytes)
      ∙ ap (λ xs. take n bytes ++ xs) (s.whole e)
      ∙ take-append-drop n bytes;
  unread = s.unread;
}

send_loop-Sent :
    (answers : List Answer) (bytes : List ℕ) (conn : Conn)
    → Sent bytes conn (send_loop answers bytes conn).0 (send_loop answers bytes conn).1
unfolding send_loop
send_loop-Sent [] [] conn = record {
  count = 0;
  prefix = sym (append-nil conn.sent);
  whole = λ e. refl;
  unread = refl;
}
send_loop-Sent (a ∷ answers) [] conn = record {
  count = 0;
  prefix = sym (append-nil conn.sent);
  whole = λ e. refl;
  unread = refl;
}
send_loop-Sent [] (b ∷ bs) conn = record {
  count = 0;
  prefix = sym (append-nil conn.sent);
  whole = λ e. cc;
  unread = refl;
}
send_loop-Sent (moved k ∷ answers) (b ∷ bs) conn =
    let count = min (k + 1) (min (length (b ∷ bs)) int_max) in
    Sent-more count (b ∷ bs) conn _ _ (
      send_loop-Sent answers (drop count (b ∷ bs))
        (record conn { sent = conn.sent ++ take count (b ∷ bs) }))
send_loop-Sent (failed ∷ answers) (b ∷ bs) conn = record {
  count = 0;
  prefix = sym (append-nil conn.sent);
  whole = λ e. cc;
  unread = refl;
}
send_loop-Sent (closed ∷ answers) (b ∷ bs) conn = record {
  count = 0;
  prefix = sym (append-nil conn.sent);
  whole = λ e. cc;
  unread = refl;
}
send_loop-Sent (interrupted ∷ answers) (b ∷ bs) conn = record {
  count = 0;
  prefix = sym (append-nil conn.sent);
  whole = λ e. cc;
  unread = refl;
}

-- `socket_send_all` sends a prefix of the message, the whole of it if it reports success, and
-- reads nothing.
pub socket_send_all-Sent :
    (conn : Conn) (bytes : List ℕ)
    → Sent bytes conn (socket_send_all conn bytes).0 (socket_send_all conn bytes).1
unfolding socket_send_all
socket_send_all-Sent conn bytes = send_loop-Sent conn.answers bytes conn

-- What a receiver that reports success has read.
pub record Read (size : ℕ) (before : Conn) (bytes : List ℕ) (after : Conn) : Type 0 where
  pub enough : size ≤ length before.incoming
  pub content : bytes ≡ take size before.incoming
  pub rest : after.incoming ≡ drop size before.incoming
  pub unsent : after.sent ≡ before.sent

-- The loop from the middle of a message on, `out` having been read.
pub record ReadOn (size : ℕ) (out : List ℕ) (before : Conn) (bytes : List ℕ) (after : Conn)
    : Type 0 where
  pub enough : size ≤ length before.incoming
  pub content : bytes ≡ out ++ take size before.incoming
  pub rest : after.incoming ≡ drop size before.incoming
  pub unsent : after.sent ≡ before.sent

pub ReadOn-more :
    (n size : ℕ) (out : List ℕ) (before : Conn) (bytes : List ℕ) (after : Conn)
    → n ≤ size
    → n ≤ length before.incoming
    → ReadOn
        (size - n)
        (out ++ take n before.incoming)
        (record before { incoming = drop n before.incoming })
        bytes
        after
    → ReadOn size out before bytes after
ReadOn-more n size out before bytes after h k r =
    let e : n + (size - n) ≡ size = omega arith in
    record {
      enough = omega (arith, r.enough, length-drop n before.incoming);
      content =
          r.content
          ∙ append_assoc out (take n before.incoming) (take (size - n) (drop n before.incoming))
          ∙ ap (λ xs. out ++ xs)
              (take-append-take n (size - n) before.incoming ∙ ap (λ m. take m before.incoming) e);
      rest = r.rest ∙ drop-drop n (size - n) before.incoming ∙ ap (λ m. drop m before.incoming) e;
      unsent = r.unsent;
    }

pub ReadOn-nil :
    (out : List ℕ) (before : Conn) (answers : List Answer) {bytes : List ℕ}
    → out ≡ bytes
    → ReadOn 0 out before bytes (record before { answers = answers })
ReadOn-nil out before answers e = record {
  enough = omega arith;
  content = sym e ∙ sym (append-nil out);
  rest = refl;
  unsent = refl;
}

some_eq : {a b : List ℕ} → some a ≡ some b → a ≡ b
some_eq p = cc

recv_loop-ReadOn :
    (answers : List Answer) (size : ℕ) (out : List ℕ) (conn : Conn) {bytes : List ℕ}
    → (recv_loop answers size out conn).0 ≡ some bytes
    → ReadOn size out conn bytes (recv_loop answers size out conn).1
unfolding recv_loop
recv_loop-ReadOn [] zero out conn e = ReadOn-nil out conn [] (some_eq e)
recv_loop-ReadOn (a ∷ answers) zero out conn e = ReadOn-nil out conn (a ∷ answers) (some_eq e)
recv_loop-ReadOn [] (suc size) out conn e = cc
recv_loop-ReadOn (moved k ∷ answers) (suc size) out conn e =
    let count = min (k + 1) (min (min (suc size) int_max) (length conn.incoming)) in
    elim (Bool-cases (count == 0)) [
      | inl z ↦ absurd (none-ne-some (rw z at e))
      | inr nz ↦ rw nz (
          ReadOn-more count (suc size) out conn _ _ (omega arith) (omega arith) (
            recv_loop-ReadOn answers (suc size - count) (out ++ take count conn.incoming)
              (record conn { incoming = drop count conn.incoming }) (rw nz at e)))
    ]
  where
    none-ne-some : {bs : List ℕ} → none ≡ some bs → ⊥
    none-ne-some p = cc
recv_loop-ReadOn (failed ∷ answers) (suc size) out conn e = cc
recv_loop-ReadOn (closed ∷ answers) (suc size) out conn e = cc
recv_loop-ReadOn (interrupted ∷ answers) (suc size) out conn e = cc

-- If `socket_recv_all` reports success, it has read exactly the next `size` bytes.
pub socket_recv_all-Read :
    (conn : Conn) (size : ℕ) {bytes : List ℕ}
    → (socket_recv_all conn size).0 ≡ some bytes
    → Read size conn bytes (socket_recv_all conn size).1
unfolding socket_recv_all
socket_recv_all-Read conn size e =
    let r = recv_loop-ReadOn conn.answers size [] conn e in
    record { enough = r.enough; content = r.content; rest = r.rest; unsent = r.unsent }
