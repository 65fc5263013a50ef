-- ===== src/Transport/Helper.antt =====
-- The helpers' own loops, which go on after interruptions, move the same bytes.
use driver_uu_remote.Base.{
  ℕ, zero, suc, ◌+◌, ◌-◌, ◌≡◌, refl, sym, min, inl, inr, Bool, true, List, [], ◌∷◌, ◌++◌, take,
  drop, length, append-nil, ◌==◌, Bool-cases, arith,
}
use driver_uu_remote.Transport.{
  Answer, moved, failed, closed, interrupted, Conn, received, end, helper_recv_loop, recv_all,
  helper_send_loop, send_all,
}
use driver_uu_remote.Transport.Laws.{Sent, Sent-more, Read, ReadOn, ReadOn-more, ReadOn-nil}

-- Nothing sent yet, and not the end unless the message is empty.
untouched-Sent :
    (bytes : List ℕ) (conn : Conn) (done : Bool) (answers : List Answer)
    → (done ≡ true → [] ≡ bytes)
    → Sent bytes conn done (record conn { answers = answers })
untouched-Sent bytes conn done answers h = record {
  count = 0;
  prefix = sym (append-nil conn.sent);
  whole = h;
  unread = refl;
}

helper_send_loop-Sent :
    (answers : List Answer) (bytes : List ℕ) (conn : Conn)
    → Sent bytes conn
        (helper_send_loop answers bytes conn).0
        (helper_send_loop answers bytes conn).1
unfolding helper_send_loop
helper_send_loop-Sent [] [] conn = untouched-Sent [] conn true [] (λ e. refl)
helper_send_loop-Sent (a ∷ answers) [] conn = untouched-Sent [] conn true (a ∷ answers) (λ e. refl)
helper_send_loop-Sent [] (b ∷ bs) conn = untouched-Sent (b ∷ bs) conn _ [] (λ e. cc)
helper_send_loop-Sent (moved k ∷ answers) (b ∷ bs) conn =
    let count = min (k + 1) (length (b ∷ bs)) in
    Sent-more count (b ∷ bs) conn _ _ (
      helper_send_loop-Sent answers (drop count (b ∷ bs))
        (record conn { sent = conn.sent ++ take count (b ∷ bs) }))
helper_send_loop-Sent (failed ∷ answers) (b ∷ bs) conn =
    untouched-Sent (b ∷ bs) conn _ answers (λ e. cc)
helper_send_loop-Sent (closed ∷ answers) (b ∷ bs) conn = helper_send_loop-Sent answers (b ∷ bs) conn
helper_send_loop-Sent (interrupted ∷ answers) (b ∷ bs) conn =
    helper_send_loop-Sent answers (b ∷ bs) conn

-- `send_all` sends a prefix of the message, the whole of it if it reports success.
pub send_all-Sent :
    (conn : Conn) (bytes : List ℕ) → Sent bytes conn (send_all conn bytes).0 (send_all conn bytes).1
unfolding send_all
send_all-Sent conn bytes = helper_send_loop-Sent conn.answers bytes conn

received_eq : {a b : List ℕ} → received a ≡ received b → a ≡ b
received_eq p = cc

helper_recv_loop-ReadOn :
    (answers : List Answer) (size : ℕ) (out : List ℕ) (conn : Conn) {bytes : List ℕ}
    → (helper_recv_loop answers size out conn).0 ≡ received bytes
    → ReadOn size out conn bytes (helper_recv_loop answers size out conn).1
unfolding helper_recv_loop
helper_recv_loop-ReadOn [] zero out conn e = ReadOn-nil out conn [] (received_eq e)
helper_recv_loop-ReadOn (a ∷ answers) zero out conn e =
    ReadOn-nil out conn (a ∷ answers) (received_eq e)
helper_recv_loop-ReadOn [] (suc size) out conn e = cc
helper_recv_loop-ReadOn (moved k ∷ answers) (suc size) out conn e =
    let count = min (k + 1) (min (suc size) (length conn.incoming)) in
    elim (Bool-cases (count == 0)) [
      | inl z ↦ absurd (ended (rw z at e))
      | inr nz ↦ rw nz (
          ReadOn-more count (suc size) out conn _ _ (omega arith) (omega arith) (
            helper_recv_loop-ReadOn answers (suc size - count) (out ++ take count conn.incoming)
              (record conn { incoming = drop count conn.incoming }) (rw nz at e)))
    ]
  where
    ended : {bs : List ℕ} → end ≡ received bs → ⊥
    ended p = cc
helper_recv_loop-ReadOn (failed ∷ answers) (suc size) out conn e = cc
helper_recv_loop-ReadOn (closed ∷ answers) (suc size) out conn e = cc
helper_recv_loop-ReadOn (interrupted ∷ answers) (suc size) out conn e =
    helper_recv_loop-ReadOn answers (suc size) out conn e

-- If `recv_all` answers 1, it has read exactly the next `size` bytes.
pub recv_all-Read :
    (conn : Conn) (size : ℕ) {bytes : List ℕ}
    → (recv_all conn size).0 ≡ received bytes
    → Read size conn bytes (recv_all conn size).1
unfolding recv_all
recv_all-Read conn size e =
    let r = helper_recv_loop-ReadOn conn.answers size [] conn e in
    record { enough = r.enough; content = r.content; rest = r.rest; unsent = r.unsent }

helper_recv_loop_unsent :
    (answers : List Answer) (size : ℕ) (out : List ℕ) (conn : Conn)
    → (helper_recv_loop answers size out conn).1.sent ≡ conn.sent
unfolding helper_recv_loop
helper_recv_loop_unsent [] zero out conn = refl
helper_recv_loop_unsent (a ∷ answers) zero out conn = refl
helper_recv_loop_unsent [] (suc size) out conn = refl
helper_recv_loop_unsent (moved k ∷ answers) (suc size) out conn =
    let count = min (k + 1) (min (suc size) (length conn.incoming)) in
    elim (Bool-cases (count == 0)) [
      | inl z ↦ rw z refl
      | inr nz ↦ rw nz (
          helper_recv_loop_unsent answers (suc size - count) (out ++ take count conn.incoming)
            (record conn { incoming = drop count conn.incoming }))
    ]
helper_recv_loop_unsent (failed ∷ answers) (suc size) out conn = refl
helper_recv_loop_unsent (closed ∷ answers) (suc size) out conn = refl
helper_recv_loop_unsent (interrupted ∷ answers) (suc size) out conn =
    helper_recv_loop_unsent answers (suc size) out conn

-- `recv_all` sends nothing, whatever it answers.
pub recv_all_unsent : (conn : Conn) (size : ℕ) → (recv_all conn size).1.sent ≡ conn.sent
unfolding recv_all
recv_all_unsent conn size = helper_recv_loop_unsent conn.answers size [] conn
