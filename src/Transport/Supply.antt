-- ===== src/Transport/Supply.antt =====
-- Several messages one after the other: enough positive counts for all of them are enough for each.
use driver_uu_remote.Base.{
  ℕ, zero, suc, ◌+◌, ◌-◌, ◌≤◌, ◌<◌, ◌≡◌, sym, ap, ◌∙◌, min, true, false, List, [], ◌∷◌, ◌++◌, some,
  take, drop, length, length-drop, length-append, take-append, drop-append, All, ◌==◌, arith,
}
use driver_uu_remote.Transport.{
  Answer, moved, failed, closed, interrupted, Conn, int_max, send_loop, socket_send_all, recv_loop,
  socket_recv_all,
}
use driver_uu_remote.Transport.Laws.{socket_recv_all-Read}
use driver_uu_remote.Transport.Total.{Moves, socket_send_all-total, socket_recv_all-total}

-- The next `count` bytes can be moved.
pub record Supplied (count : ℕ) (conn : Conn) : Type 0 where
  pub moving : All Moves conn.answers
  pub enough : count ≤ length conn.answers

send_loop-Supplied :
    (answers : List Answer) (bytes : List ℕ) (conn : Conn) (more : ℕ)
    → All Moves answers
    → length bytes + more ≤ length answers
    → Supplied more (send_loop answers bytes conn).1
unfolding send_loop Moves
send_loop-Supplied [] [] conn more m h = record { moving = m; enough = omega arith }
send_loop-Supplied (a ∷ answers) [] conn more m h = record { moving = m; enough = omega arith }
send_loop-Supplied [] (b ∷ bs) conn more m h = absurd (omega arith)
send_loop-Supplied (moved k ∷ answers) (b ∷ bs) conn more m h =
    let count = min (k + 1) (min (length (b ∷ bs)) int_max) in
    send_loop-Supplied answers (drop count (b ∷ bs)) _ more m.1
      (omega (arith, length-drop count (b ∷ bs)))
send_loop-Supplied (failed ∷ answers) (b ∷ bs) conn more m h = absurd m.0
send_loop-Supplied (closed ∷ answers) (b ∷ bs) conn more m h = absurd m.0
send_loop-Supplied (interrupted ∷ answers) (b ∷ bs) conn more m h = absurd m.0

recv_loop-Supplied :
    (answers : List Answer) (size : ℕ) (out : List ℕ) (conn : Conn) (more : ℕ)
    → All Moves answers
    → size + more ≤ length answers
    → size ≤ length conn.incoming
    → Supplied more (recv_loop answers size out conn).1
unfolding recv_loop Moves
recv_loop-Supplied [] zero out conn more m h k = record { moving = m; enough = omega arith }
recv_loop-Supplied (a ∷ answers) zero out conn more m h k = record {
  moving = m;
  enough = omega arith;
}
recv_loop-Supplied [] (suc size) out conn more m h k = absurd (omega arith)
recv_loop-Supplied (moved j ∷ answers) (suc size) out conn more m h k =
    let count = min (j + 1) (min (min (suc size) int_max) (length conn.incoming)) in
    let nz : (count == 0) ≡ false = positive count (omega arith) in
    rw nz (
      recv_loop-Supplied answers (suc size - count) (out ++ take count conn.incoming)
        (record conn { incoming = drop count conn.incoming }) more m.1 (omega arith)
        (omega (arith, length-drop count conn.incoming)))
  where
    positive : (n : ℕ) → 0 < n → (n == 0) ≡ false
    positive n p = ground arith
recv_loop-Supplied (failed ∷ answers) (suc size) out conn more m h k = absurd m.0
recv_loop-Supplied (closed ∷ answers) (suc size) out conn more m h k = absurd m.0
recv_loop-Supplied (interrupted ∷ answers) (suc size) out conn more m h k = absurd m.0

-- A message that is sent with counts left over.
pub socket_send_all-Supplied :
    (conn : Conn) (bytes : List ℕ) (more : ℕ)
    → Supplied (length bytes + more) conn
    → ((socket_send_all conn bytes).0 ≡ true) × Supplied more (socket_send_all conn bytes).1
socket_send_all-Supplied conn bytes more s = (
  socket_send_all-total conn bytes s.moving (omega (arith, s.enough)),
  unfold socket_send_all in send_loop-Supplied conn.answers bytes conn more s.moving s.enough,
)

-- The bytes at the front of what the peer has sent are read, with counts left over.
pub socket_recv_all-Supplied :
    (conn : Conn) (size more : ℕ)
    → Supplied (size + more) conn
    → size ≤ length conn.incoming
    → ((socket_recv_all conn size).0 ≡ some (take size conn.incoming))
      × ((socket_recv_all conn size).1.incoming ≡ drop size conn.incoming)
      × Supplied more (socket_recv_all conn size).1
socket_recv_all-Supplied conn size more s h =
    let (bytes, got) = socket_recv_all-total conn size s.moving (omega (arith, s.enough)) h in
    let r = socket_recv_all-Read conn size got in
    (
      got ∙ ap (λ bs. some bs) r.content,
      r.rest,
      unfold socket_recv_all in
          recv_loop-Supplied conn.answers size [] conn more s.moving s.enough h,
    )

-- The same where the bytes at the front are known.
pub socket_recv_all_front :
    (conn : Conn) (size more : ℕ) (front rest : List ℕ)
    → conn.incoming ≡ front ++ rest
    → length front ≡ size
    → Supplied (size + more) conn
    → ((socket_recv_all conn size).0 ≡ some front)
      × ((socket_recv_all conn size).1.incoming ≡ rest)
      × Supplied more (socket_recv_all conn size).1
socket_recv_all_front conn size more front rest come n s =
    let total : length conn.incoming ≡ length front + length rest =
      ap length come ∙ length-append front rest in
    let (got, left, supply) = socket_recv_all-Supplied conn size more s (omega (arith, total, n)) in
    (
      got
          ∙ ap (λ k. some (take k conn.incoming)) (sym n)
          ∙ ap (λ bs. some (take (length front) bs)) come
          ∙ ap (λ bs. some bs) (take-append front rest),
      left
          ∙ ap (λ k. drop k conn.incoming) (sym n)
          ∙ ap (drop (length front)) come
          ∙ drop-append front rest,
      supply,
    )
