-- ===== src/Transport/Total.antt =====
-- The message loops end: with a positive count for every byte they move the whole message, and
-- interruptions do not change what the helper's loops do.
use driver_uu_remote.Base.{
  ℕ, zero, suc, ◌+◌, ◌-◌, ◌≤◌, ◌<◌, ◌≡◌, refl, ◌∙◌, min, inl, inr, true, false, List, [], ◌∷◌, ◌++◌,
  some, take, drop, length, length-drop, All, ◌==◌, Bool-cases, arith,
}
use driver_uu_remote.Transport.{
  Answer, moved, failed, closed, interrupted, Conn, int_max, send_loop, socket_send_all, recv_loop,
  socket_recv_all, received, helper_recv_loop, recv_all,
}

-- The answer reports a positive count.
unfoldable pub Moves : Answer → Type 0
Moves (moved k) = Unit {0}
Moves failed = ⊥
Moves closed = ⊥
Moves interrupted = ⊥

send_loop-total :
    (answers : List Answer) (bytes : List ℕ) (conn : Conn)
    → All Moves answers
    → length bytes ≤ length answers
    → (send_loop answers bytes conn).0 ≡ true
unfolding send_loop Moves
send_loop-total [] [] conn m h = refl
send_loop-total (a ∷ answers) [] conn m h = refl
send_loop-total [] (b ∷ bs) conn m h = absurd (omega arith)
send_loop-total (moved k ∷ answers) (b ∷ bs) conn m h =
    let count = min (k + 1) (min (length (b ∷ bs)) int_max) in
    send_loop-total answers (drop count (b ∷ bs)) _ m.1 (omega (arith, length-drop count (b ∷ bs)))
send_loop-total (failed ∷ answers) (b ∷ bs) conn m h = absurd m.0
send_loop-total (closed ∷ answers) (b ∷ bs) conn m h = absurd m.0
send_loop-total (interrupted ∷ answers) (b ∷ bs) conn m h = absurd m.0

-- As many positive counts as there are bytes are enough for `socket_send_all` to succeed.
pub socket_send_all-total :
    (conn : Conn) (bytes : List ℕ)
    → All Moves conn.answers
    → length bytes ≤ length conn.answers
    → (socket_send_all conn bytes).0 ≡ true
unfolding socket_send_all
socket_send_all-total conn bytes m h = send_loop-total conn.answers bytes conn m h

recv_loop-total :
    (answers : List Answer) (size : ℕ) (out : List ℕ) (conn : Conn)
    → All Moves answers
    → size ≤ length answers
    → size ≤ length conn.incoming
    → (bytes : List ℕ) × ((recv_loop answers size out conn).0 ≡ some bytes)
unfolding recv_loop Moves
recv_loop-total [] zero out conn m h k = (out, refl)
recv_loop-total (a ∷ answers) zero out conn m h k = (out, refl)
recv_loop-total [] (suc size) out conn m h k = absurd (omega arith)
recv_loop-total (moved j ∷ answers) (suc size) out conn m h k =
    let count = min (j + 1) (min (min (suc size) int_max) (length conn.incoming)) in
    let nz : (count == 0) ≡ false = positive count (omega arith) in
    rw nz (
      recv_loop-total answers (suc size - count) (out ++ take count conn.incoming)
        (record conn { incoming = drop count conn.incoming }) m.1 (omega arith)
        (omega (arith, length-drop count conn.incoming)))
  where
    positive : (n : ℕ) → 0 < n → (n == 0) ≡ false
    positive n p = ground arith
recv_loop-total (failed ∷ answers) (suc size) out conn m h k = absurd m.0
recv_loop-total (closed ∷ answers) (suc size) out conn m h k = absurd m.0
recv_loop-total (interrupted ∷ answers) (suc size) out conn m h k = absurd m.0

-- As many positive counts as bytes are asked for, and a peer that has sent them, are enough for
-- `socket_recv_all` to succeed.
pub socket_recv_all-total :
    (conn : Conn) (size : ℕ)
    → All Moves conn.answers
    → size ≤ length conn.answers
    → size ≤ length conn.incoming
    → (bytes : List ℕ) × ((socket_recv_all conn size).0 ≡ some bytes)
unfolding socket_recv_all
socket_recv_all-total conn size m h k = recv_loop-total conn.answers size [] conn m h k

-- The answers without the interruptions.
unfoldable pub uninterrupted : List Answer → List Answer
uninterrupted [] = []
uninterrupted (moved k ∷ answers) = moved k ∷ uninterrupted answers
uninterrupted (failed ∷ answers) = failed ∷ uninterrupted answers
uninterrupted (closed ∷ answers) = closed ∷ uninterrupted answers
uninterrupted (interrupted ∷ answers) = uninterrupted answers

helper_recv_loop-uninterrupted :
    (answers : List Answer) (size : ℕ) (out : List ℕ) (conn : Conn)
    → (helper_recv_loop (uninterrupted answers) size out conn).0
      ≡ (helper_recv_loop answers size out conn).0
unfolding helper_recv_loop uninterrupted
helper_recv_loop-uninterrupted [] size out conn = refl
helper_recv_loop-uninterrupted (moved k ∷ answers) zero out conn = refl
helper_recv_loop-uninterrupted (moved k ∷ answers) (suc size) out conn =
    let count = min (k + 1) (min (suc size) (length conn.incoming)) in
    elim (Bool-cases (count == 0)) [
      | inl z ↦ rw z
      | inr nz ↦ rw nz (
          helper_recv_loop-uninterrupted answers (suc size - count)
            (out ++ take count conn.incoming) (record conn { incoming = drop count conn.incoming }))
    ]
helper_recv_loop-uninterrupted (failed ∷ answers) zero out conn = refl
helper_recv_loop-uninterrupted (failed ∷ answers) (suc size) out conn = refl
helper_recv_loop-uninterrupted (closed ∷ answers) zero out conn = refl
helper_recv_loop-uninterrupted (closed ∷ answers) (suc size) out conn = refl
helper_recv_loop-uninterrupted (interrupted ∷ answers) zero out conn =
    helper_recv_loop-uninterrupted answers zero out conn ∙ at_end answers
  where
    at_end : (more : List Answer) → (helper_recv_loop more zero out conn).0 ≡ received out
    at_end [] = refl
    at_end (a ∷ more) = refl
helper_recv_loop-uninterrupted (interrupted ∷ answers) (suc size) out conn =
    helper_recv_loop-uninterrupted answers (suc size) out conn

answers_field :
    (answers fields : List Answer) (size : ℕ) (out : List ℕ) (conn : Conn)
    → (helper_recv_loop answers size out (record conn { answers = fields })).0
      ≡ (helper_recv_loop answers size out conn).0
unfolding helper_recv_loop
answers_field [] fields zero out conn = refl
answers_field (a ∷ answers) fields zero out conn = refl
answers_field [] fields (suc size) out conn = refl
answers_field (moved k ∷ answers) fields (suc size) out conn =
    let count = min (k + 1) (min (suc size) (length conn.incoming)) in
    elim (Bool-cases (count == 0)) [
      | inl z ↦ rw z
      | inr nz ↦ rw nz (
          answers_field answers fields (suc size - count) (out ++ take count conn.incoming)
            (record conn { incoming = drop count conn.incoming }))
    ]
answers_field (failed ∷ answers) fields (suc size) out conn = refl
answers_field (closed ∷ answers) fields (suc size) out conn = refl
answers_field (interrupted ∷ answers) fields (suc size) out conn =
    answers_field answers fields (suc size) out conn

-- The helper's `recv_all` answers as if its calls had never been interrupted.
pub recv_all-uninterrupted :
    (conn : Conn) (size : ℕ)
    → (recv_all (record conn { answers = uninterrupted conn.answers }) size).0
      ≡ (recv_all conn size).0
unfolding recv_all
recv_all-uninterrupted conn size =
    answers_field (uninterrupted conn.answers) (uninterrupted conn.answers) size [] conn
    ∙ helper_recv_loop-uninterrupted conn.answers size [] conn
