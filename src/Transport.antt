-- ===== src/Transport.antt =====
-- The loops that move whole messages over a socket, each written once more in every file:
-- src/amfrt_bridge.c, src/dxva_bridge.c, src/wayland_capture_hook.c and src/amf_helper.c.
-- The operating system is the list of its answers to `send` and `recv`, in order.
pub mod Laws
pub mod Total
pub mod Supply
pub mod Helper
use driver_uu_remote.Base.{
  ℕ, zero, suc, ◌+◌, ◌-◌, ◌^◌, min, Bool, true, false, List, [], ◌∷◌, ◌++◌, Option, none, some,
  take, drop, length, ◌==◌, if◌then◌else◌,
}

-- `moved k` stands for the positive count k + 1, or as many bytes as there are if they are fewer.
-- `failed` is any error but an interruption, and `closed` the end of the stream.
pub data Answer : Type 0 where
  moved : ℕ → Answer
  failed closed interrupted : Answer

-- What the peer has sent and is still to be read, the answers to come, and what has been sent.
-- Without a further answer a call runs into the socket's timeout.
pub record Conn : Type 0 where
  pub incoming : List ℕ
  pub answers : List Answer
  pub sent : List ℕ

abbrev pub int_max : ℕ
int_max = 2 ^ 31 - 1

-- `socket_send_all` of src/amfrt_bridge.c; `cursor` and `size` are the list of what is left.
unfoldable pub send_loop : List Answer → List ℕ → Conn → Bool × Conn
send_loop answers [] conn = (true, record conn { answers = answers })
send_loop [] (b ∷ bs) conn = (false, record conn { answers = [] })
send_loop (moved k ∷ answers) (b ∷ bs) conn =
    let count = min (k + 1) (min (length (b ∷ bs)) int_max) in
    send_loop answers (drop count (b ∷ bs))
      (record conn { sent = conn.sent ++ take count (b ∷ bs) })
send_loop (failed ∷ answers) (b ∷ bs) conn = (false, record conn { answers = answers })
send_loop (closed ∷ answers) (b ∷ bs) conn = (false, record conn { answers = answers })
send_loop (interrupted ∷ answers) (b ∷ bs) conn = (false, record conn { answers = answers })

unfoldable pub socket_send_all : Conn → List ℕ → Bool × Conn
unfolding send_loop
socket_send_all conn bytes = send_loop conn.answers bytes conn

-- `socket_recv_all` of src/amfrt_bridge.c: the bytes read, or none if the call fails.
unfoldable pub recv_loop : List Answer → ℕ → List ℕ → Conn → Option (List ℕ) × Conn
recv_loop answers zero out conn = (some out, record conn { answers = answers })
recv_loop [] (suc size) out conn = (none, record conn { answers = [] })
recv_loop (moved k ∷ answers) (suc size) out conn =
    let count = min (k + 1) (min (min (suc size) int_max) (length conn.incoming)) in
    let rest =
      recv_loop answers (suc size - count) (out ++ take count conn.incoming)
        (record conn { incoming = drop count conn.incoming }) in
    if count == 0 then (none, record conn { answers = answers }) else rest
recv_loop (failed ∷ answers) (suc size) out conn = (none, record conn { answers = answers })
recv_loop (closed ∷ answers) (suc size) out conn = (none, record conn { answers = answers })
recv_loop (interrupted ∷ answers) (suc size) out conn = (none, record conn { answers = answers })

unfoldable pub socket_recv_all : Conn → ℕ → Option (List ℕ) × Conn
unfolding recv_loop
socket_recv_all conn size = recv_loop conn.answers size [] conn

-- `recv_all` of src/amf_helper.c answers 1, 0 or -1, and goes on after an interruption.
pub data Received : Type 0 where
  received : List ℕ → Received
  end : Received
  error : Received

unfoldable pub helper_recv_loop : List Answer → ℕ → List ℕ → Conn → Received × Conn
helper_recv_loop answers zero out conn = (received out, record conn { answers = answers })
helper_recv_loop [] (suc size) out conn = (error, record conn { answers = [] })
helper_recv_loop (moved k ∷ answers) (suc size) out conn =
    let count = min (k + 1) (min (suc size) (length conn.incoming)) in
    let rest =
      helper_recv_loop answers (suc size - count) (out ++ take count conn.incoming)
        (record conn { incoming = drop count conn.incoming }) in
    if count == 0 then (end, record conn { answers = answers }) else rest
helper_recv_loop (failed ∷ answers) (suc size) out conn = (error, record conn { answers = answers })
helper_recv_loop (closed ∷ answers) (suc size) out conn = (end, record conn { answers = answers })
helper_recv_loop (interrupted ∷ answers) (suc size) out conn =
    helper_recv_loop answers (suc size) out conn

unfoldable pub recv_all : Conn → ℕ → Received × Conn
unfolding helper_recv_loop
recv_all conn size = helper_recv_loop conn.answers size [] conn

unfoldable pub helper_send_loop : List Answer → List ℕ → Conn → Bool × Conn
helper_send_loop answers [] conn = (true, record conn { answers = answers })
helper_send_loop [] (b ∷ bs) conn = (false, record conn { answers = [] })
helper_send_loop (moved k ∷ answers) (b ∷ bs) conn =
    let count = min (k + 1) (length (b ∷ bs)) in
    helper_send_loop answers (drop count (b ∷ bs))
      (record conn { sent = conn.sent ++ take count (b ∷ bs) })
helper_send_loop (failed ∷ answers) (b ∷ bs) conn = (false, record conn { answers = answers })
-- A count of 0 moves neither cursor nor size.
helper_send_loop (closed ∷ answers) (b ∷ bs) conn = helper_send_loop answers (b ∷ bs) conn
helper_send_loop (interrupted ∷ answers) (b ∷ bs) conn = helper_send_loop answers (b ∷ bs) conn

-- `send_all` of src/amf_helper.c, true where it answers 0.
unfoldable pub send_all : Conn → List ℕ → Bool × Conn
unfolding helper_send_loop
send_all conn bytes = helper_send_loop conn.answers bytes conn
