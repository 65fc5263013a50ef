-- ===== src/Capture/Input.antt =====
-- `send_input_chunk` and `capture_send_input` of src/wayland_capture_hook.c.
-- The sockets' answers are those of the loops in Transport, which this file's own loops repeat.

pub mod Laws
use driver_uu_remote.Base.{
  ℕ, zero, suc, ◌+◌, ◌-◌, ◌≤◌, ◌<◌, min, Bool, true, false, ◌&&◌, ◌||◌, not, List, [], ◌∷◌, ◌++◌,
  Option, none, some, take, drop, length, ◌==◌, leb, ltb, if◌then◌else◌,
}
use driver_uu_remote.Base.Monad.{◌>>=◌, ◌>>◌, guard}
use driver_uu_remote.Transport.{Conn, socket_send_all, socket_recv_all}
use driver_uu_remote.Capture.Protocol.{
  capture_magic, capture_input_reply, capture_protocol_version, capture_max_input_events,
  capture_input_mouse, capture_input_keyboard, CaptureInputEvent, events_bytes, input_request_bytes,
  CaptureInputReply, read_input_reply,
}

-- `INPUT`: a mouse's, a keyboard's, or of another type.
pub data Input : Type 0 where
  mouse : ℕ → ℕ → ℕ → ℕ → Input
  keyboard : ℕ → ℕ → ℕ → Input
  hardware : Input

unfoldable pub input_event : Input → Option CaptureInputEvent
input_event (mouse dx dy mouse_data flags) = some (record {
  type = capture_input_mouse;
  dx = dx;
  dy = dy;
  mouse_data = mouse_data;
  flags = flags;
  virtual_key = 0;
  scan_code = 0;
})
input_event (keyboard virtual_key scan_code flags) = some (record {
  type = capture_input_keyboard;
  dx = 0;
  dy = 0;
  mouse_data = 0;
  flags = flags;
  virtual_key = virtual_key;
  scan_code = scan_code;
})
input_event hardware = none

-- The loop that fills `events`, none where an input is of another type.
unfoldable pub input_events : List Input → Option (List CaptureInputEvent)
unfolding input_event
input_events [] = some []
input_events (input ∷ inputs) = do
  event ← input_event input
  events ← input_events inputs
  some (event ∷ events)

-- The tests of the reply.
unfoldable pub acceptable : ℕ → CaptureInputReply → Bool
acceptable count reply =
    (reply.magic == capture_magic)
    && ((reply.type == capture_input_reply)
        && ((reply.protocol_version == capture_protocol_version) && leb reply.accepted_count count))

unfoldable pub accepted_count : ℕ → Option (List ℕ) → Option ℕ
unfolding acceptable
accepted_count count none = none
accepted_count count (some bytes) = do
  (reply, rest) ← read_input_reply bytes
  guard (acceptable count reply)
  some reply.accepted_count

unfoldable pub agreed : Bool → Bool → Option ℕ → Option ℕ
agreed true true answer = answer
agreed true false answer = none
agreed false sent answer = none

-- The exchange on an open connection: the count that the helper has taken, and the connection.
unfoldable pub input_exchange : Conn → List CaptureInputEvent → ℕ → Option ℕ × Conn
unfolding accepted_count agreed
input_exchange conn events count =
    let (requested, conn) = socket_send_all conn (input_request_bytes count) in
    let (sent, conn) = socket_send_all conn (events_bytes events) in
    let (reply, conn) = socket_recv_all conn 20 in
    (agreed requested sent (accepted_count count reply), conn)

-- After the loop; `reconnected` is what `connect_helper` answers if it is called. The number taken,
-- and `input_connection`.
unfoldable pub deliver : List CaptureInputEvent → ℕ → Option Conn → ℕ × Option Conn
unfolding input_exchange
deliver events count none = (0, none)
deliver events count (some conn) =
    let (answer, conn) = input_exchange conn events count in
    elim answer [ none ↦ (0, none) | some accepted ↦ (accepted, some conn) ]

unfoldable pub present : Option Conn → Option Conn → Option Conn
present (some conn) reconnected = some conn
present none reconnected = reconnected

-- `count` is the length of the inputs.
unfoldable pub send_input_chunk : Option Conn → Option Conn → List Input → ℕ × Option Conn
unfolding deliver present input_events
send_input_chunk connection reconnected inputs =
    if (length inputs == 0) || ltb capture_max_input_events (length inputs)
    then (0, connection)
    else elim (input_events inputs) [
      | none ↦ (0, connection)
      | some events ↦ deliver events (length inputs) (present connection reconnected)
    ]

-- What `capture_send_input` answers: its own count, or that of the function it replaces, which is then
-- called with all inputs.
pub data Sending : Type 0 where
  forwarded : ℕ → Sending
  original : Sending

unfoldable pub rest_count : ℕ → Sending → Sending
rest_count accepted (forwarded more) = forwarded (accepted + more)
rest_count accepted original = original

-- What `connect_helper` answers in a turn.
unfoldable pub next_connection : List (Option Conn) → Option Conn
next_connection [] = none
next_connection (answer ∷ answers) = answer

-- The end of a turn that has sent `result` of `chunk` inputs, with what the next turns would answer.
unfoldable pub after_chunk :
    Bool → ℕ → ℕ → Option Conn → Sending × Option Conn → Sending × Option Conn
unfolding rest_count
after_chunk fallback result chunk connection rest =
    if result == 0
    then (if fallback then original else forwarded 0, connection)
    else if result == chunk
    then (rest_count result rest.0, rest.1)
    else (forwarded result, connection)

-- The loop, on fuel: `first` tells that nothing has been accepted, and `hooked` that there is a function
-- to fall back on. Each turn has the answer of `connect_helper`, should it be called.
unfoldable pub send_loop_input :
    ℕ → Bool → Bool → List (Option Conn) → Option Conn → List Input → Sending × Option Conn
unfolding send_input_chunk after_chunk next_connection
send_loop_input zero hooked first reconnects connection inputs = (forwarded 0, connection)
send_loop_input (suc fuel) hooked first reconnects connection [] = (forwarded 0, connection)
send_loop_input (suc fuel) hooked first reconnects connection (input ∷ inputs) =
    let chunk = min (length (input ∷ inputs)) capture_max_input_events in
    let (result, connection) =
      send_input_chunk connection (next_connection reconnects) (take chunk (input ∷ inputs)) in
    after_chunk (first && hooked) result chunk connection (
      send_loop_input fuel hooked false (drop 1 reconnects) connection
        (drop result (input ∷ inputs)))

-- `capture_send_input` with the inputs there and of the right size. Every turn but the last takes at
-- least one input, so that the length is fuel enough.
unfoldable pub capture_send_input :
    Bool → List (Option Conn) → Option Conn → List Input → Sending × Option Conn
unfolding send_loop_input
capture_send_input hooked reconnects connection inputs =
    send_loop_input (length inputs) hooked true reconnects connection inputs
