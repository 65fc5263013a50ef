-- ===== src/Capture/Helper/Server.antt =====
-- `auth_token_equal` and `handle_client` of src/wayland_capture_helper.cpp.
-- A client's requests are on the connection; what happens elsewhere meanwhile is in the rounds.
pub mod Laws
use driver_uu_remote.Base.{
  ℕ, zero, suc, ◌+◌, ◌*◌, ◌%◌, ◌^◌, Bool, true, false, not, ◌&&◌, ◌||◌, List, [], ◌∷◌, ◌++◌, Option,
  none, some, length, ltb, ◌==◌, bit_or, bit_xor, if◌then◌else◌,
}
use driver_uu_remote.Transport.{Conn, Received, received, end, error, recv_all, send_all}
use driver_uu_remote.Capture.Protocol.{
  capture_magic, capture_input_request, capture_input_reply, capture_protocol_version,
  capture_max_input_events, CaptureInputEvent,
}
use driver_uu_remote.Capture.Messages.{
  capture_request, capture_reply, capture_auth_request, capture_auth_reply, capture_auth_token_size,
  CaptureRequest, CaptureReply, read_request, auth_reply_bytes, capture_reply_bytes,
  input_reply_bytes, read_events,
}
use driver_uu_remote.Capture.Helper.Keys.{Key}
use driver_uu_remote.Capture.Helper.Eis.{Capability}
use driver_uu_remote.Capture.Helper.Bridge.{Bridge, BridgeWorld, send}
use driver_uu_remote.Capture.Helper.Frames.{FrameState, Screenshot, capture_kwin_workspace}

-- What the loop collects in `difference`.
unfoldable pub difference : List ℕ → List ℕ → ℕ
difference (a ∷ token) (b ∷ required) = bit_or (difference token required) (bit_xor a b)
difference [] required = 0
difference (a ∷ token) [] = 0

unfoldable pub auth_token_equal : List ℕ → List ℕ → Bool
unfolding difference
auth_token_equal required token =
    if length required == capture_auth_token_size then difference token required == 0 else false

abbrev pub is_empty : List ℕ → Bool
is_empty [] = true
is_empty (b ∷ bs) = false

-- The program's variables that its threads share.
pub record Server : Type 0 where
  pub required_auth_token : List ℕ
  pub kwin_capture_on_request : Bool
  pub frame : FrameState
  pub bridge : Bridge

-- What a turn of the loop meets: KWin's answer, the frame another thread publishes while it waits, and
-- what the input bridge meets.
pub record ClientRound : Type 0 where
  pub screenshot : Option Screenshot
  pub published : Option FrameState
  pub input : BridgeWorld

pub record Client : Type 0 where
  pub authenticated : Bool
  pub conn : Conn
  pub server : Server

-- What follows on the receipt of a token. The first component tells whether the loop goes on.
unfoldable pub check_token : Received → Client → Bool × Client
unfolding auth_token_equal
check_token end client = (false, client)
check_token error client = (false, client)
check_token (received token) client =
    let authenticated = auth_token_equal client.server.required_auth_token token in
    let (sent, conn) = send_all client.conn (
      auth_reply_bytes (record {
        magic = capture_magic;
        type = capture_auth_reply;
        protocol_version = capture_protocol_version;
        status = if authenticated then 0 else 1;
      })) in
    (sent && authenticated, record client { authenticated = authenticated; conn = conn })

-- `size` is the request's last field.
unfoldable pub handle_auth : ℕ → Client → Bool × Client
unfolding check_token
handle_auth size client =
    let (token, conn) = recv_all client.conn capture_auth_token_size in
    let checked = check_token token (record client { conn = conn }) in
    if size == capture_auth_token_size then checked else (false, client)

-- The frame after the wait, if there was none.
unfoldable pub awaited : Option FrameState → FrameState → FrameState
awaited none frame = frame
awaited (some published) frame = if is_empty frame.pixels then published else frame

unfoldable pub frame_reply : FrameState → CaptureReply
frame_reply frame =
    let served = not (is_empty frame.pixels) in
    record {
      magic = capture_magic;
      type = capture_reply;
      protocol_version = capture_protocol_version;
      status = if served then 0 else 1;
      width = if served then frame.width else 0;
      height = if served then frame.height else 0;
      stride = if served then frame.width * 4 % 2 ^ 32 else 0;
      payload_size = if served then length frame.pixels % 2 ^ 32 else 0;
    }

unfoldable pub serve_frame : FrameState → Conn → Bool × Conn
unfolding frame_reply
serve_frame frame conn =
    let (replied, conn1) = send_all conn (capture_reply_bytes (frame_reply frame)) in
    let (served, conn2) = send_all conn1 frame.pixels in
    if replied
    then (if is_empty frame.pixels then (true, conn1) else (served, conn2))
    else (false, conn1)

unfoldable pub handle_frame : ClientRound → Client → Bool × Client
unfolding awaited serve_frame
handle_frame round client =
    let server = client.server in
    let captured = (capture_kwin_workspace round.screenshot server.frame).1 in
    let current = if server.kwin_capture_on_request then captured else server.frame in
    let frame = awaited round.published current in
    let (sent, conn) = serve_frame frame client.conn in
    (sent, record client { conn = conn; server = record server { frame = frame } })

module _ (has_capability : ℕ → Capability → Bool) (has_region : ℕ → Bool) (code : Key → ℕ)
    (btn_misc : ℕ) where
  unfoldable pub deliver_events :
      ClientRound → ℕ → Option (List CaptureInputEvent × List ℕ) → Client → Bool × Client
  deliver_events round count none client = (false, client)
  deliver_events round count (some (events, rest)) client =
      let (accepted, bridge) =
        send has_capability has_region code btn_misc round.input events client.server.bridge in
      let (sent, conn) = send_all client.conn (
        input_reply_bytes (record {
          magic = capture_magic;
          type = capture_input_reply;
          protocol_version = capture_protocol_version;
          status = if accepted == count then 0 else 1;
          accepted_count = accepted;
        })) in
      (sent, record client { conn = conn; server = record client.server { bridge = bridge } })

  unfoldable pub read_input : ClientRound → ℕ → Received → Client → Bool × Client
  unfolding deliver_events
  read_input round count end client = (false, client)
  read_input round count error client = (false, client)
  read_input round count (received bytes) client =
      deliver_events round count (read_events count bytes) client

  unfoldable pub handle_input : ClientRound → ℕ → Client → Bool × Client
  unfolding read_input
  handle_input round count client =
      let (bytes, conn) = recv_all client.conn (24 * count) in
      let delivered = read_input round count bytes (record client { conn = conn }) in
      if (count == 0) || ltb capture_max_input_events count then (false, client) else delivered

  unfoldable pub handle_request : ClientRound → CaptureRequest → Client → Bool × Client
  unfolding handle_auth handle_frame handle_input
  handle_request round request client =
      if not (request.magic == capture_magic)
        || not (request.protocol_version == capture_protocol_version)
      then (false, client)
      else if request.type == capture_auth_request
      then handle_auth request.reserved client
      else if not client.authenticated
      then (false, client)
      else if request.type == capture_request
      then handle_frame round client
      else if request.type == capture_input_request
      then handle_input round request.reserved client
      else (false, client)

  unfoldable pub handle_received : ClientRound → Received → Client → Bool × Client
  unfolding handle_request
  handle_received round end client = (false, client)
  handle_received round error client = (false, client)
  handle_received round (received bytes) client = elim (read_request bytes) [
    | none ↦ (false, client)
    | some (request, rest) ↦ handle_request round request client
  ]

  -- A turn of the loop.
  unfoldable pub client_turn : ClientRound → Client → Bool × Client
  unfolding handle_received
  client_turn round client =
      let (bytes, conn) = recv_all client.conn 16 in
      handle_received round bytes (record client { conn = conn })

  -- The loop, over what its turns meet: it ends by itself, or waits when they have run out.
  unfoldable pub client_loop : List ClientRound → Client → Client
  unfolding client_turn
  client_loop [] client = client
  client_loop (round ∷ rounds) client =
      let (going, after) = client_turn round client in
      let rest = client_loop rounds after in if going then rest else after

  unfoldable pub handle_client : List ClientRound → Conn → Server → Client
  unfolding client_loop
  handle_client rounds conn server =
      client_loop rounds (record {
        authenticated = is_empty server.required_auth_token;
        conn = conn;
        server = server;
      })
