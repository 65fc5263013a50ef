-- ===== src/Capture/Frames.antt =====
-- How src/wayland_capture_hook.c gets a frame: `authenticate_helper`, `connect_helper` and
-- `request_frame`.
pub mod Laws
use driver_uu_remote.Base.{
  ℕ, ◌+◌, ◌*◌, ◌%◌, ◌^◌, Bool, true, false, not, ◌&&◌, List, [], ◌∷◌, ◌++◌, Option, none, some,
  length, ltb, leb, ◌==◌, if◌then◌else◌,
}
use driver_uu_remote.Transport.{Conn, socket_send_all, socket_recv_all}
use driver_uu_remote.Port.{configured_capture_port}
use driver_uu_remote.Capture.Protocol.{capture_magic, capture_protocol_version}
use driver_uu_remote.Capture.Input.{present}
use driver_uu_remote.Capture.Messages.{
  capture_request, capture_reply, capture_auth_request, capture_auth_reply, capture_auth_token_size,
  CaptureRequest, CaptureReply, CaptureAuthReply, request_bytes, read_auth_reply,
  read_capture_reply,
}

-- `GetEnvironmentVariableA` with room for 65 bytes.
abbrev pub token_length : List ℕ → ℕ
token_length text = if ltb (length text) 65 then length text else length text + 1

abbrev pub auth_request : CaptureRequest
auth_request = record {
  magic = capture_magic;
  type = capture_auth_request;
  protocol_version = capture_protocol_version;
  reserved = capture_auth_token_size;
}

abbrev pub frame_request : CaptureRequest
frame_request = record {
  magic = capture_magic;
  type = capture_request;
  protocol_version = capture_protocol_version;
  reserved = 0;
}

unfoldable pub auth_accepted : Option (List ℕ) → Bool
auth_accepted none = false
auth_accepted (some bytes) = elim (read_auth_reply bytes) [
  | none ↦ false
  | some (reply, rest) ↦
      (reply.magic == capture_magic)
      && ((reply.type == capture_auth_reply)
          && ((reply.protocol_version == capture_protocol_version) && (reply.status == 0)))
]

unfoldable pub auth_exchange : Conn → List ℕ → Bool × Conn
unfolding auth_accepted
auth_exchange conn token =
    let (sent, asked) = socket_send_all conn (request_bytes auth_request ++ token) in
    let (reply, answered) = socket_recv_all asked 16 in
    if sent then (auth_accepted reply, answered) else (false, asked)

-- True where it answers 0; `none` is a variable that is not set.
unfoldable pub authenticate_helper : Conn → Option (List ℕ) → Bool × Conn
unfolding auth_exchange
authenticate_helper conn none = (true, conn)
authenticate_helper conn (some token) =
    let exchanged = auth_exchange conn token in
    if token_length token == 0
    then (true, conn)
    else if token_length token == capture_auth_token_size
    then exchanged
    else (false, conn)

-- What the system answers: whether WSAStartup and `socket` succeed, the two variables, and the
-- connection to a port if it is made.
pub record HookWorld : Type 0 where
  pub started : Bool
  pub has_socket : Bool
  pub port : Option (List ℕ)
  pub token : Option (List ℕ)
  pub connect : ℕ → Option Conn

unfoldable pub connect_authenticated : Option (List ℕ) → Option Conn → Option Conn
unfolding authenticate_helper
connect_authenticated token none = none
connect_authenticated token (some conn) =
    let (accepted, conn) = authenticate_helper conn token in if accepted then some conn else none

unfoldable pub connect_helper : HookWorld → Option Conn
unfolding connect_authenticated
connect_helper world =
    if world.started && world.has_socket
    then connect_authenticated world.token (world.connect (configured_capture_port world.port))
    else none

-- The tests of the reply.
unfoldable pub servable : CaptureReply → Bool
servable reply =
    (reply.magic == capture_magic)
    && ((reply.type == capture_reply)
        && ((reply.protocol_version == capture_protocol_version)
            && ((reply.status == 0)
                && (not (reply.width == 0)
                    && (not (reply.height == 0)
                        && ((reply.stride == reply.width * 4 % 2 ^ 32)
                            && ((reply.payload_size == reply.stride * reply.height % 2 ^ 32)
                                && leb reply.payload_size (2 ^ 28))))))))

-- A frame is the reply with its pixels.
abbrev pub Frame : Type 0
Frame = CaptureReply × List ℕ

unfoldable pub finish_frame : CaptureReply → Option (List ℕ) × Conn → Option Frame × Option Conn
finish_frame reply (none, conn) = (none, none)
finish_frame reply (some pixels, conn) = (some (reply, pixels), some conn)

-- `allocated` tells whether HeapAlloc gives memory. A failure closes the connection.
unfoldable pub read_pixels : Bool → Option (List ℕ) → Conn → Option Frame × Option Conn
unfolding servable finish_frame
read_pixels allocated none conn = (none, none)
read_pixels allocated (some bytes) conn = elim (read_capture_reply bytes) [
  | none ↦ (none, none)
  | some (reply, rest) ↦
      let finished = finish_frame reply (socket_recv_all conn reply.payload_size) in
      if servable reply then (if allocated then finished else (none, none)) else (none, none)
]

unfoldable pub exchange_frame : Bool → Option Conn → Option Frame × Option Conn
unfolding read_pixels
exchange_frame allocated none = (none, none)
exchange_frame allocated (some conn) =
    let (sent, asked) = socket_send_all conn (request_bytes frame_request) in
    let (bytes, answered) = socket_recv_all asked 32 in
    let frame = read_pixels allocated bytes answered in if sent then frame else (none, none)

-- The second component is `helper_connection`.
unfoldable pub request_frame : Bool → HookWorld → Option Conn → Option Frame × Option Conn
unfolding exchange_frame connect_helper
request_frame allocated world connection =
    exchange_frame allocated (present connection (connect_helper world))
