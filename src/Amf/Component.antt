-- ===== src/Amf/Component.antt =====
-- `BridgeComponent` of src/amfrt_bridge.c in the build with BRIDGE_NATIVE_PE: its state, and the
-- encoder's operations, lines 682-703, 745-804, 864-925, 961-993 and 996-1042.
-- A socket is the connection of module Transport; what else the system answers stands in the
-- records `InitWorld` and `SubmitWorld`, a field for each call.
pub mod Session
pub mod Submit
pub mod Lifecycle
use driver_uu_remote.Base.{
  ℕ, zero, suc, ◌+◌, ◌-◌, ◌*◌, ◌/◌, ◌%◌, ◌^◌, Bool, true, false, not, ◌&&◌, ◌||◌, List, [], ◌∷◌,
  ◌++◌, Option, none, some, length, drop, ltb, ◌==◌, if◌then◌else◌,
}
use driver_uu_remote.Base.Int.{ℤ, pos, negsuc}
use driver_uu_remote.Wire.{
  helper_magic, helper_init, helper_frame, helper_reply, helper_protocol_version,
  helper_default_port, HelperInitMessage, HelperFrameMessage, HelperInitReply, HelperReply,
  init_bytes, frame_bytes, read_init_reply, read_reply,
}
use driver_uu_remote.Transport.{Conn, socket_send_all, socket_recv_all}
use driver_uu_remote.Port.{parse_port}
use driver_uu_remote.Amf.Results.{
  AmfResult, ok, fail, out_of_memory, invalid_pointer, not_initialized, already_initialized,
  invalid_data_type, invalid_format, surface_format_not_supported, encoder_not_present,
  directx_failed, input_full,
}
use driver_uu_remote.Amf.Outputs.{
  BridgeBuffer, Outputs, component_queue_output, component_query_output,
}

pub data SurfaceFormat : Type 0 where
  nv12 : SurfaceFormat
  other : ℕ → SurfaceFormat

-- The code of AMF_SURFACE_NV12 in the AMF headers.
abbrev pub nv12_code : ℕ
nv12_code = 1

-- `helper` is `none` for INVALID_SOCKET. The properties enter through the two values that
-- `component_init` reads of them.
pub record Component : Type 0 where
  pub helper : Option Conn
  pub outputs : Outputs
  pub width : ℕ
  pub height : ℕ
  pub format : SurfaceFormat
  pub next_pts : ℕ
  pub initialized : Bool
  pub draining : Bool

-- `component_close_codec`: the queue of packets and `draining` stay as they are.
unfoldable pub component_close_codec : Component → Component
component_close_codec c = record c { helper = none; initialized = false }

-- What `component_init` gets from outside: the two variables, the ticks of GetTickCount64 at its
-- calls, whether `socket` succeeds, the connection that `connect` makes to a host and port, and
-- the rate and bitrate that the property store holds or their defaults.
pub record InitWorld : Type 0 where
  pub host : Option (List ℕ)
  pub port : Option (List ℕ)
  pub now : ℕ
  pub later : ℕ
  pub has_socket : Bool
  pub connect : List ℕ → ℕ → Option Conn
  pub rate_num : ℕ
  pub rate_den : ℕ
  pub bitrate : ℕ

abbrev pub loopback_text : List ℕ
loopback_text = b'1' ∷ b'2' ∷ b'7' ∷ b'.' ∷ b'0' ∷ b'.' ∷ b'0' ∷ b'.' ∷ b'1' ∷ []

abbrev pub host_text : Option (List ℕ) → List ℕ
host_text none = loopback_text
host_text (some []) = loopback_text
host_text (some (c ∷ text)) = c ∷ text

abbrev pub connect_backoff_ms : ℕ
connect_backoff_ms = 1000

-- `GetTickCount64() - last_failure` wraps.
abbrev pub backing_off : ℕ → ℕ → Bool
backing_off failure now =
    not (failure == 0) && ltb ((now + 2 ^ 64 - failure) % 2 ^ 64) connect_backoff_ms

-- Lines 760-777: the connection to use, and `helper_connect_failure_time`.
unfoldable pub open_helper : InitWorld → ℕ → Option Conn → Option Conn × ℕ
open_helper world failure (some conn) = (some conn, failure)
open_helper world failure none =
    if backing_off failure world.now
    then (none, failure)
    else (if world.has_socket
        then elim (world.connect (host_text world.host)
            (parse_port world.port helper_default_port)) [
              | none ↦ (none, world.later)
              | some conn ↦ (some conn, failure)
            ]
        else (none, failure))

-- Lines 780-789; `amf_int64` to `uint64_t` keeps the bit pattern, and the rate is unsigned.
unfoldable pub init_message : InitWorld → ℕ → ℕ → HelperInitMessage
init_message world width height = record {
  magic = helper_magic;
  type = helper_init;
  width = width;
  height = height;
  format = nv12_code;
  reserved = helper_protocol_version;
  bitrate = world.bitrate;
  fps_num = if ltb 0 world.rate_num then world.rate_num else 30;
  fps_den = if ltb 0 world.rate_den then world.rate_den else 1;
}

-- The test of the reply, lines 791-792.
unfoldable pub accepts : List ℕ → Bool
accepts bytes = elim (read_init_reply bytes) [
  | none ↦ false
  | some (reply, rest) ↦
      not (reply.enabled == 0) && (reply.protocol_version == helper_protocol_version)
]

unfoldable pub answered : Bool → Option (List ℕ) → Conn → Option Conn
unfolding accepts
answered false reply conn = none
answered true none conn = none
answered true (some bytes) conn = if accepts bytes then some conn else none

-- Lines 790-796: the connection if the helper takes the session. One that fails is closed, so that
-- the calls which C then leaves out are not seen.
unfoldable pub handshake : Conn → HelperInitMessage → Option Conn
unfolding answered
handshake conn message =
    let (sent, conn) = socket_send_all conn (init_bytes message) in
    let (reply, conn) = socket_recv_all conn 8 in answered sent reply conn

-- Lines 760-804, with the size as a number.
unfoldable pub init_session : InitWorld → ℕ → Component → ℕ → ℕ → AmfResult × Component × ℕ
unfolding open_helper init_message handshake
init_session world failure c width height =
    let (helper, failure) = open_helper world failure c.helper in
    elim helper [
      | none ↦ (encoder_not_present, c, failure)
      | some conn ↦ elim (handshake conn (init_message world width height)) [
        | none ↦ (encoder_not_present, component_close_codec c, world.later)
        | some conn ↦ (
          ok,
          record c {
            helper = some conn;
            width = width;
            height = height;
            format = nv12;
            next_pts = 0;
            initialized = true;
          },
          0,
        )
      ]
    ]

-- `component_init`; the last number is `helper_connect_failure_time`.
unfoldable pub component_init :
    InitWorld → ℕ → Component → SurfaceFormat → ℤ → ℤ → AmfResult × Component × ℕ
component_init world failure c (other code) width height =
    if c.initialized
    then (already_initialized, c, failure)
    else (surface_format_not_supported, c, failure)
component_init world failure c nv12 (negsuc w) height =
    if c.initialized
    then (already_initialized, c, failure)
    else (surface_format_not_supported, c, failure)
component_init world failure c nv12 (pos w) (negsuc h) =
    if c.initialized
    then (already_initialized, c, failure)
    else (surface_format_not_supported, c, failure)
component_init world failure c nv12 (pos w) (pos h) =
    if c.initialized
    then (already_initialized, c, failure)
    else (if ltb w 128 || ltb h 128
        then (surface_format_not_supported, c, failure)
        else init_session world failure c w h)

unfoldable pub component_reinit : InitWorld → ℕ → Component → ℤ → ℤ → AmfResult × Component × ℕ
component_reinit world failure c width height =
    component_init world failure (component_close_codec c) c.format width height

unfoldable pub component_terminate : Component → AmfResult × Component
component_terminate c = (ok, component_close_codec c)

unfoldable pub component_drain : Component → AmfResult × Component
component_drain c =
    if c.initialized then (ok, record c { draining = true }) else (not_initialized, c)

unfoldable pub component_flush : Component → AmfResult × Component
component_flush c =
    if c.initialized then (ok, record c { draining = false }) else (not_initialized, c)

-- `component_query_output` on the component; `has_out` tells that `out` is not null.
unfoldable pub query_output : Bool → Component → AmfResult × Option BridgeBuffer × Component
query_output has_out c =
    let (result, out, outputs) = component_query_output c.draining c.outputs in
    if has_out then (result, out, record c { outputs = outputs }) else (invalid_pointer, none, c)

-- A texture as D3D11 shows it: its description, and the mapped copy with its row pitch.
pub record Surface : Type 0 where
  pub is_nv12 : Bool
  pub width : ℕ
  pub height : ℕ
  pub pitch : ℕ
  pub pixels : ℕ → ℕ
  pub pts : ℕ
  pub duration : ℕ

-- What `component_submit` gets from outside: the D3D11 calls, and the results of `malloc`.
pub record SubmitWorld : Type 0 where
  pub has_staging : Bool
  pub is_mapped : Bool
  pub frame_memory : ℕ → Option (List ℕ)
  pub has_packet_memory : Bool
  pub has_buffer : Bool

-- `count` bytes from an address on.
unfoldable pub row : (ℕ → ℕ) → ℕ → ℕ → List ℕ
row pixels address zero = []
row pixels address (suc count) = pixels address ∷ row pixels (address + 1) count

-- `count` rows of `width` bytes, from row `y` on, each copied behind the one before.
unfoldable pub rows : Surface → ℕ → ℕ → ℕ → List ℕ
unfolding row
rows s width y zero = []
rows s width y (suc count) = row s.pixels (y * s.pitch) width ++ rows s width (y + 1) count

-- `width * height * 3 / 2` on ints, as a `uint32_t`: the division is towards 0.
unfoldable pub frame_size : ℕ → ℕ → ℕ
frame_size width height =
    let product = width * height * 3 % 2 ^ 32 in
    if ltb product (2 ^ 31) then product / 2 else 2 ^ 32 - (2 ^ 32 - product) / 2

-- `map_surface_bytes`: the frame, or the error. The two copying loops fill the memory from its
-- start; what they leave at its end stays as `malloc` gave it.
unfoldable pub map_surface_bytes : SubmitWorld → Component → Surface → AmfResult × List ℕ
unfolding rows frame_size
map_surface_bytes world c s =
    if not s.is_nv12 || (not (s.width == c.width) || not (s.height == c.height))
    then (invalid_format, [])
    else (if not (world.has_staging && world.is_mapped)
        then (directx_failed, [])
        else elim (world.frame_memory (frame_size c.width c.height)) [
          | none ↦ (out_of_memory, [])
          | some memory ↦
              let copied = rows s c.width 0 c.height ++ rows s c.width c.height (c.height / 2) in
              (ok, copied ++ drop (length copied) memory)
        ])

-- Lines 1015-1020.
unfoldable pub frame_header : Surface → List ℕ → HelperFrameMessage
frame_header s frame = record {
  magic = helper_magic;
  type = helper_frame;
  payload_size = length frame;
  reserved = 0;
  pts = s.pts;
  duration = s.duration;
}

-- The test of the reply in line 1021: the payload size that an accepted reply announces.
unfoldable pub replied : List ℕ → Option ℕ
replied bytes = elim (read_reply bytes) [
  | none ↦ none
  | some (reply, rest) ↦
      if (reply.magic == helper_magic) && ((reply.type == helper_reply) && (reply.status == 0))
      then some reply.payload_size
      else none
]

unfoldable pub answered_size : Bool → Bool → Option (List ℕ) → Option ℕ
unfolding replied
answered_size false sent' reply = none
answered_size true false reply = none
answered_size true true none = none
answered_size true true (some bytes) = replied bytes

-- Line 1021. A connection that fails is closed, so that the calls which C then leaves out are not
-- seen.
unfoldable pub exchange : Conn → HelperFrameMessage → List ℕ → Option ℕ × Conn
unfolding answered_size
exchange conn header frame =
    let (sent, conn) = socket_send_all conn (frame_bytes header) in
    let (sent', conn') = socket_send_all conn frame in
    let (reply, conn'') = socket_recv_all conn' 24 in (answered_size sent sent' reply, conn'')

-- Lines 1029-1042, on an open connection.
unfoldable pub receive_packet : SubmitWorld → Component → Surface → Conn → ℕ → AmfResult × Component
receive_packet world c s conn zero = (ok, record c { helper = some conn })
receive_packet world c s conn (suc size) =
    if world.has_packet_memory
    then (let (packet, conn) = socket_recv_all conn (suc size) in
        elim packet [
          | none ↦ (fail, record c { helper = some conn })
          | some bytes ↦
              if world.has_buffer
              then (let buffer : BridgeBuffer = record {
                bytes = bytes;
                pts = s.pts;
                duration = s.duration;
              } in
                  let (queued, outputs) = component_queue_output c.outputs buffer in
                  (
                    if queued then ok else input_full,
                    record c { helper = some conn; outputs = outputs },
                  ))
              else (out_of_memory, record c { helper = some conn })
        ])
    else (fail, record c { helper = some conn })

-- `data`, and whether its table of functions is the bridge's own.
pub data SubmitData : Type 0 where
  null foreign : SubmitData
  surface : Surface → SubmitData

-- Lines 1021-1042 once the frame is there. Without a socket every `send` fails.
unfoldable pub finish : SubmitWorld → Component → Surface → Option ℕ → Conn → AmfResult × Component
unfolding receive_packet
finish world c s none conn = (fail, component_close_codec c)
finish world c s (some size) conn = receive_packet world c s conn size

unfoldable pub send_frame :
    SubmitWorld → Component → Surface → List ℕ → Option Conn → AmfResult × Component
unfolding frame_header exchange finish
send_frame world c s frame none = (fail, component_close_codec c)
send_frame world c s frame (some conn) =
    let (size, conn) = exchange conn (frame_header s frame) frame in finish world c s size conn

-- `result != AMF_OK` returns at once.
unfoldable pub after_map :
    SubmitWorld → Component → Surface → AmfResult → List ℕ → AmfResult × Component
unfolding send_frame
after_map world c s ok frame = send_frame world c s frame c.helper
after_map world c s error frame = (error, c)

unfoldable pub submit_surface : SubmitWorld → Component → Surface → AmfResult × Component
unfolding map_surface_bytes after_map
submit_surface world c s =
    let (result, frame) = map_surface_bytes world c s in after_map world c s result frame

unfoldable pub submit_given : SubmitWorld → Component → SubmitData → AmfResult × Component
unfolding submit_surface
submit_given world c null = (invalid_data_type, c)
submit_given world c foreign = (invalid_data_type, c)
submit_given world c (surface s) = submit_surface world c s

-- `component_submit`.
unfoldable pub component_submit : SubmitWorld → Component → SubmitData → AmfResult × Component
unfolding submit_given
component_submit world c given =
    if c.initialized then submit_given world c given else (not_initialized, c)
