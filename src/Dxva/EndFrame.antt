-- ===== src/Dxva/EndFrame.antt =====
-- `context_end_frame` of src/dxva_bridge.c: one frame of the application's bitstream goes to the
-- helper, and the decoded picture that comes back into the texture.
pub mod Laws
use driver_uu_remote.Base.{
  ℕ, zero, suc, ◌+◌, ◌-◌, ◌*◌, ◌/◌, ◌%◌, ◌^◌, Bool, true, false, ◌&&◌, ◌||◌, not, List, [], ◌∷◌,
  Option, none, some, length, take, drop, get_or, ◌==◌, ltb, if◌then◌else◌,
}
use driver_uu_remote.Base.Monad.{◌>>=◌, ◌>>◌, guard}
use driver_uu_remote.H264.Params.{DecoderBuffer, PicParams, build_h264_parameter_sets}
use driver_uu_remote.Wire.{
  HelperFrameMessage, HelperReply, helper_magic, helper_decode_packet, helper_reply, frame_bytes,
  read_reply,
}
use driver_uu_remote.Transport.{Conn, socket_send_all, socket_recv_all}
use driver_uu_remote.Dxva.Buffers.{HResult, s_ok, e_invalidarg, e_outofmemory, e_fail, no_buffer}
use driver_uu_remote.Dxva.Decoder.{
  BridgeDecoder, Probe, ConnectWorld, decoder_backoff, decoder_connect,
}
use driver_uu_remote.Dxva.Upload.{Target, upload_nv12}

-- `D3D11_VIDEO_DECODER_BUFFER_BITSTREAM`.
abbrev pub bitstream_type : ℕ
bitstream_type = 6

abbrev pub max_payload : ℕ
max_payload = 128 * 1024 * 1024

-- What the system answers: the time of the first test, those of `decoder_connect` and of the last
-- backoff, whether the two `realloc` succeed, and what stands behind the view.
pub record FrameWorld : Type 0 where
  pub tick : ℕ
  pub connecting : ConnectWorld
  pub later : ℕ
  pub grows_frame : Bool
  pub grows_upload : Bool
  pub target : Target

-- The result, the decoder, the probe, and the picture that is uploaded, which is empty where none is.
pub record Outcome : Type 0 where
  pub result : HResult
  pub decoder : BridgeDecoder
  pub probe : Probe
  pub picture : List ℕ

unfoldable pub send_on : Conn → List ℕ → Option Conn
send_on conn bytes =
    let (sent, conn) = socket_send_all conn bytes in if sent then some conn else none

unfoldable pub receive_on : Conn → ℕ → Option (List ℕ × Conn)
receive_on conn size =
    let (bytes, conn) = socket_recv_all conn size in
    elim bytes [ none ↦ none | some bytes ↦ some (bytes, conn) ]

-- The bytes of the bitstream that the application submitted.
unfoldable pub bitstream : DecoderBuffer → List ℕ
bitstream buffer = elim buffer.memory [
  | none ↦ []
  | some memory ↦ take buffer.size (drop buffer.offset memory)
]

unfoldable pub packet_header : List ℕ → DecoderBuffer → HelperFrameMessage
packet_header parameters buffer = record {
  magic = helper_magic;
  type = helper_decode_packet;
  payload_size = (length parameters + buffer.size) % 2 ^ 32;
  reserved = 0;
  pts = 0;
  duration = 0;
}

unfoldable pub is_accepted : HelperReply → Bool
is_accepted reply =
    (reply.magic == helper_magic) && ((reply.type == helper_reply) && (reply.status == 0))

-- The condition of the second `if` after `decoder_connect`, `none` where it fails. Sending no
-- parameter sets is no call of `send`.
unfoldable pub decode_exchange : Conn → List ℕ → DecoderBuffer → Option (HelperReply × Conn)
unfolding send_on receive_on bitstream packet_header is_accepted
decode_exchange conn parameters buffer = do
  conn ← send_on conn (frame_bytes (packet_header parameters buffer))
  conn ← send_on conn parameters
  conn ← send_on conn (bitstream buffer)
  (bytes, conn) ← receive_on conn 24
  (reply, rest) ← read_reply bytes
  guard (is_accepted reply)
  some (reply, conn)

-- The label `disconnect`.
unfoldable pub disconnect : FrameWorld → HResult → BridgeDecoder → Outcome
unfolding decoder_backoff
disconnect world result d =
    let (d, probe) = decoder_backoff world.later (record d { helper = none }) in
    record { result = result; decoder = d; probe = probe; picture = [] }

unfoldable pub expected_size : HelperReply → ℕ
expected_size reply = (reply.width * reply.height * 3) % 2 ^ 64 / 2

-- `upload_nv12` and the test of its result, on the whole picture.
unfoldable pub upload_frame : FrameWorld → BridgeDecoder → Probe → HResult × List ℕ × ℕ → Outcome
unfolding disconnect
upload_frame world d probe (s_ok, picture, capacity) = record {
  result = s_ok;
  decoder = record d { upload_capacity = capacity };
  probe = probe;
  picture = picture;
}
upload_frame world d probe (error, picture, capacity) =
    disconnect world error (record d { upload_capacity = capacity })

-- The body of `if (reply.payload_size)`, on the connection behind the reply.
unfoldable pub receive_frame : FrameWorld → BridgeDecoder → Probe → HelperReply → Conn → Outcome
unfolding expected_size upload_frame receive_on
receive_frame world d probe reply conn =
    let size = reply.payload_size in
    let linked : BridgeDecoder = record d { helper = some conn } in
    let grown : BridgeDecoder = record linked {
      frame_capacity = if ltb d.frame_capacity size then size else d.frame_capacity;
    } in
    elim (not (expected_size reply == size) || ltb max_payload size) [
      | true ↦ disconnect world e_fail linked
      | false ↦ elim (ltb d.frame_capacity size && not world.grows_frame) [
        | true ↦ record { result = e_outofmemory; decoder = linked; probe = probe; picture = [] }
        | false ↦ elim (receive_on conn size) [
          | none ↦ disconnect world e_fail grown
          | some (bytes, conn) ↦
              upload_frame world (record grown { helper = some conn; frame = bytes }) probe
                (upload_nv12 world.target world.grows_upload d.upload_capacity bytes reply.width
                  reply.height)
        ]
      ]
    ]

-- Behind the exchange.
unfoldable pub after_exchange :
    FrameWorld → BridgeDecoder → Probe → Option (HelperReply × Conn) → Outcome
unfolding receive_frame
after_exchange world d probe none = disconnect world e_fail d
after_exchange world d probe (some (reply, conn)) =
    let received = receive_frame world d probe reply conn in
    if reply.payload_size == 0
    then record {
      result = s_ok;
      decoder = record d { helper = some conn };
      probe = probe;
      picture = [];
    }
    else received

-- `sizeof(DXVA_PicParams_H264)` and the reading of its fields belong to dxva.h.
module _ (size_of_pic : ℕ) (read_pic : List ℕ → PicParams) where
  unfoldable pub decode_on :
      FrameWorld → BridgeDecoder → Probe → DecoderBuffer → Option Conn → Outcome
  unfolding decode_exchange after_exchange
  decode_on world d probe buffer none = record {
    result = e_fail;
    decoder = d;
    probe = probe;
    picture = [];
  }
  decode_on world d probe buffer (some conn) =
      let parameters =
        build_h264_parameter_sets size_of_pic read_pic (get_or d.buffers 0 no_buffer) d.sample in
      after_exchange world d probe (decode_exchange conn parameters buffer)

  unfoldable pub connect_and_decode : FrameWorld → BridgeDecoder → Probe → DecoderBuffer → Outcome
  unfolding decode_on
  connect_and_decode world d probe buffer =
      let (connected, d, probe) = decoder_connect world.connecting d probe in
      let decoded = decode_on world d probe buffer d.helper in
      if connected
      then decoded
      else record { result = e_fail; decoder = d; probe = probe; picture = [] }

  unfoldable pub context_end_frame : FrameWorld → Bool → BridgeDecoder → Probe → Outcome
  unfolding connect_and_decode
  context_end_frame world known d probe =
      let buffer = get_or d.buffers bitstream_type no_buffer in
      let empty : Bool = elim buffer.memory [ none ↦ true | some memory ↦ buffer.size == 0 ] in
      let waiting = not (d.retry_after == 0) && ltb world.tick d.retry_after in
      let quiet : HResult → Outcome =
        λ result. record { result = result; decoder = d; probe = probe; picture = [] } in
      elim known [
        | false ↦ quiet e_invalidarg
        | true ↦ elim (empty || waiting) [
          | true ↦ quiet s_ok
          | false ↦ connect_and_decode world d probe buffer
        ]
      ]
