-- ===== src/Tests/Decoding.antt =====
-- The decoder of Dxva at concrete inputs.
use driver_uu_remote.Base.{
  ℕ, ◌*◌, ◌/◌, ◌≤◌, ◌≡◌, refl, sym, ap, ◌∙◌, length-replicate, true, false, List, [], ◌∷◌, ◌++◌,
  none, some, length, replicate, All, arith,
}
use driver_uu_remote.Base.Int.{pos}
use driver_uu_remote.H264.Params.{DecoderBuffer}
use driver_uu_remote.Wire.{HelperReply, reply_bytes, read_reply, read_le, le_bytes, frame_bytes}
use driver_uu_remote.Transport.{Conn, moved, socket_send_all, send_loop, socket_recv_all, recv_loop}
use driver_uu_remote.Dxva.Buffers.{s_ok, e_fail, no_buffer, BufferDesc, context_submit}
use driver_uu_remote.Dxva.Buffers.Laws.{IsBuffers, IsBuffer, InBounds, context_submit-IsBuffers}
use driver_uu_remote.Dxva.Decoder.{BridgeDecoder, Probe, ConnectWorld, decoder_connect}
use driver_uu_remote.Dxva.Upload.{
  texture, output_extent, copies, upload_nv12, upload_texture, fit_width, fit_height, even,
  upload_bytes,
}
use driver_uu_remote.Dxva.Upload.Copies.{InRange, copies-InRange}
use driver_uu_remote.Dxva.EndFrame.{
  FrameWorld, Outcome, send_on, receive_on, is_accepted, upload_frame, decode_exchange, disconnect,
  receive_frame, expected_size, max_payload, bitstream, packet_header,
}
use driver_uu_remote.Dxva.EndFrame.Laws.{
  Decoded, decode_exchange-Decoded, decoder_connect-disconnect, receive_frame-size,
}

abbrev two_bytes : DecoderBuffer
two_bytes = record { memory = some (1 ∷ 2 ∷ []); capacity = 2; offset = 0; size = 2 }

abbrev some_buffers : List DecoderBuffer
some_buffers = two_bytes ∷ replicate 8 no_buffer

some_buffers-IsBuffers : IsBuffers some_buffers
unfolding IsBuffers IsBuffer InBounds
some_buffers-IsBuffers = (
  refl,
  ((refl, omega arith), (none', (none', (none', (none', (none', (none', (none', (none', tt))))))))),
)
  where
    none' : ◌≡◌ {A = ℕ} 0 0 × ◌≡◌ {A = ℕ} 0 0
    none' = (refl, refl)

-- The second descriptor goes beyond the memory of its buffer.
abbrev descriptors : List BufferDesc
descriptors =
    record { buffer_type = 0; data_offset = 1; data_size = 1 }
    ∷ record { buffer_type = 0; data_offset = 1; data_size = 2 }
    ∷ []

context_submit-IsBuffers_example : IsBuffers (context_submit true some_buffers descriptors).1
context_submit-IsBuffers_example =
    context_submit-IsBuffers true some_buffers descriptors some_buffers-IsBuffers

length-replicate-some :
    (n : ℕ) (memory : List ℕ) → some (replicate n 0) ≡ some memory → length memory ≡ n
length-replicate-some n memory e = ap length (sym (same e)) ∙ length-replicate n 0
  where
    same : some (replicate n 0) ≡ some memory → replicate n 0 ≡ memory
    same p = cc

copies-InRange_example :
    All
      (InRange (1280 * 800 * 3 / 2) (1920 * 1080 * 3 / 2))
      (copies 1920 1080 1280 800 (output_extent 1920 1080 1280 800))
copies-InRange_example = copies-InRange 1920 1080 1280 800 (omega arith) (omega arith) (omega arith)

-- A picture of two by two pixels comes back.
abbrev picture_reply : HelperReply
picture_reply = record {
  magic = 0x31464d41;
  type = 3;
  status = 0;
  payload_size = 6;
  width = 2;
  height = 2;
}

abbrev decoded_picture : List ℕ
decoded_picture = 16 ∷ 17 ∷ 18 ∷ 19 ∷ 128 ∷ 129 ∷ []

abbrev decoder_link : Conn
decoder_link = record {
  incoming = reply_bytes picture_reply ++ decoded_picture;
  answers = moved 99 ∷ moved 99 ∷ moved 99 ∷ moved 99 ∷ [];
  sent = [];
}

abbrev behind_reply : Conn
behind_reply = record {
  incoming = decoded_picture;
  answers = [];
  sent = frame_bytes (packet_header (9 ∷ []) two_bytes) ++ (9 ∷ 1 ∷ 2 ∷ []);
}

accepted : decode_exchange decoder_link (9 ∷ []) two_bytes ≡ some (picture_reply, behind_reply)
unfolding decode_exchange send_on receive_on bitstream packet_header is_accepted socket_send_all
    send_loop socket_recv_all recv_loop read_reply read_le reply_bytes le_bytes frame_bytes
accepted = refl

decode_exchange-Decoded_example : Decoded decoder_link (9 ∷ []) two_bytes picture_reply behind_reply
decode_exchange-Decoded_example =
    decode_exchange-Decoded decoder_link (9 ∷ []) two_bytes picture_reply behind_reply accepted

abbrev system : ConnectWorld
system = record { now = 5000; later = 5010; port = none; has_socket = true; connect = λ port. none }

abbrev small_texture : FrameWorld
small_texture = record {
  tick = 5000;
  connecting = system;
  later = 5020;
  grows_frame = true;
  grows_upload = true;
  target = texture (record { is_nv12 = true; width = 2; height = 2 });
}

abbrev linked_decoder : BridgeDecoder
linked_decoder = record {
  buffers = some_buffers;
  sample = record { width = 2; height = 2 };
  frame = [];
  frame_capacity = 0;
  upload_capacity = 0;
  helper = some decoder_link;
  retry_after = 0;
}

abbrev not_probed : Probe
not_probed = record { result = pos 0; time = 0 }

decoder_connect-disconnect_example :
    let lost : Outcome = disconnect small_texture e_fail linked_decoder in
    decoder_connect (record system { now = 6019 }) lost.decoder lost.probe
    ≡ (false, lost.decoder, lost.probe)
decoder_connect-disconnect_example =
    decoder_connect-disconnect small_texture e_fail linked_decoder (record system { now = 6019 })
      (omega arith) (omega arith)

abbrev more_answers : Conn
more_answers = record behind_reply { answers = moved 99 ∷ [] }

taken :
    (receive_frame small_texture linked_decoder not_probed picture_reply more_answers).result ≡ s_ok
unfolding receive_frame receive_on expected_size socket_recv_all recv_loop upload_frame upload_nv12
    upload_texture output_extent fit_width fit_height even upload_bytes
taken = refl

receive_frame-size_example :
    let after : Outcome =
      receive_frame small_texture linked_decoder not_probed picture_reply more_answers in
    (length after.decoder.frame ≡ 6)
    × (expected_size picture_reply ≡ 6)
    × (6 ≤ max_payload)
    × (6 ≤ after.decoder.frame_capacity)
receive_frame-size_example =
    receive_frame-size small_texture linked_decoder not_probed picture_reply more_answers taken
