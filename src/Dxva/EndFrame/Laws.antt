-- ===== src/Dxva/EndFrame/Laws.antt =====
-- What a frame's call sends, and what it leaves of the connection and of the decoder.
use driver_uu_remote.Base.{
  ℕ, ◌+◌, ◌%◌, ◌^◌, ◌≤◌, ◌<◌, ◌≡◌, ◌≢◌, refl, sym, ap, ◌∙◌, subst, inl, inr, true, false, not, ◌&&◌,
  ◌||◌, List, [], ◌++◌, Option, none, some, length, length-take, take, drop, ◌==◌, Bool-cases,
  Option-cases, if◌then◌else◌, arith, ltb, append_assoc,
}
use driver_uu_remote.Base.Monad.{guard, bind-some, guard-true}
use driver_uu_remote.H264.Params.{DecoderBuffer}
use driver_uu_remote.Wire.{HelperReply, frame_bytes, read_reply}
use driver_uu_remote.Transport.{Conn, socket_send_all, socket_recv_all}
use driver_uu_remote.Transport.Laws.{socket_send_all-Sent, Read, socket_recv_all-Read}
use driver_uu_remote.Dxva.Upload.{upload_nv12}
use driver_uu_remote.Dxva.Buffers.{HResult, d3d_error, e_invalidarg, s_ok, e_outofmemory, e_fail}
use driver_uu_remote.Dxva.Decoder.{
  BridgeDecoder, Probe, ConnectWorld, decoder_backoff, decoder_connect,
}
use driver_uu_remote.Dxva.EndFrame.{
  FrameWorld, Outcome, send_on, receive_on, bitstream, packet_header, is_accepted, decode_exchange,
  disconnect, expected_size, receive_frame, upload_frame, max_payload,
}

-- A connection on which the bytes have been sent, and from which nothing has been read.
SentOn : Conn → List ℕ → Conn → Type 0
SentOn before bytes after = (after.sent ≡ before.sent ++ bytes) × (after.incoming ≡ before.incoming)

send_on-SentOn :
    (conn : Conn) (bytes : List ℕ) (after : Conn)
    → send_on conn bytes ≡ some after
    → SentOn conn bytes after
unfolding send_on SentOn
send_on-SentOn conn bytes after h = elim (Bool-cases (socket_send_all conn bytes).0) [
  | inl e ↦
      let s = socket_send_all-Sent conn bytes in
      subst (SentOn conn bytes) (some-same (rw e at h))
        (s.prefix ∙ ap (λ xs. conn.sent ++ xs) (s.whole e), s.unread)
  | inr e ↦ absurd (none-ne (rw e at h))
]
  where
    some-same : {link : Conn} → some link ≡ some after → link ≡ after
    some-same p = cc

    none-ne : none ≢ some after
    none-ne p = cc

receive_on-Read :
    (conn : Conn) (size : ℕ) (bytes : List ℕ) (after : Conn)
    → receive_on conn size ≡ some (bytes, after)
    → Read size conn bytes after
unfolding receive_on
receive_on-Read conn size bytes after h = elim (Option-cases (socket_recv_all conn size).0) [
  | inl e ↦ absurd (none-ne (rw (receive_on, e) at h))
  | inr (got, e) ↦
      subst (λ p. Read size conn p.0 p.1) (some-same (rw (receive_on, e) at h))
        (socket_recv_all-Read conn size e)
]
  where
    some-same : {p : List ℕ × Conn} → some p ≡ some (bytes, after) → p ≡ (bytes, after)
    some-same p = cc

    none-ne : ◌≢◌ {A = Option (List ℕ × Conn)} none (some (bytes, after))
    none-ne p = cc

-- What has passed over the connection when the helper has accepted a packet: the header, the
-- parameter sets and the bitstream on the way out, and a reply of 24 bytes on the way in.
pub record Decoded (conn : Conn) (parameters : List ℕ) (buffer : DecoderBuffer)
    (reply : HelperReply) (after : Conn) : Type 0 where
  pub sent :
      after.sent
      ≡ conn.sent
        ++ (frame_bytes (packet_header parameters buffer) ++ (parameters ++ bitstream buffer))
  pub answer : (rest : List ℕ) × (read_reply (take 24 conn.incoming) ≡ some (reply, rest))
  pub accepted : is_accepted reply ≡ true
  pub rest : after.incoming ≡ drop 24 conn.incoming

joined :
    (conn : Conn) (parameters : List ℕ) (buffer : DecoderBuffer) (one two three last : Conn)
    (bytes : List ℕ) (reply : HelperReply) (rest : List ℕ)
    → SentOn conn (frame_bytes (packet_header parameters buffer)) one
    → SentOn one parameters two
    → SentOn two (bitstream buffer) three
    → Read 24 three bytes last
    → read_reply bytes ≡ some (reply, rest)
    → is_accepted reply ≡ true
    → Decoded conn parameters buffer reply last
unfolding SentOn
joined conn parameters buffer one two three last bytes reply rest s1 s2 s3 r e good = record {
  sent =
      r.unsent
      ∙ s3.0
      ∙ ap (λ xs. xs ++ bitstream buffer) (s2.0 ∙ ap (λ xs. xs ++ parameters) s1.0)
      ∙ append_assoc (conn.sent ++ header) parameters (bitstream buffer)
      ∙ append_assoc conn.sent header (parameters ++ bitstream buffer);
  answer = (rest, ap read_reply (ap (take 24) (sym unread) ∙ sym r.content) ∙ e);
  accepted = good;
  rest = r.rest ∙ ap (drop 24) unread;
}
  where
    header : List ℕ
    header = frame_bytes (packet_header parameters buffer)

    unread : three.incoming ≡ conn.incoming
    unread = s3.1 ∙ s2.1 ∙ s1.1

-- A packet that the helper accepts is sent whole and in order, and only the reply is read.
pub decode_exchange-Decoded :
    (conn : Conn) (parameters : List ℕ) (buffer : DecoderBuffer) (reply : HelperReply)
    (after : Conn)
    → decode_exchange conn parameters buffer ≡ some (reply, after)
    → Decoded conn parameters buffer reply after
unfolding decode_exchange
decode_exchange-Decoded conn parameters buffer reply after h =
    let header = frame_bytes (packet_header parameters buffer) in
    let (one, e1, h1) = bind-some (send_on conn header) _ _ h in
    let (two, e2, h2) = bind-some (send_on one parameters) _ _ h1 in
    let (three, e3, h3) = bind-some (send_on two (bitstream buffer)) _ _ h2 in
    let ((bytes, last), e4, h4) = bind-some (receive_on three 24) _ _ h3 in
    let ((answer, rest), e5, h5) = bind-some (read_reply bytes) _ _ h4 in
    let (unit, e6, h6) = bind-some (guard (is_accepted answer)) _ _ h5 in
    subst (λ p. Decoded conn parameters buffer p.0 p.1) (some-same h6)
      (joined conn parameters buffer one two three last bytes answer rest
        (send_on-SentOn conn header one e1) (send_on-SentOn one parameters two e2)
        (send_on-SentOn two (bitstream buffer) three e3) (receive_on-Read three 24 bytes last e4) e5
        (guard-true (is_accepted answer) e6))
  where
    some-same : {p : HelperReply × Conn} → some p ≡ some (reply, after) → p ≡ (reply, after)
    some-same p = cc

-- A decoder that has lost its connection does not open another for a second: until then
-- `decoder_connect` refuses at once and leaves everything alone, if the clock stays below 2 ^ 64.
pub decoder_connect-disconnect :
    (world : FrameWorld) (result : HResult) (d : BridgeDecoder) (again : ConnectWorld)
    → world.later + 1000 < 2 ^ 64
    → again.now < world.later + 1000
    → let lost : Outcome = disconnect world result d in
      decoder_connect again lost.decoder lost.probe ≡ (false, lost.decoder, lost.probe)
unfolding disconnect decoder_backoff decoder_connect
decoder_connect-disconnect world result d again small soon = rw waits refl
  where
    waits :
        (not ((world.later + 1000) % 2 ^ 64 == 0) && ltb again.now ((world.later + 1000) % 2 ^ 64))
        ≡ true
    waits = ground arith

upload_frame-frame :
    (world : FrameWorld) (d : BridgeDecoder) (probe : Probe) (uploaded : HResult × List ℕ × ℕ)
    → ((upload_frame world d probe uploaded).decoder.frame ≡ d.frame)
      × ((upload_frame world d probe uploaded).decoder.frame_capacity ≡ d.frame_capacity)
unfolding upload_frame disconnect decoder_backoff
upload_frame-frame world d probe (s_ok, picture, capacity) = (refl, refl)
upload_frame-frame world d probe (e_invalidarg, picture, capacity) = (refl, refl)
upload_frame-frame world d probe (e_outofmemory, picture, capacity) = (refl, refl)
upload_frame-frame world d probe (e_fail, picture, capacity) = (refl, refl)
upload_frame-frame world d probe (d3d_error code, picture, capacity) = (refl, refl)

Read-length :
    {size : ℕ} {conn after : Conn} {bytes : List ℕ}
    → Read size conn bytes after
    → length bytes ≡ size
Read-length {size} {conn} r =
    ap length r.content ∙ omega (arith, length-take size conn.incoming, r.enough)

-- Where a decoded picture is taken, it has the size that the reply announces, which is that
-- computed from its width and height, is at most 128 megabytes, and fits the frame's memory.
pub receive_frame-size :
    (world : FrameWorld) (d : BridgeDecoder) (probe : Probe) (reply : HelperReply) (conn : Conn)
    → (receive_frame world d probe reply conn).result ≡ s_ok
    → (length (receive_frame world d probe reply conn).decoder.frame ≡ reply.payload_size)
      × (expected_size reply ≡ reply.payload_size)
      × (reply.payload_size ≤ max_payload)
      × (reply.payload_size ≤ (receive_frame world d probe reply conn).decoder.frame_capacity)
unfolding receive_frame disconnect decoder_backoff
receive_frame-size world d probe reply conn h =
    elim (Bool-cases (not (expected_size reply == size) || ltb max_payload size)) [
      | inl bad ↦ absurd (fail-ne (rw (receive_frame, bad) at h))
      | inr good ↦ elim (Bool-cases (ltb d.frame_capacity size && not world.grows_frame)) [
        | inl full ↦ absurd (memory-ne (rw (receive_frame, good, full) at h))
        | inr room ↦ elim (Option-cases (receive_on conn size)) [
          | inl lost ↦ absurd (fail-ne (rw (receive_frame, good, room, lost) at h))
          | inr ((bytes, after), got) ↦
              let linked : BridgeDecoder = record d {
                frame_capacity = if ltb d.frame_capacity size then size else d.frame_capacity;
                helper = some after;
                frame = bytes;
              } in
              let kept = upload_frame-frame world linked probe (
                upload_nv12 world.target world.grows_upload d.upload_capacity bytes reply.width
                  reply.height) in
              rw (receive_frame, good, room, got)
                (
                  ap length kept.0 ∙ Read-length (receive_on-Read conn size bytes after got),
                  ground arith,
                  ground arith,
                  rw kept.1 (ground arith),
                )
        ]
      ]
    ]
  where
    size : ℕ
    size = reply.payload_size

    fail-ne : e_fail ≢ s_ok
    fail-ne p = cc

    memory-ne : e_outofmemory ≢ s_ok
    memory-ne p = cc

-- Where there is no room for the decoded picture, the connection is kept although the picture has not
-- been read from it.
pub receive_frame-unread :
    (world : FrameWorld) (d : BridgeDecoder) (probe : Probe) (reply : HelperReply) (conn : Conn)
    → expected_size reply ≡ reply.payload_size
    → reply.payload_size ≤ max_payload
    → d.frame_capacity < reply.payload_size
    → world.grows_frame ≡ false
    → receive_frame world d probe reply conn ≡ record {
      result = e_outofmemory;
      decoder = record d { helper = some conn };
      probe = probe;
      picture = [];
    }
unfolding receive_frame
receive_frame-unread world d probe reply conn e small tight none' =
    rw (receive_frame, wanted, no_room)
  where
    wanted :
        (not (expected_size reply == reply.payload_size) || ltb max_payload reply.payload_size)
        ≡ false
    wanted = ground arith

    no_room : (ltb d.frame_capacity reply.payload_size && not world.grows_frame) ≡ true
    no_room = ground arith
