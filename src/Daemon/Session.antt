-- ===== src/Daemon/Session.antt =====
-- `handle_client` of src/amf_helper.c: a session of one client.
pub mod Laws
use driver_uu_remote.Base.{
  ℕ, zero, suc, ◌+◌, ◌*◌, ◌%◌, ◌^◌, Bool, true, false, not, ◌&&◌, ◌||◌, List, [], ◌∷◌, ◌++◌, Option,
  none, some, length, ltb, ◌==◌, if◌then◌else◌,
}
use driver_uu_remote.Wire.{
  helper_magic, helper_init, helper_frame, helper_reply, helper_decoder_init, helper_decode_packet,
  helper_protocol_version, HelperInitMessage, HelperFrameMessage, HelperInitReply, HelperReply,
  read_init, read_frame, init_reply_bytes, reply_bytes,
}
use driver_uu_remote.Transport.{Conn, Received, received, end, error, recv_all, send_all}
use driver_uu_remote.Daemon.Codec.{
  AvError, EncoderSettings, EncoderState, no_encoder, encoder_init, EncodeRound, Outcome, failure,
  success, encoder_frame, Packed, DecodeRound, decoder_packet,
}

-- The two codecs. A decoder without a context is not run: that call is undefined.
pub record Session : Type 0 where
  pub encoder : EncoderState
  pub decoder_open : Bool
  pub conn : Conn

-- What a turn meets: whether memory is there for the payload, and what libavcodec makes of it.
pub record SessionRound : Type 0 where
  pub allocated : Bool
  pub encoding : EncodeRound
  pub decoding : DecodeRound

abbrev pub max_payload : ℕ
max_payload = 128 * 2 ^ 20

unfoldable pub valid_init : HelperInitMessage → Bool
valid_init m =
    (m.magic == helper_magic)
    && ((m.reserved == helper_protocol_version)
        && ((m.type == helper_init) || (m.type == helper_decoder_init)))

unfoldable pub valid_frame : HelperFrameMessage → Bool
valid_frame m =
    (m.magic == helper_magic)
    && (((m.type == helper_frame) || (m.type == helper_decode_packet))
        && not (ltb max_payload m.payload_size))

-- The work of a turn: its outcome, with a size for a decoded picture, and the encoder.
pub record Work : Type 0 where
  pub outcome : Outcome Packed
  pub encoder : EncoderState

unfoldable pub as_packed : Outcome (List ℕ) → Outcome Packed
as_packed (failure e) = failure e
as_packed (success bytes) = success (record { bytes = bytes; width = 0; height = 0 })

-- `none` is the undefined call.
unfoldable pub work : SessionRound → HelperFrameMessage → List ℕ → Session → Option Work
unfolding as_packed
work round m payload s =
    let (outcome, encoder) = encoder_frame round.encoding s.encoder payload m.payload_size in
    let encoded = some (record { outcome = as_packed outcome; encoder = encoder }) in
    let decoded = some (record { outcome = decoder_packet round.decoding; encoder = s.encoder }) in
    if m.type == helper_frame then encoded else if s.decoder_open then decoded else none

-- A turn ends the session, goes on, or is undefined.
pub data Turn : Type 0 where
  stops : Session → Turn
  goes_on : Session → Turn
  undefined : Turn

unfoldable pub continue : Turn → (Session → Turn) → Turn
continue (stops s) rest = stops s
continue (goes_on s) rest = rest s
continue undefined rest = undefined

-- `errno` is the number of an error.
module _ (errno : AvError → ℕ) where
  unfoldable pub reply_to : Outcome Packed → HelperReply
  reply_to (failure e) = record {
    magic = helper_magic;
    type = helper_reply;
    status = errno e % 2 ^ 32;
    payload_size = 0;
    width = 0;
    height = 0;
  }
  reply_to (success p) = record {
    magic = helper_magic;
    type = helper_reply;
    status = 0;
    payload_size = length p.bytes % 2 ^ 32;
    width = p.width;
    height = p.height;
  }

  unfoldable pub payload_of : Outcome Packed → List ℕ
  payload_of (failure e) = []
  payload_of (success p) = p.bytes

  unfoldable pub send_outcome : Outcome Packed → Conn → Bool × Conn
  unfolding reply_to payload_of
  send_outcome outcome conn =
      let (replied, conn1) = send_all conn (reply_bytes (reply_to outcome)) in
      let (served, conn2) = send_all conn1 (payload_of outcome) in
      if replied
      then (if (reply_to outcome).payload_size == 0 then (true, conn1) else (served, conn2))
      else (false, conn1)

  unfoldable pub answer : Session → Option Work → Turn
  unfolding send_outcome
  answer s none = undefined
  answer s (some w) =
      let (sent, conn) = send_outcome w.outcome s.conn in
      let after = record s { encoder = w.encoder; conn = conn } in
      if sent then goes_on after else stops after

  unfoldable pub with_payload : SessionRound → HelperFrameMessage → Received → Session → Turn
  unfolding answer work
  with_payload round m end s = stops s
  with_payload round m error s = stops s
  with_payload round m (received payload) s =
      if round.allocated then answer s (work round m payload s) else stops s

  unfoldable pub with_message : SessionRound → Option (HelperFrameMessage × List ℕ) → Session → Turn
  unfolding with_payload valid_frame
  with_message round none s = stops s
  with_message round (some (m, rest)) s =
      let (payload, conn) = recv_all s.conn m.payload_size in
      let served = with_payload round m payload (record s { conn = conn }) in
      if valid_frame m then served else stops s

  unfoldable pub with_received : SessionRound → Received → Session → Turn
  unfolding with_message
  with_received round end s = stops s
  with_received round error s = stops s
  with_received round (received bytes) s = with_message round (read_frame bytes) s

  unfoldable pub session_turn : SessionRound → Session → Turn
  unfolding with_received
  session_turn round s =
      let (bytes, conn) = recv_all s.conn 32 in with_received round bytes (record s { conn = conn })

  -- The loop, over what its turns meet.
  unfoldable pub session_loop : List SessionRound → Session → Turn
  unfolding session_turn continue
  session_loop [] s = goes_on s
  session_loop (round ∷ rounds) s = continue (session_turn round s) (session_loop rounds)

  unfoldable pub init_reply : Bool → HelperInitReply
  init_reply enabled = record {
    enabled = (if enabled then 1 else 0);
    protocol_version = helper_protocol_version;
  }

  unfoldable pub start_session :
      (EncoderSettings → Bool) → Bool → HelperInitMessage → Conn → Bool × Session
  unfolding init_reply
  start_session open_encoder open_decoder m conn =
      let (opened, encoder) = encoder_init open_encoder m in
      let encodes = m.type == helper_init in
      let enabled = if encodes then opened else open_decoder in
      let (sent, replied) = send_all conn (init_reply_bytes (init_reply enabled)) in
      (
        sent && enabled,
        record {
          encoder = if encodes then encoder else no_encoder;
          decoder_open = not encodes && open_decoder;
          conn = replied;
        },
      )

  -- Before the loop; `none` is the return without a reply.
  unfoldable pub with_init :
      (EncoderSettings → Bool) → Bool → Received → Conn → Option (Bool × Session)
  unfolding start_session valid_init
  with_init open_encoder open_decoder end conn = none
  with_init open_encoder open_decoder error conn = none
  with_init open_encoder open_decoder (received bytes) conn = elim (read_init bytes) [
    | none ↦ none
    | some (m, rest) ↦
        let started = some (start_session open_encoder open_decoder m conn) in
        if valid_init m then started else none
  ]

  unfoldable pub run_session : List SessionRound → Option (Bool × Session) → Option Turn
  unfolding session_loop
  run_session rounds none = none
  run_session rounds (some (true, s)) = some (session_loop rounds s)
  run_session rounds (some (false, s)) = some (stops s)

  -- `none` where nothing is sent.
  unfoldable pub handle_client :
      (EncoderSettings → Bool) → Bool → List SessionRound → Conn → Option Turn
  unfolding with_init run_session
  handle_client open_encoder open_decoder rounds conn =
      let (bytes, conn) = recv_all conn 40 in
      run_session rounds (with_init open_encoder open_decoder bytes conn)
