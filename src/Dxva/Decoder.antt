-- ===== src/Dxva/Decoder.antt =====
-- A decoder and its connection to the helper: `BridgeDecoder`, `helper_handshake`,
-- `helper_mark_unavailable`, `decoder_backoff` and `decoder_connect` of src/dxva_bridge.c.
use driver_uu_remote.Base.{
  ℕ, ◌+◌, ◌-◌, ◌%◌, ◌^◌, Bool, true, false, not, ◌&&◌, List, Option, none, some, ◌==◌, ltb,
  if◌then◌else◌,
}
use driver_uu_remote.Base.Int.{ℤ, pos, negsuc}
use driver_uu_remote.H264.Params.{DecoderBuffer, Sample}
use driver_uu_remote.Wire.{
  helper_decoder_init, HelperInitMessage, helper_magic, helper_protocol_version, init_bytes,
  read_init_reply,
}
use driver_uu_remote.Transport.{Conn, socket_send_all, socket_recv_all}
use driver_uu_remote.Port.{helper_port}

-- The global `helper_probe_result` and `helper_probe_time`.
pub record Probe : Type 0 where
  pub result : ℤ
  pub time : ℕ

-- The fields of `BridgeDecoder` but for the interfaces it holds and its reference count; `frame` is
-- the memory's contents.
pub record BridgeDecoder : Type 0 where
  pub buffers : List DecoderBuffer
  pub sample : Sample
  pub frame : List ℕ
  pub frame_capacity : ℕ
  pub upload_capacity : ℕ
  pub helper : Option Conn
  pub retry_after : ℕ

abbrev pub retry_backoff_ms : ℕ
retry_backoff_ms = 1000

abbrev pub probe_cache_ms : ℕ
probe_cache_ms = 10000

unfoldable pub helper_mark_unavailable : ℕ → Probe
helper_mark_unavailable now = record { result = negsuc 0; time = now }

unfoldable pub decoder_backoff : ℕ → BridgeDecoder → BridgeDecoder × Probe
unfolding helper_mark_unavailable
decoder_backoff now d =
    (record d { retry_after = (now + retry_backoff_ms) % 2 ^ 64 }, helper_mark_unavailable now)

-- The two tests of the reply.
unfoldable pub decoder_accepted : Option (List ℕ) → Bool
decoder_accepted none = false
decoder_accepted (some bytes) = elim (read_init_reply bytes) [
  | none ↦ false
  | some (reply, rest) ↦
      not (reply.enabled == 0) && (reply.protocol_version == helper_protocol_version)
]

unfoldable pub helper_handshake : Conn → ℕ → Bool × Conn
unfolding decoder_accepted
helper_handshake conn type =
    let message : HelperInitMessage = record {
      magic = helper_magic;
      type = type;
      width = 0;
      height = 0;
      format = 0;
      reserved = helper_protocol_version;
      bitrate = 0;
      fps_num = 0;
      fps_den = 0;
    } in
    let (sent, conn) = socket_send_all conn (init_bytes message) in
    let (reply, answered) = socket_recv_all conn 8 in
    if sent then (decoder_accepted reply, answered) else (false, conn)

-- What the system answers: the times that the calls of `GetTickCount64` read, in their order, the
-- port's text, the new socket, and its connection to the port if that is made.
pub record ConnectWorld : Type 0 where
  pub now : ℕ
  pub later : ℕ
  pub port : Option (List ℕ)
  pub has_socket : Bool
  pub connect : ℕ → Option Conn

abbrev pub not_positive : ℤ → Bool
not_positive (pos n) = n == 0
not_positive (negsuc n) = true

unfoldable pub recently_unavailable : Probe → ℕ → Bool
recently_unavailable probe now =
    not (probe.time == 0)
    && ltb ((now + 2 ^ 64 - probe.time) % 2 ^ 64) probe_cache_ms
    && not_positive probe.result

-- From the connection on: the label `fail` closes it.
unfoldable pub connected :
    ConnectWorld → BridgeDecoder → Probe → Option Conn → Bool × BridgeDecoder × Probe
unfolding decoder_backoff helper_handshake
connected world d probe none =
    let (d, probe) = decoder_backoff world.later (record d { helper = none }) in (false, d, probe)
connected world d probe (some conn) =
    let (accepted, conn) = helper_handshake conn helper_decoder_init in
    let (failed, unavailable) = decoder_backoff world.later (record d { helper = none }) in
    if accepted
    then (true, record d { helper = some conn; retry_after = 0 }, probe)
    else (false, failed, unavailable)

unfoldable pub decoder_connect : ConnectWorld → BridgeDecoder → Probe → Bool × BridgeDecoder × Probe
unfolding recently_unavailable connected
decoder_connect world d probe = elim d.helper [
  | some conn ↦ (true, d, probe)
  | none ↦
      if not (d.retry_after == 0) && ltb world.now d.retry_after
      then (false, d, probe)
      else if recently_unavailable probe world.now
      then (false, record d { retry_after = (world.now + retry_backoff_ms) % 2 ^ 64 }, probe)
      else if world.has_socket
      then connected world d probe (world.connect (helper_port world.port))
      else (false, d, probe)
]
