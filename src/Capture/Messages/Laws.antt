-- ===== src/Capture/Messages/Laws.antt =====
-- What one end of a capture connection writes the other end reads.
use driver_uu_remote.Base.{
  ℕ, ◌^◌, ◌<◌, ◌≡◌, refl, List, [], ◌∷◌, ◌++◌, append_assoc, some, length, All,
}
use driver_uu_remote.Wire.{le_bytes}
use driver_uu_remote.Wire.Laws.{IsU32, read_le-le_bytes, field}
use driver_uu_remote.Capture.Protocol.{CaptureInputEvent, event_bytes, events_bytes}
use driver_uu_remote.Capture.Messages.{
  CaptureRequest, CaptureReply, request_bytes, read_request, capture_reply_bytes,
  read_capture_reply, read_events,
}

pub record IsRequest (m : CaptureRequest) : Type 0 where
  pub magic : IsU32 m.magic
  pub type : IsU32 m.type
  pub protocol_version : IsU32 m.protocol_version
  pub reserved : IsU32 m.reserved

pub record IsCaptureReply (m : CaptureReply) : Type 0 where
  pub magic : IsU32 m.magic
  pub type : IsU32 m.type
  pub protocol_version : IsU32 m.protocol_version
  pub status : IsU32 m.status
  pub width : IsU32 m.width
  pub height : IsU32 m.height
  pub stride : IsU32 m.stride
  pub payload_size : IsU32 m.payload_size

pub record IsEvent (e : CaptureInputEvent) : Type 0 where
  pub type : IsU32 e.type
  pub dx : IsU32 e.dx
  pub dy : IsU32 e.dy
  pub mouse_data : IsU32 e.mouse_data
  pub flags : IsU32 e.flags
  pub virtual_key : e.virtual_key < 2 ^ 16
  pub scan_code : e.scan_code < 2 ^ 16

pub read_request-request_bytes :
    (m : CaptureRequest) (rest : List ℕ)
    → IsRequest m
    → read_request (request_bytes m ++ rest) ≡ some (m, rest)
unfolding read_request request_bytes
read_request-request_bytes m rest h = rw (
  field 4 m.magic _ rest h.magic,
  field 4 m.type _ rest h.type,
  field 4 m.protocol_version _ rest h.protocol_version,
  read_le-le_bytes 4 m.reserved rest h.reserved,
)

pub read_capture_reply-capture_reply_bytes :
    (m : CaptureReply) (rest : List ℕ)
    → IsCaptureReply m
    → read_capture_reply (capture_reply_bytes m ++ rest) ≡ some (m, rest)
unfolding read_capture_reply capture_reply_bytes
read_capture_reply-capture_reply_bytes m rest h = rw (
  field 4 m.magic _ rest h.magic,
  field 4 m.type _ rest h.type,
  field 4 m.protocol_version _ rest h.protocol_version,
  field 4 m.status _ rest h.status,
  field 4 m.width _ rest h.width,
  field 4 m.height _ rest h.height,
  field 4 m.stride _ rest h.stride,
  read_le-le_bytes 4 m.payload_size rest h.payload_size,
)

pub length-capture_reply_bytes : (m : CaptureReply) → length (capture_reply_bytes m) ≡ 32
unfolding capture_reply_bytes le_bytes
length-capture_reply_bytes m = refl

pub length-request_bytes : (m : CaptureRequest) → length (request_bytes m) ≡ 16
unfolding request_bytes le_bytes
length-request_bytes m = refl

-- The events that the hook writes are those the helper reads.
pub read_events-events_bytes :
    (events : List CaptureInputEvent) (rest : List ℕ)
    → All IsEvent events
    → read_events (length events) (events_bytes events ++ rest) ≡ some (events, rest)
unfolding read_events events_bytes event_bytes
read_events-events_bytes [] rest h = refl
read_events-events_bytes (e ∷ es) rest (h, hs) =
    let more = events_bytes es ++ rest in
    rw (
      append_assoc (event_bytes e) (events_bytes es) rest,
      field 4 e.type _ more h.type,
      field 4 e.dx _ more h.dx,
      field 4 e.dy _ more h.dy,
      field 4 e.mouse_data _ more h.mouse_data,
      field 4 e.flags _ more h.flags,
      field 2 e.virtual_key _ more h.virtual_key,
      read_le-le_bytes 2 e.scan_code more h.scan_code,
      read_events-events_bytes es rest hs,
    )
