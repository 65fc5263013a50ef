-- ===== src/Capture/Messages.antt =====
-- The other messages of src/capture_protocol.h: requests, frames and tokens, with their bytes.
-- A request of any type starts with the same sixteen bytes.
pub mod Laws
use driver_uu_remote.Base.{ℕ, zero, suc, ◌*◌, List, [], ◌∷◌, ◌++◌, Option, none, some}
use driver_uu_remote.Base.Monad.{◌>>=◌}
use driver_uu_remote.Wire.{le_bytes, read_le}
use driver_uu_remote.Capture.Protocol.{CaptureInputEvent, CaptureInputReply}

abbrev pub capture_request : ℕ
capture_request = 1

abbrev pub capture_reply : ℕ
capture_reply = 2

abbrev pub capture_auth_request : ℕ
capture_auth_request = 5

abbrev pub capture_auth_reply : ℕ
capture_auth_reply = 6

abbrev pub capture_auth_token_size : ℕ
capture_auth_token_size = 64

pub record CaptureRequest : Type 0 where
  pub magic : ℕ
  pub type : ℕ
  pub protocol_version : ℕ
  pub reserved : ℕ

pub record CaptureReply : Type 0 where
  pub magic : ℕ
  pub type : ℕ
  pub protocol_version : ℕ
  pub status : ℕ
  pub width : ℕ
  pub height : ℕ
  pub stride : ℕ
  pub payload_size : ℕ

pub record CaptureAuthReply : Type 0 where
  pub magic : ℕ
  pub type : ℕ
  pub protocol_version : ℕ
  pub status : ℕ

unfoldable pub request_bytes : CaptureRequest → List ℕ
request_bytes m =
    le_bytes 4 m.magic
    ++ (le_bytes 4 m.type ++ (le_bytes 4 m.protocol_version ++ le_bytes 4 m.reserved))

unfoldable pub read_request : List ℕ → Option (CaptureRequest × List ℕ)
read_request bs = do
  (magic, bs) ← read_le 4 bs
  (type, bs) ← read_le 4 bs
  (protocol_version, bs) ← read_le 4 bs
  (reserved, bs) ← read_le 4 bs
  some (
    record { magic = magic; type = type; protocol_version = protocol_version; reserved = reserved },
    bs,
  )

unfoldable pub auth_reply_bytes : CaptureAuthReply → List ℕ
auth_reply_bytes m =
    le_bytes 4 m.magic
    ++ (le_bytes 4 m.type ++ (le_bytes 4 m.protocol_version ++ le_bytes 4 m.status))

unfoldable pub read_auth_reply : List ℕ → Option (CaptureAuthReply × List ℕ)
read_auth_reply bs = do
  (magic, bs) ← read_le 4 bs
  (type, bs) ← read_le 4 bs
  (protocol_version, bs) ← read_le 4 bs
  (status, bs) ← read_le 4 bs
  some (
    record { magic = magic; type = type; protocol_version = protocol_version; status = status },
    bs,
  )

unfoldable pub capture_reply_bytes : CaptureReply → List ℕ
capture_reply_bytes m =
    le_bytes 4 m.magic
    ++ (le_bytes 4 m.type
        ++ (le_bytes 4 m.protocol_version
            ++ (le_bytes 4 m.status
                ++ (le_bytes 4 m.width
                    ++ (le_bytes 4 m.height
                        ++ (le_bytes 4 m.stride ++ le_bytes 4 m.payload_size))))))

unfoldable pub read_capture_reply : List ℕ → Option (CaptureReply × List ℕ)
read_capture_reply bs = do
  (magic, bs) ← read_le 4 bs
  (type, bs) ← read_le 4 bs
  (protocol_version, bs) ← read_le 4 bs
  (status, bs) ← read_le 4 bs
  (width, bs) ← read_le 4 bs
  (height, bs) ← read_le 4 bs
  (stride, bs) ← read_le 4 bs
  (payload_size, bs) ← read_le 4 bs
  some (
    record {
      magic = magic;
      type = type;
      protocol_version = protocol_version;
      status = status;
      width = width;
      height = height;
      stride = stride;
      payload_size = payload_size;
    },
    bs,
  )

unfoldable pub input_reply_bytes : CaptureInputReply → List ℕ
input_reply_bytes m =
    le_bytes 4 m.magic
    ++ (le_bytes 4 m.type
        ++ (le_bytes 4 m.protocol_version ++ (le_bytes 4 m.status ++ le_bytes 4 m.accepted_count)))

-- The array of events that follows an input request.
unfoldable pub read_events : ℕ → List ℕ → Option (List CaptureInputEvent × List ℕ)
read_events zero bs = some ([], bs)
read_events (suc count) bs = do
  (type, bs) ← read_le 4 bs
  (dx, bs) ← read_le 4 bs
  (dy, bs) ← read_le 4 bs
  (mouse_data, bs) ← read_le 4 bs
  (flags, bs) ← read_le 4 bs
  (virtual_key, bs) ← read_le 2 bs
  (scan_code, bs) ← read_le 2 bs
  (events, bs) ← read_events count bs
  some (
    record {
      type = type;
      dx = dx;
      dy = dy;
      mouse_data = mouse_data;
      flags = flags;
      virtual_key = virtual_key;
      scan_code = scan_code;
    }
        ∷ events,
    bs,
  )
