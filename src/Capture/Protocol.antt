-- ===== src/Capture/Protocol.antt =====
-- The messages of src/capture_protocol.h that carry input, with their bytes.
use driver_uu_remote.Base.{ℕ, List, [], ◌∷◌, ◌++◌, Option, some}
use driver_uu_remote.Base.Monad.{◌>>=◌}
use driver_uu_remote.Wire.{le_bytes, read_le}

abbrev pub capture_magic : ℕ
capture_magic = 0x31504355

abbrev pub capture_input_request : ℕ
capture_input_request = 3

abbrev pub capture_input_reply : ℕ
capture_input_reply = 4

abbrev pub capture_protocol_version : ℕ
capture_protocol_version = 2

abbrev pub capture_max_input_events : ℕ
capture_max_input_events = 64

abbrev pub capture_input_mouse : ℕ
capture_input_mouse = 0

abbrev pub capture_input_keyboard : ℕ
capture_input_keyboard = 1

-- The two signed fields are their bit patterns.
pub record CaptureInputEvent : Type 0 where
  pub type : ℕ
  pub dx : ℕ
  pub dy : ℕ
  pub mouse_data : ℕ
  pub flags : ℕ
  pub virtual_key : ℕ
  pub scan_code : ℕ

unfoldable pub event_bytes : CaptureInputEvent → List ℕ
event_bytes e =
    le_bytes 4 e.type
    ++ (le_bytes 4 e.dx
        ++ (le_bytes 4 e.dy
            ++ (le_bytes 4 e.mouse_data
                ++ (le_bytes 4 e.flags ++ (le_bytes 2 e.virtual_key ++ le_bytes 2 e.scan_code)))))

unfoldable pub events_bytes : List CaptureInputEvent → List ℕ
unfolding event_bytes
events_bytes [] = []
events_bytes (e ∷ es) = event_bytes e ++ events_bytes es

-- `CaptureInputRequest` with the header of this protocol and the number of events.
unfoldable pub input_request_bytes : ℕ → List ℕ
input_request_bytes event_count =
    le_bytes 4 capture_magic
    ++ (le_bytes 4 capture_input_request
        ++ (le_bytes 4 capture_protocol_version ++ le_bytes 4 event_count))

pub record CaptureInputReply : Type 0 where
  pub magic : ℕ
  pub type : ℕ
  pub protocol_version : ℕ
  pub status : ℕ
  pub accepted_count : ℕ

unfoldable pub read_input_reply : List ℕ → Option (CaptureInputReply × List ℕ)
read_input_reply bs = do
  (magic, bs) ← read_le 4 bs
  (type, bs) ← read_le 4 bs
  (protocol_version, bs) ← read_le 4 bs
  (status, bs) ← read_le 4 bs
  (accepted_count, bs) ← read_le 4 bs
  some (
    record {
      magic = magic;
      type = type;
      protocol_version = protocol_version;
      status = status;
      accepted_count = accepted_count;
    },
    bs,
  )
