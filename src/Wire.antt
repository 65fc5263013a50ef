-- ===== src/Wire.antt =====
-- The packed structures of src/helper_protocol.h as bytes, lowest byte first: what both ends of a
-- connection put on it and read from it. A field is its bit pattern, also where it is signed.
pub mod Laws
use driver_uu_remote.Base.{
  ℕ, zero, suc, ◌+◌, ◌*◌, ◌/◌, ◌%◌, List, [], ◌∷◌, ◌++◌, Option, none, some,
}
use driver_uu_remote.Base.Monad.{◌>>=◌}

unfoldable pub le_bytes : ℕ → ℕ → List ℕ
le_bytes zero value = []
le_bytes (suc size) value = value % 256 ∷ le_bytes size (value / 256)

unfoldable pub read_le : ℕ → List ℕ → Option (ℕ × List ℕ)
read_le zero bs = some (0, bs)
read_le (suc size) [] = none
read_le (suc size) (b ∷ bs) = do (high, rest) ← read_le size bs; some (b + 256 * high, rest)

abbrev pub helper_magic : ℕ
helper_magic = 0x31464d41

abbrev pub helper_init : ℕ
helper_init = 1

abbrev pub helper_frame : ℕ
helper_frame = 2

abbrev pub helper_reply : ℕ
helper_reply = 3

abbrev pub helper_decoder_init : ℕ
helper_decoder_init = 4

abbrev pub helper_decode_packet : ℕ
helper_decode_packet = 5

abbrev pub helper_protocol_version : ℕ
helper_protocol_version = 2

abbrev pub helper_default_port : ℕ
helper_default_port = 47890

pub record HelperInitMessage : Type 0 where
  pub magic : ℕ
  pub type : ℕ
  pub width : ℕ
  pub height : ℕ
  pub format : ℕ
  pub reserved : ℕ
  pub bitrate : ℕ
  pub fps_num : ℕ
  pub fps_den : ℕ

pub record HelperFrameMessage : Type 0 where
  pub magic : ℕ
  pub type : ℕ
  pub payload_size : ℕ
  pub reserved : ℕ
  pub pts : ℕ
  pub duration : ℕ

pub record HelperInitReply : Type 0 where
  pub enabled : ℕ
  pub protocol_version : ℕ

pub record HelperReply : Type 0 where
  pub magic : ℕ
  pub type : ℕ
  pub status : ℕ
  pub payload_size : ℕ
  pub width : ℕ
  pub height : ℕ

unfoldable pub init_bytes : HelperInitMessage → List ℕ
init_bytes m =
    le_bytes 4 m.magic
    ++ (le_bytes 4 m.type
        ++ (le_bytes 4 m.width
            ++ (le_bytes 4 m.height
                ++ (le_bytes 4 m.format
                    ++ (le_bytes 4 m.reserved
                        ++ (le_bytes 8 m.bitrate
                            ++ (le_bytes 4 m.fps_num ++ le_bytes 4 m.fps_den)))))))

unfoldable pub read_init : List ℕ → Option (HelperInitMessage × List ℕ)
read_init bs = do
  (magic, bs) ← read_le 4 bs
  (type, bs) ← read_le 4 bs
  (width, bs) ← read_le 4 bs
  (height, bs) ← read_le 4 bs
  (format, bs) ← read_le 4 bs
  (reserved, bs) ← read_le 4 bs
  (bitrate, bs) ← read_le 8 bs
  (fps_num, bs) ← read_le 4 bs
  (fps_den, bs) ← read_le 4 bs
  some (
    record {
      magic = magic;
      type = type;
      width = width;
      height = height;
      format = format;
      reserved = reserved;
      bitrate = bitrate;
      fps_num = fps_num;
      fps_den = fps_den;
    },
    bs,
  )

unfoldable pub frame_bytes : HelperFrameMessage → List ℕ
frame_bytes m =
    le_bytes 4 m.magic
    ++ (le_bytes 4 m.type
        ++ (le_bytes 4 m.payload_size
            ++ (le_bytes 4 m.reserved ++ (le_bytes 8 m.pts ++ le_bytes 8 m.duration))))

unfoldable pub read_frame : List ℕ → Option (HelperFrameMessage × List ℕ)
read_frame bs = do
  (magic, bs) ← read_le 4 bs
  (type, bs) ← read_le 4 bs
  (payload_size, bs) ← read_le 4 bs
  (reserved, bs) ← read_le 4 bs
  (pts, bs) ← read_le 8 bs
  (duration, bs) ← read_le 8 bs
  some (
    record {
      magic = magic;
      type = type;
      payload_size = payload_size;
      reserved = reserved;
      pts = pts;
      duration = duration;
    },
    bs,
  )

unfoldable pub init_reply_bytes : HelperInitReply → List ℕ
init_reply_bytes m = le_bytes 4 m.enabled ++ le_bytes 4 m.protocol_version

unfoldable pub read_init_reply : List ℕ → Option (HelperInitReply × List ℕ)
read_init_reply bs = do
  (enabled, bs) ← read_le 4 bs
  (protocol_version, bs) ← read_le 4 bs
  some (record { enabled = enabled; protocol_version = protocol_version }, bs)

unfoldable pub reply_bytes : HelperReply → List ℕ
reply_bytes m =
    le_bytes 4 m.magic
    ++ (le_bytes 4 m.type
        ++ (le_bytes 4 m.status
            ++ (le_bytes 4 m.payload_size ++ (le_bytes 4 m.width ++ le_bytes 4 m.height))))

unfoldable pub read_reply : List ℕ → Option (HelperReply × List ℕ)
read_reply bs = do
  (magic, bs) ← read_le 4 bs
  (type, bs) ← read_le 4 bs
  (status, bs) ← read_le 4 bs
  (payload_size, bs) ← read_le 4 bs
  (width, bs) ← read_le 4 bs
  (height, bs) ← read_le 4 bs
  some (
    record {
      magic = magic;
      type = type;
      status = status;
      payload_size = payload_size;
      width = width;
      height = height;
    },
    bs,
  )
