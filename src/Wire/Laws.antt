-- ===== src/Wire/Laws.antt =====
-- What one end of a helper connection writes the other end reads.
use driver_uu_remote.Base.{
  ℕ, zero, suc, ◌/◌, ◌^◌, ◌<◌, ◌≡◌, refl, ap, List, ◌++◌, append_assoc, some, length, arith,
}
use driver_uu_remote.Wire.{
  le_bytes, read_le, HelperInitMessage, HelperFrameMessage, HelperInitReply, HelperReply,
  init_bytes, read_init, frame_bytes, read_frame, init_reply_bytes, read_init_reply, reply_bytes,
  read_reply,
}
use native.Mathlib.Nat.{pow-suc}

pub length-le_bytes : (size value : ℕ) → length (le_bytes size value) ≡ size
unfolding le_bytes
length-le_bytes zero value = refl
length-le_bytes (suc size) value = ap suc (length-le_bytes size (value / 256))

pub read_le-le_bytes :
    (size value : ℕ) (rest : List ℕ)
    → value < 256 ^ size
    → read_le size (le_bytes size value ++ rest) ≡ some (value, rest)
unfolding le_bytes read_le
read_le-le_bytes zero value rest h = ap (λ v. some (v, rest)) (omega arith)
read_le-le_bytes (suc size) value rest h =
    rw (read_le-le_bytes size (value / 256) rest (omega (arith, pow-suc 256 size)))
      (ap (λ v. some (v, rest)) (omega arith))

abbrev pub IsU32 : ℕ → Type 0
IsU32 v = v < 2 ^ 32

abbrev pub IsU64 : ℕ → Type 0
IsU64 v = v < 2 ^ 64

pub record IsInit (m : HelperInitMessage) : Type 0 where
  pub magic : IsU32 m.magic
  pub type : IsU32 m.type
  pub width : IsU32 m.width
  pub height : IsU32 m.height
  pub format : IsU32 m.format
  pub reserved : IsU32 m.reserved
  pub bitrate : IsU64 m.bitrate
  pub fps_num : IsU32 m.fps_num
  pub fps_den : IsU32 m.fps_den

pub record IsFrame (m : HelperFrameMessage) : Type 0 where
  pub magic : IsU32 m.magic
  pub type : IsU32 m.type
  pub payload_size : IsU32 m.payload_size
  pub reserved : IsU32 m.reserved
  pub pts : IsU64 m.pts
  pub duration : IsU64 m.duration

pub record IsInitReply (m : HelperInitReply) : Type 0 where
  pub enabled : IsU32 m.enabled
  pub protocol_version : IsU32 m.protocol_version

pub record IsReply (m : HelperReply) : Type 0 where
  pub magic : IsU32 m.magic
  pub type : IsU32 m.type
  pub status : IsU32 m.status
  pub payload_size : IsU32 m.payload_size
  pub width : IsU32 m.width
  pub height : IsU32 m.height

-- A field behind which more follows.
pub field :
    (size value : ℕ) (tail rest : List ℕ)
    → value < 256 ^ size
    → read_le size ((le_bytes size value ++ tail) ++ rest) ≡ some (value, tail ++ rest)
field size value tail rest h = rw append_assoc (read_le-le_bytes size value (tail ++ rest) h)

-- A session's message whose fields fit their types is read back as it was written, and what follows
-- it is left.
pub read_init-init_bytes :
    (m : HelperInitMessage) (rest : List ℕ)
    → IsInit m
    → read_init (init_bytes m ++ rest) ≡ some (m, rest)
unfolding read_init init_bytes
read_init-init_bytes m rest h = rw (
  field 4 m.magic _ rest h.magic,
  field 4 m.type _ rest h.type,
  field 4 m.width _ rest h.width,
  field 4 m.height _ rest h.height,
  field 4 m.format _ rest h.format,
  field 4 m.reserved _ rest h.reserved,
  field 8 m.bitrate _ rest h.bitrate,
  field 4 m.fps_num _ rest h.fps_num,
  read_le-le_bytes 4 m.fps_den rest h.fps_den,
)

-- A frame's header whose fields fit their types is read back as it was written, and what follows it is
-- left.
pub read_frame-frame_bytes :
    (m : HelperFrameMessage) (rest : List ℕ)
    → IsFrame m
    → read_frame (frame_bytes m ++ rest) ≡ some (m, rest)
unfolding read_frame frame_bytes
read_frame-frame_bytes m rest h = rw (
  field 4 m.magic _ rest h.magic,
  field 4 m.type _ rest h.type,
  field 4 m.payload_size _ rest h.payload_size,
  field 4 m.reserved _ rest h.reserved,
  field 8 m.pts _ rest h.pts,
  read_le-le_bytes 8 m.duration rest h.duration,
)

pub read_init_reply-init_reply_bytes :
    (m : HelperInitReply) (rest : List ℕ)
    → IsInitReply m
    → read_init_reply (init_reply_bytes m ++ rest) ≡ some (m, rest)
unfolding read_init_reply init_reply_bytes
read_init_reply-init_reply_bytes m rest h = rw (
  field 4 m.enabled _ rest h.enabled,
  read_le-le_bytes 4 m.protocol_version rest h.protocol_version,
)

-- A reply whose fields fit their types is read back as it was written, and what follows it is left.
pub read_reply-reply_bytes :
    (m : HelperReply) (rest : List ℕ)
    → IsReply m
    → read_reply (reply_bytes m ++ rest) ≡ some (m, rest)
unfolding read_reply reply_bytes
read_reply-reply_bytes m rest h = rw (
  field 4 m.magic _ rest h.magic,
  field 4 m.type _ rest h.type,
  field 4 m.status _ rest h.status,
  field 4 m.payload_size _ rest h.payload_size,
  field 4 m.width _ rest h.width,
  read_le-le_bytes 4 m.height rest h.height,
)
