-- ===== src/Daemon/Codec.antt =====
-- The helper's work on pictures: `encoder_init`, `encoder_frame` and `decoder_packet` of
-- src/amf_helper.c. libavcodec's answers are the rounds.
pub mod Laws
use driver_uu_remote.Base.{
  ℕ, zero, suc, ◌+◌, ◌-◌, ◌*◌, ◌/◌, ◌%◌, ◌^◌, Bool, true, false, not, ◌&&◌, ◌||◌, List, [], ◌∷◌,
  ◌++◌, Option, none, some, take, drop, length, get_or, ltb, ◌==◌, if◌then◌else◌,
}
use driver_uu_remote.Wire.{HelperInitMessage}

-- An error code of libav, positive: those that the file names, and those that the library answers.
pub data AvError : Type 0 where
  einval eoverflow enosys enomem : AvError
  av : ℕ → AvError

-- The settings of the encoder's context that depend on the message.
pub record EncoderSettings : Type 0 where
  pub width : ℕ
  pub height : ℕ
  pub time_base : ℕ × ℕ
  pub framerate : ℕ × ℕ
  pub bit_rate : ℕ

abbrev or_default : ℕ → ℕ → ℕ
or_default value fallback = if value == 0 then fallback else value

unfoldable pub encoder_settings : HelperInitMessage → EncoderSettings
encoder_settings m = record {
  width = m.width;
  height = m.height;
  time_base = (or_default m.fps_den 1, or_default m.fps_num 30);
  framerate = (or_default m.fps_num 30, or_default m.fps_den 1);
  bit_rate = or_default m.bitrate 8000000;
}

-- `codec` tells that there is a context.
pub record EncoderState : Type 0 where
  pub codec : Bool
  pub width : ℕ
  pub height : ℕ
  pub next_pts : ℕ

abbrev pub no_encoder : EncoderState
no_encoder = record { codec = false; width = 0; height = 0; next_pts = 0 }

-- `open` is whether the encoder opens with the settings; a failure closes what there is.
unfoldable pub encoder_init : (EncoderSettings → Bool) → HelperInitMessage → Bool × EncoderState
unfolding encoder_settings
encoder_init open_codec m =
    if open_codec (encoder_settings m)
    then (true, record no_encoder { codec = true; width = m.width; height = m.height })
    else (false, no_encoder)

-- The rows of a plane that are copied, each `stride` behind the one before.
unfoldable pub plane_rows : ℕ → ℕ → ℕ → List ℕ → List (List ℕ)
plane_rows width stride zero bytes = []
plane_rows width stride (suc rows) bytes =
    take width bytes ∷ plane_rows width stride rows (drop stride bytes)

-- What the encoder gets: the rows of the two planes.
pub record HostFrame : Type 0 where
  pub luma : List (List ℕ)
  pub chroma : List (List ℕ)
  pub pts : ℕ

-- What libavcodec makes of a frame: an error before the frame has its number, one of
-- `avcodec_send_frame`, and the packets, with an error behind them or none.
pub record EncodeRound : Type 0 where
  pub prepared : Option AvError
  pub sending : HostFrame → Option AvError
  pub packets : HostFrame → List (List ℕ)
  pub ended : Option AvError

unfoldable pub flatten : List (List ℕ) → List ℕ
flatten [] = []
flatten (xs ∷ xss) = xs ++ flatten xss

-- The source casts the height to an int and computes the offsets of rows in 32 bits. Neither shows
-- where the picture's bytes are within the 128 MB that `handle_client` allows.
unfoldable pub host_frame : EncoderState → List ℕ → HostFrame
unfolding plane_rows
host_frame e bytes = record {
  luma = plane_rows e.width e.width e.height bytes;
  chroma = plane_rows e.width e.width (e.height / 2) (drop (e.width * e.height) bytes);
  pts = e.next_pts;
}

pub data Outcome {ℓ} (A : Type ℓ) : Type ℓ where
  failure : AvError → Outcome A
  success : A → Outcome A

unfoldable pub collect : Option AvError → List (List ℕ) → Outcome (List ℕ)
unfolding flatten
collect none packets = success (flatten packets)
collect (some error) packets = failure error

unfoldable pub encode : EncodeRound → HostFrame → Outcome (List ℕ)
unfolding collect
encode round frame = elim (round.sending frame) [
  | none ↦ collect round.ended (round.packets frame)
  | some error ↦ failure error
]

unfoldable pub encoder_frame :
    EncodeRound → EncoderState → List ℕ → ℕ → Outcome (List ℕ) × EncoderState
unfolding encode host_frame
encoder_frame round e bytes payload_size =
    if not e.codec || not (payload_size == e.width * e.height * 3 % 2 ^ 32 / 2)
    then (failure einval, e)
    else elim round.prepared [
      | some error ↦ (failure error, e)
      | none ↦ (encode round (host_frame e bytes), record e { next_pts = e.next_pts + 1 })
    ]

-- A picture in memory. The third plane is there if the format has it.
pub data Format : Type 0 where
  nv12 yuv420p another : Format

pub record Picture : Type 0 where
  pub format : Format
  pub width : ℕ
  pub height : ℕ
  pub planes : List ℕ × List ℕ × List ℕ
  pub linesize : ℕ × ℕ × ℕ

-- The loop over x: the bytes of the two planes alternate.
unfoldable pub interleave : ℕ → List ℕ → List ℕ → List ℕ
interleave zero us vs = []
interleave (suc n) us vs = get_or us 0 0 ∷ get_or vs 0 0 ∷ interleave n (drop 1 us) (drop 1 vs)

-- The loop over y.
unfoldable pub interleave_rows : ℕ → ℕ → ℕ → ℕ → List ℕ → List ℕ → List ℕ
unfolding interleave
interleave_rows half stride1 stride2 zero us vs = []
interleave_rows half stride1 stride2 (suc rows) us vs =
    interleave half us vs
    ++ interleave_rows half stride1 stride2 rows (drop stride1 us) (drop stride2 vs)

unfoldable pub chroma_bytes : Format → Picture → Option (List ℕ)
unfolding interleave_rows flatten plane_rows
chroma_bytes nv12 p = some (flatten (plane_rows p.width p.linesize.1 (p.height / 2) p.planes.1))
chroma_bytes yuv420p p =
    some
      (interleave_rows (p.width / 2) p.linesize.1 p.linesize.2 (p.height / 2) p.planes.1 p.planes.2)
chroma_bytes another p = none

-- The packed bytes with the picture's size.
pub record Packed : Type 0 where
  pub bytes : List ℕ
  pub width : ℕ
  pub height : ℕ

unfoldable pub with_chroma : Picture → Option (List ℕ) → Outcome Packed
unfolding flatten plane_rows
with_chroma p none = failure enosys
with_chroma p (some chroma) = success (record {
  bytes = flatten (plane_rows p.width p.linesize.0 p.height p.planes.0) ++ chroma;
  width = p.width;
  height = p.height;
})

-- `allocated` tells whether `malloc` gives memory for the output.
unfoldable pub pack : Bool → Picture → Outcome Packed
unfolding with_chroma chroma_bytes
pack allocated p =
    let packed = with_chroma p (chroma_bytes p.format p) in
    if (p.width == 0) || ((p.height == 0) || (not (p.width % 2 == 0) || not (p.height % 2 == 0)))
    then failure einval
    else if ltb (2 ^ 32 - 1) (p.width * p.height * 3 / 2)
    then failure eoverflow
    else if allocated
    then packed
    else failure enomem

-- What the decoder makes of a packet: an error, no picture yet, or one, with whether memory is there
-- for its bytes.
pub data DecodeRound : Type 0 where
  refused : AvError → DecodeRound
  waiting : DecodeRound
  decoded : Bool → Picture → DecodeRound

-- No picture is success without bytes.
unfoldable pub decoder_packet : DecodeRound → Outcome Packed
unfolding pack
decoder_packet (refused error) = failure error
decoder_packet waiting = success (record { bytes = []; width = 0; height = 0 })
decoder_packet (decoded allocated picture) = pack allocated picture
