-- ===== src/Capture/Helper/Frames/Publish.antt =====
-- `publish_bgra` and `publish_image` of src/wayland_capture_helper.cpp, which PipeWire's thread and
-- the test pattern give their pictures to.
use driver_uu_remote.Base.{
  ℕ, zero, suc, ◌+◌, ◌*◌, ◌%◌, ◌^◌, ◌≡◌, refl, ◌∙◌, Bool, ◌||◌, List, [], ◌∷◌, ◌++◌, Option, none,
  some, take, ltb, ◌==◌, length, length-append, if◌then◌else◌, if-cases, arith,
}
use driver_uu_remote.Base.Signed.{signed_ltb}
use driver_uu_remote.Capture.Helper.Frames.{FrameState}

-- The `size` bytes from an offset on; a pointer is its offset modulo 2^64.
unfoldable pub bytes_from : (ℕ → ℕ) → ℕ → ℕ → List ℕ
bytes_from source offset zero = []
bytes_from source offset (suc size) = source (offset % 2 ^ 64) ∷ bytes_from source (offset + 1) size

-- Rows `y`, `y + 1` and so on, `rows` of them.
unfoldable pub bgra_rows : (ℕ → ℕ) → ℕ → ℕ → ℕ → ℕ → List ℕ
unfolding bytes_from
bgra_rows source stride size y zero = []
bgra_rows source stride size y (suc rows) =
    bytes_from source (y * stride % 2 ^ 64) size ++ bgra_rows source stride size (y + 1) rows

-- An `int` as a `size_t`.
abbrev pub extended : ℕ → ℕ
extended word = if ltb word (2 ^ 31) then word else word + 2 ^ 32 * 4294967295

unfoldable pub publish : List ℕ → ℕ → ℕ → FrameState → FrameState
publish pixels width height frame = record {
  pixels = pixels;
  width = width;
  height = height;
  generation = (frame.generation + 1) % 2 ^ 64;
}

-- `none` is a null pointer; `stride` is the word that holds the int.
unfoldable pub publish_bgra : Option (ℕ → ℕ) → ℕ → ℕ → ℕ → FrameState → FrameState
unfolding bgra_rows publish
publish_bgra none width height stride frame = frame
publish_bgra (some source) width height stride frame =
    let size = width * 4 in
    if (width == 0) || ((height == 0) || signed_ltb stride (size % 2 ^ 32))
    then frame
    else publish (bgra_rows source (extended stride) size 0 height) width height frame

-- A picture that is converted to ARGB32.
pub record SourceImage : Type 0 where
  pub is_null : Bool
  pub width : ℕ
  pub height : ℕ
  pub scan_line : ℕ → List ℕ

unfoldable pub image_rows : SourceImage → ℕ → ℕ → List ℕ
image_rows image y zero = []
image_rows image y (suc rows) =
    take (image.width * 4) (image.scan_line y) ++ image_rows image (y + 1) rows

unfoldable pub publish_image : SourceImage → FrameState → FrameState
unfolding image_rows publish
publish_image image frame =
    if image.is_null || ((image.width == 0) || (image.height == 0))
    then frame
    else publish (image_rows image 0 image.height) image.width image.height frame

-- `length (frame.pixels)` is what the picture's sizes ask for.
pub HasSize : FrameState → Type 0
HasSize frame = length frame.pixels ≡ frame.width * frame.height * 4

length-bytes_from :
    (source : ℕ → ℕ) (offset size : ℕ) → length (bytes_from source offset size) ≡ size
unfolding bytes_from
length-bytes_from source offset zero = refl
length-bytes_from source offset (suc size) =
    omega (arith, length-bytes_from source (offset + 1) size)

length-bgra_rows :
    (source : ℕ → ℕ) (stride size y rows : ℕ)
    → length (bgra_rows source stride size y rows) ≡ size * rows
unfolding bgra_rows
length-bgra_rows source stride size y zero = omega arith
length-bgra_rows source stride size y (suc rows) =
    let offset = y * stride % 2 ^ 64 in
    length-append (bytes_from source offset size) _
    ∙ omega (
      arith,
      length-bytes_from source offset size,
      length-bgra_rows source stride size (y + 1) rows,
    )

-- Whatever the stride, `publish_bgra` leaves a frame with four bytes for each of its pixels.
pub publish_bgra-HasSize :
    (source : Option (ℕ → ℕ)) (width height stride : ℕ) (frame : FrameState)
    → HasSize frame
    → HasSize (publish_bgra source width height stride frame)
unfolding publish_bgra publish HasSize
publish_bgra-HasSize none width height stride frame h = h
publish_bgra-HasSize (some source) width height stride frame h =
    if-cases HasSize ((width == 0) || ((height == 0) || signed_ltb stride (width * 4 % 2 ^ 32)))
      frame _ (λ e. h)
      (λ e. length-bgra_rows source (extended stride) (width * 4) 0 height ∙ omega arith)
