-- ===== src/Capture/Helper/Frames/Laws.antt =====
-- A frame that is published has four bytes for each of its pixels.
use driver_uu_remote.Base.{
  ℕ, zero, suc, ◌+◌, ◌*◌, ◌%◌, ◌^◌, ◌≤◌, ◌<◌, ◌≡◌, refl, ap, ◌∙◌, Bool, true, false, ◌||◌, List, [],
  ◌∷◌, some, take, drop, length, length-append, length-take, length-drop, if◌then◌else◌, if-cases,
  arith,
}
use native.Mathlib.Nat.{mul-le-mul_left}
use driver_uu_remote.Transport.{Received, received, end, error, recv_all}
use driver_uu_remote.Transport.Helper.{recv_all-Read}
use driver_uu_remote.Capture.Helper.Frames.{
  FrameState, Screenshot, max_frame_size, swap_red_blue, is_swapped, is_plain, convert_rows,
  bad_size, convert, capture_kwin_workspace,
}

-- No frame yet, or one with all its pixels that is not too large.
pub record IsFrame (frame : FrameState) : Type 0 where
  pub size : length frame.pixels ≡ frame.width * frame.height * 4
  pub small : length frame.pixels ≤ max_frame_size

length-swap_red_blue : (bytes : List ℕ) → length (swap_red_blue bytes) ≡ length bytes
unfolding swap_red_blue
length-swap_red_blue (a ∷ b ∷ c ∷ d ∷ more) = omega (arith, length-swap_red_blue more)
length-swap_red_blue [] = refl
length-swap_red_blue (a ∷ []) = refl
length-swap_red_blue (a ∷ b ∷ []) = refl
length-swap_red_blue (a ∷ b ∷ c ∷ []) = refl

length-convert_rows :
    (swapped : Bool) (size stride rows : ℕ) (raw : List ℕ)
    → size ≤ stride
    → stride * rows ≤ length raw
    → length (convert_rows swapped size stride rows raw) ≡ size * rows
unfolding convert_rows
length-convert_rows swapped size stride zero raw h k = omega arith
length-convert_rows swapped size stride (suc rows) raw h k =
    let row = take size raw in
    let more = drop stride raw in
    let split : stride * suc rows ≡ stride + stride * rows = omega arith in
    let total : size * suc rows ≡ size + size * rows = omega arith in
    let left : stride * rows ≤ length more = omega (arith, length-drop stride raw, split) in
    let rest = length-convert_rows swapped size stride rows more h left in
    let whole : length row ≡ size = omega (arith, length-take size raw, split) in
    length-append (if swapped then swap_red_blue row else row) _
    ∙ omega (arith, rest, whole, total, length_row swapped row)
  where
    length_row :
        (swapped : Bool) (row : List ℕ)
        → length (if swapped then swap_red_blue row else row) ≡ length row
    length_row true row = length-swap_red_blue row
    length_row false row = refl

-- What the checks of the sizes leave.
record IsSized (shot : Screenshot) : Type 0 where
  row : shot.width * 4 ≤ shot.stride
  output : shot.width * 4 * shot.height ≡ shot.width * shot.height * 4
  small : shot.width * shot.height * 4 ≤ max_frame_size

bad_size-IsSized :
    (shot : Screenshot)
    → shot.width * shot.height * 4 < 2 ^ 64
    → bad_size shot ≡ false
    → IsSized shot
unfolding bad_size
bad_size-IsSized shot fits h =
    let tall : 0 < shot.height = ground arith in
    let low : shot.width * shot.height * 4 % 2 ^ 64 ≤ 2 ^ 28 = ground arith in
    let wide : shot.width * 4 % 2 ^ 32 ≤ shot.stride = ground arith in
    let area : shot.width * 1 ≤ shot.width * shot.height = mul-le-mul_left shot.width tall in
    let small : shot.width * shot.height * 4 ≤ 2 ^ 28 = omega (arith, low, fits) in
    record { row = omega (arith, wide, area, small); output = omega arith; small = small }

convert-IsFrame :
    (shot : Screenshot) (raw : Received) (frame : FrameState)
    → IsSized shot
    → ((bytes : List ℕ) → raw ≡ received bytes → length bytes ≡ shot.stride * shot.height)
    → IsFrame frame
    → IsFrame (convert shot raw frame).1
unfolding convert
convert-IsFrame shot end frame sized h f = f
convert-IsFrame shot error frame sized h f = f
convert-IsFrame shot (received raw) frame sized h f =
    let all = h raw refl in
    let n =
      length-convert_rows (is_swapped shot.format) (shot.width * 4) shot.stride shot.height raw
        sized.row (omega (arith, all))
      ∙ sized.output in
    if-cases (λ (r : Bool × FrameState). IsFrame r.1)
      (is_swapped shot.format || is_plain shot.format) _ _
      (λ e. record { size = n; small = omega (arith, n, sized.small) }) (λ e. f)

-- `capture_kwin_workspace` keeps the frame one with four bytes for each pixel and of at most 256
-- MB, if the size that KWin names fits 64 bits.
pub capture_kwin_workspace-IsFrame :
    (shot : Screenshot) (frame : FrameState)
    → shot.width * shot.height * 4 < 2 ^ 64
    → IsFrame frame
    → IsFrame (capture_kwin_workspace (some shot) frame).1
unfolding capture_kwin_workspace
capture_kwin_workspace-IsFrame shot frame fits f =
    let size = shot.stride * shot.height in
    let raw = (recv_all shot.pipe size).0 in
    let whole : (bytes : List ℕ) → raw ≡ received bytes → length bytes ≡ size = λ bytes e.
      let r = recv_all-Read shot.pipe size e in
      ap length r.content ∙ omega (arith, length-take size shot.pipe.incoming, r.enough) in
    if-cases (λ (r : Bool × FrameState). IsFrame r.1) (bad_size shot) (false, frame)
      (convert shot raw frame) (λ bad. f)
      (λ good. convert-IsFrame shot raw frame (bad_size-IsSized shot fits good) whole f)
