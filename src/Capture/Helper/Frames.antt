-- ===== src/Capture/Helper/Frames.antt =====
-- The frame that is served, and `capture_kwin_workspace` of src/wayland_capture_helper.cpp.
pub mod Laws
pub mod Publish
use driver_uu_remote.Base.{
  ℕ, zero, suc, ◌+◌, ◌*◌, ◌%◌, ◌^◌, Bool, true, false, ◌||◌, List, [], ◌∷◌, ◌++◌, Option, none,
  some, take, drop, ltb, ◌==◌, if◌then◌else◌,
}
use driver_uu_remote.Transport.{Conn, Received, received, end, error, recv_all}

-- `frame_state` without its lock.
pub record FrameState : Type 0 where
  pub pixels : List ℕ
  pub width : ℕ
  pub height : ℕ
  pub generation : ℕ

-- What KWin answers, and the pipe that it writes the picture to.
pub record Screenshot : Type 0 where
  pub width : ℕ
  pub height : ℕ
  pub stride : ℕ
  pub format : ℕ
  pub pipe : Conn

abbrev pub max_frame_size : ℕ
max_frame_size = 2 ^ 28

-- The first and third byte of each four are exchanged.
unfoldable pub swap_red_blue : List ℕ → List ℕ
swap_red_blue (red ∷ green ∷ blue ∷ alpha ∷ more) = blue ∷ green ∷ red ∷ alpha ∷ swap_red_blue more
swap_red_blue [] = []
swap_red_blue (a ∷ []) = a ∷ []
swap_red_blue (a ∷ b ∷ []) = a ∷ b ∷ []
swap_red_blue (a ∷ b ∷ c ∷ []) = a ∷ b ∷ c ∷ []

abbrev pub is_swapped : ℕ → Bool
is_swapped format = (format == 16) || ((format == 17) || (format == 18))

abbrev pub is_plain : ℕ → Bool
is_plain format = (format == 4) || ((format == 5) || (format == 6))

-- The rows of `size` bytes, each `stride` behind the one before.
unfoldable pub convert_rows : Bool → ℕ → ℕ → ℕ → List ℕ → List ℕ
unfolding swap_red_blue
convert_rows swapped size stride zero raw = []
convert_rows swapped size stride (suc rows) raw =
    let row = take size raw in
    (if swapped then swap_red_blue row else row)
    ++ convert_rows swapped size stride rows (drop stride raw)

-- The checks of the sizes; `width * 4u` is cut to 32 bits, and the output's size to 64.
unfoldable pub bad_size : Screenshot → Bool
bad_size shot =
    (shot.width == 0)
    || ((shot.height == 0)
        || (ltb shot.stride (shot.width * 4 % 2 ^ 32)
            || (ltb max_frame_size (shot.stride * shot.height)
                || ltb max_frame_size (shot.width * shot.height * 4 % 2 ^ 64))))

unfoldable pub convert : Screenshot → Received → FrameState → Bool × FrameState
unfolding convert_rows
convert shot end frame = (false, frame)
convert shot error frame = (false, frame)
convert shot (received raw) frame =
    let pixels =
      convert_rows (is_swapped shot.format) (shot.width * 4) shot.stride shot.height raw in
    if is_swapped shot.format || is_plain shot.format
    then (
      true,
      record {
        pixels = pixels;
        width = shot.width;
        height = shot.height;
        generation = (frame.generation + 1) % 2 ^ 64;
      },
    )
    else (false, frame)

-- `none` is a pipe that cannot be made or an answer that is an error.
unfoldable pub capture_kwin_workspace : Option Screenshot → FrameState → Bool × FrameState
unfolding bad_size convert
capture_kwin_workspace none frame = (false, frame)
capture_kwin_workspace (some shot) frame =
    let raw = (recv_all shot.pipe (shot.stride * shot.height)).0 in
    let converted = convert shot raw frame in if bad_size shot then (false, frame) else converted
