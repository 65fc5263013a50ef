-- ===== src/Dxva/Upload.antt =====
-- `upload_nv12` of src/dxva_bridge.c: the decoded picture is scaled into a picture of the texture's
-- size. A picture is the list of its bytes.
pub mod Size
pub mod Copies
use driver_uu_remote.Base.{
  ℕ, zero, suc, ◌+◌, ◌-◌, ◌*◌, ◌/◌, ◌%◌, ◌^◌, Bool, true, false, ◌&&◌, ◌||◌, not, List, [], ◌∷◌,
  ◌++◌, get_or, set, replicate, ◌==◌, ltb, if◌then◌else◌,
}
use driver_uu_remote.Dxva.Buffers.{HResult, s_ok, e_invalidarg, e_outofmemory, e_fail, d3d_error}

pub record Extent : Type 0 where
  pub width : ℕ
  pub height : ℕ

-- The texture's fields that are read.
pub record Texture : Type 0 where
  pub is_nv12 : Bool
  pub width : ℕ
  pub height : ℕ

abbrev pub uint_max : ℕ
uint_max = 2 ^ 32 - 1

-- The two tests that make `output_width` and `output_height` fit the texture, in their order.
unfoldable pub fit_width : ℕ → ℕ → ℕ → Extent
fit_width width height desc_width =
    if ltb desc_width width
    then record { width = desc_width; height = (height * desc_width / width) % 2 ^ 32 }
    else record { width = width; height = height }

unfoldable pub fit_height : ℕ → ℕ → ℕ → Extent → Extent
fit_height width height desc_height e =
    if ltb desc_height e.height
    then record { width = (width * desc_height / height) % 2 ^ 32; height = desc_height }
    else e

-- `&= ~1u` clears the lowest bit.
unfoldable pub even : ℕ → ℕ
even n = n - n % 2

unfoldable pub output_extent : ℕ → ℕ → ℕ → ℕ → Extent
unfolding fit_width fit_height even
output_extent width height desc_width desc_height =
    let e = fit_height width height desc_height (fit_width width height desc_width) in
    record { width = even e.width; height = even e.height }

-- One byte of the upload, and the byte of the picture that it is copied from.
pub record Copy : Type 0 where
  pub target : ℕ
  pub origin : ℕ

-- `f 0` to `f (n - 1)`, in this order.
unfoldable pub each {ℓ} : {A : Type ℓ} → ℕ → (ℕ → List A) → List A
each zero f = []
each (suc n) f = each n f ++ f n

-- The pair of loops that copy whole rows.
unfoldable pub plain_copies : ℕ → ℕ → ℕ → ℕ → List Copy
unfolding each
plain_copies width height desc_width desc_height =
    each height
      (λ y. each width (λ x. record { target = y * desc_width + x; origin = y * width + x } ∷ []))
    ++ each (height / 2) (λ y. each width (λ x.
      record {
        target = (desc_height + y) % 2 ^ 32 * desc_width + x;
        origin = width * height + y * width + x;
      }
      ∷ []))

-- `source_x` in the turn `x`, which the loop adds up in 64 bits.
unfoldable pub stepped : ℕ → ℕ → ℕ
stepped step zero = zero
stepped step (suc x) = (stepped step x + step) % 2 ^ 64

-- The pair of loops that scale, with steps of 32 bits after the point. `x * 2` and `source_pair * 2`
-- stay below the widths, which are numbers of 32 bits.
unfoldable pub luma_row : ℕ → ℕ → ℕ → Extent → ℕ → List Copy
unfolding each stepped
luma_row width height desc_width out y =
    let step = width * 2 ^ 32 / out.width in
    each out.width (λ x.
      record {
        target = y * desc_width + x;
        origin = y * height / out.height * width + stepped step x / 2 ^ 32;
      }
      ∷ [])

unfoldable pub chroma_row : ℕ → ℕ → ℕ → ℕ → Extent → ℕ → List Copy
unfolding each stepped
chroma_row width height desc_width desc_height out y =
    let step = width / 2 * 2 ^ 32 / (out.width / 2) in
    let origin = width * height + y * (height / 2) / (out.height / 2) * width in
    let target = (desc_height + y) % 2 ^ 32 * desc_width in
    each (out.width / 2) (λ x.
      record { target = target + x * 2; origin = origin + stepped step x / 2 ^ 32 * 2 }
      ∷ record {
        target = target + (x * 2 + 1);
        origin = origin + (stepped step x / 2 ^ 32 * 2 + 1);
      }
      ∷ [])

unfoldable pub scaled_copies : ℕ → ℕ → ℕ → ℕ → Extent → List Copy
unfolding luma_row chroma_row
scaled_copies width height desc_width desc_height out =
    each out.height (luma_row width height desc_width out)
    ++ each (out.height / 2) (chroma_row width height desc_width desc_height out)

-- The bytes that are written, in the order of the loops.
unfoldable pub copies : ℕ → ℕ → ℕ → ℕ → Extent → List Copy
unfolding plain_copies scaled_copies
copies width height desc_width desc_height out =
    if (out.width == width) && (out.height == height)
    then plain_copies width height desc_width desc_height
    else scaled_copies width height desc_width desc_height out

unfoldable pub copy_all : List ℕ → List Copy → List ℕ → List ℕ
copy_all bytes [] upload = upload
copy_all bytes (c ∷ cs) upload = copy_all bytes cs (set upload c.target (get_or bytes c.origin 0))

-- What Direct3D answers: no view of the bridge's own, no texture behind it, or the texture. `grows`
-- tells whether `realloc` succeeds.
pub data Target : Type 0 where
  no_view : Target
  no_texture : ℕ → Target
  texture : Texture → Target

unfoldable pub upload_bytes : Texture → ℕ
upload_bytes t = (t.width * t.height * 3) % 2 ^ 64 / 2

-- The picture that `UpdateSubresource` is given, and `upload_capacity`. The loops run only where the
-- copy is made, so that they stand under `elim`.
unfoldable pub upload_texture : Bool → ℕ → List ℕ → ℕ → ℕ → Texture → HResult × List ℕ × ℕ
unfolding output_extent copies copy_all upload_bytes
upload_texture grows capacity bytes width height t =
    let out = output_extent width height t.width t.height in
    let size = upload_bytes t in
    let same =
      (out.width == width)
      && (out.height == height)
      && (width == t.width)
      && (height == t.height) in
    elim (not t.is_nv12
      || (width == 0)
      || (height == 0)
      || (t.width == 0)
      || (t.height == 0)
      || (out.width == 0)
      || (out.height == 0)) [
        | true ↦ (e_invalidarg, [], capacity)
        | false ↦ elim same [
          | true ↦ (s_ok, bytes, capacity)
          | false ↦ elim (ltb uint_max size || (ltb capacity size && not grows)) [
            | true ↦ (e_outofmemory, [], capacity)
            | false ↦ (
              s_ok,
              copy_all bytes (copies width height t.width t.height out) (replicate size 0),
              if ltb capacity size then size else capacity,
            )
          ]
        ]
      ]

unfoldable pub upload_nv12 : Target → Bool → ℕ → List ℕ → ℕ → ℕ → HResult × List ℕ × ℕ
unfolding upload_texture
upload_nv12 no_view grows capacity bytes width height = (e_fail, [], capacity)
upload_nv12 (no_texture code) grows capacity bytes width height = (d3d_error code, [], capacity)
upload_nv12 (texture t) grows capacity bytes width height =
    upload_texture grows capacity bytes width height t
