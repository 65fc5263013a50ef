-- ===== src/Daemon/Codec/Laws.antt =====
-- Pictures keep their pixels on the way into the encoder and out of the decoder.
use driver_uu_remote.Base.{
  ap₂, ℕ, zero, suc, ◌+◌, ◌-◌, ◌*◌, ◌/◌, ◌%◌, ◌^◌, ◌≤◌, ◌≡◌, refl, sym, ap, ◌∙◌, Bool, not, ◌||◌,
  List, ◌++◌, Option, none, some, take, drop, length, length-append, length-take, length-drop,
  take-append-take, take_all, ltb, ◌==◌, if◌then◌else◌, if-cases, arith,
}
use driver_uu_remote.Daemon.Codec.{
  EncoderState, plane_rows, host_frame, flatten, einval, eoverflow, enomem, Format, nv12, yuv420p,
  another, Picture, interleave, interleave_rows, chroma_bytes, Packed, Outcome, failure, success,
  with_chroma, pack,
}

-- The rows of a plane without gaps are the plane.
flatten-plane_rows :
    (width rows : ℕ) (bytes : List ℕ)
    → flatten (plane_rows width width rows bytes) ≡ take (width * rows) bytes
unfolding flatten plane_rows
flatten-plane_rows width zero bytes =
    let z : width * 0 ≡ 0 = omega arith in ap (λ n. take n bytes) (sym z)
flatten-plane_rows width (suc rows) bytes =
    let split : width + width * rows ≡ width * suc rows = omega arith in
    ap (λ xs. take width bytes ++ xs) (flatten-plane_rows width rows (drop width bytes))
    ∙ take-append-take width (width * rows) bytes
    ∙ ap (λ n. take n bytes) split

doubled : (w h k : ℕ) → h ≡ k + k → w * h ≡ w * k + w * k
doubled w h k e = ap (λ n. w * n) e ∙ ring_step w k
  where
    ring_step : (w k : ℕ) → w * (k + k) ≡ w * k + w * k
    ring_step w k = omega arith

-- For an even height and a payload of one and a half bytes for each pixel the encoder gets all
-- bytes of the payload, each once and in their order.
pub flatten-host_frame :
    (e : EncoderState) (bytes : List ℕ)
    → e.height % 2 ≡ 0
    → length bytes ≡ e.width * e.height * 3 / 2
    → flatten (host_frame e bytes).luma ++ flatten (host_frame e bytes).chroma ≡ bytes
unfolding host_frame
flatten-host_frame e bytes even size =
    let w = e.width in
    let h = e.height in
    let half : h ≡ h / 2 + h / 2 = omega arith in
    let product : w * h ≡ w * (h / 2) + w * (h / 2) = doubled w h (h / 2) half in
    let all : w * h + w * (h / 2) ≡ length bytes = omega (arith, product, size) in
    ap₂ (λ xs ys. xs ++ ys) (flatten-plane_rows w h bytes)
      (flatten-plane_rows w (h / 2) (drop (w * h) bytes))
    ∙ take-append-take (w * h) (w * (h / 2)) bytes
    ∙ take_all (w * h + w * (h / 2)) bytes (omega (arith, all))

length_rows :
    (width stride rows : ℕ) (bytes : List ℕ)
    → width ≤ stride
    → stride * rows ≤ length bytes
    → length (flatten (plane_rows width stride rows bytes)) ≡ width * rows
unfolding flatten plane_rows
length_rows width stride zero bytes h k = omega arith
length_rows width stride (suc rows) bytes h k =
    let split : stride * suc rows ≡ stride + stride * rows = omega arith in
    let total : width * suc rows ≡ width + width * rows = omega arith in
    let left : stride * rows ≤ length (drop stride bytes) =
      omega (arith, length-drop stride bytes, split) in
    length-append (take width bytes) _
    ∙ omega (
      arith,
      length_rows width stride rows (drop stride bytes) h left,
      total,
      split,
      length-take width bytes,
    )

length-interleave : (n : ℕ) (us vs : List ℕ) → length (interleave n us vs) ≡ 2 * n
unfolding interleave
length-interleave zero us vs = refl
length-interleave (suc n) us vs = omega (arith, length-interleave n (drop 1 us) (drop 1 vs))

length-interleave_rows :
    (half stride1 stride2 rows : ℕ) (us vs : List ℕ)
    → length (interleave_rows half stride1 stride2 rows us vs) ≡ 2 * half * rows
unfolding interleave_rows
length-interleave_rows half stride1 stride2 zero us vs = omega arith
length-interleave_rows half stride1 stride2 (suc rows) us vs =
    let total : 2 * half * suc rows ≡ 2 * half + 2 * half * rows = omega arith in
    length-append (interleave half us vs) _
    ∙ omega (
      arith,
      length-interleave half us vs,
      length-interleave_rows half stride1 stride2 rows (drop stride1 us) (drop stride2 vs),
      total,
    )

-- Chroma planes that hold their rows: of NV12 one with full rows, of YUV420P two with half rows.
unfoldable pub HasChroma : Format → Picture → Type 0
HasChroma nv12 p = (p.width ≤ p.linesize.1) × (p.linesize.1 * (p.height / 2) ≤ length p.planes.1)
HasChroma yuv420p p =
    (p.width / 2 ≤ p.linesize.1)
    × (p.linesize.1 * (p.height / 2) ≤ length p.planes.1)
    × (p.width / 2 ≤ p.linesize.2)
    × (p.linesize.2 * (p.height / 2) ≤ length p.planes.2)
HasChroma another p = Unit

-- Planes that hold their rows.
pub record HasPlanes (p : Picture) : Type 0 where
  pub luma_line : p.width ≤ p.linesize.0
  pub luma_size : p.linesize.0 * p.height ≤ length p.planes.0
  pub chroma : HasChroma p.format p

-- The chroma that belongs to a picture's luma.
record IsChroma (p : Picture) (chroma : Option (List ℕ)) : Type 0 where
  size : (bytes : List ℕ) → chroma ≡ some bytes → length bytes ≡ p.width * (p.height / 2)

some_eq : {a b : List ℕ} → some a ≡ some b → a ≡ b
some_eq q = cc

chroma_bytes-IsChroma :
    (f : Format) (p : Picture) → HasChroma f p → p.width % 2 ≡ 0 → IsChroma p (chroma_bytes f p)
unfolding chroma_bytes HasChroma
chroma_bytes-IsChroma nv12 p h even = record {
  size = λ bytes e.
      ap length (sym (some_eq e))
      ∙ length_rows p.width p.linesize.1 (p.height / 2) p.planes.1 h.0 h.1;
}
chroma_bytes-IsChroma yuv420p p h even = record {
  size = λ bytes e.
      let full : 2 * (p.width / 2) ≡ p.width = omega (arith, even) in
      ap length (sym (some_eq e))
      ∙ length-interleave_rows (p.width / 2) p.linesize.1 p.linesize.2 (p.height / 2) p.planes.1
          p.planes.2
      ∙ ap (λ n. n * (p.height / 2)) full;
}
chroma_bytes-IsChroma another p h even = record { size = λ bytes e. cc }

-- What a picture is packed to.
pub record IsPacked (p : Picture) (out : Packed) : Type 0 where
  pub bytes : length out.bytes ≡ p.width * p.height * 3 / 2
  pub width : out.width ≡ p.width
  pub height : out.height ≡ p.height

packed_eq : {a b : Packed} → success a ≡ success b → a ≡ b
packed_eq q = cc

with_chroma-IsPacked :
    (p : Picture) (chroma : Option (List ℕ)) (out : Packed)
    → HasPlanes p
    → p.height % 2 ≡ 0
    → IsChroma p chroma
    → with_chroma p chroma ≡ success out
    → IsPacked p out
unfolding with_chroma
with_chroma-IsPacked p none out h even c e = cc
with_chroma-IsPacked p (some chroma) out h even c e =
    let luma = flatten (plane_rows p.width p.linesize.0 p.height p.planes.0) in
    let half : p.height ≡ p.height / 2 + p.height / 2 = omega (arith, even) in
    let product = doubled p.width p.height (p.height / 2) half in
    let first = length_rows p.width p.linesize.0 p.height p.planes.0 h.luma_line h.luma_size in
    let second = c.size chroma refl in
    let total : length (luma ++ chroma) ≡ p.width * p.height * 3 / 2 =
      length-append luma chroma ∙ omega (arith, first, second, product) in
    let same = packed_eq e in
    record {
      bytes = ap (λ (o : Packed). length o.bytes) (sym same) ∙ total;
      width = ap (λ (o : Packed). o.width) (sym same);
      height = ap (λ (o : Packed). o.height) (sym same);
    }

-- A picture whose planes hold their rows, of NV12 or of YUV420P, is packed, where that succeeds,
-- to its size in bytes: one of luma for each pixel and two of chroma for each four.
pub pack-IsPacked :
    (allocated : Bool) (p : Picture) (out : Packed)
    → HasPlanes p
    → pack allocated p ≡ success out
    → IsPacked p out
unfolding pack
pack-IsPacked allocated p out h =
    let Good : Outcome Packed → Type 0 = λ r. r ≡ success out → IsPacked p out in
    let packed = with_chroma p (chroma_bytes p.format p) in
    if-cases Good
      ((p.width == 0) || ((p.height == 0) || (not (p.width % 2 == 0) || not (p.height % 2 == 0))))
      (failure einval)
      (if ltb (2 ^ 32 - 1) (p.width * p.height * 3 / 2)
        then failure eoverflow
        else if allocated
        then packed
        else failure enomem)
      (λ bad e. cc)
      (λ good.
        if-cases Good (ltb (2 ^ 32 - 1) (p.width * p.height * 3 / 2)) (failure eoverflow)
          (if allocated then packed else failure enomem) (λ large e. cc)
          (λ fits.
            let wide : p.width % 2 ≡ 0 = ground arith in
            let tall : p.height % 2 ≡ 0 = ground arith in
            if-cases Good allocated packed (failure enomem)
              (λ room.
                with_chroma-IsPacked p (chroma_bytes p.format p) out h tall
                  (chroma_bytes-IsChroma p.format p h.chroma wide))
              (λ full e. cc)))
