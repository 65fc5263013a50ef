-- ===== src/Dxva/Upload/Size.antt =====
-- The size that a picture is scaled to.
use driver_uu_remote.Base.{
  ℕ, suc, ◌*◌, ◌/◌, ◌%◌, ◌^◌, ◌≤◌, ◌<◌, Bool-cases, inl, inr, ◌≡◌, subst, ltb, ltb→lt, arith,
}
use native.Mathlib.Nat.{div-le_of_le-mul, le-div_iff_mul-le, mul-le-mul_left, mul_comm, mod-le}
use driver_uu_remote.Dxva.Upload.{Extent, fit_width, fit_height, even, output_extent}

-- No larger than the picture and than the texture.
unfoldable pub Fits : ℕ → ℕ → ℕ → ℕ → Extent → Type 0
Fits width height desc_width desc_height e =
    (e.width ≤ width) × (e.width ≤ desc_width) × (e.height ≤ height) × (e.height ≤ desc_height)

-- A side that is scaled by a proper fraction does not grow.
shrinks : (side part whole : ℕ) → part ≤ whole → (side * part / whole) % 2 ^ 32 ≤ side
shrinks side part whole h =
    omega (arith, mod-le (side * part / whole) (2 ^ 32), div-le_of_le-mul whole within)
  where
    within : side * part ≤ whole * side
    within = subst (λ n. side * part ≤ n) (mul_comm side whole) (mul-le-mul_left side h)

-- Where the height that keeps the proportions is still too large, the width that keeps them fits.
narrows : (w h dw dh : ℕ) → 0 < w → dh < (h * dw / w) % 2 ^ 32 → (w * dh / h) % 2 ^ 32 ≤ dw
narrows w h dw dh p l = omega (arith, mod-le (w * dh / h) (2 ^ 32), div-le_of_le-mul h within)
  where
    large : suc dh ≤ h * dw / w
    large = omega (arith, mod-le (h * dw / w) (2 ^ 32))

    within : w * dh ≤ h * dw
    within = omega (arith, (le-div_iff_mul-le p).0 large, mul_comm w dh)

fit-Fits : (w h dw dh : ℕ) → 0 < w → 0 < h → Fits w h dw dh (fit_height w h dh (fit_width w h dw))
unfolding Fits fit_width fit_height
fit-Fits w h dw dh pw ph = elim (Bool-cases (ltb dw w)) [
  | inl a ↦
      let wide : dw < w = ltb→lt dw w a in
      elim (Bool-cases (ltb dh ((h * dw / w) % 2 ^ 32))) [
        | inl b ↦
            let narrow : (w * dh / h) % 2 ^ 32 ≤ dw = narrows w h dw dh pw (ltb→lt _ _ b) in
            let tall : dh < (h * dw / w) % 2 ^ 32 = ltb→lt _ _ b in
            let short : (h * dw / w) % 2 ^ 32 ≤ h = shrinks h dw w (omega arith) in
            rw (a, b) (omega arith, narrow, omega arith, omega arith)
        | inr b ↦ rw (a, b) (omega arith, omega arith, shrinks h dw w (omega arith), ground arith)
      ]
  | inr a ↦
      let slim : w ≤ dw = ground arith in
      elim (Bool-cases (ltb dh h)) [
        | inl b ↦
            let tall : dh < h = ltb→lt dh h b in
            let narrow : (w * dh / h) % 2 ^ 32 ≤ w = shrinks w dh h (omega arith) in
            rw (a, b) (narrow, omega arith, omega arith, omega arith)
        | inr b ↦ rw (a, b) (omega arith, slim, omega arith, ground arith)
      ]
]

-- The size that a picture is scaled to is even and no larger than the picture or the texture,
-- where the picture's sides are not zero.
pub output_extent-Fits :
    (w h dw dh : ℕ)
    → 0 < w
    → 0 < h
    → Fits w h dw dh (output_extent w h dw dh)
      × ((output_extent w h dw dh).width % 2 ≡ 0)
      × ((output_extent w h dw dh).height % 2 ≡ 0)
unfolding output_extent even Fits
output_extent-Fits w h dw dh pw ph =
    let (a, b, c, d) = fit-Fits w h dw dh pw ph in
    ((omega arith, omega arith, omega arith, omega arith), omega arith, omega arith)
