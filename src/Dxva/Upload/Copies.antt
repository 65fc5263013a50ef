-- ===== src/Dxva/Upload/Copies.antt =====
-- Every byte that the scaling reads lies in the decoded picture, and every byte it writes in the
-- picture for the texture.
use driver_uu_remote.Base.{
  ℕ, zero, suc, ◌+◌, ◌*◌, ◌/◌, ◌%◌, ◌^◌, ◌≤◌, ◌<◌, Bool-cases, inl, inr, List, ◌≡◌, ◌&&◌, true,
  false, subst, sym, arith, All, All-append, ◌==◌,
}
use native.Mathlib.Nat.{
  div-lt_iff_lt-mul, mul-le-mul_right, mul_comm, mod-le, add-mul, suc-mul, mul-div-le,
}
use driver_uu_remote.Dxva.Upload.{
  Extent, Copy, each, plain_copies, stepped, luma_row, chroma_row, scaled_copies, copies,
  output_extent,
}
use driver_uu_remote.Dxva.Upload.Size.{Fits, output_extent-Fits}

-- A copy between a picture of `origin` bytes and one of `target` bytes.
unfoldable pub InRange : ℕ → ℕ → Copy → Type 0
InRange target origin c = (c.target < target) × (c.origin < origin)

All-each {ℓ κ} :
    {A : Type ℓ} (P : A → Type κ) (n : ℕ) (f : ℕ → List A)
    → ((i : ℕ) → i < n → All P (f i))
    → All P (each n f)
unfolding each
All-each P zero f h = tt
All-each P (suc n) f h =
    All-append P (each n f) (f n) (All-each P n f (λ i l. h i (omega arith))) (h n (omega arith))

-- The byte at `x` of row `y` lies in `n` rows of `m` bytes.
row-lt : (y x n m : ℕ) → y < n → x < m → y * m + x < n * m
row-lt y x n m p q = omega (arith, mul-le-mul_right m p, suc-mul y m)

-- The rows of luma and of chroma make up the picture.
rows-le : (w h : ℕ) → (h + h / 2) * w ≤ w * h * 3 / 2
rows-le w h =
    let halves : h / 2 + h / 2 ≤ h = omega arith in
    omega (
      arith,
      add-mul h (h / 2) w,
      add-mul (h / 2) (h / 2) w,
      mul-le-mul_right w halves,
      mul_comm w h,
    )

stepped-lem : (step x : ℕ) → x * step < 2 ^ 64 → stepped step x ≡ x * step
unfolding stepped
stepped-lem step zero h = omega arith
stepped-lem step (suc x) h =
    let earlier : stepped step x ≡ x * step = stepped-lem step x (omega (arith, suc-mul x step)) in
    rw earlier (omega (arith, suc-mul x step))

-- Each of the `n` steps over `width` positions stays within them.
stepped-lt :
    (width n x : ℕ)
    → 0 < width
    → width < 2 ^ 32
    → x < n
    → stepped (width * 2 ^ 32 / n) x / 2 ^ 32 < width
stepped-lt width n x pw small l =
    rw (stepped-lem step x (omega (arith, below))) ((div-lt_iff_lt-mul (omega arith)).1 below)
  where
    step : ℕ
    step = width * 2 ^ 32 / n

    below : x * step < width * 2 ^ 32
    below = elim (Bool-cases (step == 0)) [
      | inl e ↦ subst (λ n. x * n < width * 2 ^ 32) (sym (none e)) (omega arith)
      | inr e ↦ omega (
        arith,
        mul-le-mul_right step l,
        suc-mul x step,
        mul-div-le (width * 2 ^ 32) n,
        mul_comm n step,
        positive e,
      )
    ]
      where
        none : (step == 0) ≡ true → step ≡ 0
        none e = ground arith

        positive : (step == 0) ≡ false → 0 < step
        positive e = ground arith

-- Scaling `n` rows to `m` reads row `y * n / m` for row `y`.
scaled-row-lt : (y n m : ℕ) → y < m → 0 < n → y * n / m < n
scaled-row-lt y n m l p = (div-lt_iff_lt-mul (omega arith)).1 within
  where
    within : y * n < n * m
    within = omega (arith, mul-le-mul_right n l, suc-mul y n, mul_comm n m)

luma-InRange :
    (w h dw dh : ℕ) (out : Extent)
    → 0 < w
    → 0 < h
    → w < 2 ^ 32
    → Fits w h dw dh out
    → All (InRange (dw * dh * 3 / 2) (w * h * 3 / 2)) (each out.height (luma_row w h dw out))
unfolding luma_row InRange Fits
luma-InRange w h dw dh out pw ph small (a, b, c, d) =
    All-each range out.height (luma_row w h dw out)
      (λ y l. All-each range out.width _ (λ x m. ((target y x l m, origin y x l m), tt)))
  where
    range : Copy → Type 0
    range = InRange (dw * dh * 3 / 2) (w * h * 3 / 2)

    target : (y x : ℕ) → y < out.height → x < out.width → y * dw + x < dw * dh * 3 / 2
    target y x l m =
        omega (arith, row-lt y x (dh + dh / 2) dw (omega arith) (omega arith), rows-le dw dh)

    origin :
        (y x : ℕ)
        → y < out.height
        → x < out.width
        → y * h / out.height * w + stepped (w * 2 ^ 32 / out.width) x / 2 ^ 32 < w * h * 3 / 2
    origin y x l m = omega (
      arith,
      row-lt (y * h / out.height) (stepped (w * 2 ^ 32 / out.width) x / 2 ^ 32) (h + h / 2) w
          (omega (arith, scaled-row-lt y h out.height l ph)) (stepped-lt w out.width x pw small m),
      rows-le w h,
    )

chroma-InRange :
    (w h dw dh : ℕ) (out : Extent)
    → w < 2 ^ 32
    → Fits w h dw dh out
    → All
        (InRange (dw * dh * 3 / 2) (w * h * 3 / 2))
        (each (out.height / 2) (chroma_row w h dw dh out))
unfolding chroma_row InRange Fits
chroma-InRange w h dw dh out small (a, b, c, d) =
    All-each range (out.height / 2) (chroma_row w h dw dh out) (λ y l.
      All-each range (out.width / 2) _ (λ x m.
        let k : stepped (w / 2 * 2 ^ 32 / (out.width / 2)) x / 2 ^ 32 < w / 2 =
          stepped-lt (w / 2) (out.width / 2) x (omega arith) (omega arith) m in
        (
          (target y (x * 2) l (omega arith), origin y _ l (omega arith)),
          ((target y (x * 2 + 1) l (omega arith), origin y _ l (omega arith)), tt),
        )))
  where
    range : Copy → Type 0
    range = InRange (dw * dh * 3 / 2) (w * h * 3 / 2)

    target : (y x : ℕ) → y < out.height / 2 → x < dw → (dh + y) % 2 ^ 32 * dw + x < dw * dh * 3 / 2
    target y x l m = omega (
      arith,
      row-lt ((dh + y) % 2 ^ 32) x (dh + dh / 2) dw (omega (arith, mod-le (dh + y) (2 ^ 32))) m,
      rows-le dw dh,
    )

    origin :
        (y x : ℕ)
        → y < out.height / 2
        → x < w
        → w * h + y * (h / 2) / (out.height / 2) * w + x < w * h * 3 / 2
    origin y x l m = omega (
      arith,
      row-lt (y * (h / 2) / (out.height / 2)) x (h / 2) w
          (omega (arith, scaled-row-lt y (h / 2) (out.height / 2) l (omega arith))) m,
      add-mul h (h / 2) w,
      mul_comm h w,
      rows-le w h,
    )

plain-InRange :
    (w h dw dh : ℕ)
    → w ≤ dw
    → h ≤ dh
    → All (InRange (dw * dh * 3 / 2) (w * h * 3 / 2)) (plain_copies w h dw dh)
unfolding plain_copies InRange
plain-InRange w h dw dh a b =
    All-append range _ _
      (All-each range h _ (λ y l.
        All-each range w _ (λ x m.
          ((luma dw dh y x (omega arith) (omega arith), luma w h y x (omega arith) m), tt))))
      (All-each range (h / 2) _
        (λ y l. All-each range w _ (λ x m. ((target y x l (omega arith), origin y x l m), tt))))
  where
    range : Copy → Type 0
    range = InRange (dw * dh * 3 / 2) (w * h * 3 / 2)

    luma : (m n y x : ℕ) → y < n → x < m → y * m + x < m * n * 3 / 2
    luma m n y x l k = omega (arith, row-lt y x (n + n / 2) m (omega arith) k, rows-le m n)

    target : (y x : ℕ) → y < h / 2 → x < dw → (dh + y) % 2 ^ 32 * dw + x < dw * dh * 3 / 2
    target y x l m = omega (
      arith,
      row-lt ((dh + y) % 2 ^ 32) x (dh + dh / 2) dw (omega (arith, mod-le (dh + y) (2 ^ 32))) m,
      rows-le dw dh,
    )

    origin : (y x : ℕ) → y < h / 2 → x < w → w * h + y * w + x < w * h * 3 / 2
    origin y x l m =
        omega (arith, row-lt y x (h / 2) w l m, add-mul h (h / 2) w, mul_comm h w, rows-le w h)

-- The loops that make the picture for the texture read only bytes of a decoded picture of the
-- given size and write only bytes of the texture's picture, for every texture and for every
-- picture with sides that are not zero and a width of 32 bits.
pub copies-InRange :
    (w h dw dh : ℕ)
    → 0 < w
    → 0 < h
    → w < 2 ^ 32
    → All (InRange (dw * dh * 3 / 2) (w * h * 3 / 2)) (copies w h dw dh (output_extent w h dw dh))
unfolding copies scaled_copies Fits
copies-InRange w h dw dh pw ph small = elim (Bool-cases ((out.width == w) && (out.height == h))) [
  | inl e ↦ rw e (plain-InRange w h dw dh (same_width e) (same_height e))
  | inr e ↦ rw e (
      All-append (InRange (dw * dh * 3 / 2) (w * h * 3 / 2)) (each out.height (luma_row w h dw out))
        _ (luma-InRange w h dw dh out pw ph small fits) (chroma-InRange w h dw dh out small fits))
]
  where
    out : Extent
    out = output_extent w h dw dh

    fits : Fits w h dw dh out
    fits = (output_extent-Fits w h dw dh pw ph).0

    both : (m n : ℕ) → ((m == w) && (n == h)) ≡ true → m ≤ dw → n ≤ dh → (w ≤ dw) × (h ≤ dh)
    both m n e p q = (ground arith, ground arith)

    inside : Fits w h dw dh out → (out.width ≤ dw) × (out.height ≤ dh)
    inside f = (f.1, f.3)

    within : ((out.width == w) && (out.height == h)) ≡ true → (w ≤ dw) × (h ≤ dh)
    within e = both out.width out.height e (inside fits).0 (inside fits).1

    same_width : ((out.width == w) && (out.height == h)) ≡ true → w ≤ dw
    same_width e = (within e).0

    same_height : ((out.width == w) && (out.height == h)) ≡ true → h ≤ dh
    same_height e = (within e).1
