-- ===== src/H264/Nal/Laws.antt =====
-- A NAL unit that `append_nal` writes holds no start code behind its own, and a decoder that
-- drops the emulation prevention bytes (H.264, clause 7.3.1) gets the writer's bytes back.
use driver_uu_remote.Base.{
  ℕ, zero, suc, ◌+◌, ◌*◌, ◌/◌, ◌≤◌, ◌<◌, ◌≡◌, refl, sym, ap, ◌∙◌, inl, inr, Option, none, some,
  false, ◌&&◌, List, [], ◌∷◌, ◌++◌, append_assoc, append-nil, take, drop, drop-append, subst,
  length, length-append, length-take, leb, ◌==◌, Bool-cases, if◌then◌else◌, arith,
}
use driver_uu_remote.H264.Writer.{BitWriter}
use driver_uu_remote.H264.Nal.{nal_loop, append_nal}

-- The bytes that the loop adds, `zeros` zero bytes having gone before.
unfoldable pub escape : ℕ → List ℕ → List ℕ
escape _ [] = []
escape zeros (value ∷ rest) =
    let escaped = leb 2 zeros && leb value 3 in
    let more = escape (if value == 0 then (if escaped then 0 else zeros) + 1 else 0) rest in
    if escaped then 3 ∷ value ∷ more else value ∷ more

nal_loop-escape :
    (xs : List ℕ) (zeros : ℕ) (output : List ℕ)
    → nal_loop xs zeros output ≡ output ++ escape zeros xs
unfolding nal_loop escape
nal_loop-escape [] _ output = sym (append-nil output)
nal_loop-escape (value ∷ rest) zeros output = elim (Bool-cases (leb 2 zeros && leb value 3)) [
  | inl e ↦ rw (
    e,
    nal_loop-escape rest (if value == 0 then 0 + 1 else 0) ((output ++ (3 ∷ [])) ++ (value ∷ [])),
    append_assoc,
    append_assoc,
  )
  | inr e ↦ rw (
    e,
    nal_loop-escape rest (if value == 0 then zeros + 1 else 0) (output ++ (value ∷ [])),
    append_assoc,
  )
]

-- Three bytes for two at most.
length-escape :
    (zeros : ℕ) (xs : List ℕ) → zeros ≤ 2 → 2 * length (escape zeros xs) ≤ 3 * length xs + zeros
unfolding escape
length-escape _ [] h = omega arith
length-escape zeros (value ∷ rest) h = ground (
  arith,
  length-escape (if value == 0 then (if leb 2 zeros && leb value 3 then 0 else zeros) + 1 else 0)
      rest,
)

-- The decoder's side: a 3 behind two zero bytes is dropped.
unfoldable pub unescape : ℕ → List ℕ → List ℕ
unescape _ [] = []
unescape zeros (b ∷ bs) =
    let dropped = leb 2 zeros && (b == 3) in
    let more = unescape (if dropped then 0 else if b == 0 then zeros + 1 else 0) bs in
    if dropped then more else b ∷ more

unescape-escape : (zeros : ℕ) (xs : List ℕ) → unescape zeros (escape zeros xs) ≡ xs
unfolding escape unescape
unescape-escape _ [] = refl
unescape-escape zeros (value ∷ rest) = ground (
  arith,
  unescape-escape (if value == 0 then (if leb 2 zeros && leb value 3 then 0 else zeros) + 1 else 0)
      rest,
)

-- No byte up to 2 behind two zero bytes.
unfoldable pub NoStart : ℕ → List ℕ → Type 0
NoStart _ [] = Unit {0}
NoStart zeros (b ∷ bs) = (2 ≤ zeros → 3 ≤ b) × NoStart (if b == 0 then zeros + 1 else 0) bs

NoStart-escape : (zeros : ℕ) (xs : List ℕ) → NoStart zeros (escape zeros xs)
unfolding escape NoStart
NoStart-escape _ [] = tt
NoStart-escape zeros (value ∷ rest) = elim (Bool-cases (leb 2 zeros && leb value 3)) [
  | inl e ↦
      rw e (
        λ h. omega arith,
        (λ h. omega arith, NoStart-escape (if value == 0 then 0 + 1 else 0) rest),
      )
  | inr e ↦ rw e (λ h. ground arith, NoStart-escape (if value == 0 then zeros + 1 else 0) rest)
]

NoStart-inner :
    (zeros : ℕ) (front : List ℕ) (b : ℕ) (back : List ℕ)
    → NoStart zeros (front ++ (0 ∷ 0 ∷ b ∷ back))
    → 3 ≤ b
unfolding NoStart
NoStart-inner _ [] b back h = h.1.1.0 (omega arith)
NoStart-inner zeros (x ∷ front) b back h =
    NoStart-inner (if x == 0 then zeros + 1 else 0) front b back (h.1)

-- The bytes of the writer that go into the unit.
abbrev pub payload : BitWriter → List ℕ
payload w = take ((w.bits + 7) / 8) w.bytes

append_nal-escape :
    (output : List ℕ) (header : ℕ) (w : BitWriter)
    → append_nal output header w ≡ output ++ (0 ∷ 0 ∷ 0 ∷ 1 ∷ header ∷ escape 0 (payload w))
unfolding append_nal
append_nal-escape output header w = rw (nal_loop-escape, append_assoc)

-- A decoder of one unit: the start code, the header, and the bytes behind it.
unfoldable pub read_nal : List ℕ → Option (ℕ × List ℕ)
unfolding unescape
read_nal (zero ∷ zero ∷ zero ∷ suc zero ∷ header ∷ bs) = some (header, unescape 0 bs)
read_nal _ = none

-- What `append_nal` adds to the output is a unit from which the decoder reads the header and the
-- bytes of the writer.
pub read_nal-append_nal :
    (output : List ℕ) (header : ℕ) (w : BitWriter)
    → (unit : List ℕ) × (append_nal output header w ≡ output ++ unit)
      × (read_nal unit ≡ some (header, payload w))
unfolding read_nal
read_nal-append_nal output header w = (
  0 ∷ 0 ∷ 0 ∷ 1 ∷ header ∷ escape 0 (payload w),
  append_nal-escape output header w,
  ap (λ xs. some (header, xs)) (unescape-escape 0 (payload w)),
)

-- Behind the start code of a unit no three bytes 0, 0, b with b at most 2 follow one another, if
-- the header is not zero.
pub append_nal-NoStart :
    (output : List ℕ) (header : ℕ) (w : BitWriter) (front : List ℕ) (b : ℕ) (back : List ℕ)
    → 0 < header
    → append_nal output header w ≡ output ++ (0 ∷ 0 ∷ 0 ∷ 1 ∷ (front ++ (0 ∷ 0 ∷ b ∷ back)))
    → 3 ≤ b
unfolding NoStart
append_nal-NoStart output header w front b back nz e =
    NoStart-inner 0 front b back (subst (NoStart 0) inner all)
  where
    all : NoStart 0 (header ∷ escape 0 (payload w))
    all = (
      λ h. absurd (omega arith),
      let z : (header == 0) ≡ false = ground arith in rw z (NoStart-escape 0 (payload w)),
    )

    inner : header ∷ escape 0 (payload w) ≡ front ++ (0 ∷ 0 ∷ b ∷ back)
    inner = ap (drop 4) (
        sym (drop-append output _)
        ∙ ap (drop (length output)) (sym (append_nal-escape output header w) ∙ e)
        ∙ drop-append output _)

-- A unit takes five bytes more than one and a half times the writer's.
pub length-append_nal :
    (output : List ℕ) (header : ℕ) (w : BitWriter)
    → 2 * length (append_nal output header w) ≤ 2 * length output + 10 + 3 * ((w.bits + 7) / 8)
length-append_nal output header w =
    rw (append_nal-escape, length-append)
      (omega
        (arith, length-escape 0 (payload w) (omega arith), length-take ((w.bits + 7) / 8) w.bytes))
