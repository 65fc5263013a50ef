-- ===== src/H264/Golomb.antt =====
-- `bw_ue` and `bw_se` of src/dxva_bridge.c write Exp-Golomb codes: a reader that follows the
-- H.264 standard (clauses 9.1 and 9.1.1) gets the values back.
use driver_uu_remote.Base.{
  ℕ, zero, suc, ◌+◌, ◌-◌, ◌*◌, ◌/◌, ◌%◌, ◌^◌, ◌≤◌, ◌<◌, ◌≡◌, refl, ap, inl, inr, Option, none, some,
  List, [], ◌∷◌, ◌++◌, append_assoc, length, length-append, ltb, ◌==◌, ==_iff, Bool-cases, false,
  if◌then◌else◌, arith,
}
use driver_uu_remote.Base.Int.{ℤ, pos, negsuc}
use driver_uu_remote.H264.Writer.{BitWriter, scan_bits, bw_bits, bw_ue, se_code}
use driver_uu_remote.H264.Writer.Laws.{
  IsWriter, written, Wrote, Wrote-none, Wrote-trans, to_bits, length-to_bits, bw_bits-Wrote,
}
use mathlib.Core.Option
use native.Mathlib.Nat.{pow-suc, pow-le-pow_right, div-div-eq-div-mul, div-eq_of_lt-le}

-- The bits that `bw_ue` writes for a value.
unfoldable pub ue_bits : ℕ → List ℕ
ue_bits value =
    let code = (value + 1) % 2 ^ 32 in
    let bits = scan_bits 32 code 0 in to_bits 0 (bits - 1) ++ to_bits code bits

pub scan_bits_lem :
    (fuel scan bits : ℕ)
    → scan < 2 ^ fuel
    → (n : ℕ) × (scan_bits fuel scan bits ≡ bits + n)
      × (scan < 2 ^ n)
      × (0 < scan → 2 ^ n ≤ 2 * scan)
      × (scan ≡ 0 → n ≡ 0)
unfolding scan_bits
scan_bits_lem zero scan bits h = (0, omega arith, h, λ k. absurd (omega arith), λ k. refl)
scan_bits_lem (suc fuel) scan bits h = elim (Bool-cases (scan == 0)) [
  | inl e ↦
      let z : scan ≡ 0 = (==_iff _ _).0 e in
      (0, rw e (omega arith), omega arith, λ k. absurd (omega arith), λ k. refl)
  | inr e ↦
      let nz : 0 < scan = ground arith in
      let (n, r, lo, hi, z) =
        scan_bits_lem fuel (scan / 2) (bits + 1) (omega (arith, pow-suc 2 fuel)) in
      (
        suc n,
        rw e (omega (arith, r)),
        omega (arith, lo, pow-suc 2 n),
        λ k. elim (Bool-cases (scan / 2 == 0)) [
          | inl f ↦ let q : scan / 2 ≡ 0 = (==_iff _ _).0 f in rw (z q) (omega arith)
          | inr f ↦ let q : 0 < scan / 2 = ground arith in omega (arith, hi q, pow-suc 2 n)
        ],
        λ k. absurd (omega arith),
      )
]

-- The number of bits of a code, and what it bounds.
pub code_length :
    (code : ℕ)
    → 0 < code
    → code < 2 ^ 32
    → (m : ℕ) × (scan_bits 32 code 0 ≡ suc m) × (2 ^ m ≤ code) × (code < 2 ^ suc m)
code_length code nz h = split (scan_bits_lem 32 code 0 h)
  where
    split :
        (n : ℕ) × (scan_bits 32 code 0 ≡ 0 + n)
          × (code < 2 ^ n)
          × (0 < code → 2 ^ n ≤ 2 * code)
          × (code ≡ 0 → n ≡ 0)
        → (m : ℕ) × (scan_bits 32 code 0 ≡ suc m) × (2 ^ m ≤ code) × (code < 2 ^ suc m)
    split (zero, r, lo, hi, z) = absurd (omega arith)
    split (suc m, r, lo, hi, z) = (m, omega (arith, r), omega (arith, hi nz, pow-suc 2 m), lo)

pred-zero : (n : ℕ) → ltb 1 n ≡ false → n - 1 ≡ 0
pred-zero n e = ground arith

-- `bw_ue` writes the bits of the code, zeros first, if the buffer has room for them.
pub bw_ue-Wrote :
    (w : BitWriter) (value : ℕ)
    → IsWriter w
    → w.bits + length (ue_bits value) ≤ 2048
    → Wrote w (ue_bits value) (bw_ue w value)
unfolding bw_ue ue_bits
bw_ue-Wrote w value v room = Wrote-trans pad (bw_bits-Wrote _ code bits pad.valid fits)
  where
    code : ℕ
    code = (value + 1) % 2 ^ 32

    bits : ℕ
    bits = scan_bits 32 code 0

    total : length (to_bits 0 (bits - 1) ++ to_bits code bits) ≡ (bits - 1) + bits
    total = omega (
      arith,
      length-append (to_bits 0 (bits - 1)) (to_bits code bits),
      length-to_bits 0 (bits - 1),
      length-to_bits code bits,
    )

    pad : Wrote w (to_bits 0 (bits - 1)) (if ltb 1 bits then bw_bits w 0 (bits - 1) else w)
    pad = elim (Bool-cases (ltb 1 bits)) [
      | inl e ↦ rw e (bw_bits-Wrote w 0 (bits - 1) v (omega (arith, total)))
      | inr e ↦
          let z : bits - 1 ≡ 0 = pred-zero bits e in rw (e, z) (unfold to_bits in Wrote-none v)
    ]

    fits : (if ltb 1 bits then bw_bits w 0 (bits - 1) else w).bits + bits ≤ 2048
    fits = omega (arith, pad.count, total, length-to_bits 0 (bits - 1))

-- The reader: zeros up to the first one bit, then as many bits as there were zeros.
unfoldable pub read_zeros : List ℕ → Option (ℕ × List ℕ)
read_zeros [] = none
read_zeros (b ∷ bs) =
    let more = read_zeros bs in
    if b == 0 then Option.map (λ (z, rest). (suc z, rest)) more else some (0, bs)

unfoldable pub read_bits : ℕ → ℕ → List ℕ → Option (ℕ × List ℕ)
read_bits zero acc bs = some (acc, bs)
read_bits (suc n) acc [] = none
read_bits (suc n) acc (b ∷ bs) = read_bits n (acc * 2 + b) bs

-- With `z` zeros and the bits `x` the value is `2 ^ z - 1 + x`.
unfoldable pub read_ue : List ℕ → Option (ℕ × List ℕ)
unfolding read_zeros read_bits
read_ue bs = elim (read_zeros bs) [
  | none ↦ none
  | some (z, rest) ↦ Option.map (λ (x, left). (x - 1, left)) (read_bits z 1 rest)
]

div_pow-suc : (c m : ℕ) → c / 2 ^ suc m ≡ c / 2 ^ m / 2
div_pow-suc c m = rw (div-div-eq-div-mul, pow-suc)

read_bits-to_bits :
    (m c : ℕ) (rest : List ℕ) → read_bits m (c / 2 ^ m) (to_bits c m ++ rest) ≡ some (c, rest)
unfolding read_bits to_bits
read_bits-to_bits zero c rest = ap (λ x. some (x, rest)) (omega arith)
read_bits-to_bits (suc m) c rest =
    let shift : c / 2 ^ suc m * 2 + c / 2 ^ m % 2 ≡ c / 2 ^ m = omega (arith, div_pow-suc c m) in
    rw shift (read_bits-to_bits m c rest)

zero-div : (m : ℕ) → 0 / m % 2 ≡ 0
zero-div m = grind arith

read_zeros-to_bits :
    (m : ℕ) (rest : List ℕ) → read_zeros (to_bits 0 m ++ (1 ∷ rest)) ≡ some (m, rest)
unfolding read_zeros to_bits
read_zeros-to_bits zero rest = refl
read_zeros-to_bits (suc m) rest = rw (zero-div, read_zeros-to_bits m rest)

read_code :
    (m code : ℕ) (rest : List ℕ)
    → 2 ^ m ≤ code
    → code < 2 ^ suc m
    → read_ue ((to_bits 0 m ++ to_bits code (suc m)) ++ rest) ≡ some (code - 1, rest)
unfolding read_ue to_bits
read_code m code rest lo hi =
    let top : code / 2 ^ m ≡ 1 =
      div-eq_of_lt-le (2 ^ m) (omega arith) (omega (arith, pow-suc 2 m)) in
    let tail : read_bits m 1 (to_bits code m ++ rest) ≡ some (code, rest) =
      rw top at (read_bits-to_bits m code rest) in
    let bit : code / 2 ^ m % 2 ≡ 1 = omega arith in
    rw (append_assoc, bit, read_zeros-to_bits, tail, read_ue)

-- The code of every `UINT` but the largest reads back.
pub read_ue-ue_bits :
    (value : ℕ) (rest : List ℕ)
    → value < 2 ^ 32 - 1
    → read_ue (ue_bits value ++ rest) ≡ some (value, rest)
unfolding ue_bits
read_ue-ue_bits value rest h =
    let code : (value + 1) % 2 ^ 32 ≡ value + 1 = omega arith in
    let (m, bits, lo, hi) = code_length (value + 1) (omega arith) (omega arith) in
    let one : suc m - 1 ≡ m = omega arith in
    let back : value + 1 - 1 ≡ value = omega arith in
    rw (code, bits, one, read_code m (value + 1) rest lo hi, back)

exponent-small : (m code : ℕ) → 2 ^ m ≤ code → code < 2 ^ 32 → m ≤ 31
exponent-small m code lo h = elim (Bool-cases (ltb m 32)) [
  | inl e ↦ ground arith
  | inr e ↦
      let large : 32 ≤ m = ground arith in
      let top : 2 ^ 32 ≤ 2 ^ m = pow-le-pow_right {n = 2} (omega arith) {i = 32} {j = m} large in
      absurd (omega (arith, top))
]

ue_bits-fits : (value : ℕ) → value < 2 ^ 32 - 1 → length (ue_bits value) ≤ 63
unfolding ue_bits
ue_bits-fits value h =
    let code : (value + 1) % 2 ^ 32 ≡ value + 1 = omega arith in
    let (m, count, lo, hi) = code_length (value + 1) (omega arith) (omega arith) in
    let bound = exponent-small m (value + 1) lo (omega arith) in
    rw (code, count, length-append, length-to_bits, length-to_bits) (omega (arith, bound))

-- What `bw_ue` puts behind the bits written before reads back as its value and leaves what
-- follows, for every `UINT` but the largest, where the buffer has room for 63 bits.
pub read_ue-bw_ue :
    (w : BitWriter) (value : ℕ)
    → IsWriter w
    → w.bits + 63 ≤ 2048
    → value < 2 ^ 32 - 1
    → (code : List ℕ) × (written (bw_ue w value) ≡ written w ++ code)
      × ((rest : List ℕ) → read_ue (code ++ rest) ≡ some (value, rest))
read_ue-bw_ue w value v room h = (
  ue_bits value,
  (bw_ue-Wrote w value v (omega (arith, ue_bits-fits value h))).content,
  λ rest. read_ue-ue_bits value rest h,
)

-- The value of a signed Exp-Golomb code (clause 9.1.1).
unfoldable pub se_value : ℕ → ℤ
se_value zero = pos 0
se_value (suc k) = if k % 2 == 0 then pos (k / 2 + 1) else negsuc (k / 2)

unfoldable pub read_se : List ℕ → Option (ℤ × List ℕ)
unfolding se_value
read_se bs = elim (read_ue bs) [ none ↦ none | some (code, rest) ↦ some (se_value code, rest) ]

-- For a C `int` above the least two, the mapping of `bw_se` is the standard's.
abbrev pub IsSigned : ℤ → Type 0
IsSigned (pos n) = n < 2 ^ 31
IsSigned (negsuc n) = n < 2 ^ 31 - 1

se_value-se_code : (value : ℤ) → IsSigned value → se_value (se_code value) ≡ value
unfolding se_value se_code
se_value-se_code (pos zero) h = refl
se_value-se_code (pos (suc n)) h =
    let e : (suc n * 2 - 1) % 2 ^ 32 ≡ suc (n * 2) = omega arith in rw e (ground arith)
se_value-se_code (negsuc n) h =
    let e : (suc n * 2) % 2 ^ 32 ≡ suc (n * 2 + 1) = omega arith in rw e (ground arith)

se_code-lt : (value : ℤ) → IsSigned value → se_code value < 2 ^ 32 - 1
unfolding se_code
se_code-lt (pos zero) h = omega arith
se_code-lt (pos (suc n)) h = omega arith
se_code-lt (negsuc n) h = omega arith

-- The code that `bw_se` chooses for a signed value reads back as this value, within the range of
-- IsSigned.
pub read_se-se_bits :
    (value : ℤ) (rest : List ℕ)
    → IsSigned value
    → read_se (ue_bits (se_code value) ++ rest) ≡ some (value, rest)
unfolding read_se
read_se-se_bits value rest h =
    rw
      (read_ue-ue_bits (se_code value) rest (se_code-lt value h), read_se, se_value-se_code value h)
