-- ===== src/H264/Writer/Laws.antt =====
-- What the bit writer of src/dxva_bridge.c has written, as a list of bits.
use driver_uu_remote.Base.{
  ℕ, zero, suc, ◌+◌, ◌-◌, ◌*◌, ◌/◌, ◌%◌, ◌^◌, ◌≤◌, ◌<◌, ◌≡◌, ◌≢◌, refl, sym, ap, ap₂, ◌∙◌, inl, inr,
  List, [], ◌∷◌, ◌++◌, append_assoc, append-nil, length, set, get_or, All, length-set,
  length-append, get_or-set_self, get_or-set_ne, All-set, ◌==◌, Bool-cases, if◌then◌else◌, false,
  ==_iff, arith, bit_or,
}
use driver_uu_remote.H264.Writer.{BitWriter, buffer_size, cleared, bw_bit, bw_bits}
use driver_uu_remote.H264.Writer.Bytes.{or_bit, or_above}

abbrev pub IsByte : ℕ → Type 0
IsByte b = b < 256

-- The bits of a buffer, most significant first within a byte.
abbrev pub bit_at : List ℕ → ℕ → ℕ
bit_at bytes i = get_or bytes (i / 8) 0 / 2 ^ (7 - i % 8) % 2

unfoldable pub bits_of : List ℕ → ℕ → List ℕ
bits_of bytes zero = []
bits_of bytes (suc n) = bits_of bytes n ++ (bit_at bytes n ∷ [])

abbrev pub written : BitWriter → List ℕ
written w = bits_of w.bytes w.bits

-- The buffer holds 256 bytes, and what lies behind the last bit in its byte is clear.
pub record IsWriter (w : BitWriter) : Type 0 where
  pub size : length w.bytes ≡ buffer_size
  pub fits : w.bits ≤ 2048
  pub are_bytes : All IsByte w.bytes
  pub clean : w.bits % 8 ≢ 0 → get_or w.bytes (w.bits / 8) 0 % 2 ^ (8 - w.bits % 8) ≡ 0

get_or-lt : (xs : List ℕ) (i : ℕ) → All IsByte xs → get_or xs i 0 < 256
get_or-lt [] i h = omega arith
get_or-lt (x ∷ xs) zero h = h.0
get_or-lt (x ∷ xs) (suc i) h = get_or-lt xs i h.1

bits_of-ext :
    (a b : List ℕ) (n : ℕ) → ((i : ℕ) → i < n → bit_at a i ≡ bit_at b i) → bits_of a n ≡ bits_of b n
unfolding bits_of
bits_of-ext a b zero h = refl
bits_of-ext a b (suc n) h =
    ap₂ (λ xs x. xs ++ (x ∷ [])) (bits_of-ext a b n (λ i k. h i (omega arith))) (h n (omega arith))

-- One write, over the parts of the writer.
module _ (bytes : List ℕ) (n value : ℕ) (size : length bytes ≡ buffer_size) (room : n < 2048)
    (are_bytes : All IsByte bytes)
    (clean : n % 8 ≢ 0 → get_or bytes (n / 8) 0 % 2 ^ (8 - n % 8) ≡ 0) where
  abbrev start : List ℕ
  start = if n % 8 == 0 then set bytes (n / 8) 0 else bytes

  abbrev place : ℕ
  place = 7 - n % 8

  abbrev old : ℕ
  old = get_or start (n / 8) 0

  abbrev new : ℕ
  new = bit_or old (value % 2 * 2 ^ place)

  abbrev out : List ℕ
  out = set start (n / 8) new

  length-start : length start ≡ buffer_size
  length-start = elim (Bool-cases (n % 8 == 0)) [
    | inl e ↦ rw e (length-set bytes (n / 8) 0 ∙ size)
    | inr e ↦ rw e size
  ]

  start-IsByte : All IsByte start
  start-IsByte = elim (Bool-cases (n % 8 == 0)) [
    | inl e ↦ rw e (All-set IsByte bytes (n / 8) 0 are_bytes (omega arith))
    | inr e ↦ rw e are_bytes
  ]

  old-clean : old % 2 ^ (place + 1) ≡ 0
  old-clean = elim (Bool-cases (n % 8 == 0)) [
    | inl e ↦ rw (e, get_or-set_self bytes (n / 8) 0 0 (omega arith)) (omega arith)
    | inr e ↦ rw e (let k : place + 1 ≡ 8 - n % 8 = omega arith in rw k (clean (λ z. ground arith)))
  ]

  old-lt : old < 256
  old-lt = get_or-lt start (n / 8) start-IsByte

  get-out : get_or out (n / 8) 0 ≡ new
  get-out = get_or-set_self start (n / 8) new 0 (omega (arith, length-start))

  get-out_ne : (k : ℕ) → n / 8 ≢ k → get_or out k 0 ≡ get_or bytes k 0
  get-out_ne k ne = get_or-set_ne start (n / 8) k new 0 ne ∙ same
    where
      same : get_or start k 0 ≡ get_or bytes k 0
      same = elim (Bool-cases (n % 8 == 0)) [
        | inl e ↦ rw e (get_or-set_ne bytes (n / 8) k 0 0 ne)
        | inr e ↦ rw e
      ]

  new_bit : (new / 2 ^ place % 2 ≡ value % 2) × (new < 256) × (new % 2 ^ place ≡ 0)
  new_bit = or_bit old place (value % 2) old-lt (omega arith) (omega arith) old-clean

  bit_at-out : bit_at out n ≡ value % 2
  bit_at-out = rw get-out (new_bit.0)

  bit_at-out_ne : (i : ℕ) → i < n → bit_at out i ≡ bit_at bytes i
  bit_at-out_ne i h = elim (Bool-cases (n / 8 == i / 8)) [
    | inl e ↦
        let same : n / 8 ≡ i / 8 = (==_iff _ _).0 e in
        let nz : (n % 8 == 0) ≡ false = ground arith in
        let kept =
          or_above old place (value % 2) old-lt (omega arith) (omega arith) old-clean (7 - i % 8)
            (omega arith) (omega arith) in
        rw (← same, get-out) (kept ∙ rw nz)
    | inr e ↦ rw (get-out_ne (i / 8) (λ z. ground arith))
  ]

  out-clean : suc n % 8 ≢ 0 → get_or out (suc n / 8) 0 % 2 ^ (8 - suc n % 8) ≡ 0
  out-clean nz =
      let same : suc n / 8 ≡ n / 8 = omega arith in
      let exponent : 8 - suc n % 8 ≡ place = omega arith in rw (same, exponent, get-out) (new_bit.2)

  out-IsByte : All IsByte out
  out-IsByte = All-set IsByte start (n / 8) new start-IsByte (new_bit.1)

  length-out : length out ≡ buffer_size
  length-out = length-set start (n / 8) new ∙ length-start

  bits_of-out : bits_of out (suc n) ≡ bits_of bytes n ++ (value % 2 ∷ [])
  unfolding bits_of
  bits_of-out = ap₂ (λ xs x. xs ++ (x ∷ [])) (bits_of-ext out bytes n bit_at-out_ne) bit_at-out

-- What an operation with the bits `out` does to a writer that has room for them.
pub record Wrote (w : BitWriter) (out : List ℕ) (w' : BitWriter) : Type 0 where
  pub valid : IsWriter w'
  pub count : w'.bits ≡ w.bits + length out
  pub content : written w' ≡ written w ++ out

pub bw_bit-Wrote :
    (w : BitWriter) (value : ℕ)
    → IsWriter w
    → w.bits < 2048
    → Wrote w (value % 2 ∷ []) (bw_bit w value)
unfolding bw_bit
bw_bit-Wrote w value v room =
    let next : (w.bits + 1) % 2 ^ 32 ≡ suc w.bits = omega arith in
    rw next (record {
      valid = record {
        size = length-out w.bytes w.bits value v.size room v.are_bytes v.clean;
        fits = omega arith;
        are_bytes = out-IsByte w.bytes w.bits value v.size room v.are_bytes v.clean;
        clean = out-clean w.bytes w.bits value v.size room v.are_bytes v.clean;
      };
      count = omega arith;
      content = bits_of-out w.bytes w.bits value v.size room v.are_bytes v.clean;
    })

pub Wrote-trans :
    {w : BitWriter} {xs : List ℕ} {w' : BitWriter} {ys : List ℕ} {w'' : BitWriter}
    → Wrote w xs w'
    → Wrote w' ys w''
    → Wrote w (xs ++ ys) w''
Wrote-trans {w} {xs} {w'} {ys} p q = record {
  valid = q.valid;
  count = omega (arith, p.count, q.count, length-append xs ys);
  content = q.content ∙ ap (λ zs. zs ++ ys) p.content ∙ append_assoc (written w) xs ys;
}

pub Wrote-none : {w : BitWriter} → IsWriter w → Wrote w [] w
Wrote-none v = record { valid = v; count = omega arith; content = sym (append-nil _) }

-- The `count` low bits of a value, most significant first.
unfoldable pub to_bits : ℕ → ℕ → List ℕ
to_bits value zero = []
to_bits value (suc count) = (value / 2 ^ count % 2) ∷ to_bits value count

pub length-to_bits : (value count : ℕ) → length (to_bits value count) ≡ count
unfolding to_bits
length-to_bits value zero = refl
length-to_bits value (suc count) = ap suc (length-to_bits value count)

-- Where the buffer has room for them, `bw_bits` appends the low `count` bits of the value, the
-- highest first, and leaves the bits written before as they were.
pub bw_bits-Wrote :
    (w : BitWriter) (value count : ℕ)
    → IsWriter w
    → w.bits + count ≤ 2048
    → Wrote w (to_bits value count) (bw_bits w value count)
unfolding bw_bits to_bits
bw_bits-Wrote w value zero v room = Wrote-none v
bw_bits-Wrote w value (suc count) v room =
    let first = bw_bit-Wrote w (value / 2 ^ count) v (omega arith) in
    Wrote-trans first (
      bw_bits-Wrote (bw_bit w (value / 2 ^ count)) value count first.valid
        (omega (arith, first.count)))

pub cleared-IsWriter : IsWriter cleared
cleared-IsWriter = record {
  size = refl;
  fits = omega arith;
  are_bytes = omega arith;
  clean = λ h. refl;
}
