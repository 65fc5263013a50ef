-- ===== src/H264/Params/Laws.antt =====
-- What the parameter sets of src/dxva_bridge.c hold, and that they fit their buffers.
use driver_uu_remote.Base.{
  ℕ, zero, suc, ◌+◌, ◌-◌, ◌*◌, ◌%◌, ◌^◌, ◌≤◌, ◌<◌, ◌≡◌, inl, inr, List, [], ◌∷◌, ◌++◌, length,
  length-append, replicate, length-replicate, subst, ltb, ◌==◌, Bool-cases, arith, ltb→lt,
}
use driver_uu_remote.Base.Int.{ℤ, pos, negsuc}
use driver_uu_remote.H264.Writer.{BitWriter, bw_bit, se_code, bw_se, pad_bits, bw_trailing}
use driver_uu_remote.H264.Writer.Laws.{
  IsWriter, Wrote, Wrote-none, Wrote-trans, to_bits, length-to_bits, bw_bit-Wrote, bw_bits-Wrote,
}
use driver_uu_remote.H264.Golomb.{ue_bits, bw_ue-Wrote, code_length}
use driver_uu_remote.H264.Params.{PicParams, Call, bit, bits, ue, se, write_call, write_calls}
use native.Mathlib.Nat.{pow-suc, one-le-pow, pow-le-pow_right}

unfoldable pub call_bits : Call → List ℕ
call_bits (bit value) = value % 2 ∷ []
call_bits (bits value count) = to_bits value count
call_bits (ue value) = ue_bits value
call_bits (se value) = ue_bits (se_code value)

-- The bits of a sequence of calls.
unfoldable pub calls_bits : List Call → List ℕ
calls_bits [] = []
calls_bits (c ∷ calls) = call_bits c ++ calls_bits calls

write_call-Wrote :
    (w : BitWriter) (c : Call)
    → IsWriter w
    → w.bits + length (call_bits c) ≤ 2048
    → Wrote w (call_bits c) (write_call w c)
unfolding write_call call_bits
write_call-Wrote w (bit value) v room = bw_bit-Wrote w value v (omega arith)
write_call-Wrote w (bits value count) v room =
    bw_bits-Wrote w value count v (omega (arith, length-to_bits value count))
write_call-Wrote w (ue value) v room = bw_ue-Wrote w value v room
write_call-Wrote w (se value) v room = unfold bw_se in bw_ue-Wrote w (se_code value) v room

-- A sequence of calls writes their bits one after the other.
pub write_calls-Wrote :
    (calls : List Call) (w : BitWriter)
    → IsWriter w
    → w.bits + length (calls_bits calls) ≤ 2048
    → Wrote w (calls_bits calls) (write_calls w calls)
unfolding write_calls calls_bits
write_calls-Wrote [] w v room = Wrote-none v
write_calls-Wrote (c ∷ calls) w v room =
    let first =
      write_call-Wrote w c v (omega (arith, length-append (call_bits c) (calls_bits calls))) in
    Wrote-trans first (
      write_calls-Wrote calls (write_call w c) first.valid
        (omega (arith, first.count, length-append (call_bits c) (calls_bits calls))))

-- The bits that are left of the last byte.
abbrev pub padding : ℕ → ℕ
padding n = (8 - n % 8) % 8

pad_bits-Wrote :
    (fuel : ℕ) (w : BitWriter)
    → IsWriter w
    → padding w.bits < fuel
    → Wrote w (replicate (padding w.bits) 0) (pad_bits fuel w)
unfolding pad_bits
pad_bits-Wrote zero w v h = absurd (omega arith)
pad_bits-Wrote (suc fuel) w v h = elim (Bool-cases (w.bits % 8 == 0)) [
  | inl e ↦ let z : padding w.bits ≡ 0 = ground arith in rw (e, z) (Wrote-none v)
  | inr e ↦
      let nz : 0 < w.bits % 8 = ground arith in
      let first = bw_bit-Wrote w 0 v (omega (arith, v.fits)) in
      let next : padding w.bits ≡ suc (padding (bw_bit w 0).bits) = omega (arith, first.count) in
      rw (e, next) (Wrote-trans first (pad_bits-Wrote fuel (bw_bit w 0) first.valid (omega arith)))
]

-- The stop bit and zeros up to the end of the byte.
pub trailing_bits : ℕ → List ℕ
trailing_bits n = 1 ∷ replicate (padding (n + 1)) 0

pub bw_trailing-Wrote :
    (w : BitWriter)
    → IsWriter w
    → w.bits < 2048
    → Wrote w (trailing_bits w.bits) (bw_trailing w)
      × ((bw_trailing w).bits % 8 ≡ 0)
      × ((bw_trailing w).bits ≤ w.bits + 8)
unfolding bw_trailing trailing_bits
bw_trailing-Wrote w v room =
    let first = bw_bit-Wrote w 1 v room in
    let rest = pad_bits-Wrote 8 (bw_bit w 1) first.valid (omega arith) in
    let n : (bw_bit w 1).bits ≡ w.bits + 1 = first.count in
    let all = Wrote-trans first rest in
    let zeros = length-replicate {A = ℕ} (padding (bw_bit w 1).bits) 0 in
    (
      subst (λ k. Wrote w (1 ∷ replicate (padding k) 0) (pad_bits 8 (bw_bit w 1))) n all,
      omega (arith, rest.count, zeros),
      omega (arith, rest.count, zeros),
    )

exponent_le : (m k : ℕ) → 2 ^ m ≤ 2 ^ k → m ≤ k
exponent_le m k h = elim (Bool-cases (ltb k m)) [
  | inl e ↦
      let up : 2 ^ suc k ≤ 2 ^ m = pow-le-pow_right (omega arith) (ltb→lt k m e) in
      let half : 1 ≤ 2 ^ k = one-le-pow k 2 (omega arith) in absurd (omega (arith, pow-suc 2 k))
  | inr e ↦ ground arith
]

-- A `CHAR`.
abbrev pub IsChar : ℤ → Type 0
IsChar (pos n) = n < 128
IsChar (negsuc n) = n < 128

se_code-small : (value : ℤ) → IsChar value → se_code value + 1 ≤ 2 ^ 9
unfolding se_code
se_code-small (pos zero) h = omega arith
se_code-small (pos (suc n)) h = omega arith
se_code-small (negsuc n) h = omega arith

-- The ranges of the fields, from their types in dxva.h: `USHORT` sizes, `UCHAR` and `CHAR`
-- numbers, and two bits for the chroma format.
pub record IsPic (pic : PicParams) : Type 0 where
  pub chroma : pic.chroma_format_idc < 4
  pub depth_luma : pic.bit_depth_luma_minus8 < 256
  pub depth_chroma : pic.bit_depth_chroma_minus8 < 256
  pub frame_num : pic.log2_max_frame_num_minus4 < 256
  pub order : pic.pic_order_cnt_type < 256
  pub order_lsb : pic.log2_max_pic_order_cnt_lsb_minus4 < 256
  pub refs : pic.num_ref_frames < 256
  pub width : pic.frame_width_in_mbs_minus1 < 65536
  pub height : pic.frame_height_in_mbs_minus1 < 65536
  pub groups : pic.num_slice_groups_minus1 < 256
  pub l0 : pic.num_ref_idx_l0_active_minus1 < 256
  pub l1 : pic.num_ref_idx_l1_active_minus1 < 256
  pub qp : IsChar pic.pic_init_qp_minus26
  pub qs : IsChar pic.pic_init_qs_minus26
  pub chroma_qp : IsChar pic.chroma_qp_index_offset
  pub second_chroma_qp : IsChar pic.second_chroma_qp_index_offset

-- An Exp-Golomb code below `2 ^ k` takes at most `2 k + 1` bits.
pub length-ue_bits : (k value : ℕ) → value + 1 ≤ 2 ^ k → k < 32 → length (ue_bits value) ≤ 2 * k + 1
unfolding ue_bits
length-ue_bits k value h small =
    let top : 2 ^ k ≤ 2 ^ 31 =
      pow-le-pow_right {n = 2} (omega arith) {i = k} {j = 31} (omega arith) in
    let code : (value + 1) % 2 ^ 32 ≡ value + 1 = omega arith in
    let (m, count, lo, hi) = code_length (value + 1) (omega arith) (omega arith) in
    let bound : m ≤ k = exponent_le m k (omega arith) in
    rw (code, count, length-append, length-to_bits, length-to_bits) (omega arith)

pub length-se_bits : (value : ℤ) → IsChar value → length (ue_bits (se_code value)) ≤ 19
length-se_bits value h = length-ue_bits 9 (se_code value) (se_code-small value h) (omega arith)

pub length-calls_bits-append :
    (xs ys : List Call)
    → length (calls_bits (xs ++ ys)) ≡ length (calls_bits xs) + length (calls_bits ys)
unfolding calls_bits
length-calls_bits-append [] ys = omega arith
length-calls_bits-append (c ∷ xs) ys = omega (
  arith,
  length-append (call_bits c) (calls_bits (xs ++ ys)),
  length-append (call_bits c) (calls_bits xs),
  length-calls_bits-append xs ys,
)
