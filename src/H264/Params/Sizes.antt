-- ===== src/H264/Params/Sizes.antt =====
-- The parameter sets of src/dxva_bridge.c fit the bit writers' 256 bytes and the 600 bytes of
-- `parameter_sets` in `context_end_frame`.
use driver_uu_remote.Base.{
  ℕ, ◌+◌, ◌^◌, ◌≤◌, ◌<◌, ◌≡◌, refl, inl, inr, not, ◌||◌, List, [], ◌∷◌, ◌++◌, length, length-append,
  ◌==◌, Bool-cases, if◌then◌else◌, arith,
}
use driver_uu_remote.Base.Int.{pos}
use driver_uu_remote.H264.Writer.Laws.{length-to_bits}
use driver_uu_remote.H264.Golomb.{ue_bits}
use driver_uu_remote.H264.Params.{
  PicParams, Call, Sample, crop_right, crop_bottom, sps_head, sps_order, sps_frame, sps_crop,
  sps_calls, pps_calls,
}
use driver_uu_remote.H264.Params.Laws.{call_bits, calls_bits, IsPic, length-ue_bits, length-se_bits}

-- The number of bits, added up call by call.
total : List Call → ℕ
total [] = 0
total (c ∷ calls) = length (call_bits c) + total calls

length-calls_bits : (calls : List Call) → length (calls_bits calls) ≡ total calls
unfolding calls_bits total
length-calls_bits [] = refl
length-calls_bits (c ∷ calls) =
    omega (arith, length-append (call_bits c) (calls_bits calls), length-calls_bits calls)

total-append : (xs ys : List Call) → total (xs ++ ys) ≡ total xs + total ys
unfolding total
total-append [] ys = omega arith
total-append (c ∷ xs) ys = omega (arith, total-append xs ys)

module _ (pic : PicParams) (p : IsPic pic) where
  u8 : (value : ℕ) → value < 256 → length (ue_bits value) ≤ 17
  u8 value h = length-ue_bits 8 value (omega arith) (omega arith)

  head_total : total (sps_head pic) ≤ 150
  unfolding sps_head total call_bits
  head_total =
      let chroma : (if pic.chroma_format_idc == 0 then 1 else pic.chroma_format_idc) < 256 =
        ground (arith, p.chroma) in
      let one = u8 0 (omega arith) in
      let a = u8 (if pic.chroma_format_idc == 0 then 1 else pic.chroma_format_idc) chroma in
      let b = u8 pic.bit_depth_luma_minus8 p.depth_luma in
      let c = u8 pic.bit_depth_chroma_minus8 p.depth_chroma in
      let d = u8 pic.log2_max_frame_num_minus4 p.frame_num in
      let e = u8 pic.pic_order_cnt_type p.order in
      let x = length-to_bits 100 8 in
      let y = length-to_bits 0 8 in
      let z = length-to_bits 51 8 in
      elim (Bool-cases (pic.chroma_format_idc == 3)) [
        | inl t ↦ rw t (omega arith)
        | inr t ↦ rw t (omega arith)
      ]

  order_total : total (sps_order pic) ≤ 60
  unfolding sps_order total call_bits
  order_total =
      let zero_bits = u8 0 (omega arith) in
      let signed = length-se_bits (pos 0) (omega arith) in
      let lsb = u8 pic.log2_max_pic_order_cnt_lsb_minus4 p.order_lsb in
      elim (Bool-cases (pic.pic_order_cnt_type == 0)) [
        | inl t ↦ rw t (omega arith)
        | inr t ↦ elim (Bool-cases (pic.pic_order_cnt_type == 1)) [
          | inl r ↦ rw (t, r) (omega arith)
          | inr r ↦ rw (t, r) (omega arith)
        ]
      ]

  frame_total : total (sps_frame pic) ≤ 100
  unfolding sps_frame total call_bits
  frame_total =
      let refs = u8 pic.num_ref_frames p.refs in
      let width = length-ue_bits 16 pic.frame_width_in_mbs_minus1 (omega arith) (omega arith) in
      let height = length-ue_bits 16 pic.frame_height_in_mbs_minus1 (omega arith) (omega arith) in
      elim (Bool-cases (pic.frame_mbs_only_flag == 0)) [
        | inl t ↦ rw t (omega arith)
        | inr t ↦ rw t (omega arith)
      ]

  crop_total :
      (right bottom : ℕ) → right < 2 ^ 20 → bottom < 2 ^ 20 → total (sps_crop right bottom) ≤ 120
  unfolding sps_crop total call_bits
  crop_total right bottom hr hb =
      let zero_bits = u8 0 (omega arith) in
      let r = length-ue_bits 20 right (omega arith) (omega arith) in
      let b = length-ue_bits 20 bottom (omega arith) (omega arith) in
      elim (Bool-cases (not (right == 0) || not (bottom == 0))) [
        | inl t ↦ rw t (omega arith)
        | inr t ↦ rw t (omega arith)
      ]

  crop_right-lt : (sample : Sample) → crop_right pic sample < 2 ^ 20
  unfolding crop_right
  crop_right-lt sample = ground (arith, p.width)

  crop_bottom-lt : (sample : Sample) → crop_bottom pic sample < 2 ^ 20
  unfolding crop_bottom
  crop_bottom-lt sample = elim (Bool-cases (pic.frame_mbs_only_flag == 0)) [
    | inl t ↦ rw t (ground (arith, p.height))
    | inr t ↦ rw t (ground (arith, p.height))
  ]

  pub sps_total : (sample : Sample) → length (calls_bits (sps_calls pic sample)) ≤ 430
  unfolding sps_calls
  sps_total sample =
      let crop =
        crop_total (crop_right pic sample) (crop_bottom pic sample) (crop_right-lt sample)
          (crop_bottom-lt sample) in
      rw (length-calls_bits, total-append, total-append, total-append)
        (omega (arith, head_total, order_total, frame_total))

  pub pps_total : length (calls_bits (pps_calls pic)) ≤ 200
  unfolding pps_calls total call_bits
  pps_total = rw length-calls_bits (
      omega (
        arith,
        u8 0 (omega arith),
        u8 pic.num_slice_groups_minus1 p.groups,
        u8 pic.num_ref_idx_l0_active_minus1 p.l0,
        u8 pic.num_ref_idx_l1_active_minus1 p.l1,
        length-to_bits pic.weighted_bipred_idc 2,
        length-se_bits pic.pic_init_qp_minus26 p.qp,
        length-se_bits pic.pic_init_qs_minus26 p.qs,
        length-se_bits pic.chroma_qp_index_offset p.chroma_qp,
        length-se_bits pic.second_chroma_qp_index_offset p.second_chroma_qp,
      ))
