-- ===== src/H264/Params.antt =====
-- `build_h264_parameter_sets` of src/dxva_bridge.c, lines 163-247.
pub mod Laws
pub mod Sizes
pub mod Units
use driver_uu_remote.Base.{
  ℕ, ◌+◌, ◌-◌, ◌*◌, ◌/◌, ◌%◌, ◌^◌, Bool, true, false, not, ◌||◌, List, [], ◌∷◌, ◌++◌, Option, none,
  some, drop, ltb, ◌==◌, if◌then◌else◌,
}
use driver_uu_remote.Base.Int.{ℤ, pos}
use driver_uu_remote.H264.Writer.{BitWriter, cleared, bw_bit, bw_bits, bw_ue, bw_se, bw_trailing}
use driver_uu_remote.H264.Nal.{append_nal}

-- The fields of `DXVA_PicParams_H264` that the function reads, with the names of dxva.h.
pub record PicParams : Type 0 where
  pub chroma_format_idc : ℕ
  pub residual_colour_transform_flag : ℕ
  pub bit_depth_luma_minus8 : ℕ
  pub bit_depth_chroma_minus8 : ℕ
  pub log2_max_frame_num_minus4 : ℕ
  pub pic_order_cnt_type : ℕ
  pub log2_max_pic_order_cnt_lsb_minus4 : ℕ
  pub delta_pic_order_always_zero_flag : ℕ
  pub num_ref_frames : ℕ
  pub frame_width_in_mbs_minus1 : ℕ
  pub frame_height_in_mbs_minus1 : ℕ
  pub frame_mbs_only_flag : ℕ
  pub mbaff_frame_flag : ℕ
  pub direct_8x8_inference_flag : ℕ
  pub entropy_coding_mode_flag : ℕ
  pub pic_order_present_flag : ℕ
  pub num_slice_groups_minus1 : ℕ
  pub num_ref_idx_l0_active_minus1 : ℕ
  pub num_ref_idx_l1_active_minus1 : ℕ
  pub weighted_pred_flag : ℕ
  pub weighted_bipred_idc : ℕ
  pub pic_init_qp_minus26 : ℤ
  pub pic_init_qs_minus26 : ℤ
  pub chroma_qp_index_offset : ℤ
  pub deblocking_filter_control_present_flag : ℕ
  pub constrained_intra_pred_flag : ℕ
  pub redundant_pic_cnt_present_flag : ℕ
  pub transform_8x8_mode_flag : ℕ
  pub second_chroma_qp_index_offset : ℤ

-- One call of the bit writer.
pub data Call : Type 0 where
  bit : ℕ → Call
  bits : ℕ → ℕ → Call
  ue : ℕ → Call
  se : ℤ → Call

unfoldable pub write_call : BitWriter → Call → BitWriter
write_call w (bit value) = bw_bit w value
write_call w (bits value count) = bw_bits w value count
write_call w (ue value) = bw_ue w value
write_call w (se value) = bw_se w value

unfoldable pub write_calls : BitWriter → List Call → BitWriter
unfolding write_call
write_calls w [] = w
write_calls w (c ∷ calls) = write_calls (write_call w c) calls

-- `SampleWidth` and `SampleHeight` of the decoder's description.
pub record Sample : Type 0 where
  pub width : ℕ
  pub height : ℕ

abbrev pub field_factor : PicParams → ℕ
field_factor pic = if pic.frame_mbs_only_flag == 0 then 2 else 1

unfoldable pub coded_width : PicParams → ℕ
coded_width pic = (pic.frame_width_in_mbs_minus1 + 1) * 16 % 2 ^ 32

unfoldable pub coded_height : PicParams → ℕ
coded_height pic = (pic.frame_height_in_mbs_minus1 + 1) * 16 * field_factor pic % 2 ^ 32

unfoldable pub crop_right : PicParams → Sample → ℕ
unfolding coded_width
crop_right pic sample =
    if ltb sample.width (coded_width pic) then (coded_width pic - sample.width) / 2 else 0

unfoldable pub crop_bottom : PicParams → Sample → ℕ
unfolding coded_height
crop_bottom pic sample =
    if ltb sample.height (coded_height pic)
    then (coded_height pic - sample.height) / (2 * field_factor pic)
    else 0

-- The calls between `memset(&sps, …)` and `bw_trailing(&sps)`, in order, in four stretches.
unfoldable pub sps_head : PicParams → List Call
sps_head pic =
    (bits 100 8
      ∷ bits 0 8
      ∷ bits 51 8
      ∷ ue 0
      ∷ ue (if pic.chroma_format_idc == 0 then 1 else pic.chroma_format_idc)
      ∷ [])
    ++ (if pic.chroma_format_idc == 3 then bit pic.residual_colour_transform_flag ∷ [] else [])
    ++ (ue pic.bit_depth_luma_minus8
        ∷ ue pic.bit_depth_chroma_minus8
        ∷ bit 0
        ∷ bit 0
        ∷ ue pic.log2_max_frame_num_minus4
        ∷ ue pic.pic_order_cnt_type
        ∷ [])

unfoldable pub sps_order : PicParams → List Call
sps_order pic =
    if pic.pic_order_cnt_type == 0
    then ue pic.log2_max_pic_order_cnt_lsb_minus4 ∷ []
    else if pic.pic_order_cnt_type == 1
    then bit pic.delta_pic_order_always_zero_flag ∷ se (pos 0) ∷ se (pos 0) ∷ ue 0 ∷ []
    else []

unfoldable pub sps_frame : PicParams → List Call
sps_frame pic =
    (ue pic.num_ref_frames
      ∷ bit 0
      ∷ ue pic.frame_width_in_mbs_minus1
      ∷ ue pic.frame_height_in_mbs_minus1
      ∷ bit pic.frame_mbs_only_flag
      ∷ [])
    ++ (if pic.frame_mbs_only_flag == 0 then bit pic.mbaff_frame_flag ∷ [] else [])
    ++ (bit pic.direct_8x8_inference_flag ∷ [])

unfoldable pub sps_crop : ℕ → ℕ → List Call
sps_crop right bottom =
    if not (right == 0) || not (bottom == 0)
    then bit 1 ∷ ue 0 ∷ ue right ∷ ue 0 ∷ ue bottom ∷ bit 0 ∷ []
    else bit 0 ∷ bit 0 ∷ []

unfoldable pub sps_calls : PicParams → Sample → List Call
unfolding sps_head sps_order sps_frame sps_crop crop_right crop_bottom
sps_calls pic sample =
    sps_head pic
    ++ sps_order pic
    ++ sps_frame pic
    ++ sps_crop (crop_right pic sample) (crop_bottom pic sample)

-- The calls between `memset(&pps, …)` and `bw_trailing(&pps)`.
unfoldable pub pps_calls : PicParams → List Call
pps_calls pic =
    ue 0
    ∷ ue 0
    ∷ bit pic.entropy_coding_mode_flag
    ∷ bit pic.pic_order_present_flag
    ∷ ue pic.num_slice_groups_minus1
    ∷ ue pic.num_ref_idx_l0_active_minus1
    ∷ ue pic.num_ref_idx_l1_active_minus1
    ∷ bit pic.weighted_pred_flag
    ∷ bits pic.weighted_bipred_idc 2
    ∷ se pic.pic_init_qp_minus26
    ∷ se pic.pic_init_qs_minus26
    ∷ se pic.chroma_qp_index_offset
    ∷ bit pic.deblocking_filter_control_present_flag
    ∷ bit pic.constrained_intra_pred_flag
    ∷ bit pic.redundant_pic_cnt_present_flag
    ∷ bit pic.transform_8x8_mode_flag
    ∷ bit 0
    ∷ se pic.second_chroma_qp_index_offset
    ∷ []

unfoldable pub write_sps : PicParams → Sample → BitWriter
unfolding write_calls sps_calls
write_sps pic sample = bw_trailing (write_calls cleared (sps_calls pic sample))

unfoldable pub write_pps : PicParams → BitWriter
unfolding write_calls pps_calls
write_pps pic = bw_trailing (write_calls cleared (pps_calls pic))

-- The two units, from the picture parameters on: what is written to `output` from offset 0.
unfoldable pub parameter_sets : PicParams → Sample → List ℕ
unfolding write_sps write_pps
parameter_sets pic sample =
    append_nal (append_nal [] 0x67 (write_sps pic sample)) 0x68 (write_pps pic)

-- `DecoderBuffer`: `memory` is `none` where `data` is null.
pub record DecoderBuffer : Type 0 where
  pub memory : Option (List ℕ)
  pub capacity : ℕ
  pub offset : ℕ
  pub size : ℕ

-- `sizeof(DXVA_PicParams_H264)` and the reading of its fields from memory belong to dxva.h. The
-- function answers with the bytes of `output`, none of them where it returns 0; `capacity` is
-- promoted to a `size_t`, in which the subtraction wraps.
module _ (size_of_pic : ℕ) (read_pic : List ℕ → PicParams) where
  unfoldable pub build_h264_parameter_sets : DecoderBuffer → Sample → List ℕ
  unfolding parameter_sets
  build_h264_parameter_sets parameters sample = elim parameters.memory [
    | none ↦ []
    | some memory ↦
        if ltb parameters.size size_of_pic
          || ltb ((parameters.capacity + 2 ^ 64 - size_of_pic) % 2 ^ 64) parameters.offset
        then []
        else parameter_sets (read_pic (drop parameters.offset memory)) sample
  ]
