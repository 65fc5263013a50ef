-- ===== src/Tests/Coding.antt =====
-- The parameter sets of H264 at concrete inputs.
use driver_uu_remote.Base.{ℕ, ◌≤◌, ◌≡◌, refl, List, [], ◌∷◌, ◌++◌, some, length, replicate, arith}
use driver_uu_remote.Base.Int.{pos, negsuc}
use driver_uu_remote.H264.Writer.{BitWriter, cleared, bw_ue}
use driver_uu_remote.H264.Writer.Laws.{written, cleared-IsWriter}
use driver_uu_remote.H264.Golomb.{read_ue, read_ue-bw_ue}
use driver_uu_remote.H264.Nal.{append_nal, nal_loop}
use driver_uu_remote.H264.Nal.Laws.{read_nal, payload, read_nal-append_nal, append_nal-NoStart}
use driver_uu_remote.H264.Params.{PicParams, Sample, DecoderBuffer, build_h264_parameter_sets}
use driver_uu_remote.H264.Params.Laws.{IsPic}
use driver_uu_remote.H264.Params.Units.{length-build_h264_parameter_sets}

-- Two zero bytes and a byte 1, which is escaped.
abbrev start_like : BitWriter
start_like = record { bytes = 0 ∷ 0 ∷ 1 ∷ replicate 253 0; bits = 24 }

escaped : append_nal [] 0x67 start_like ≡ 0 ∷ 0 ∷ 0 ∷ 1 ∷ 0x67 ∷ 0 ∷ 0 ∷ 3 ∷ 1 ∷ []
unfolding append_nal nal_loop
escaped = refl

read_nal-append_nal_example :
    (unit : List ℕ) × (append_nal (9 ∷ []) 0x67 start_like ≡ 9 ∷ unit)
    × (read_nal unit ≡ some (0x67, payload start_like))
read_nal-append_nal_example = read_nal-append_nal (9 ∷ []) 0x67 start_like

append_nal-NoStart_example : 3 ≤ 3
unfolding append_nal nal_loop
append_nal-NoStart_example =
    append_nal-NoStart [] 0x67 start_like (0x67 ∷ []) 3 (1 ∷ []) (omega arith) refl

read_ue-bw_ue_example :
    (code : List ℕ) × (written (bw_ue cleared 6) ≡ written cleared ++ code)
    × ((rest : List ℕ) → read_ue (code ++ rest) ≡ some (6, rest))
read_ue-bw_ue_example = read_ue-bw_ue cleared 6 cleared-IsWriter (omega arith) (omega arith)

abbrev main_profile : PicParams
main_profile = record {
  chroma_format_idc = 1;
  residual_colour_transform_flag = 0;
  bit_depth_luma_minus8 = 0;
  bit_depth_chroma_minus8 = 0;
  log2_max_frame_num_minus4 = 4;
  pic_order_cnt_type = 0;
  log2_max_pic_order_cnt_lsb_minus4 = 4;
  delta_pic_order_always_zero_flag = 0;
  num_ref_frames = 2;
  frame_width_in_mbs_minus1 = 119;
  frame_height_in_mbs_minus1 = 67;
  frame_mbs_only_flag = 1;
  mbaff_frame_flag = 0;
  direct_8x8_inference_flag = 1;
  entropy_coding_mode_flag = 1;
  pic_order_present_flag = 0;
  num_slice_groups_minus1 = 0;
  num_ref_idx_l0_active_minus1 = 0;
  num_ref_idx_l1_active_minus1 = 0;
  weighted_pred_flag = 0;
  weighted_bipred_idc = 0;
  pic_init_qp_minus26 = negsuc 2;
  pic_init_qs_minus26 = pos 0;
  chroma_qp_index_offset = negsuc 1;
  deblocking_filter_control_present_flag = 1;
  constrained_intra_pred_flag = 0;
  redundant_pic_cnt_present_flag = 0;
  transform_8x8_mode_flag = 1;
  second_chroma_qp_index_offset = negsuc 1;
}

abbrev full_hd : Sample
full_hd = record { width = 1920; height = 1080 }

main_profile-IsPic : IsPic main_profile
main_profile-IsPic = omega arith

-- A structure of one byte, and its reader.
abbrev submitted : DecoderBuffer
submitted = record { memory = some (1 ∷ []); capacity = 4096; offset = 0; size = 1 }

length-build_h264_parameter_sets_example :
    length (build_h264_parameter_sets 1 (λ memory. main_profile) submitted full_hd) ≤ 600
length-build_h264_parameter_sets_example =
    length-build_h264_parameter_sets 1 (λ memory. main_profile) (λ memory. main_profile-IsPic)
      submitted full_hd
