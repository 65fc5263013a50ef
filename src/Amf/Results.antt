-- ===== src/Amf/Results.antt =====
-- The `AMF_RESULT` codes that src/amfrt_bridge.c answers with.
pub data AmfResult : Type 0 where
  ok fail out_of_memory invalid_arg invalid_pointer out_of_range not_found no_interface : AmfResult
  not_initialized already_initialized invalid_data_type invalid_format not_supported : AmfResult
  not_implemented surface_format_not_supported encoder_not_present directx_failed : AmfResult
  input_full repeat eof : AmfResult
