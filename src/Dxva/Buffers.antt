-- ===== src/Dxva/Buffers.antt =====
-- The nine buffers of a decoder: `context_get_buffer` and `context_submit` of src/dxva_bridge.c. The
-- record `DecoderBuffer` stands with the parameter sets, in H264.Params.
pub mod Laws
use driver_uu_remote.Base.{
  ℕ, ◌+◌, ◌-◌, ◌*◌, Bool, true, false, ◌||◌, List, [], ◌∷◌, Option, none, some, get_or, set,
  replicate, leb, ltb, if◌then◌else◌,
}
use driver_uu_remote.H264.Params.{DecoderBuffer}

-- The results that the functions of src/dxva_bridge.c answer with.
pub data HResult : Type 0 where
  s_ok e_invalidarg e_outofmemory e_fail : HResult
  -- What a call of Direct3D fails with.
  d3d_error : ℕ → HResult

abbrev pub buffer_count : ℕ
buffer_count = 9

abbrev pub no_buffer : DecoderBuffer
no_buffer = record { memory = none; capacity = 0; offset = 0; size = 0 }

unfoldable pub capacities : List ℕ
capacities = 4096 ∷ 4096 ∷ 4096 ∷ 4096 ∷ 4096 ∷ 1024 * 1024 ∷ 16 * 1024 * 1024 ∷ 4096 ∷ 4096 ∷ []

-- The buffer once it is there: `offset` and `size` are reset.
unfoldable pub reset_buffer : DecoderBuffer → DecoderBuffer
reset_buffer buffer = record buffer { offset = 0; size = 0 }

-- The buffer with memory, which is allocated if it has none: false if that fails.
unfoldable pub acquire :
    Option (List ℕ) → Option (List ℕ) → ℕ → DecoderBuffer → Bool × DecoderBuffer
acquire (some memory) allocated needed buffer = (true, buffer)
acquire none none needed buffer = (false, record buffer { capacity = needed })
acquire none (some memory) needed buffer =
    (true, record buffer { capacity = needed; memory = some memory })

-- `known` tells that the pointers are the bridge's own and not null. `malloc` answers with the memory,
-- whose contents are its own affair. On success the size is `*size`.
unfoldable pub context_get_buffer :
    (ℕ → Option (List ℕ)) → Bool → List DecoderBuffer → ℕ → HResult × ℕ × List DecoderBuffer
unfolding acquire reset_buffer capacities
context_get_buffer malloc false buffers type = (e_invalidarg, 0, buffers)
context_get_buffer malloc true buffers type =
    let buffer = get_or buffers type no_buffer in
    let needed = get_or capacities type 0 in
    let (there, buffer) = acquire buffer.memory (malloc needed) needed buffer in
    if leb buffer_count type
    then (e_invalidarg, 0, buffers)
    else if there
    then (s_ok, buffer.capacity, set buffers type (reset_buffer buffer))
    else (e_outofmemory, 0, set buffers type buffer)

-- `D3D11_VIDEO_DECODER_BUFFER_DESC`, the fields that are read.
pub record BufferDesc : Type 0 where
  pub buffer_type : ℕ
  pub data_offset : ℕ
  pub data_size : ℕ

unfoldable pub fits : DecoderBuffer → BufferDesc → Bool
fits buffer desc = elim buffer.memory [
  | none ↦ false
  | some memory ↦
      if ltb buffer.capacity desc.data_offset
      then false
      else leb desc.data_size (buffer.capacity - desc.data_offset)
]

-- One turn of the loop of `context_submit`, `none` where it ends the call.
unfoldable pub submit_one : List DecoderBuffer → BufferDesc → Option (List DecoderBuffer)
unfolding fits
submit_one buffers desc =
    let buffer = get_or buffers desc.buffer_type no_buffer in
    if leb buffer_count desc.buffer_type
    then some buffers
    else if fits buffer desc
    then some (
        set buffers desc.buffer_type
          (record buffer { offset = desc.data_offset; size = desc.data_size }))
    else none

unfoldable pub submit_loop : List DecoderBuffer → List BufferDesc → HResult × List DecoderBuffer
unfolding submit_one
submit_loop buffers [] = (s_ok, buffers)
submit_loop buffers (desc ∷ descs) = elim (submit_one buffers desc) [
  | none ↦ (e_invalidarg, buffers)
  | some buffers ↦ submit_loop buffers descs
]

-- `known` tells that the pointers are the bridge's own, and that `descs` is not null where it is read.
unfoldable pub context_submit :
    Bool → List DecoderBuffer → List BufferDesc → HResult × List DecoderBuffer
unfolding submit_loop
context_submit false buffers descs = (e_invalidarg, buffers)
context_submit true buffers descs = submit_loop buffers descs
