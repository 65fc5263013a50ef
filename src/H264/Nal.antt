-- ===== src/H264/Nal.antt =====
-- `append_nal` of src/dxva_bridge.c, lines 141-161. The output is the list of the bytes written
-- so far, `output[0 .. offset)`, so that its length is the offset that the function returns.
pub mod Laws
use driver_uu_remote.Base.{ℕ, ◌+◌, ◌/◌, List, [], ◌∷◌, ◌++◌, take, leb, ◌==◌, ◌&&◌, if◌then◌else◌}
use driver_uu_remote.H264.Writer.{BitWriter}

-- The loop over `i`; the list is `data[i .. input_size)`.
unfoldable pub nal_loop : List ℕ → ℕ → List ℕ → List ℕ
nal_loop [] _ output = output
nal_loop (value ∷ rest) zeros output =
    let escaped = leb 2 zeros && leb value 3 in
    let output = if escaped then output ++ (3 ∷ []) else output in
    let zeros = if escaped then 0 else zeros in
    nal_loop rest (if value == 0 then zeros + 1 else 0) (output ++ (value ∷ []))

unfoldable pub append_nal : List ℕ → ℕ → BitWriter → List ℕ
unfolding nal_loop
append_nal output header w =
    let input_size = (w.bits + 7) / 8 in
    nal_loop (take input_size w.bytes) 0 (output ++ (0 ∷ 0 ∷ 0 ∷ 1 ∷ header ∷ []))
