-- ===== src/H264/Writer.antt =====
-- `BitWriter` and its operations in src/dxva_bridge.c, lines 101-139.
mod Bytes
pub mod Laws
use driver_uu_remote.Base.{
  ℕ, zero, suc, ◌+◌, ◌-◌, ◌*◌, ◌/◌, ◌%◌, ◌^◌, List, set, get_or, replicate, ltb, ◌==◌,
  if◌then◌else◌, bit_or,
}
use driver_uu_remote.Base.Int.{ℤ, pos, negsuc}

-- `bytes` is the field `data[256]`, and `bits` the number of bits written.
pub record BitWriter : Type 0 where
  pub bytes : List ℕ
  pub bits : ℕ

abbrev pub buffer_size : ℕ
buffer_size = 256

-- A writer cleared by `memset`.
abbrev pub cleared : BitWriter
cleared = record { bytes = replicate buffer_size 0; bits = 0 }

-- `bits >> 3` is `bits / 8` and `bits & 7` is `bits % 8`.
unfoldable pub bw_bit : BitWriter → ℕ → BitWriter
bw_bit w value =
    let byte = w.bits / 8 in
    let shift = 7 - w.bits % 8 in
    let bytes = if w.bits % 8 == 0 then set w.bytes byte 0 else w.bytes in
    record {
      bytes = set bytes byte (bit_or (get_or bytes byte 0) (value % 2 * 2 ^ shift));
      bits = (w.bits + 1) % 2 ^ 32;
    }

unfoldable pub bw_bits : BitWriter → ℕ → ℕ → BitWriter
bw_bits w value zero = w
bw_bits w value (suc count) = bw_bits (bw_bit w (value / 2 ^ count)) value count

-- `while (scan) { ++bits; scan >>= 1; }` on fuel.
unfoldable pub scan_bits : ℕ → ℕ → ℕ → ℕ
scan_bits zero scan bits = bits
scan_bits (suc fuel) scan bits =
    let more = scan_bits fuel (scan / 2) (bits + 1) in if scan == 0 then bits else more

-- A `UINT` has 32 bits, so 32 rounds are enough.
unfoldable pub bw_ue : BitWriter → ℕ → BitWriter
unfolding scan_bits
bw_ue w value =
    let code = (value + 1) % 2 ^ 32 in
    let bits = scan_bits 32 code 0 in
    let padded = if ltb 1 bits then bw_bits w 0 (bits - 1) else w in bw_bits padded code bits

-- `value <= 0 ? (UINT)(-value * 2) : (UINT)(value * 2 - 1)`.
unfoldable pub se_code : ℤ → ℕ
se_code (pos zero) = 0
se_code (pos (suc n)) = (suc n * 2 - 1) % 2 ^ 32
se_code (negsuc n) = (suc n * 2) % 2 ^ 32

unfoldable pub bw_se : BitWriter → ℤ → BitWriter
bw_se w value = bw_ue w (se_code value)

-- `while (writer->bits & 7) bw_bit(writer, 0);` on fuel: at most seven rounds.
unfoldable pub pad_bits : ℕ → BitWriter → BitWriter
pad_bits zero w = w
pad_bits (suc fuel) w = let more = pad_bits fuel (bw_bit w 0) in if w.bits % 8 == 0 then w else more

unfoldable pub bw_trailing : BitWriter → BitWriter
unfolding pad_bits
bw_trailing w = pad_bits 8 (bw_bit w 1)
