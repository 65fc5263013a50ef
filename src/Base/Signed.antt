-- ===== src/Base/Signed.antt =====
-- The order of 32-bit words read as ints.
use Prim.Native.Nat.{ℕ, ◌+◌, ◌%◌, ◌^◌}
use mathlib.Core.Bool.{Bool}
use driver_uu_remote.Base.Tests.{ltb}

-- The word moved up by 2^31, so that its order is that of the int.
abbrev pub biased : ℕ → ℕ
biased word = (word + 2 ^ 31) % 2 ^ 32

abbrev pub signed_ltb : ℕ → ℕ → Bool
signed_ltb a b = ltb (biased a) (biased b)
