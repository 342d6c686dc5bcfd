-- ===== src/Common/Int.antt =====
-- Signed 32-bit values, as far as the program reads them.
use Prim.Native.Nat.{ℕ, ◌-◌, ◌%◌, ◌^◌, ◌<◌}
use mathlib.Core.Path.{◌≡◌}
use mathlib.Core.Bool.{Bool, true, false}
use native.Mathlib.Omega.{arith}
use qt_sss_shttps.Common.Tests.{ltb, leb, if◌then◌else◌}

-- `negsuc n` is -(n + 1).
pub data ℤ : Type 0 where
  pos negsuc : ℕ → ℤ

-- A value of a wider type put into an `int`.
unfoldable pub to_int32 : ℕ → ℤ
to_int32 n = let r = n % 2 ^ 32 in if ltb r (2 ^ 31) then pos r else negsuc (2 ^ 32 - r - 1)

pub to_int32_small : (n : ℕ) → n < 2 ^ 31 → to_int32 n ≡ pos n
unfolding to_int32
to_int32_small n h = ground arith

unfoldable pub is_negative : ℤ → Bool
is_negative (pos n) = false
is_negative (negsuc n) = true

-- `z <= n` for a number that is not negative.
unfoldable pub fits : ℤ → ℕ → Bool
fits (pos m) n = leb m n
fits (negsuc m) n = true

unfoldable pub abs_value : ℤ → ℕ
abs_value (pos n) = n
abs_value (negsuc n) = ℕ.suc n
