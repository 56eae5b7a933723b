-- ===== src/Base/Int.antt =====
-- Signed integers over the native numbers, and the 32-bit pattern of one.
use Prim.Native.Nat.{ℕ, suc, ◌-◌, ◌^◌, ◌≤◌}
use iot_yk.Base.Tests.{ltb, if◌then◌else◌}

-- `negsuc n` is -(n + 1).
pub data ℤ : Type 0 where
  pos : ℕ → ℤ
  negsuc : ℕ → ℤ

-- The `int32_t` that a pattern below 2 ^ 32 stands for.
abbrev pub signed32 : ℕ → ℤ
signed32 w = if ltb w (2 ^ 31) then pos w else negsuc (2 ^ 32 - w - 1)

abbrev pub IsInt32 : ℤ → Type 0
IsInt32 (pos n) = suc n ≤ 2 ^ 31
IsInt32 (negsuc n) = suc n ≤ 2 ^ 31
