-- ===== src/Base/Int.antt =====
-- Signed numbers over the native numbers.
use Prim.Native.Nat.{ℕ, zero, suc, ◌-◌}
use mathlib.Core.Bool.{Bool, true, false}
use picotcp.Base.Tests.{ltb, ◌==◌, if◌then◌else◌}

-- `negsuc n` is -(n + 1).
pub data ℤ : Type 0 where
  pos : ℕ → ℤ
  negsuc : ℕ → ℤ

abbrev pub ltb_ℤ : ℤ → ℤ → Bool
ltb_ℤ (pos a) (pos b) = ltb a b
ltb_ℤ (pos a) (negsuc b) = false
ltb_ℤ (negsuc a) (pos b) = true
ltb_ℤ (negsuc a) (negsuc b) = ltb b a

-- The conversion of uint32_t to int32_t.
abbrev pub to_int32 : ℕ → ℤ
to_int32 n = if ltb n 2147483648 then pos n else negsuc (4294967295 - n)

-- `-x` on int32_t; the least number has no negative, and stays what it is in two's complement.
abbrev pub neg_int32 : ℤ → ℤ
neg_int32 (pos zero) = pos 0
neg_int32 (pos (suc n)) = negsuc n
neg_int32 (negsuc n) = if n == 2147483647 then negsuc n else pos (suc n)
