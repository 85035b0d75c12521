-- ===== src/Common/Integers.antt =====
-- Go's `int` where a value may be negative.
use Prim.Native.Nat.{ℕ, zero, suc}
use mathlib.Core.Bool.{Bool, true, false}
use video_streaming_service.Common.Tests.{ltb}

-- `negsuc n` is -(n + 1).
pub data ℤ : Type 0 where
  pos : ℕ → ℤ
  negsuc : ℕ → ℤ

-- a < b
abbrev pub lt_int : ℤ → ℤ → Bool
lt_int (pos a) (pos b) = ltb a b
lt_int (pos a) (negsuc b) = false
lt_int (negsuc a) (pos b) = true
lt_int (negsuc a) (negsuc b) = ltb b a

-- A value that is not negative, as a natural number; 0 for the others.
abbrev pub pos_part : ℤ → ℕ
pos_part (pos a) = a
pos_part (negsuc a) = 0

-- a + 1
abbrev pub suc_int : ℤ → ℤ
suc_int (pos a) = pos (suc a)
suc_int (negsuc zero) = pos 0
suc_int (negsuc (suc a)) = negsuc a

-- a - 1
abbrev pub pred_int : ℤ → ℤ
pred_int (pos zero) = negsuc 0
pred_int (pos (suc a)) = pos a
pred_int (negsuc a) = negsuc (suc a)
