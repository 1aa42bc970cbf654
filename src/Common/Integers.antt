-- ===== src/Common/Integers.antt =====
-- Whole numbers of either sign: coordinates and orders.
use Prim.Native.Nat.{ℕ}
use mathlib.Core.Bool.{Bool, true, false}
use now_sdk_ext_core.Common.Tests.{ltb}

pub data ℤ : Type 0 where
  pos negsuc : ℕ → ℤ

abbrev pub ltb_int : ℤ → ℤ → Bool
ltb_int (pos a) (pos b) = ltb a b
ltb_int (pos a) (negsuc b) = false
ltb_int (negsuc a) (pos b) = true
ltb_int (negsuc a) (negsuc b) = ltb b a
