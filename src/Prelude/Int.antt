-- ===== src/Prelude/Int.antt =====
-- Go's `int` where it can be negative. `negsuc n` is -(n + 1).
use Prim.Native.Nat.{ℕ}
use mathlib.Core.Bool.{Bool, true, false}
use gitwise.Prelude.Tests.{ltb}

pub data ℤ : Type 0 where
  pos : ℕ → ℤ
  negsuc : ℕ → ℤ

-- `z < 0`
abbrev pub is_neg : ℤ → Bool
is_neg (pos n) = false
is_neg (negsuc n) = true

-- `n < z` for a count `n`
abbrev pub count_below : ℕ → ℤ → Bool
count_below n (pos m) = ltb n m
count_below n (negsuc m) = false
