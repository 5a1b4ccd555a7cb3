-- ===== src/Common/Int.antt =====
-- Python's signed `int`, as far as revisions use it.
use factory_ops.Common.Tests.{◌==◌}
use Prim.Native.Nat.{ℕ, zero, suc, ◌+◌}
use mathlib.Core.Bool.{Bool, false}
use mathlib.Core.Option.{Option, none, some}

-- `negsuc n` is -(n + 1).
pub data ℤ : Type 0 where
  pos : ℕ → ℤ
  negsuc : ℕ → ℤ

abbrev pub same_int : ℕ → ℤ → Bool
same_int n (pos m) = n == m
same_int n (negsuc _) = false

abbrev pub equal_int : ℤ → ℤ → Bool
equal_int (pos n) z = same_int n z
equal_int (negsuc n) (pos m) = false
equal_int (negsuc n) (negsuc m) = n == m

abbrev pub non_negative : ℤ → Option ℕ
non_negative (pos n) = some n
non_negative (negsuc _) = none

-- A number for an unsigned column, which refuses a negative one.
abbrev pub unsigned_column : ℤ → ℕ
unsigned_column (pos n) = n
unsigned_column (negsuc _) = 0

-- `n + 1`
abbrev pub next : ℤ → ℤ
next (pos n) = pos (n + 1)
next (negsuc zero) = pos 0
next (negsuc (suc n)) = negsuc n
