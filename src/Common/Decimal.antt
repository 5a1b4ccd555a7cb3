-- ===== src/Common/Decimal.antt =====
-- `str` of an `int`.
use Prim.Native.Nat.{ℕ, zero, suc, ◌+◌, ◌/◌, ◌%◌}
use Prim.Native.String.{String, ◌++◌}
use mathlib.Core.Path.{◌≡◌, refl}
use mathlib.Core.List.{List, [], ◌∷◌}
use factory_ops.Common.Tests.{ltb, if◌then◌else◌}
use factory_ops.Common.Int.{ℤ, pos, negsuc}

infixr 65 ◌+s◌
abbrev pub ◌+s◌ : String → String → String
s +s t = s ++ t

abbrev pick : ℕ → List String → String
pick n [] = ""
pick zero (s ∷ rest) = s
pick (suc n) (s ∷ rest) = pick n rest

abbrev digit : ℕ → String
digit n = pick n ("0" ∷ "1" ∷ "2" ∷ "3" ∷ "4" ∷ "5" ∷ "6" ∷ "7" ∷ "8" ∷ "9" ∷ [])

-- The fuel bounds the number of digits, for which the number itself is enough.
unfoldable pub digits : ℕ → ℕ → String
digits zero n = digit n
digits (suc fuel) n =
    let rest = digits fuel (n / 10) in if ltb n 10 then digit n else rest +s digit (n % 10)

unfoldable pub show_int : ℤ → String
unfolding digits
show_int (pos n) = digits n n
show_int (negsuc n) = "-" +s digits (n + 1) (n + 1)

shown : show_int (pos 2026) +s show_int (negsuc 9) ≡ "2026-10"
unfolding show_int digits
shown = refl
