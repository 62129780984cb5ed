-- ===== src/Base/Decimal.antt =====
-- Python's `str` of a number, and the integers.
use Prim.Native.Nat.{ℕ, zero, suc, ◌+◌, ◌/◌, ◌%◌}
use mathlib.Core.List.{[], ◌∷◌, ◌++◌}
use tugtainer.Base.Tests.{ltb, if◌then◌else◌}
use tugtainer.Base.Strings.{Text, codes}

-- `str(n)`: the fuel bounds the digits, of which a number has no more than one above its value.
unfoldable pub digits : ℕ → ℕ → Text → Text
digits zero n acc = acc
digits (suc fuel) n acc =
    if ltb n 10 then (48 + n) ∷ acc else digits fuel (n / 10) ((48 + n % 10) ∷ acc)

unfoldable pub decimal : ℕ → Text
unfolding digits
decimal n = digits (suc n) n []

-- Python's `int`: `negsuc n` is -(n + 1).
pub data ℤ : Type 0 where
  pos : ℕ → ℤ
  negsuc : ℕ → ℤ

-- `str(n)`
abbrev pub str : ℤ → Text
str (pos n) = decimal n
str (negsuc n) = codes "-" ++ decimal (suc n)
