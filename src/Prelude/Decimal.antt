-- ===== src/Prelude/Decimal.antt =====
-- Decimal print of a number, as `std::to_string` and `operator<<` write it.
use Prim.Native.Nat.{ℕ, zero, suc, ◌+◌, ◌/◌, ◌%◌, ◌<◌}
use mathlib.Core.Bool.{true, false}
use mathlib.Core.List.{[], ◌∷◌, ◌++◌}
use mathlib.Core.Logic.{inl, inr}
use mathlib.Core.Path.{◌≡◌}
use native.Mathlib.Omega.{arith}
use logger_benchmarks.Prelude.Lists.{Bytes}
use logger_benchmarks.Prelude.Tests.{ltb, Bool-cases}

-- The digits of `n`, the last one behind those of the tenth; a number has fewer digits than `n + 2`.
unfoldable pub digits : ℕ → ℕ → Bytes
digits zero n = []
digits (suc fuel) n = elim (ltb n 10) [
  | true ↦ (b'0' + n) ∷ []
  | false ↦ digits fuel (n / 10) ++ (b'0' + n % 10) ∷ []
]

unfoldable pub to_string : ℕ → Bytes
unfolding digits
to_string n = digits (n + 1) n

-- More fuel than the number does not change the digits.
pub digits_enough : (k l n : ℕ) → n < k → n < l → digits k n ≡ digits l n
unfolding digits
digits_enough zero l n h h' = absurd (omega arith)
digits_enough (suc k) zero n h h' = absurd (omega arith)
digits_enough (suc k) (suc l) n h h' = elim (Bool-cases (ltb n 10)) [
  | inl small ↦ rw (small, digits)
  | inr large ↦ rw (large, digits, digits_enough k l (n / 10) (grind arith) (grind arith))
]
