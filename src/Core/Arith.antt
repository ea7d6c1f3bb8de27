-- ===== src/Core/Arith.antt =====
-- crates/adabt-core/src/value.rs: `rescale` and `checked_arith`.
pub mod Rescale
use a_da_bt.Prelude.{ℕ, ◌-◌, ◌%◌, max, Option, some, none, leb, ◌==◌, if◌then◌else◌}
use a_da_bt.Prelude.Int.{
  ℤ, magnitude, ◌+ℤ◌, ◌-ℤ◌, quot, checked, checked_pow10, checked_mul, checked_div,
}
use a_da_bt.Core.Float.{FloatOps, is_zero, is_finite}
use a_da_bt.Core.Value.{Value, decimal, f64, exact_units}
use a_da_bt.Core.Order.{as_num, lift, ◌>>=◌}

-- Exactly or not at all: widening multiplies, narrowing must divide.
unfoldable pub rescale : ℤ → ℕ → ℕ → Option ℤ
unfolding checked_pow10 checked_mul quot
rescale units from to =
    if leb from to then (do p ← checked_pow10 (to - from); checked_mul units p) else (do
      d ← checked_pow10 (from - to)
      if magnitude units % magnitude d == 0 then some (quot units d) else none)

pub data ArithOp : Type 0 where
  add sub mul div : ArithOp

-- The exact result at the common scale.
unfoldable pub exact_arith : ArithOp → ℕ → ℤ → ℤ → Option ℤ
unfolding checked checked_pow10 checked_mul checked_div ◌+ℤ◌ ◌-ℤ◌
exact_arith add target a b = checked (a +ℤ b)
exact_arith sub target a b = checked (a -ℤ b)
exact_arith mul target a b = do p ← checked_mul a b; s ← checked_pow10 target; checked_div p s
exact_arith div target a b =
    if magnitude b == 0
    then none
    else (do s ← checked_pow10 target; n ← checked_mul a s; checked_div n b)

-- The exact path, `none` where the code goes on to the float path.
unfoldable pub exact_path : ArithOp → Value → Value → Option Value
unfolding exact_units lift exact_arith
exact_path op a b = do
  (au, asc) ← exact_units a
  (bu, bsc) ← exact_units b
  let target = max asc bsc
  x ← lift target au asc
  y ← lift target bu bsc
  units ← exact_arith op target x y
  some (decimal units target)

module _ ⦃fl : FloatOps⦄ where
  unfoldable pub float_arith : ArithOp → ℕ → ℕ → Option ℕ
  unfolding is_zero
  float_arith add a b = some (fl.add a b)
  float_arith sub a b = some (fl.sub a b)
  float_arith mul a b = some (fl.mul a b)
  float_arith div a b = if is_zero b then none else some (fl.div a b)

  unfoldable pub float_path : ArithOp → Value → Value → Option Value
  unfolding as_num float_arith is_finite
  float_path op a b = do
    x ← as_num a
    y ← as_num b
    r ← float_arith op x y
    if is_finite r then some (f64 r) else none

  unfoldable pub checked_arith : ArithOp → Value → Value → Option Value
  unfolding exact_path float_path
  checked_arith op a b = elim (exact_path op a b) [ some v ↦ some v | none ↦ float_path op a b ]
