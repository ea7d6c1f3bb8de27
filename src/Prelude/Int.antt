-- ===== src/Prelude/Int.antt =====
-- Signed integers over the native numbers, and the checked operations of `i128`.
use Prim.Native.Nat.{ℕ, zero, suc, ◌+◌, ◌-◌, ◌*◌, ◌/◌, ◌^◌, compare, Ordering}
use mathlib.Core.Bool.{Bool, true, false}
use mathlib.Core.Option.{Option, none, some}
use a_da_bt.Prelude.Tests.{ltb, leb, ◌==◌, if◌then◌else◌}

-- `negsuc n` is -(n + 1).
pub data ℤ : Type 0 where
  pos : ℕ → ℤ
  negsuc : ℕ → ℤ

abbrev pub pos_part : ℤ → ℕ
pos_part (pos n) = n
pos_part (negsuc n) = 0

abbrev pub neg_part : ℤ → ℕ
neg_part (pos n) = 0
neg_part (negsuc n) = suc n

-- a - b, as an integer.
abbrev pub sub_ℕ : ℕ → ℕ → ℤ
sub_ℕ a b = if leb b a then pos (a - b) else negsuc (b - a - 1)

infixl 65 ◌+ℤ◌ ◌-ℤ◌
infixl 70 ◌*ℤ◌
unfoldable pub ◌+ℤ◌ : ℤ → ℤ → ℤ
a +ℤ b = sub_ℕ (pos_part a + pos_part b) (neg_part a + neg_part b)

unfoldable pub ◌-ℤ◌ : ℤ → ℤ → ℤ
a -ℤ b = sub_ℕ (pos_part a + neg_part b) (neg_part a + pos_part b)

abbrev pub magnitude : ℤ → ℕ
magnitude (pos n) = n
magnitude (negsuc n) = suc n

abbrev pub is_negative : ℤ → Bool
is_negative (pos n) = false
is_negative (negsuc n) = true

abbrev pub signs_differ : Bool → Bool → Bool
signs_differ true true = false
signs_differ false false = false
signs_differ _ _ = true

-- The integer of a sign and a magnitude.
abbrev pub signed : Bool → ℕ → ℤ
signed false n = pos n
signed true zero = pos 0
signed true (suc n) = negsuc n

unfoldable pub ◌*ℤ◌ : ℤ → ℤ → ℤ
a *ℤ b = signed (signs_differ (is_negative a) (is_negative b)) (magnitude a * magnitude b)

-- Division towards zero, as on Rust's integers; the divisor is not 0.
unfoldable pub quot : ℤ → ℤ → ℤ
quot a b = signed (signs_differ (is_negative a) (is_negative b)) (magnitude a / magnitude b)

abbrev pub compare_ℤ : ℤ → ℤ → Ordering
compare_ℤ a b = compare (pos_part a + neg_part b) (pos_part b + neg_part a)

-- The range of `i128`, and the operations that answer `None` outside it.
abbrev pub fits_i128 : ℤ → Bool
fits_i128 (pos n) = ltb n (2 ^ 127)
fits_i128 (negsuc n) = ltb n (2 ^ 127)

unfoldable pub checked : ℤ → Option ℤ
checked z = if fits_i128 z then some z else none

unfoldable pub checked_pow10 : ℕ → Option ℤ
unfolding checked
checked_pow10 k = checked (pos (10 ^ k))

unfoldable pub checked_mul : ℤ → ℤ → Option ℤ
unfolding checked ◌*ℤ◌
checked_mul a b = checked (a *ℤ b)

unfoldable pub checked_div : ℤ → ℤ → Option ℤ
unfolding checked quot
checked_div a b = if magnitude b == 0 then none else checked (quot a b)
