-- ===== src/Core/FloatTests.antt =====
-- Conversions of crates/adabt-core/src/value.rs at known patterns.
use a_da_bt.Prelude.{◌≡◌, refl, ◌^◌, ◌+◌, ◌-◌}
use a_da_bt.Prelude.Int.{pos, negsuc}
use a_da_bt.Core.Float.{FloatOps, of_int, canon_f64}

-- Float operations for tests in which nothing is rounded by them.
instance abbrev pub no_floats : FloatOps
no_floats = record {
  powi10 = λ n. 0;
  add = λ a b. 0;
  sub = λ a b. 0;
  mul = λ a b. 0;
  div = λ a b. 0;
}

of_int-one : of_int (pos 1) ≡ 0x3ff0_0000_0000_0000
unfolding of_int
of_int-one = refl

of_int-minus_two : of_int (negsuc 1) ≡ 0xc000_0000_0000_0000
unfolding of_int
of_int-minus_two = refl

of_int-ties_to_even : of_int (pos (2 ^ 53 + 1)) ≡ 0x4340_0000_0000_0000
unfolding of_int
of_int-ties_to_even = refl

of_int-u64_max : of_int (pos (2 ^ 64 - 1)) ≡ 0x43f0_0000_0000_0000
unfolding of_int
of_int-u64_max = refl

canon_f64-minus_zero : canon_f64 (2 ^ 63) ≡ canon_f64 0
unfolding canon_f64
canon_f64-minus_zero = refl
