-- ===== src/Core/Float.antt =====
-- The `f64` operations that crates/adabt-core/src/value.rs uses, over bit patterns.
-- The conversion of integers and the tests are those of the binary64 format; the operations that
-- round a quotient, a product, a sum or a power are a parameter.
use a_da_bt.Prelude.{
  ℕ, zero, suc, ◌+◌, ◌-◌, ◌*◌, ◌/◌, ◌%◌, ◌^◌, Bool, ltb, leb, ◌==◌, if◌then◌else◌,
}
use a_da_bt.Prelude.Int.{ℤ, magnitude, is_negative}

pub record FloatOps : Type 0 where
  -- `10f64.powi(n)`
  pub powi10 : ℕ → ℕ
  pub add : ℕ → ℕ → ℕ
  pub sub : ℕ → ℕ → ℕ
  pub mul : ℕ → ℕ → ℕ
  pub div : ℕ → ℕ → ℕ

-- The pattern without its sign bit.
abbrev pub unsigned_bits : ℕ → ℕ
unsigned_bits f = f % 2 ^ 63

abbrev pub infinity_bits : ℕ
infinity_bits = 0x7ff0_0000_0000_0000

unfoldable pub is_nan : ℕ → Bool
is_nan f = ltb infinity_bits (unsigned_bits f)

-- `f == 0.0`, true of both zeros.
unfoldable pub is_zero : ℕ → Bool
is_zero f = unsigned_bits f == 0

unfoldable pub is_finite : ℕ → Bool
is_finite f = ltb (unsigned_bits f) infinity_bits

abbrev pub nan_bits : ℕ
nan_bits = 0x7ff8_0000_0000_0000

-- One pattern for every NaN and one for both zeros, biased so that numbers order as the floats do.
-- `!bits` is `2^64 - 1 - bits`; flipping a clear sign bit adds `2^63`.
unfoldable pub canon_f64 : ℕ → ℕ
unfolding is_nan is_zero
canon_f64 f =
    let bits = if is_nan f then nan_bits else if is_zero f then 0 else f in
    if leb (2 ^ 63) bits then 2 ^ 64 - 1 - bits else bits + 2 ^ 63

-- The exponent of the leading bit of `m`, not above `k`.
unfoldable pub leading_bit : ℕ → ℕ → ℕ
leading_bit zero m = 0
leading_bit (suc k) m = let below = leading_bit k m in if leb (2 ^ suc k) m then suc k else below

-- `m / 2^shift` to the nearest integer, ties to the even one.
unfoldable pub round_half_even : ℕ → ℕ → ℕ
round_half_even m shift =
    let q = m / 2 ^ shift in
    let r = m % 2 ^ shift * 2 in
    if ltb r (2 ^ shift) then q else if ltb (2 ^ shift) r then q + 1 else q + q % 2

-- The significand of `m` with its leading bit at position 52.
unfoldable pub significand : ℕ → ℕ → ℕ
unfolding round_half_even
significand m e = if leb e 52 then m * 2 ^ (52 - e) else round_half_even m (e - 52)

-- `n as f64`, for the integers of `i128`; a carry out of the significand raises the exponent.
unfoldable pub of_int : ℤ → ℕ
unfolding leading_bit significand
of_int z =
    let m = magnitude z in
    let e = leading_bit 127 m in
    let bits = if m == 0 then 0 else (e + 1022) * 2 ^ 52 + significand m e in
    if is_negative z then bits + 2 ^ 63 else bits
