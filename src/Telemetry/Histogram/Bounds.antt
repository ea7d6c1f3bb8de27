-- ===== src/Telemetry/Histogram/Bounds.antt =====
-- crates/adabt-telemetry/src/histogram.rs: every value has a bucket, and the bucket its value nearly.
use native.Mathlib.Nat.{
  div-add-mod', pow-suc, mod-lt, le-div_iff_mul-le, div-lt_iff_lt-mul, div-mul-le_self,
  pow-le-pow_right,
}
use a_da_bt.Prelude.{
  ℕ, zero, suc, ◌+◌, ◌-◌, ◌*◌, ◌/◌, ◌%◌, ◌^◌, ◌≤◌, ◌<◌, ◌≡◌, ap, ◌∙◌, true, false, ltb, leb, leb→le,
  arith, Bool-cases, inl, inr,
}
use a_da_bt.Core.Float.{leading_bit}
use a_da_bt.Telemetry.Histogram.{buckets, bucket, value_at}

-- The leading bit's power is at most the number, and its double is above it.
leading_bit_bounds :
    (k m : ℕ)
    → 0 < m
    → m < 2 ^ suc k
    → (leading_bit k m ≤ k) × (2 ^ leading_bit k m ≤ m) × (m < 2 ^ suc (leading_bit k m))
unfolding leading_bit
leading_bit_bounds zero m pos below = (omega arith, omega arith, below)
leading_bit_bounds (suc k) m pos below = elim (Bool-cases (leb (2 ^ suc k) m)) [
  | inl e ↦ rw e (omega arith, ground arith, below)
  | inr e ↦ let (a, b, c) = leading_bit_bounds k m pos (ground arith) in rw e (omega arith, b, c)
]

-- A number between 16 and 32 times a power.
quotient_bounds :
    (v P : ℕ)
    → P * 16 ≤ v
    → v < P * 32
    → (16 ≤ v / P) × (v / P < 32) × (v / P * P ≤ v) × (v < v / P * P + P)
quotient_bounds v P low high =
    let pos : 0 < P = omega arith in
    (
      (le-div_iff_mul-le pos).1 (omega arith),
      (div-lt_iff_lt-mul pos).1 (omega arith),
      div-mul-le_self v P,
      omega (arith, div-add-mod' v P, mod-lt v pos),
    )

-- The bucket of a value of 16 or more, by its row and its place in the row.
value_at-row :
    (s q : ℕ)
    → 16 ≤ q
    → q < 32
    → q * 2 ^ s < 2 ^ 64
    → value_at ((s + 1) * 16 + (q - 16)) ≡ q * 2 ^ s
unfolding value_at
value_at-row s q low high fits =
    let large : ltb ((s + 1) * 16 + (q - 16)) 16 ≡ false = ground arith in
    let row : ((s + 1) * 16 + (q - 16)) / 16 - 1 ≡ s = omega arith in
    let place : 16 + ((s + 1) * 16 + (q - 16)) % 16 ≡ q = omega arith in
    rw (large, row, place) (omega arith)

power_of_row : (o : ℕ) → 4 ≤ o → (2 ^ o ≡ 2 ^ (o - 4) * 16) × (2 ^ suc o ≡ 2 ^ (o - 4) * 32)
power_of_row o h =
    let e : o ≡ suc (suc (suc (suc (o - 4)))) = omega arith in
    let low : 2 ^ suc (suc (suc (suc (o - 4)))) ≡ 2 ^ (o - 4) * 16 =
      rw (pow-suc, pow-suc, pow-suc, pow-suc) (omega arith) in
    let whole : 2 ^ o ≡ 2 ^ (o - 4) * 16 = ap (λ (k : ℕ). 2 ^ k) e ∙ low in
    (whole, rw pow-suc (omega arith))

-- The leading bit of a number of 16 or more stands at 4 or above.
leading_bit_high : (m : ℕ) → 16 ≤ m → m < 2 ^ suc (leading_bit 63 m) → 4 ≤ leading_bit 63 m
leading_bit_high m high below = elim (Bool-cases (leb 4 (leading_bit 63 m))) [
  | inl e ↦ leb→le 4 (leading_bit 63 m) e
  | inr e ↦
      let cap : 2 ^ suc (leading_bit 63 m) ≤ 2 ^ 4 =
        pow-le-pow_right (omega arith) {j = 4} (ground arith) in
      omega arith
]

bucket_small : (v : ℕ) → ltb v 16 ≡ true → bucket v ≡ v
unfolding bucket
bucket_small v e = rw e

bucket_large :
    (v : ℕ)
    → ltb v 16 ≡ false
    → bucket v ≡ (leading_bit 63 v - 4 + 1) * 16 + (v / 2 ^ (leading_bit 63 v - 4) - 16)
unfolding bucket
bucket_large v e = rw e

value_at_small : (v : ℕ) → ltb v 16 ≡ true → value_at v ≡ v
unfolding value_at
value_at_small v e = rw e

-- Every 64-bit value has a bucket among the 976, and the least value of its bucket is at most the
-- value and less than it by at most a sixteenth.
pub value_at-bucket :
    (v : ℕ)
    → v < 2 ^ 64
    → (bucket v < buckets) × (value_at (bucket v) ≤ v) × ((v - value_at (bucket v)) * 16 ≤ v)
value_at-bucket v fits = elim (Bool-cases (ltb v 16)) [
  | inl e ↦
      let same : value_at (bucket v) ≡ v = ap value_at (bucket_small v e) ∙ value_at_small v e in
      (rw (bucket_small v e) (ground arith), omega arith, omega arith)
  | inr e ↦
      let large : 16 ≤ v = ground arith in
      let (cap, low, high) = leading_bit_bounds 63 v (omega arith) fits in
      let four = leading_bit_high v large high in
      let (whole, double) = power_of_row (leading_bit 63 v) four in
      let (at_least, below, under, near) =
        quotient_bounds v (2 ^ (leading_bit 63 v - 4)) (omega arith) (omega arith) in
      let same : value_at (bucket v) ≡ v / 2 ^ (leading_bit 63 v - 4) * 2 ^ (leading_bit 63 v - 4) =
        ap value_at (bucket_large v e)
        ∙ value_at-row (leading_bit 63 v - 4) (v / 2 ^ (leading_bit 63 v - 4)) at_least below
            (omega arith) in
      (rw (bucket_large v e) (omega arith), omega arith, omega arith)
]
