-- ===== src/Telemetry/Histogram.antt =====
-- crates/adabt-telemetry/src/histogram.rs: a log-linear histogram of 64-bit values.
pub mod Bounds
pub mod Merge
mod Tests
use a_da_bt.Prelude.{
  ℕ, zero, suc, ◌+◌, ◌-◌, ◌*◌, ◌/◌, ◌%◌, ◌^◌, min, max, List, [], ◌∷◌, ltb, leb, ◌==◌,
  if◌then◌else◌, Option, some, none, set, get_elem?,
}
use a_da_bt.Core.Float.{leading_bit}

-- `BUCKETS`: 16 for each of 61 rows.
abbrev pub buckets : ℕ
buckets = 976

pub record Histogram : Type 0 where
  pub counts : List ℕ
  pub count : ℕ
  pub sum : ℕ
  pub min : ℕ
  pub max : ℕ

-- `v >> shift` with the leading bit at position 4; `63 - leading_zeros` is its own position.
unfoldable pub bucket : ℕ → ℕ
unfolding leading_bit
bucket v =
    let shift = leading_bit 63 v - 4 in
    let sub = v / 2 ^ shift - 16 in if ltb v 16 then v else (shift + 1) * 16 + sub

-- The least value that falls in the bucket; `<<` drops what passes 64 bits.
unfoldable pub value_at : ℕ → ℕ
value_at i = if ltb i 16 then i else (16 + i % 16) * 2 ^ (i / 16 - 1) % 2 ^ 64

unfoldable pub zeros : ℕ → List ℕ
zeros zero = []
zeros (suc n) = 0 ∷ zeros n

unfoldable pub new : Histogram
unfolding zeros
new = record { counts = zeros buckets; count = 0; sum = 0; min = 2 ^ 64 - 1; max = 0 }

-- `counts[i] += 1`. A counter wraps at 64 bits; the index is in range.
unfoldable pub bump : List ℕ → ℕ → List ℕ
bump [] i = []
bump (c ∷ cs) zero = (c + 1) % 2 ^ 64 ∷ cs
bump (c ∷ cs) (suc i) = c ∷ bump cs i

abbrev pub saturating_add : ℕ → ℕ → ℕ
saturating_add a b = min (a + b) (2 ^ 64 - 1)

-- `record`, which is a keyword here.
unfoldable pub record_value : Histogram → ℕ → Histogram
unfolding bump bucket
record_value h v = record {
  counts = bump h.counts (bucket v);
  count = (h.count + 1) % 2 ^ 64;
  sum = saturating_add h.sum v;
  min = min h.min v;
  max = max h.max v;
}

-- The loop of `merge`, over both arrays.
unfoldable pub add_counts : List ℕ → List ℕ → List ℕ
add_counts [] ys = []
add_counts (a ∷ xs) [] = a ∷ xs
add_counts (a ∷ xs) (b ∷ ys) = (a + b) % 2 ^ 64 ∷ add_counts xs ys

unfoldable pub merge : Histogram → Histogram → Histogram
unfolding add_counts
merge h other = record {
  counts = add_counts h.counts other.counts;
  count = (h.count + other.count) % 2 ^ 64;
  sum = saturating_add h.sum other.sum;
  min = min h.min other.min;
  max = max h.max other.max;
}

unfoldable pub min_of : Histogram → ℕ
min_of h = if h.count == 0 then 0 else h.min

-- The loop of `percentile` from bucket i, for a target count; the code computes the target from
-- the percentage in floats, and starts only where something was recorded.
unfoldable pub percentile_loop : Histogram → ℕ → List ℕ → ℕ → ℕ → ℕ
unfolding value_at
percentile_loop h target [] i seen = h.max
percentile_loop h target (c ∷ cs) i seen =
    let skipped = percentile_loop h target cs (suc i) seen in
    let passed = percentile_loop h target cs (suc i) (seen + c) in
    if c == 0 then skipped else if leb target (seen + c) then max (value_at i) h.min else passed

unfoldable pub percentile : Histogram → ℕ → ℕ
unfolding percentile_loop
percentile h target = if h.count == 0 then 0 else percentile_loop h target h.counts 0 0
