-- ===== src/Telemetry/Histogram/Tests.antt =====
-- The theorems on crates/adabt-telemetry/src/histogram.rs, at concrete inputs.
use a_da_bt.Prelude.{ℕ, ◌-◌, ◌*◌, ◌^◌, ◌≤◌, ◌<◌, ◌≡◌, refl, List, [], ◌∷◌, ◌++◌, arith}
use a_da_bt.Telemetry.Histogram.{buckets, bucket, value_at, merge, new, percentile, record_value}
use a_da_bt.Telemetry.Histogram.Bounds.{value_at-bucket}
use a_da_bt.Telemetry.Histogram.Merge.{recorded, merge-recorded}

last_bucket : bucket (2 ^ 64 - 1) ≡ buckets - 1
unfolding bucket
last_bucket = refl

value_at-bucket_example :
    (bucket 1000003 < buckets)
    × (value_at (bucket 1000003) ≤ 1000003)
    × ((1000003 - value_at (bucket 1000003)) * 16 ≤ 1000003)
value_at-bucket_example = value_at-bucket 1000003 (omega arith)

abbrev fast : List ℕ
fast = 3 ∷ 17 ∷ 3 ∷ []

abbrev slow : List ℕ
slow = 1000003 ∷ []

third_of_four : percentile (recorded (fast ++ slow)) 3 ≡ 17
unfolding percentile recorded record_value new
third_of_four = refl

merge-recorded_example : merge (recorded fast) (recorded slow) ≡ recorded (fast ++ slow)
merge-recorded_example = merge-recorded fast slow
