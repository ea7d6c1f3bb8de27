-- ===== src/Telemetry/Histogram/Merge.antt =====
-- crates/adabt-telemetry/src/histogram.rs: merging is recording the other's values.
use a_da_bt.Prelude.{
  ℕ, zero, suc, ◌+◌, ◌%◌, ◌^◌, ◌<◌, ◌≡◌, refl, sym, ap, ◌∙◌, List, [], ◌∷◌, ◌++◌, arith, length,
  All,
}
use a_da_bt.Telemetry.Histogram.{
  buckets, Histogram, bucket, zeros, new, bump, record_value, add_counts, merge,
}

-- The histogram of a list of values, the last one recorded first.
unfoldable pub recorded : List ℕ → Histogram
recorded [] = new
recorded (v ∷ vs) = record_value (recorded vs) v

Histogram-path :
    (h g : Histogram)
    → h.counts ≡ g.counts
    → h.count ≡ g.count
    → h.sum ≡ g.sum
    → h.min ≡ g.min
    → h.max ≡ g.max
    → h ≡ g
Histogram-path h g p q r s t =
    λ k. record { counts = p k; count = q k; sum = r k; min = s k; max = t k }

add_counts-bump :
    (xs ys : List ℕ) (i : ℕ)
    → length xs ≡ length ys
    → add_counts (bump xs i) ys ≡ bump (add_counts xs ys) i
unfolding add_counts bump
add_counts-bump [] ys i h = refl
add_counts-bump (a ∷ xs) [] i h = absurd (omega arith)
add_counts-bump (a ∷ xs) (b ∷ ys) zero h = ap (λ c. c ∷ add_counts xs ys) (omega arith)
add_counts-bump (a ∷ xs) (b ∷ ys) (suc i) h =
    ap (λ cs. (a + b) % 2 ^ 64 ∷ cs) (add_counts-bump xs ys i (omega arith))

length-bump : (xs : List ℕ) (i : ℕ) → length (bump xs i) ≡ length xs
unfolding bump
length-bump [] i = refl
length-bump (x ∷ xs) zero = refl
length-bump (x ∷ xs) (suc i) = ap suc (length-bump xs i)

length-zeros : (n : ℕ) → length (zeros n) ≡ n
unfolding zeros
length-zeros zero = refl
length-zeros (suc n) = ap suc (length-zeros n)

abbrev InRange : ℕ → Type 0
InRange c = c < 2 ^ 64

bump-InRange : (xs : List ℕ) (i : ℕ) → All InRange xs → All InRange (bump xs i)
unfolding bump
bump-InRange [] i h = tt
bump-InRange (x ∷ xs) zero h = (omega arith, h.1)
bump-InRange (x ∷ xs) (suc i) h = (h.0, bump-InRange xs i h.1)

zeros-InRange : (n : ℕ) → All InRange (zeros n)
unfolding zeros
zeros-InRange zero = tt
zeros-InRange (suc n) = (omega arith, zeros-InRange n)

add_counts-zeros :
    (ys : List ℕ) (n : ℕ) → length ys ≡ n → All InRange ys → add_counts (zeros n) ys ≡ ys
unfolding add_counts zeros
add_counts-zeros [] zero h all = refl
add_counts-zeros [] (suc n) h all = absurd (omega arith)
add_counts-zeros (y ∷ ys) zero h all = absurd (omega arith)
add_counts-zeros (y ∷ ys) (suc n) h all =
    rw (add_counts-zeros ys n (omega arith) all.1) (ap (λ c. c ∷ ys) (omega (arith, all.0)))

-- The histogram's fields are those of an array and counters of 64 bits.
record IsWord (h : Histogram) : Type 0 where
  counts_length : length h.counts ≡ buckets
  counts_fit : All InRange h.counts
  count_fits : h.count < 2 ^ 64
  sum_fits : h.sum < 2 ^ 64
  min_fits : h.min < 2 ^ 64

recorded-IsWord : (vs : List ℕ) → IsWord (recorded vs)
unfolding recorded new record_value
recorded-IsWord [] = record {
  counts_length = length-zeros buckets;
  counts_fit = zeros-InRange buckets;
  count_fits = omega arith;
  sum_fits = omega arith;
  min_fits = omega arith;
}
recorded-IsWord (v ∷ vs) =
    let w = recorded-IsWord vs in
    record {
      counts_length = length-bump (recorded vs).counts (bucket v) ∙ w.counts_length;
      counts_fit = bump-InRange (recorded vs).counts (bucket v) w.counts_fit;
      count_fits = omega arith;
      sum_fits = omega arith;
      min_fits = omega (arith, w.min_fits);
    }

merge-new : (h : Histogram) → IsWord h → merge new h ≡ h
unfolding merge new
merge-new h w =
    Histogram-path (merge new h) h (add_counts-zeros h.counts buckets w.counts_length w.counts_fit)
      (omega (arith, w.count_fits)) (omega (arith, w.sum_fits)) (omega (arith, w.min_fits))
      (omega arith)

merge-record_value :
    (h g : Histogram) (v : ℕ)
    → length h.counts ≡ length g.counts
    → merge (record_value h v) g ≡ record_value (merge h g) v
unfolding merge record_value
merge-record_value h g v same =
    Histogram-path (merge (record_value h v) g) (record_value (merge h g) v)
      (add_counts-bump h.counts g.counts (bucket v) same) (omega arith) (omega arith) (omega arith)
      (omega arith)

-- Merging the histograms of two lists of values gives the histogram of both lists together, in
-- each bucket and each summary, also where counters wrap or the sum saturates.
pub merge-recorded : (vs ws : List ℕ) → merge (recorded vs) (recorded ws) ≡ recorded (vs ++ ws)
unfolding recorded
merge-recorded [] ws = merge-new (recorded ws) (recorded-IsWord ws)
merge-recorded (v ∷ vs) ws =
    merge-record_value (recorded vs) (recorded ws) v
      ((recorded-IsWord vs).counts_length ∙ sym (recorded-IsWord ws).counts_length)
    ∙ ap (λ h. record_value h v) (merge-recorded vs ws)
