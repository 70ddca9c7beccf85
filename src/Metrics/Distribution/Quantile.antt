-- ===== src/Metrics/Distribution/Quantile.antt =====
-- compare_u32, nearest_rank and distribution_json of firmware/main/metrics.c.
-- The mean and the standard deviation of the report are floating-point quotients, in Metrics/Rates.
pub mod Sorted
pub mod Ranks
pub mod Order
use esp_now_harness.Common.{
  ℕ, ◌+◌, ◌-◌, ◌≤◌, Bool, List, [], ◌∷◌, ◌++◌, ltb, ◌==◌, if◌then◌else◌, get_or, take, drop,
}
use esp_now_harness.Common.Int.{ℤ, pos, pos_part, sub_ℕ}
use esp_now_harness.Metrics.Distribution.{SampleDistribution}

abbrev bool_to_ℕ : Bool → ℕ
bool_to_ℕ b = if b then 1 else 0

-- `(a > b) - (a < b)`
unfoldable pub compare_u32 : ℕ → ℕ → ℤ
compare_u32 a b = sub_ℕ (bool_to_ℕ (ltb b a)) (bool_to_ℕ (ltb a b))

-- qsort of the C library, on values that only the comparison sees: the sorted order of numbers is
-- unique, so any algorithm gives this list.
unfoldable pub insert_by : (ℕ → ℕ → ℤ) → ℕ → List ℕ → List ℕ
insert_by cmp x [] = x ∷ []
insert_by cmp x (y ∷ ys) = if pos_part (cmp x y) == 0 then x ∷ (y ∷ ys) else y ∷ insert_by cmp x ys

unfoldable pub qsort : (ℕ → ℕ → ℤ) → List ℕ → List ℕ
unfolding insert_by
qsort cmp [] = []
qsort cmp (x ∷ xs) = insert_by cmp x (qsort cmp xs)

-- `ceil_times n` is `(size_t)ceil(quantile * n)`.
unfoldable pub nearest_rank : SampleDistribution → (ℕ → ℕ) → ℕ
nearest_rank distribution ceil_times =
    let count = distribution.reservoir_count in
    let rank = ceil_times count in
    let rank1 = if ltb rank 1 then 1 else rank in
    let rank2 = if ltb count rank1 then count else rank1 in
    if count == 0 then 0 else get_or distribution.samples (rank2 - 1) 0

-- The quantiles of the report.
pub data Quantile : Type 0 where
  q50 q90 q95 q99 q999 : Quantile

pub record DistributionReport : Type 0 where
  pub sample_count : ℕ
  pub reservoir_count : ℕ
  pub min_us : ℕ
  pub p50_us : ℕ
  pub p90_us : ℕ
  pub p95_us : ℕ
  pub p99_us : ℕ
  pub p999_us : ℕ
  pub max_us : ℕ

-- The sort in place of the retained samples.
unfoldable pub sort_samples : SampleDistribution → SampleDistribution
sort_samples d = record d {
  samples =
      qsort compare_u32 (take d.reservoir_count d.samples) ++ drop d.reservoir_count d.samples;
}

-- The sorted distribution and the report. `ceil_times q n` is `(size_t)ceil(q * n)` in doubles.
unfoldable pub distribution_json :
    (Quantile → ℕ → ℕ) → SampleDistribution → SampleDistribution × DistributionReport
distribution_json ceil_times distribution =
    let d = sort_samples distribution in
    (
      d,
      record {
        sample_count = d.sample_count;
        reservoir_count = d.reservoir_count;
        min_us = if d.sample_count == 0 then 0 else d.min;
        p50_us = nearest_rank d (ceil_times q50);
        p90_us = nearest_rank d (ceil_times q90);
        p95_us = nearest_rank d (ceil_times q95);
        p99_us = nearest_rank d (ceil_times q99);
        p999_us = nearest_rank d (ceil_times q999);
        max_us = d.max;
      },
    )
