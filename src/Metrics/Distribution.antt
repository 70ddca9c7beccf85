-- ===== src/Metrics/Distribution.antt =====
-- sample_distribution_t of firmware/main/metrics.h, with distribution_reset, sample_hash and
-- distribution_add of firmware/main/metrics.c.
pub mod Summary
pub mod Quantile
use esp_now_harness.Common.{
  ℕ, zero, suc, ◌+◌, ◌*◌, ◌/◌, ◌%◌, ◌^◌, ◌-◌, bit_xor, List, ltb, if◌then◌else◌, set, replicate,
  u32, u64,
}

abbrev pub metric_sample_capacity : ℕ
metric_sample_capacity = 8192

abbrev pub uint32_max : ℕ
uint32_max = 2 ^ 32 - 1

-- A multiple of `ulp` next to `n`; of two as near, the even one.
unfoldable pub nearest : ℕ → ℕ → ℕ
nearest ulp n =
    let q = n / ulp in
    let r = n % ulp in
    if ltb (2 * r) ulp
    then q * ulp
    else if ltb ulp (2 * r)
    then (q + 1) * ulp
    else (q + q % 2) * ulp

-- The rounding of a whole number to 113 bits, where the last of them counts 2 ^ k or more.
unfoldable pub round_from : ℕ → ℕ → ℕ → ℕ
round_from zero k n = nearest (2 ^ k) n
round_from (suc fuel) k n =
    let more = round_from fuel (k + 1) n in
    if ltb n (2 ^ (113 + k)) then nearest (2 ^ k) n else more

-- A whole number below 2 ^ 129 as a long double of the target, whose significand has 113 bits.
unfoldable pub long_double : ℕ → ℕ
unfolding round_from
long_double n = round_from 16 0 n

-- `sum_sq` is a long double. It holds whole numbers only.
pub record SampleDistribution : Type 0 where
  pub samples : List ℕ  -- uint32_t[METRIC_SAMPLE_CAPACITY]
  pub reservoir_count : ℕ  -- uint32_t
  pub sample_count : ℕ  -- uint64_t
  pub sum : ℕ  -- uint64_t
  pub sum_sq : ℕ
  pub min : ℕ  -- uint32_t
  pub max : ℕ  -- uint32_t

unfoldable pub distribution_reset : SampleDistribution
distribution_reset = record {
  samples = replicate metric_sample_capacity 0;
  reservoir_count = 0;
  sample_count = 0;
  sum = 0;
  sum_sq = 0;
  min = uint32_max;
  max = 0;
}

unfoldable pub sample_hash : ℕ → ℕ
sample_hash value =
    let v1 = bit_xor value (value / 2 ^ 30) in
    let v2 = u64 (v1 * 0xbf58476d1ce4e5b9) in
    let v3 = bit_xor v2 (v2 / 2 ^ 27) in
    let v4 = u64 (v3 * 0x94d049bb133111eb) in bit_xor v4 (v4 / 2 ^ 31)

-- `value > UINT32_MAX ? UINT32_MAX : (uint32_t)value`
unfoldable pub bounded_u32 : ℕ → ℕ
bounded_u32 value = if ltb uint32_max value then uint32_max else u32 value

unfoldable pub distribution_add : SampleDistribution → ℕ → SampleDistribution
distribution_add distribution value =
    let bounded = bounded_u32 value in
    let d = record distribution {
      sample_count = u64 (distribution.sample_count + 1);
      sum = u64 (distribution.sum + bounded);
      sum_sq = long_double (distribution.sum_sq + bounded * bounded);
      min = if ltb bounded distribution.min then bounded else distribution.min;
      max = if ltb distribution.max bounded then bounded else distribution.max;
    } in
    let slot = sample_hash d.sample_count % d.sample_count in
    if ltb d.reservoir_count metric_sample_capacity
    then record d {
      samples = set d.samples d.reservoir_count bounded;
      reservoir_count = u32 (d.reservoir_count + 1);
    }
    else if ltb slot metric_sample_capacity
    then record d { samples = set d.samples slot bounded }
    else d
