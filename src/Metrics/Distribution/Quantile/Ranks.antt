-- ===== src/Metrics/Distribution/Quantile/Ranks.antt =====
-- `nearest_rank` after the sort is the nearest-rank percentile of the retained samples.
use esp_now_harness.Common.{
  ℕ, zero, suc, ◌-◌, ◌≤◌, ◌<◌, ◌≡◌, refl, List, [], ◌∷◌, ◌++◌, arith, ltb, if◌then◌else◌, length,
  All, get_or, take, drop, length-take,
}
use esp_now_harness.Metrics.Distribution.{SampleDistribution}
use esp_now_harness.Metrics.Distribution.Quantile.{compare_u32, qsort, nearest_rank, sort_samples}
use esp_now_harness.Metrics.Distribution.Quantile.Sorted.{
  Ascending, count_le, count_lt, qsort-Ascending, qsort_counts,
}

get_or-append : (xs ys : List ℕ) (i : ℕ) → i < length xs → get_or (xs ++ ys) i 0 ≡ get_or xs i 0
get_or-append [] ys i h = absurd (omega arith)
get_or-append (x ∷ xs) ys zero h = refl
get_or-append (x ∷ xs) ys (suc i) h = get_or-append xs ys i (omega arith)

pub All-get_or {ℓ} :
    (P : ℕ → Type ℓ) (xs : List ℕ) (i : ℕ) → All P xs → i < length xs → P (get_or xs i 0)
All-get_or P [] i a h = absurd (omega arith)
All-get_or P (x ∷ xs) zero a h = a.0
All-get_or P (x ∷ xs) (suc i) a h = All-get_or P xs i a.1 (omega arith)

count_lt_least : (p : ℕ) (xs : List ℕ) → All (λ y. p ≤ y) xs → count_lt p xs ≡ 0
unfolding count_lt
count_lt_least p [] a = refl
count_lt_least p (x ∷ xs) a = ground (arith, count_lt_least p xs a.1)

-- In an ascending list the entry at `i` has `i + 1` entries up to it, and at most `i` below it.
ranks_Ascending :
    (xs : List ℕ) (i : ℕ)
    → Ascending xs
    → i < length xs
    → (suc i ≤ count_le (get_or xs i 0) xs) × (count_lt (get_or xs i 0) xs ≤ i)
unfolding count_le count_lt
ranks_Ascending [] i a h = absurd (omega arith)
ranks_Ascending (x ∷ xs) zero a h = ground (arith, count_lt_least x xs a.0)
ranks_Ascending (x ∷ xs) (suc i) a h =
    ground (
      arith,
      ranks_Ascending xs i a.1 (omega arith),
      All-get_or (λ y. x ≤ y) xs i a.0 (omega arith),
    )

-- The rank that the source reads: at least 1, and at most the count.
abbrev pub clamped_rank : ℕ → ℕ → ℕ
clamped_rank rank count =
    let rank1 = if ltb rank 1 then 1 else rank in if ltb count rank1 then count else rank1

pub nearest_rank-sort_samples :
    (d : SampleDistribution) (ceil_times : ℕ → ℕ)
    → 1 ≤ d.reservoir_count
    → d.reservoir_count ≤ length d.samples
    → nearest_rank (sort_samples d) ceil_times
      ≡ get_or
          (qsort compare_u32 (take d.reservoir_count d.samples))
          (clamped_rank (ceil_times d.reservoir_count) d.reservoir_count - 1)
          0
unfolding nearest_rank sort_samples
nearest_rank-sort_samples d ceil_times some fits = ground (
  arith,
  length-take d.reservoir_count d.samples fits,
  qsort_counts 0 (take d.reservoir_count d.samples),
  get_or-append (qsort compare_u32 (take d.reservoir_count d.samples))
      (drop d.reservoir_count d.samples)
      (clamped_rank (ceil_times d.reservoir_count) d.reservoir_count - 1),
)

-- For a distribution with at least one retained sample, all within the array: of these samples,
-- at least `rank` are at most the value that `nearest_rank` reads after the sort, and fewer than
-- `rank` are below it, where `rank` is the computed rank, brought into 1 to the number of samples.
pub nearest_rank_lem :
    (d : SampleDistribution) (ceil_times : ℕ → ℕ)
    → 1 ≤ d.reservoir_count
    → d.reservoir_count ≤ length d.samples
    → let rank = clamped_rank (ceil_times d.reservoir_count) d.reservoir_count in
      let value = nearest_rank (sort_samples d) ceil_times in
      let kept = take d.reservoir_count d.samples in
      (rank ≤ count_le value kept) × (count_lt value kept < rank)
nearest_rank_lem d ceil_times some fits =
    let kept = take d.reservoir_count d.samples in
    let rank = clamped_rank (ceil_times d.reservoir_count) d.reservoir_count in
    let size : length kept ≡ d.reservoir_count = length-take d.reservoir_count d.samples fits in
    let value = get_or (qsort compare_u32 kept) (rank - 1) 0 in
    rw (nearest_rank-sort_samples d ceil_times some fits) (
      ground (
        arith,
        size,
        qsort_counts value kept,
        ranks_Ascending (qsort compare_u32 kept) (rank - 1) (qsort-Ascending kept),
      ))
