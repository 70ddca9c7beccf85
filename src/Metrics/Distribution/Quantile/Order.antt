-- ===== src/Metrics/Distribution/Quantile/Order.antt =====
-- The numbers of a report stand in order.
use esp_now_harness.Common.{
  ℕ, zero, suc, ◌-◌, ◌^◌, ◌≤◌, ◌<◌, ◌≡◌, refl, true, List, [], ◌∷◌, arith, length, All, get_or,
  take, contains, length-take,
}
use esp_now_harness.Metrics.Distribution.{SampleDistribution}
use esp_now_harness.Metrics.Distribution.Summary.{
  recorded, least, greatest, add_all, Summarises, add_all-Summarises,
}
use esp_now_harness.Metrics.Distribution.Quantile.{
  Quantile, q50, q90, q95, q99, q999, compare_u32, qsort, nearest_rank, sort_samples,
  distribution_json,
}
use esp_now_harness.Metrics.Distribution.Quantile.Sorted.{
  Ascending, qsort-Ascending, All-qsort, qsort_counts,
}
use esp_now_harness.Metrics.Distribution.Quantile.Ranks.{
  All-get_or, clamped_rank, nearest_rank-sort_samples,
}

get_or_mono :
    (xs : List ℕ) (i j : ℕ) → Ascending xs → i ≤ j → j < length xs → get_or xs i 0 ≤ get_or xs j 0
get_or_mono [] i j a h k = absurd (omega arith)
get_or_mono (x ∷ xs) zero zero a h k = omega arith
get_or_mono (x ∷ xs) zero (suc j) a h k = All-get_or (λ y. x ≤ y) xs j a.0 (omega arith)
get_or_mono (x ∷ xs) (suc i) zero a h k = absurd (omega arith)
get_or_mono (x ∷ xs) (suc i) (suc j) a h k = get_or_mono xs i j a.1 (omega arith) (omega arith)

abbrev Within : List ℕ → ℕ → Type 0
Within vs x = (least vs ≤ x) × (x ≤ greatest vs)

contains-Within : (vs : List ℕ) (x : ℕ) → contains vs x ≡ true → Within vs x
unfolding contains least greatest
contains-Within [] x h = ground (arith, h)
contains-Within (v ∷ vs) x h = ground (arith, contains-Within vs x)

All-take {ℓ} :
    (P : ℕ → Type ℓ) (xs : List ℕ) (n : ℕ)
    → ((i : ℕ) → i < n → P (get_or xs i 0))
    → n ≤ length xs
    → All P (take n xs)
All-take P xs zero h k = tt
All-take P [] (suc n) h k = absurd (omega arith)
All-take P (x ∷ xs) (suc n) h k =
    (h 0 (omega arith), All-take P xs n (λ i l. h (suc i) (omega arith)) (omega arith))

-- The numbers of any later quantile are at least those of an earlier one.
abbrev pub IsMonotone : (Quantile → ℕ → ℕ) → Type 0
IsMonotone ceil_times =
    (n : ℕ)
    → (ceil_times q50 n ≤ ceil_times q90 n)
      × (ceil_times q90 n ≤ ceil_times q95 n)
      × (ceil_times q95 n ≤ ceil_times q99 n)
      × (ceil_times q99 n ≤ ceil_times q999 n)

module _ (vs : List ℕ) (d : SampleDistribution) (s : Summarises vs d) (some : 1 ≤ length vs) where
  kept_fits : (1 ≤ d.reservoir_count) × (d.reservoir_count ≤ length d.samples)
  kept_fits = ground (arith, s.capacity, s.retained)

  abbrev sorted : List ℕ
  sorted = qsort compare_u32 (take d.reservoir_count d.samples)

  length-sorted : length sorted ≡ d.reservoir_count
  length-sorted = ground (
    arith,
    qsort_counts 0 (take d.reservoir_count d.samples),
    length-take d.reservoir_count d.samples kept_fits.1,
  )

  -- One number of the report.
  rank_Within :
      (ceil_times : ℕ → ℕ) → Within (recorded vs) (nearest_rank (sort_samples d) ceil_times)
  rank_Within ceil_times = rw (nearest_rank-sort_samples d ceil_times kept_fits.0 kept_fits.1) (
      All-get_or (Within (recorded vs)) sorted
        (clamped_rank (ceil_times d.reservoir_count) d.reservoir_count - 1)
        (All-qsort (Within (recorded vs)) (take d.reservoir_count d.samples) (
          All-take (Within (recorded vs)) d.samples d.reservoir_count
            (λ i h. contains-Within (recorded vs) (get_or d.samples i 0) (s.samples_recorded i h))
            kept_fits.1))
        (ground (arith, length-sorted, kept_fits)))

  rank_mono :
      (f g : ℕ → ℕ)
      → f d.reservoir_count ≤ g d.reservoir_count
      → nearest_rank (sort_samples d) f ≤ nearest_rank (sort_samples d) g
  rank_mono f g h = rw (nearest_rank-sort_samples d f kept_fits.0 kept_fits.1) (
      rw (nearest_rank-sort_samples d g kept_fits.0 kept_fits.1) (
        get_or_mono sorted (clamped_rank (f d.reservoir_count) d.reservoir_count - 1)
          (clamped_rank (g d.reservoir_count) d.reservoir_count - 1)
          (qsort-Ascending (take d.reservoir_count d.samples)) (ground arith)
          (ground (arith, length-sorted, kept_fits))))

sort_samples_counts :
    (d : SampleDistribution)
    → ((sort_samples d).sample_count ≡ d.sample_count)
      × ((sort_samples d).min ≡ d.min)
      × ((sort_samples d).max ≡ d.max)
unfolding sort_samples
sort_samples_counts d = (refl, refl, refl)

-- After at least one and fewer than 2 ^ 64 values, if the computed ranks do not fall from one
-- quantile to the next, the report's numbers stand in the order minimum, p50, p90, p95, p99, p999,
-- maximum, and the minimum and maximum are the least and the greatest of all recorded values.
pub distribution_json_ordered :
    (ceil_times : Quantile → ℕ → ℕ) (vs : List ℕ)
    → IsMonotone ceil_times
    → 1 ≤ length vs
    → length vs < 2 ^ 64
    → let r = (distribution_json ceil_times (add_all vs)).1 in
      (r.min_us ≡ least (recorded vs))
      × (r.min_us ≤ r.p50_us)
      × (r.p50_us ≤ r.p90_us)
      × (r.p90_us ≤ r.p95_us)
      × (r.p95_us ≤ r.p99_us)
      × (r.p99_us ≤ r.p999_us)
      × (r.p999_us ≤ r.max_us)
      × (r.max_us ≡ greatest (recorded vs))
unfolding distribution_json
distribution_json_ordered ceil_times vs mono some few =
    let d = add_all vs in
    let s = add_all-Summarises vs few in
    let steps = mono d.reservoir_count in
    ground (
      arith,
      s.counted,
      s.min_least,
      s.max_greatest,
      rank_Within vs d s some (ceil_times q50),
      rank_Within vs d s some (ceil_times q999),
      rank_mono vs d s some (ceil_times q50) (ceil_times q90) steps.0,
      rank_mono vs d s some (ceil_times q90) (ceil_times q95) steps.1,
      rank_mono vs d s some (ceil_times q95) (ceil_times q99) steps.2,
      rank_mono vs d s some (ceil_times q99) (ceil_times q999) steps.3,
      sort_samples_counts d,
    )
