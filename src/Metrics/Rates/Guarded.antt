-- ===== src/Metrics/Rates/Guarded.antt =====
-- No quotient of the report in firmware/main/metrics.c is by zero.
use esp_now_harness.Common.{ℕ, ◌≤◌, ◌≡◌, refl, inl, inr, ◌==◌, if◌then◌else◌, Bool-cases, arith}
use esp_now_harness.Metrics.{Metrics}
use esp_now_harness.Metrics.Distribution.{SampleDistribution}
use esp_now_harness.Metrics.Report.{window_us}
use esp_now_harness.Metrics.Rates.{
  Doubles, quotient, per_window, mean, variance, spread, rates, report_doubles,
}

module _ {D : Type 0} (d : Doubles D) (div' : D → D → D) (div_long' : ℕ → ℕ → D)
    (same : (a : D) (n : ℕ) → 1 ≤ n → div' a (d.of_nat n) ≡ d.div a (d.of_nat n))
    (same_long : (a n : ℕ) → 1 ≤ n → div_long' a n ≡ d.div_long a n) where
  abbrev d' : Doubles D
  d' = record d { div = div'; div_long = div_long' }

  same_quotient : (value : D) (n : ℕ) → quotient d' value n ≡ quotient d value n
  unfolding quotient
  same_quotient value n = elim (Bool-cases (n == 0)) [
    | inl e ↦ rw e refl
    | inr e ↦ rw e (same value n (ground (arith, e)))
  ]

  same_variance : (s : SampleDistribution) → variance d' s ≡ variance d s
  unfolding variance
  same_variance s = elim (Bool-cases (s.sample_count == 0)) [
    | inl e ↦ rw e refl
    | inr e ↦
        let some_samples : 1 ≤ s.sample_count = ground (arith, e) in
        let m = same (d.of_nat s.sum) s.sample_count some_samples in
        let q = same_long s.sum_sq s.sample_count some_samples in
        rw e (λ i. d.sub (q i) (d.mul (m i) (m i)))
  ]

  same_spread : (s : SampleDistribution) → spread d' s ≡ spread d s
  unfolding spread mean
  same_spread s =
      let m = same_quotient (d.of_nat s.sum) s.sample_count in
      let v = same_variance s in
      λ i. record {
        mean_us = m i;
        stddev_us = d.sqrt (if d.is_positive (v i) then v i else d.of_nat 0);
      }

  same_per_window :
      (scale count window : ℕ) → per_window d' scale count window ≡ per_window d scale count window
  unfolding per_window
  same_per_window scale count window =
      same_quotient (d.mul (d.of_nat count) (d.of_nat scale)) window

  same_rates : (g : Metrics) → rates d' g ≡ rates d g
  unfolding rates
  same_rates g =
      let elapsed = window_us g.start_us g.end_us in
      let tx_window = window_us g.first_tx_us g.last_tx_us in
      let rx_window = window_us g.first_rx_us g.last_rx_us in
      let t = g.totals in
      λ i. record {
        tx_pps = same_per_window 1000000 t.tx_submitted elapsed i;
        tx_pps_active = same_per_window 1000000 t.tx_submitted tx_window i;
        rx_pps = same_per_window 1000000 t.rx_packets elapsed i;
        rx_pps_active = same_per_window 1000000 t.rx_packets rx_window i;
        tx_application_bps = same_per_window 8000000 t.tx_bytes elapsed i;
        tx_application_bps_active = same_per_window 8000000 t.tx_bytes tx_window i;
        rx_application_bps = same_per_window 8000000 t.rx_bytes elapsed i;
        goodput_bps = same_per_window 8000000 t.rx_bytes elapsed i;
        goodput_bps_active = same_per_window 8000000 t.rx_bytes rx_window i;
      }

  -- No quotient of the report is by zero, whatever the counters and the times of the run are: two
  -- divisions of doubles, and of long doubles, that agree wherever the divisor is a positive whole
  -- number give the same rates, means and deviations.
  pub report_doubles_guarded : (g : Metrics) → report_doubles d' g ≡ report_doubles d g
  unfolding report_doubles
  report_doubles_guarded g =
      let r = same_rates g in
      let rssi = same_quotient (d.of_int g.rssi_sum) g.rssi_count in
      let rtt = same_spread g.rtt in
      let jitter = same_quotient (d.of_nat g.jitter_sum) g.jitter_count in
      let lateness = same_spread g.dispatch_lateness in
      λ i. record {
        rates = r i;
        rssi_mean = rssi i;
        rtt = rtt i;
        jitter_mean_abs_delta_us = jitter i;
        dispatch_lateness = lateness i;
      }
