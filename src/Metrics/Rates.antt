-- ===== src/Metrics/Rates.antt =====
-- The floating-point numbers of the report: distribution_json and metrics_json of
-- firmware/main/metrics.c. A double is a value of `D`, with the operations that the code uses.
pub mod Guarded
pub mod Mean
pub mod Tests
use esp_now_harness.Common.{ℕ, Bool, ◌==◌, if◌then◌else◌}
use esp_now_harness.Common.Int.{ℤ}
use esp_now_harness.Metrics.{Metrics}
use esp_now_harness.Metrics.Distribution.{SampleDistribution}
use esp_now_harness.Metrics.Report.{window_us}

pub record Doubles (D : Type 0) : Type 0 where
  pub of_nat : ℕ → D  -- the conversion of an unsigned integer
  pub of_int : ℤ → D
  pub mul : D → D → D
  pub div : D → D → D
  pub sub : D → D → D
  pub sqrt : D → D
  pub is_positive : D → Bool  -- x > 0
  pub div_long : ℕ → ℕ → D  -- a quotient in long double, as a double

pub record Spread (D : Type 0) : Type 0 where
  pub mean_us : D
  pub stddev_us : D

pub record Rates (D : Type 0) : Type 0 where
  pub tx_pps : D
  pub tx_pps_active : D
  pub rx_pps : D
  pub rx_pps_active : D
  pub tx_application_bps : D
  pub tx_application_bps_active : D
  pub rx_application_bps : D
  pub goodput_bps : D
  pub goodput_bps_active : D

pub record DoubleReport (D : Type 0) : Type 0 where
  pub rates : Rates D
  pub rssi_mean : D
  pub rtt : Spread D
  pub jitter_mean_abs_delta_us : D
  pub dispatch_lateness : Spread D

module _ {D : Type 0} (d : Doubles D) where
  open d use {of_nat, of_int, mul, div, sub, sqrt, is_positive, div_long}

  -- `n ? value / n : 0`
  unfoldable pub quotient : D → ℕ → D
  quotient value n = if n == 0 then of_nat 0 else div value (of_nat n)

  -- `window ? count * scale / window : 0`
  unfoldable pub per_window : ℕ → ℕ → ℕ → D
  unfolding quotient
  per_window scale count window = quotient (mul (of_nat count) (of_nat scale)) window

  unfoldable pub mean : SampleDistribution → D
  unfolding quotient
  mean distribution = quotient (of_nat distribution.sum) distribution.sample_count

  unfoldable pub variance : SampleDistribution → D
  unfolding mean
  variance distribution =
      let mean_us = mean distribution in
      if distribution.sample_count == 0
      then of_nat 0
      else sub (div_long distribution.sum_sq distribution.sample_count) (mul mean_us mean_us)

  unfoldable pub spread : SampleDistribution → Spread D
  unfolding variance
  spread distribution =
      let v = variance distribution in
      record {
        mean_us = mean distribution;
        stddev_us = sqrt (if is_positive v then v else of_nat 0);
      }

  unfoldable pub rates : Metrics → Rates D
  unfolding per_window
  rates g =
      let elapsed = window_us g.start_us g.end_us in
      let tx_window = window_us g.first_tx_us g.last_tx_us in
      let rx_window = window_us g.first_rx_us g.last_rx_us in
      let t = g.totals in
      record {
        tx_pps = per_window 1000000 t.tx_submitted elapsed;
        tx_pps_active = per_window 1000000 t.tx_submitted tx_window;
        rx_pps = per_window 1000000 t.rx_packets elapsed;
        rx_pps_active = per_window 1000000 t.rx_packets rx_window;
        tx_application_bps = per_window 8000000 t.tx_bytes elapsed;
        tx_application_bps_active = per_window 8000000 t.tx_bytes tx_window;
        rx_application_bps = per_window 8000000 t.rx_bytes elapsed;
        goodput_bps = per_window 8000000 t.rx_bytes elapsed;
        goodput_bps_active = per_window 8000000 t.rx_bytes rx_window;
      }

  unfoldable pub report_doubles : Metrics → DoubleReport D
  unfolding rates spread
  report_doubles g = record {
    rates = rates g;
    rssi_mean = quotient (of_int g.rssi_sum) g.rssi_count;
    rtt = spread g.rtt;
    jitter_mean_abs_delta_us = quotient (of_nat g.jitter_sum) g.jitter_count;
    dispatch_lateness = spread g.dispatch_lateness;
  }
