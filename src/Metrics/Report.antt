-- ===== src/Metrics/Report.antt =====
-- metrics_json of firmware/main/metrics.c: the whole numbers that the report holds. The
-- rates, means and deviations, which are doubles, are in Rates.
use esp_now_harness.Common.{ℕ, ◌+◌, ◌-◌, ◌*◌, ◌&&◌, List, [], ◌∷◌, ltb, ◌==◌, if◌then◌else◌, u64}
use esp_now_harness.Common.Int.{ℤ, pos}
use esp_now_harness.Harness.{Config, saturation, latency_load}
use esp_now_harness.Metrics.Stream.{StreamMetric}
use esp_now_harness.Metrics.Distribution.Quantile.{Quantile, DistributionReport, distribution_json}
use esp_now_harness.Metrics.{Metrics, MetricTotals}

pub record StreamReport : Type 0 where
  pub stream_id : ℕ
  pub tx_requested : ℕ
  pub tx_submitted : ℕ
  pub rx_packets : ℕ
  pub missing : ℕ
  pub duplicate : ℕ
  pub out_of_order : ℕ

pub record Report : Type 0 where
  pub totals : MetricTotals
  pub elapsed_us : ℕ
  pub first_tx_us : ℕ
  pub last_tx_us : ℕ
  pub tx_window_us : ℕ
  pub first_rx_us : ℕ
  pub last_rx_us : ℕ
  pub rx_window_us : ℕ
  pub requested_pps : ℕ
  pub rssi_min : ℤ
  pub rssi_max : ℤ
  pub histogram : List ℕ
  pub rtt : DistributionReport
  pub jitter_max_abs_delta_us : ℕ
  pub dispatch_lateness : DistributionReport
  pub streams : List StreamReport

-- `gaps += g_metrics.streams[i].gaps` over the streams.
unfoldable pub add_gaps : ℕ → List StreamMetric → ℕ
add_gaps gaps [] = gaps
add_gaps gaps (m ∷ ms) = add_gaps (u64 (gaps + m.gaps)) ms

unfoldable pub window_us : ℕ → ℕ → ℕ
window_us first last = if ltb first last then last - first else 0

unfoldable pub requested_pps : Config → ℕ
requested_pps config = elim config.mode [
  | saturation ↦ 0
  | latency_load ↦ u64 (config.background_rate + config.probe_rate)
  | _ ↦ u64 (config.rate_per_stream * config.streams)
]

-- Streams with no traffic are skipped; `i` is the index of the first.
unfoldable pub stream_reports : ℕ → List StreamMetric → List StreamReport
stream_reports i [] = []
stream_reports i (m ∷ ms) =
    let item : StreamReport = record {
      stream_id = i;
      tx_requested = m.tx_requested;
      tx_submitted = m.tx_submitted;
      rx_packets = m.rx;
      missing = m.gaps;
      duplicate = m.duplicate;
      out_of_order = m.out_of_order;
    } in
    let rest = stream_reports (i + 1) ms in
    if (m.tx_requested == 0) && (m.rx == 0) then rest else item ∷ rest

unfoldable pub metrics_json : (Quantile → ℕ → ℕ) → Config → Metrics → Metrics × Report
metrics_json ceil_times config g =
    let t = g.totals in
    let totals = record t { estimated_loss = add_gaps 0 g.streams } in
    let (rtt, rtt_report) = distribution_json ceil_times g.rtt in
    let (lateness, lateness_report) = distribution_json ceil_times g.dispatch_lateness in
    (
      record g { totals = totals; rtt = rtt; dispatch_lateness = lateness },
      record {
        totals = totals;
        elapsed_us = window_us g.start_us g.end_us;
        first_tx_us = g.first_tx_us;
        last_tx_us = g.last_tx_us;
        tx_window_us = window_us g.first_tx_us g.last_tx_us;
        first_rx_us = g.first_rx_us;
        last_rx_us = g.last_rx_us;
        rx_window_us = window_us g.first_rx_us g.last_rx_us;
        requested_pps = requested_pps config;
        rssi_min = if g.rssi_count == 0 then pos 0 else g.rssi_min;
        rssi_max = if g.rssi_count == 0 then pos 0 else g.rssi_max;
        histogram = g.rssi_hist;
        rtt = rtt_report;
        jitter_max_abs_delta_us = g.jitter_max;
        dispatch_lateness = lateness_report;
        streams = stream_reports 0 g.streams;
      },
    )
