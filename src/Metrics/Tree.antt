-- ===== src/Metrics/Tree.antt =====
-- The tree that distribution_json and metrics_json of firmware/main/metrics.c make.
use esp_now_harness.Common.{ℕ, [], ◌∷◌, ◌++◌, map}
use esp_now_harness.Output.{Builder, Fields, add_fields, object, array, u64_item}
use esp_now_harness.Metrics.{MetricTotals}
use esp_now_harness.Metrics.Distribution.Quantile.{DistributionReport}
use esp_now_harness.Metrics.Report.{Report, StreamReport}
use esp_now_harness.Metrics.Rates.{Doubles, Spread, Rates, DoubleReport}

module _ {J D : Type 0} (b : Builder J D) (d : Doubles D) where
  open b use {create_number}

  abbrev number : ℕ → J
  number n = u64_item b d n

  unfoldable pub distribution_fields : DistributionReport → Spread D → Fields J
  distribution_fields r s =
      ("sample_count", number r.sample_count)
      ∷ ("reservoir_count", number r.reservoir_count)
      ∷ ("min_us", number r.min_us)
      ∷ ("mean_us", create_number s.mean_us)
      ∷ ("p50_us", number r.p50_us)
      ∷ ("p90_us", number r.p90_us)
      ∷ ("p95_us", number r.p95_us)
      ∷ ("p99_us", number r.p99_us)
      ∷ ("p999_us", number r.p999_us)
      ∷ ("max_us", number r.max_us)
      ∷ ("stddev_us", create_number s.stddev_us)
      ∷ []

  unfoldable pub distribution_tree : DistributionReport → Spread D → J
  unfolding distribution_fields
  distribution_tree r s = object b (distribution_fields r s)

  -- ADD_TOTAL of each counter.
  unfoldable pub counter_fields : MetricTotals → Fields J
  counter_fields t =
      ("tx_requested", number t.tx_requested)
      ∷ ("tx_submitted", number t.tx_submitted)
      ∷ ("tx_bytes", number t.tx_bytes)
      ∷ ("send_cb_success", number t.send_cb_success)
      ∷ ("send_cb_failure", number t.send_cb_failure)
      ∷ ("send_api_failure", number t.send_api_failure)
      ∷ ("tx_slot_timeout", number t.tx_slot_timeout)
      ∷ ("rx_packets", number t.rx_packets)
      ∷ ("rx_bytes", number t.rx_bytes)
      ∷ ("duplicate", number t.duplicate)
      ∷ ("out_of_order", number t.out_of_order)
      ∷ ("estimated_loss", number t.estimated_loss)
      ∷ ("stale", number t.stale)
      ∷ ("invalid", number t.invalid)
      ∷ ("queue_drops", number t.queue_drops)
      ∷ []

  unfoldable pub time_fields : Report → Fields J
  time_fields r =
      ("elapsed_us", number r.elapsed_us)
      ∷ ("first_tx_us", number r.first_tx_us)
      ∷ ("last_tx_us", number r.last_tx_us)
      ∷ ("tx_window_us", number r.tx_window_us)
      ∷ ("first_rx_us", number r.first_rx_us)
      ∷ ("last_rx_us", number r.last_rx_us)
      ∷ ("rx_window_us", number r.rx_window_us)
      ∷ ("requested_pps", number r.requested_pps)
      ∷ []

  unfoldable pub rate_fields : Rates D → Fields J
  rate_fields x =
      ("tx_pps", create_number x.tx_pps)
      ∷ ("tx_pps_active", create_number x.tx_pps_active)
      ∷ ("rx_pps", create_number x.rx_pps)
      ∷ ("rx_pps_active", create_number x.rx_pps_active)
      ∷ ("tx_application_bps", create_number x.tx_application_bps)
      ∷ ("tx_application_bps_active", create_number x.tx_application_bps_active)
      ∷ ("rx_application_bps", create_number x.rx_application_bps)
      ∷ ("goodput_bps", create_number x.goodput_bps)
      ∷ ("goodput_bps_active", create_number x.goodput_bps_active)
      ∷ []

  unfoldable pub total_fields : Report → DoubleReport D → Fields J
  unfolding counter_fields time_fields rate_fields
  total_fields r x = counter_fields r.totals ++ (time_fields r ++ rate_fields x.rates)

  unfoldable pub rssi_fields : Report → DoubleReport D → Fields J
  rssi_fields r x =
      ("min", create_number (d.of_int r.rssi_min))
      ∷ ("max", create_number (d.of_int r.rssi_max))
      ∷ ("mean", create_number x.rssi_mean)
      ∷ ("histogram_minus_127_to_0", array b (map number r.histogram))
      ∷ []

  unfoldable pub jitter_fields : Report → DoubleReport D → Fields J
  jitter_fields r x =
      ("jitter_mean_abs_delta_us", create_number x.jitter_mean_abs_delta_us)
      ∷ ("jitter_max_abs_delta_us", number r.jitter_max_abs_delta_us)
      ∷ []

  -- The report of the round trips, to which the jitter is added.
  unfoldable pub rtt_tree : Report → DoubleReport D → J
  unfolding distribution_tree jitter_fields
  rtt_tree r x = add_fields b (distribution_tree r.rtt x.rtt) (jitter_fields r x)

  unfoldable pub stream_fields : StreamReport → Fields J
  stream_fields m =
      ("stream_id", number m.stream_id)
      ∷ ("tx_requested", number m.tx_requested)
      ∷ ("tx_submitted", number m.tx_submitted)
      ∷ ("rx_packets", number m.rx_packets)
      ∷ ("missing", number m.missing)
      ∷ ("duplicate", number m.duplicate)
      ∷ ("out_of_order", number m.out_of_order)
      ∷ []

  unfoldable pub stream_tree : StreamReport → J
  unfolding stream_fields
  stream_tree m = object b (stream_fields m)

  unfoldable pub report_fields : Report → DoubleReport D → Fields J
  unfolding total_fields rssi_fields rtt_tree distribution_tree stream_tree
  report_fields r x =
      ("totals", object b (total_fields r x))
      ∷ ("rssi", object b (rssi_fields r x))
      ∷ ("rtt", rtt_tree r x)
      ∷ ("dispatch_lateness", distribution_tree r.dispatch_lateness x.dispatch_lateness)
      ∷ ("streams", array b (map stream_tree r.streams))
      ∷ []

  unfoldable pub report_tree : Report → DoubleReport D → J
  unfolding report_fields
  report_tree r x = object b (report_fields r x)
