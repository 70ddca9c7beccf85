-- ===== src/Host/Aggregates.antt =====
-- The aggregate of a run that the host, host/src/output.rs, makes of the results of the two nodes.
use Prim.Native.String.{String}
use esp_now_harness.Common.{
  ℕ, ◌-◌, ◌^◌, ◌<◌, ◌≡◌, refl, ap, ◌∙◌, Bool, some, if◌then◌else◌, All, length,
}
use esp_now_harness.Common.Text.{str_eq}
use esp_now_harness.Harness.{Config}
use esp_now_harness.Output.{Builder, is_fresh, is_distinct, field, object, u64_item}
use esp_now_harness.Output.Object.{
  Reader, Reads, get-object, get-add_fields_fresh, is_object-object,
}
use esp_now_harness.Metrics.{Metrics, stream_at}
use esp_now_harness.Metrics.Distribution.Quantile.{Quantile, distribution_json, sort_samples}
use esp_now_harness.Metrics.Report.{Report, metrics_json, window_us}
use esp_now_harness.Metrics.Rates.{Doubles, DoubleReport}
use esp_now_harness.Metrics.Tree.{
  report_tree, report_fields, total_fields, counter_fields, time_fields, rate_fields, rtt_tree,
  distribution_tree, distribution_fields, jitter_fields,
}
use esp_now_harness.Host.{bind, or_zero, pointer_u64, aggregate}
use esp_now_harness.Host.Counters.{IsReadable, stream_tx_counters-report_tree}

-- The tree that metrics_json returns.
abbrev pub tree_of :
    {J D : Type 0}
    → Builder J D
    → Doubles D
    → (Quantile → ℕ → ℕ)
    → Config
    → Metrics
    → DoubleReport D
    → J
tree_of b d ceil_times config g doubles =
    report_tree b d (metrics_json ceil_times config g).1 doubles

module _ {J D : Type 0} (b : Builder J D) (d : Doubles D) (r : Reader J) (x : Reads b d r) where
  -- A number of the totals.
  total_u64 :
      (name : String) (n : ℕ) (report : Report) (doubles : DoubleReport D)
      → field name (total_fields b d report doubles) ≡ some (u64_item b d n)
      → n < 10 ^ 15
      → pointer_u64 r (report_tree b d report doubles) "totals" name ≡ n
  unfolding pointer_u64 report_tree report_fields total_fields counter_fields time_fields
      rate_fields is_distinct is_fresh field str_eq u64_item
  total_u64 name n report doubles is small =
      let totals = total_fields b d report doubles in
      let at = get-object b d r x "totals" (report_fields b d report doubles) refl in
      let item = get-object b d r x name totals refl in
      ap (λ v. or_zero (bind (bind v (λ t. r.get t name)) r.as_u64)) at
      ∙ ap (λ v. or_zero (bind v r.as_u64)) (item ∙ is)
      ∙ ap or_zero (x.whole n small)

  rtt_u64 :
      (report : Report) (doubles : DoubleReport D)
      → report.rtt.sample_count < 10 ^ 15
      → pointer_u64 r (report_tree b d report doubles) "rtt" "sample_count"
        ≡ report.rtt.sample_count
  unfolding pointer_u64 report_tree report_fields rtt_tree distribution_tree distribution_fields
      jitter_fields is_distinct is_fresh field str_eq u64_item
  rtt_u64 report doubles small =
      let name : String = "sample_count" in
      let at = get-object b d r x "rtt" (report_fields b d report doubles) refl in
      let distribution = distribution_fields b d report.rtt doubles.rtt in
      let outer =
        get-add_fields_fresh b d r x (object b distribution) name (jitter_fields b d report doubles)
          (is_object-object b d r x distribution) refl in
      let inner = get-object b d r x name distribution refl in
      ap (λ v. or_zero (bind (bind v (λ t. r.get t name)) r.as_u64)) at
      ∙ ap (λ v. or_zero (bind v r.as_u64)) (outer ∙ inner)
      ∙ ap or_zero (x.whole report.rtt.sample_count small)

  module _ (ceil_times : Quantile → ℕ → ℕ) (config config' : Config) (g g' : Metrics)
      (doubles doubles' : DoubleReport D) where
    -- The counts of the aggregate that the host makes of the reports of the two nodes, g of the one
    -- that generates and g' of the other: all that it reads is there, under the names and in the form
    -- that it expects, and the probes are those of stream 15 in the mode latency_under_load and of
    -- stream 0 in the others. The counts that it reads are below 10^15, and in a stream none is
    -- submitted where none is requested.
    pub aggregate_lem :
        (under_load : Bool)
        → All IsReadable g.streams
        → length g.streams < 10 ^ 15
        → g.totals.tx_submitted < 10 ^ 15
        → window_us g.first_tx_us g.last_tx_us < 10 ^ 15
        → g.rtt.sample_count < 10 ^ 15
        → g'.totals.rx_packets < 10 ^ 15
        → g'.totals.duplicate < 10 ^ 15
        → let probe = stream_at g.streams (if under_load then 15 else 0) in
          let unique_rx = g'.totals.rx_packets - g'.totals.duplicate in
          aggregate r under_load
            (tree_of b d ceil_times config g doubles)
            (tree_of b d ceil_times config' g' doubles')
          ≡ record {
            tx_packets = g.totals.tx_submitted;
            unique_rx_packets = unique_rx;
            forward_packet_loss = g.totals.tx_submitted - unique_rx;
            tx_window_us = window_us g.first_tx_us g.last_tx_us;
            rtt_probes_requested = probe.tx_requested;
            rtt_probes_submitted = probe.tx_submitted;
            completed_rtt_probes = g.rtt.sample_count;
            local_probe_drop = probe.tx_requested - probe.tx_submitted;
            network_or_echo_probe_loss = probe.tx_submitted - g.rtt.sample_count;
          }
    unfolding aggregate metrics_json distribution_json sort_samples total_fields counter_fields
        time_fields rate_fields field str_eq
    aggregate_lem under_load readable few sent window echoes got twice =
        let report = (metrics_json ceil_times config g).1 in
        let report' = (metrics_json ceil_times config' g').1 in
        let k = if under_load then 15 else 0 in
        let tx = total_u64 "tx_submitted" g.totals.tx_submitted report doubles refl sent in
        let span =
          total_u64 "tx_window_us" (window_us g.first_tx_us g.last_tx_us) report doubles refl
            window in
        let rx = total_u64 "rx_packets" g'.totals.rx_packets report' doubles' refl got in
        let dup = total_u64 "duplicate" g'.totals.duplicate report' doubles' refl twice in
        let rtt = rtt_u64 report doubles echoes in
        let probes =
          stream_tx_counters-report_tree b d r x k g.streams report doubles refl readable few in
        λ i. record {
          tx_packets = tx i;
          unique_rx_packets = rx i - dup i;
          forward_packet_loss = tx i - (rx i - dup i);
          tx_window_us = span i;
          rtt_probes_requested = (probes i).0;
          rtt_probes_submitted = (probes i).1;
          completed_rtt_probes = rtt i;
          local_probe_drop = (probes i).0 - (probes i).1;
          network_or_echo_probe_loss = (probes i).1 - rtt i;
        }
