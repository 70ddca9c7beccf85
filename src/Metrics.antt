-- ===== src/Metrics.antt =====
-- metric_totals_t and metrics_t of firmware/main/metrics.h, and the operations of
-- firmware/main/metrics.c on them. The global `g_metrics` is an argument and a result. An atomic
-- increment is one step. int8_t and int64_t are integers: their sums stay far from overflow.
pub mod Stream
pub mod Distribution
pub mod Rx
pub mod Events
pub mod Streams
pub mod Totals
pub mod Samples
pub mod Report
pub mod Rates
pub mod Tree
pub mod Loss
pub mod Tests
use esp_now_harness.Common.{
  ℕ, ◌+◌, ◌-◌, ◌^◌, Bool, true, false, ◌&&◌, List, ltb, leb, ◌==◌, if◌then◌else◌, get_or, set,
  replicate, u32, u64,
}
use esp_now_harness.Common.Int.{ℤ, pos, negsuc, ◌+ℤ◌, ltb_ℤ, pos_part}
use esp_now_harness.Harness.{harness_max_streams}
use esp_now_harness.Metrics.Stream.{StreamMetric, zero_stream, sequence_observe}
use esp_now_harness.Metrics.Distribution.{
  SampleDistribution, distribution_reset, bounded_u32, distribution_add,
}

pub record MetricTotals : Type 0 where
  pub tx_requested : ℕ
  pub tx_submitted : ℕ
  pub tx_bytes : ℕ
  pub send_cb_success : ℕ
  pub send_cb_failure : ℕ
  pub send_api_failure : ℕ
  pub tx_slot_timeout : ℕ
  pub rx_packets : ℕ
  pub rx_bytes : ℕ
  pub duplicate : ℕ
  pub out_of_order : ℕ
  pub estimated_loss : ℕ
  pub stale : ℕ
  pub invalid : ℕ
  pub queue_drops : ℕ

pub record Metrics : Type 0 where
  pub totals : MetricTotals
  pub streams : List StreamMetric
  pub start_us : ℕ
  pub end_us : ℕ
  pub first_tx_us : ℕ
  pub last_tx_us : ℕ
  pub first_rx_us : ℕ
  pub last_rx_us : ℕ
  pub rssi_sum : ℤ
  pub rssi_count : ℕ
  pub rssi_min : ℤ
  pub rssi_max : ℤ
  pub rssi_hist : List ℕ
  pub rtt : SampleDistribution
  pub dispatch_lateness : SampleDistribution
  pub last_rtt : ℕ
  pub jitter_max : ℕ
  pub jitter_sum : ℕ
  pub jitter_count : ℕ

unfoldable pub zero_totals : MetricTotals
zero_totals = record {
  tx_requested = 0;
  tx_submitted = 0;
  tx_bytes = 0;
  send_cb_success = 0;
  send_cb_failure = 0;
  send_api_failure = 0;
  tx_slot_timeout = 0;
  rx_packets = 0;
  rx_bytes = 0;
  duplicate = 0;
  out_of_order = 0;
  estimated_loss = 0;
  stale = 0;
  invalid = 0;
  queue_drops = 0;
}

unfoldable pub metrics_reset : Metrics
metrics_reset = record {
  totals = zero_totals;
  streams = replicate harness_max_streams zero_stream;
  start_us = 0;
  end_us = 0;
  first_tx_us = 0;
  last_tx_us = 0;
  first_rx_us = 0;
  last_rx_us = 0;
  rssi_sum = pos 0;
  rssi_count = 0;
  rssi_min = pos 127;
  rssi_max = negsuc 126;
  rssi_hist = replicate 128 0;
  rtt = distribution_reset;
  dispatch_lateness = distribution_reset;
  last_rtt = 0;
  jitter_max = 0;
  jitter_sum = 0;
  jitter_count = 0;
}

-- `g_metrics.streams[i]`
abbrev pub stream_at : List StreamMetric → ℕ → StreamMetric
stream_at streams i = get_or streams i zero_stream

unfoldable pub metrics_tx_requested : Metrics → ℕ → Metrics
metrics_tx_requested g stream =
    let metric = stream_at g.streams stream in
    let t = g.totals in
    let m = record g { totals = record t { tx_requested = u64 (t.tx_requested + 1) } } in
    if ltb stream harness_max_streams
    then record m {
      streams =
          set m.streams stream (record metric { tx_requested = u64 (metric.tx_requested + 1) });
    }
    else m

unfoldable pub metrics_tx_submitted : Metrics → ℕ → ℕ → ℕ → Metrics
metrics_tx_submitted g stream length dispatch_us =
    let metric = stream_at g.streams stream in
    let t = g.totals in
    let m = record g {
      totals = record t {
        tx_submitted = u64 (t.tx_submitted + 1);
        tx_bytes = u64 (t.tx_bytes + length);
      };
    } in
    let m' =
      if ltb stream harness_max_streams
      then record m {
        streams =
            set m.streams stream (record metric { tx_submitted = u64 (metric.tx_submitted + 1) });
      }
      else m in
    record m' {
      first_tx_us = if m'.first_tx_us == 0 then dispatch_us else m'.first_tx_us;
      last_tx_us = dispatch_us;
    }

unfoldable pub metrics_tx_api_failure : Metrics → Metrics
metrics_tx_api_failure g =
    let t = g.totals in
    record g { totals = record t { send_api_failure = u64 (t.send_api_failure + 1) } }

unfoldable pub metrics_tx_slot_timeout : Metrics → Metrics
metrics_tx_slot_timeout g =
    let t = g.totals in
    record g { totals = record t { tx_slot_timeout = u64 (t.tx_slot_timeout + 1) } }

unfoldable pub metrics_tx_complete : Metrics → Bool → Metrics
metrics_tx_complete g success =
    let t = g.totals in
    record g {
      totals =
          if success
          then record t { send_cb_success = u64 (t.send_cb_success + 1) }
          else record t { send_cb_failure = u64 (t.send_cb_failure + 1) };
    }

-- `actual > scheduled ? actual - scheduled : 0`, which is the difference that stops at 0.
unfoldable pub lateness_us : ℕ → ℕ → ℕ
lateness_us actual scheduled = if ltb scheduled actual then actual - scheduled else 0

unfoldable pub metrics_dispatch_lateness : Metrics → ℕ → ℕ → Metrics
metrics_dispatch_lateness g actual_dispatch_us scheduled_deadline_us = record g {
  dispatch_lateness =
      distribution_add g.dispatch_lateness (lateness_us actual_dispatch_us scheduled_deadline_us);
}

unfoldable pub metrics_drop : Metrics → Bool → Bool → Metrics
metrics_drop g stale invalid =
    let t = g.totals in
    let t' = if stale then record t { stale = u64 (t.stale + 1) } else t in
    record g { totals = if invalid then record t' { invalid = u64 (t'.invalid + 1) } else t' }

-- The increment of `queue_drops` in receiver_post_rx and receiver_post_tx.
unfoldable pub count_queue_drop : Metrics → Metrics
count_queue_drop g =
    let t = g.totals in record g { totals = record t { queue_drops = u64 (t.queue_drops + 1) } }
