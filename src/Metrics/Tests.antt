-- ===== src/Metrics/Tests.antt =====
-- Runs of the metrics, and their theorems at concrete histories.
use esp_now_harness.Common.{
  ◌^◌, ℕ, ◌+◌, ◌*◌, ◌/◌, ◌≤◌, ◌<◌, ◌≡◌, refl, true, false, List, [], ◌∷◌, arith,
}
use esp_now_harness.Common.Int.{negsuc}
use esp_now_harness.Harness.{Config, sink, stream}
use esp_now_harness.Protocol.{Header, packet_echo}
use esp_now_harness.Metrics.Stream.{zero_stream, sequence_observe}
use esp_now_harness.Metrics.Stream.Tracking.{Tracks, observe_all, observe_all-Tracks}
use esp_now_harness.Metrics.Distribution.{SampleDistribution, nearest, round_from, long_double}
use esp_now_harness.Metrics.Distribution.Summary.{recorded, least, greatest, add_all}
use esp_now_harness.Metrics.Distribution.Quantile.{
  Quantile, q50, q90, q95, q99, q999, nearest_rank, sort_samples, distribution_json,
}
use esp_now_harness.Metrics.Distribution.Quantile.Sorted.{count_le, count_lt}
use esp_now_harness.Metrics.Distribution.Quantile.Ranks.{nearest_rank_lem}
use esp_now_harness.Metrics.Distribution.Quantile.Order.{IsMonotone, distribution_json_ordered}
use esp_now_harness.Metrics.{stream_at}
use esp_now_harness.Metrics.Events.{Event, requested, submitted, late, received, run, sequences}
use esp_now_harness.Metrics.Streams.{StreamOf, run-StreamOf}
use esp_now_harness.Metrics.Report.{metrics_json}
use esp_now_harness.Metrics.Loss.{lost, sum_below, metrics_json-lost}

-- Packets 0, 2, 1, 1 and 70, then 3, which is too old: 1 came late, 1 came twice.
abbrev arrivals : List ℕ
arrivals = 3 ∷ 70 ∷ 1 ∷ 1 ∷ 2 ∷ 0 ∷ []

arrivals_run : observe_all arrivals ≡ record {
  init = true;
  highest = 70;
  bitmap = 1;
  rx = 6;
  duplicate = 1;
  out_of_order = 2;
  gaps = 67;
  tx_requested = 0;
  tx_submitted = 0;
}
unfolding observe_all sequence_observe zero_stream
arrivals_run = refl

observe_all-Tracks_example : Tracks arrivals (observe_all arrivals)
observe_all-Tracks_example =
    observe_all-Tracks 3 (70 ∷ 1 ∷ 1 ∷ 2 ∷ 0 ∷ []) (omega arith) (omega arith)

abbrev packet : ℕ → ℕ → ℕ → Header
packet type seq sent = record {
  type = type;
  flags = 0;
  run_id = 1;
  stream_id = 3;
  packet_len = 40;
  seq = seq;
  timestamp_us = sent;
}

-- The newest first: two echoes on stream 3 around a request, and a late dispatch.
abbrev trace : List Event
trace =
    received (packet packet_echo 2 100) (negsuc 50) 900
    ∷ late 260 200
    ∷ submitted 3 40 50
    ∷ requested 3
    ∷ received (packet packet_echo 0 0) (negsuc 60) 500
    ∷ []

run-StreamOf_example : StreamOf (sequences 3 trace) (stream_at (run trace).streams 3)
run-StreamOf_example = run-StreamOf 3 (omega arith) trace (omega arith) (omega arith)

abbrev sink_config : Config
sink_config = record {
  run_id = 1;
  role = sink;
  mode = stream;
  peer_mac = [];
  band_5ghz = false;
  country = [];
  channel = 1;
  phy_rate = [];
  tx_power_qdbm = 40;
  power_save = false;
  encryption = false;
  key = [];
  duration_us = 1000;
  packet_size = 40;
  streams = 1;
  tx_window = 1;
  rate_per_stream = 10;
  probe_rate = 0;
  background_packet_size = 0;
  background_rate = 0;
}

-- The exact rank, the quantile in thousandths.
abbrev thousandths : Quantile → ℕ
thousandths q50 = 500
thousandths q90 = 900
thousandths q95 = 950
thousandths q99 = 990
thousandths q999 = 999

abbrev exact_ceil : Quantile → ℕ → ℕ
exact_ceil q n = (thousandths q * n + 999) / 1000

exact_ceil-IsMonotone : IsMonotone exact_ceil
exact_ceil-IsMonotone n = omega arith

metrics_json-lost_example :
    (metrics_json exact_ceil sink_config (run trace)).1.totals.estimated_loss
    ≡ sum_below 16 (λ k. lost (sequences k trace))
metrics_json-lost_example =
    metrics_json-lost exact_ceil sink_config trace (omega arith) (omega arith)

-- Above 2 ^ 113 the last bit is rounded, to the even of two as near.
rounds_down : long_double (2 ^ 113 + 1) ≡ 2 ^ 113
unfolding long_double round_from nearest
rounds_down = refl

rounds_up : long_double (2 ^ 113 + 3) ≡ 2 ^ 113 + 4
unfolding long_double round_from nearest
rounds_up = refl

abbrev five : SampleDistribution
five = record {
  samples = 40 ∷ 10 ∷ 30 ∷ 20 ∷ 50 ∷ 0 ∷ [];
  reservoir_count = 5;
  sample_count = 5;
  sum = 150;
  sum_sq = 5500;
  min = 10;
  max = 50;
}

nearest_rank_lem_example :
    let value = nearest_rank (sort_samples five) (exact_ceil q50) in
    let kept : List ℕ = 40 ∷ 10 ∷ 30 ∷ 20 ∷ 50 ∷ [] in
    (3 ≤ count_le value kept) × (count_lt value kept < 3)
nearest_rank_lem_example = nearest_rank_lem five (exact_ceil q50) (omega arith) (omega arith)

distribution_json_ordered_example :
    let vs : List ℕ = 5 ∷ 9 ∷ 7 ∷ [] in
    let r = (distribution_json exact_ceil (add_all vs)).1 in
    (r.min_us ≡ least (recorded vs))
    × (r.min_us ≤ r.p50_us)
    × (r.p50_us ≤ r.p90_us)
    × (r.p90_us ≤ r.p95_us)
    × (r.p95_us ≤ r.p99_us)
    × (r.p99_us ≤ r.p999_us)
    × (r.p999_us ≤ r.max_us)
    × (r.max_us ≡ greatest (recorded vs))
distribution_json_ordered_example =
    distribution_json_ordered exact_ceil (5 ∷ 9 ∷ 7 ∷ []) exact_ceil-IsMonotone (omega arith)
      (omega arith)
