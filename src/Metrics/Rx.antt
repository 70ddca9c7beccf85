-- ===== src/Metrics/Rx.antt =====
-- metrics_rx of firmware/main/metrics.c.
use esp_now_harness.Common.{
  ℕ, ◌+◌, ◌-◌, ◌^◌, ◌&&◌, ltb, leb, ◌==◌, if◌then◌else◌, get_or, set, u32, u64,
}
use esp_now_harness.Common.Int.{ℤ, pos, ◌+ℤ◌, ltb_ℤ, pos_part}
use esp_now_harness.Protocol.{Header, packet_echo}
use esp_now_harness.Metrics.Stream.{sequence_observe}
use esp_now_harness.Metrics.Distribution.{bounded_u32, distribution_add}
use esp_now_harness.Metrics.{Metrics, stream_at}

-- The four parts of metrics_rx, in their order: times and totals, sequence, signal strength, RTT.
unfoldable pub rx_count : Metrics → Header → ℕ → Metrics
rx_count g header now_us =
    let t = g.totals in
    record g {
      first_rx_us = if t.rx_packets == 0 then now_us else g.first_rx_us;
      last_rx_us = now_us;
      totals = record t {
        rx_packets = u64 (t.rx_packets + 1);
        rx_bytes = u64 (t.rx_bytes + header.packet_len);
      };
    }

unfoldable pub rx_sequence : Metrics → Header → Metrics
rx_sequence g header =
    let t = g.totals in
    let old = stream_at g.streams header.stream_id in
    let new = sequence_observe old header.seq in
    record g {
      streams = set g.streams header.stream_id new;
      totals = record t {
        out_of_order = u64 (t.out_of_order + u64 (new.out_of_order + 2 ^ 64 - old.out_of_order));
        duplicate = u64 (t.duplicate + u64 (new.duplicate + 2 ^ 64 - old.duplicate));
      };
    }

-- `rssi + 127`, brought into 0 to 127; `pos_part` takes a negative index to 0.
unfoldable pub rssi_index : ℤ → ℕ
unfolding ◌+ℤ◌
rssi_index rssi = let index = pos_part (rssi +ℤ pos 127) in if ltb 127 index then 127 else index

unfoldable pub rx_rssi : Metrics → ℤ → Metrics
rx_rssi g rssi =
    let index = rssi_index rssi in
    record g {
      rssi_count = u64 (g.rssi_count + 1);
      rssi_sum = g.rssi_sum +ℤ rssi;
      rssi_min = if ltb_ℤ rssi g.rssi_min then rssi else g.rssi_min;
      rssi_max = if ltb_ℤ g.rssi_max rssi then rssi else g.rssi_max;
      rssi_hist = set g.rssi_hist index (u32 (get_or g.rssi_hist index 0 + 1));
    }

-- `a > b ? a - b : b - a`
unfoldable pub abs_diff : ℕ → ℕ → ℕ
abs_diff a b = if ltb b a then a - b else b - a

-- The jitter against the round trip before, if there was one.
unfoldable pub rx_jitter : Metrics → ℕ → Metrics
rx_jitter g bounded_rtt =
    let jitter = abs_diff bounded_rtt g.last_rtt in
    if g.rtt.sample_count == 0 then g else record g {
      jitter_sum = u64 (g.jitter_sum + jitter);
      jitter_count = u64 (g.jitter_count + 1);
      jitter_max = if ltb g.jitter_max jitter then jitter else g.jitter_max;
    }

unfoldable pub rx_rtt : Metrics → Header → ℕ → Metrics
rx_rtt g header now_us =
    let bounded_rtt = bounded_u32 (now_us - header.timestamp_us) in
    let m = rx_jitter g bounded_rtt in
    if header.type == packet_echo && leb header.timestamp_us now_us
    then record m { last_rtt = bounded_rtt; rtt = distribution_add m.rtt bounded_rtt }
    else g

unfoldable pub metrics_rx : Metrics → Header → ℤ → ℕ → Metrics
metrics_rx g header rssi now_us =
    rx_rtt (rx_rssi (rx_sequence (rx_count g header now_us) header) rssi) header now_us
