-- ===== src/Metrics/Stream.antt =====
-- stream_metric_t of firmware/main/metrics.h and sequence_observe of firmware/main/metrics.c.
pub mod Window
pub mod History
pub mod Tracking
use esp_now_harness.Common.{
  ℕ, ◌+◌, ◌-◌, ◌*◌, ◌^◌, Bool, true, false, not, bit_and, bit_or, ltb, leb, ◌==◌, if◌then◌else◌,
  u64,
}

-- `highest` is a uint32_t, the other numbers are uint64_t.
pub record StreamMetric : Type 0 where
  pub init : Bool
  pub highest : ℕ
  pub bitmap : ℕ
  pub rx : ℕ
  pub duplicate : ℕ
  pub out_of_order : ℕ
  pub gaps : ℕ
  pub tx_requested : ℕ
  pub tx_submitted : ℕ

-- The value that memset leaves.
unfoldable pub zero_stream : StreamMetric
zero_stream = record {
  init = false;
  highest = 0;
  bitmap = 0;
  rx = 0;
  duplicate = 0;
  out_of_order = 0;
  gaps = 0;
  tx_requested = 0;
  tx_submitted = 0;
}

-- The differences stand under the tests that keep them from wrapping.
unfoldable pub sequence_observe : StreamMetric → ℕ → StreamMetric
sequence_observe metric sequence =
    let m = record metric { rx = u64 (metric.rx + 1) } in
    let ahead = sequence - m.highest in
    let behind = m.highest - sequence in
    let bit = 2 ^ behind in
    if not m.init
    then record m { init = true; highest = sequence; bitmap = 1; gaps = sequence }
    else if ltb m.highest sequence
    then record m {
      gaps = if ltb 1 ahead then u64 (m.gaps + (ahead - 1)) else m.gaps;
      bitmap = if leb 64 ahead then 1 else bit_or (u64 (m.bitmap * 2 ^ ahead)) 1;
      highest = sequence;
    }
    else if leb 64 behind
    then record m { out_of_order = u64 (m.out_of_order + 1) }
    else if not (bit_and m.bitmap bit == 0)
    then record m { duplicate = u64 (m.duplicate + 1) }
    else record m {
      bitmap = bit_or m.bitmap bit;
      out_of_order = u64 (m.out_of_order + 1);
      gaps = if m.gaps == 0 then m.gaps else m.gaps - 1;
    }
