-- ===== src/Host.antt =====
-- What the controller on the host, host/src/output.rs, reads from the results of the two nodes.
pub mod Counters
pub mod Aggregates
pub mod Unique
pub mod Lost
pub mod Envelope
pub mod Answers
pub mod Scenario
pub mod Accepts
pub mod ScenarioTests
pub mod Trees
pub mod Tests
use Prim.Native.String.{String}
use esp_now_harness.Common.{
  ℕ, ◌+◌, ◌-◌, Bool, true, false, List, [], ◌∷◌, Option, none, some, ◌==◌, if◌then◌else◌,
}
use esp_now_harness.Output.Object.{Reader}

-- `and_then` and `unwrap_or(0)` of an Option.
abbrev pub bind : {A B : Type 0} → Option A → (A → Option B) → Option B
bind none f = none
bind (some a) f = f a

abbrev pub or_zero : Option ℕ → ℕ
or_zero none = 0
or_zero (some n) = n

abbrev is_some_of : ℕ → Option ℕ → Bool
is_some_of n none = false
is_some_of n (some m) = m == n

-- The counts of `aggregate`; `saturating_sub` is the subtraction on ℕ.
pub record Aggregate : Type 0 where
  pub tx_packets : ℕ
  pub unique_rx_packets : ℕ
  pub forward_packet_loss : ℕ
  pub tx_window_us : ℕ
  pub rtt_probes_requested : ℕ
  pub rtt_probes_submitted : ℕ
  pub completed_rtt_probes : ℕ
  pub local_probe_drop : ℕ
  pub network_or_echo_probe_loss : ℕ

module _ {J : Type 0} (r : Reader J) where
  open r use {get, as_array, as_u64}

  -- `value.pointer("/parent/name").and_then(as_u64).unwrap_or(0)`
  unfoldable pub pointer_u64 : J → String → String → ℕ
  pointer_u64 value parent name = or_zero (bind (bind (get value parent) (λ v. get v name)) as_u64)

  -- `s.get("stream_id").and_then(as_u64) == Some(stream_id)`
  unfoldable pub has_id : ℕ → J → Bool
  has_id stream_id s = is_some_of stream_id (bind (get s "stream_id") as_u64)

  -- `streams.iter().find(...)`
  unfoldable pub find_stream : ℕ → List J → Option J
  unfolding has_id
  find_stream stream_id [] = none
  find_stream stream_id (s ∷ streams) =
      if has_id stream_id s then some s else find_stream stream_id streams

  unfoldable pub stream_counter : Option J → String → ℕ
  stream_counter stream name = or_zero (bind (bind stream (λ s. get s name)) as_u64)

  unfoldable pub stream_tx_counters : J → ℕ → ℕ × ℕ
  unfolding find_stream stream_counter
  stream_tx_counters result stream_id =
      let stream = bind (bind (get result "streams") as_array) (find_stream stream_id) in
      (stream_counter stream "tx_requested", stream_counter stream "tx_submitted")

  -- `under_load` is `matches!(scenario.traffic.mode, Mode::LatencyUnderLoad)`.
  unfoldable pub aggregate : Bool → J → J → Aggregate
  unfolding pointer_u64 stream_tx_counters
  aggregate under_load a_result b_result =
      let tx = pointer_u64 a_result "totals" "tx_submitted" in
      let rx = pointer_u64 b_result "totals" "rx_packets" in
      let dup = pointer_u64 b_result "totals" "duplicate" in
      let unique_rx = rx - dup in
      let rtt = pointer_u64 a_result "rtt" "sample_count" in
      let probe_stream = if under_load then 15 else 0 in
      let (probe_requested, probe_submitted) = stream_tx_counters a_result probe_stream in
      record {
        tx_packets = tx;
        unique_rx_packets = unique_rx;
        forward_packet_loss = tx - unique_rx;
        tx_window_us = pointer_u64 a_result "totals" "tx_window_us";
        rtt_probes_requested = probe_requested;
        rtt_probes_submitted = probe_submitted;
        completed_rtt_probes = rtt;
        local_probe_drop = probe_requested - probe_submitted;
        network_or_echo_probe_loss = probe_submitted - rtt;
      }
