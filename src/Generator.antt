-- ===== src/Generator.antt =====
-- firmware/main/generator.c: send_one, for one packet of the generator task, and generator_start.
pub mod Accounts
pub mod Task
pub mod Within
pub mod Numbering
pub mod Schedule
pub mod Mixture
pub mod Bytes
pub mod Carried
pub mod Accepted
pub mod Ends
pub mod ScheduleTests
pub mod AcceptedTests
pub mod Due
pub mod Rate
pub mod Stop
pub mod Tests
use esp_now_harness.Common.{
  ℕ, Bool, true, false, List, ◌++◌, Option, none, some, if◌then◌else◌, take, replicate, not,
}
use esp_now_harness.Harness.{Config, Role, generator, ping_initiator}
use esp_now_harness.Protocol.{Header, bench_encode}
use esp_now_harness.Metrics.{
  Metrics, metrics_tx_requested, metrics_tx_submitted, metrics_tx_api_failure,
  metrics_tx_slot_timeout, metrics_dispatch_lateness,
}
use esp_now_harness.Runtime.{
  EspErr, esp_ok, esp_err_no_mem, esp_err_invalid_state, is_ok, M, Platform, pure, ◌>>=◌, ◌>>◌,
  get_node, on_metrics,
}
use esp_now_harness.Radio.{radio_acquire_tx, radio_send_acquired, radio_release_tx}

-- The bytes that follow the packet in the task's buffer of HARNESS_MAX_PACKET_SIZE bytes are not
-- initialised: they are `rest`.
abbrev pub filled : ℕ → List ℕ → List ℕ
filled size rest = replicate size 165 ++ rest

abbrev pub packet_header : ℕ → ℕ → ℕ → ℕ → ℕ → ℕ → Header
packet_header type stream sequence size run_id dispatch_us = record {
  type = type;
  flags = 0;
  run_id = run_id;
  stream_id = stream;
  packet_len = size;
  seq = sequence;
  timestamp_us = dispatch_us;
}

module _ {W : Type 0} (p : Platform W) (rest : ℕ → List ℕ) where
  open p use {timer_get_time, task_yield, create_generator}

  -- A packet that got no slot.
  unfoldable pub no_slot : Bool → ℕ → M W Bool
  no_slot scheduled deadline_us =
      if scheduled
      then (do
        now ← timer_get_time
        on_metrics (λ m. metrics_dispatch_lateness m now deadline_us)
        on_metrics metrics_tx_slot_timeout
        pure false)
      else (do on_metrics metrics_tx_slot_timeout; pure false)

  unfoldable pub after_send : Bool → ℕ → ℕ → ℕ → EspErr → M W Bool
  after_send scheduled stream size dispatch_us e =
      if is_ok e
      then (do on_metrics (λ m. metrics_tx_submitted m stream size dispatch_us); pure true)
      else if scheduled
      then (do on_metrics metrics_tx_api_failure; pure false)
      else (do on_metrics metrics_tx_api_failure; task_yield; pure false)

  unfoldable pub send_encoded : Bool → ℕ → ℕ → ℕ → Bool × Option (List ℕ) → M W Bool
  unfolding after_send radio_send_acquired radio_release_tx
  send_encoded scheduled stream size dispatch_us (true, some packet) = do
    e ← radio_send_acquired p (take size packet)
    after_send scheduled stream size dispatch_us e
  send_encoded scheduled stream size dispatch_us _ = do
    radio_release_tx p
    on_metrics metrics_tx_api_failure
    pure false

  unfoldable pub with_slot : ℕ → ℕ → ℕ → ℕ → ℕ → Bool → M W Bool
  unfolding send_encoded
  with_slot type stream sequence size deadline_us scheduled = do
    dispatch_us ← timer_get_time
    on_metrics (λ m. if scheduled then metrics_dispatch_lateness m dispatch_us deadline_us else m)
    n ← get_node
    let header = packet_header type stream sequence size n.config.run_id dispatch_us
    send_encoded scheduled stream size dispatch_us
        (bench_encode (some (filled size (rest size))) 250 (some header))

  unfoldable pub send_one : ℕ → ℕ → ℕ → ℕ → ℕ → Bool → M W Bool
  unfolding with_slot no_slot radio_acquire_tx
  send_one type stream sequence size deadline_us scheduled = do
    on_metrics (λ m. metrics_tx_requested m stream)
    e ← radio_acquire_tx p 100
    let sent = with_slot type stream sequence size deadline_us scheduled
    if is_ok e then sent else no_slot scheduled deadline_us

  abbrev pub is_sender : Role → Bool
  is_sender generator = true
  is_sender ping_initiator = true
  is_sender _ = false

  unfoldable pub generator_start : M W EspErr
  generator_start = do
    n ← get_node
    if n.handle
        then pure esp_err_invalid_state
        else if not (is_sender n.config.role)
        then pure esp_ok
        else (do created ← create_generator; pure (if created then esp_ok else esp_err_no_mem))
