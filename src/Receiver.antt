-- ===== src/Receiver.antt =====
-- firmware/main/receiver.c: the receiver task, one event at a time.
pub mod Tallies
pub mod Queue
pub mod Fence
pub mod QueueTests
pub mod Tests
use esp_now_harness.Common.{
  ℕ, ◌+◌, Bool, true, false, ◌&&◌, ◌||◌, not, List, Option, none, some, ◌==◌, if◌then◌else◌, length,
  set,
}
use esp_now_harness.Common.Int.{ℤ}
use esp_now_harness.Harness.{Config, State, armed, running, finished, Role, echo_responder}
use esp_now_harness.Protocol.{Header, bench_decode, packet_ping, packet_echo}
use esp_now_harness.Metrics.{
  Metrics, metrics_tx_requested, metrics_tx_submitted, metrics_tx_api_failure,
  metrics_tx_slot_timeout, metrics_tx_complete, metrics_drop,
}
use esp_now_harness.Metrics.Rx.{metrics_rx}
use esp_now_harness.Runtime.{
  EspErr, is_ok, M, Platform, pure, ◌>>=◌, ◌>>◌, get_node, on_metrics, Node,
}
use esp_now_harness.Radio.{radio_acquire_tx, radio_send_acquired}

-- event_t: a packet with its bytes (`len` of them), its signal strength and its time.
pub data Event : Type 0 where
  ev_rx : List ℕ → ℤ → ℕ → Event
  ev_tx_ok ev_tx_fail ev_drop ev_barrier : Event

unfoldable pub measurement_state : State → Bool
measurement_state armed = true
measurement_state running = true
measurement_state finished = true
measurement_state _ = false

abbrev pub is_echo_responder : Role → Bool
is_echo_responder echo_responder = true
is_echo_responder _ = false

-- The packet is of this run, and the node measures.
unfoldable pub is_current : Node → Header → Bool
is_current n header = let c = n.config in (header.run_id == c.run_id) && measurement_state n.state

-- `blank` is the header on the task's stack before a packet is decoded; `notify_give` wakes the task
-- that waits for a barrier.
module _ {W : Type 0} (p : Platform W) (notify_give : M W (Unit {0})) (blank : Header) where
  open p use {timer_get_time}

  unfoldable pub echo_sent : ℕ → ℕ → ℕ → EspErr → M W (Unit {0})
  echo_sent stream len dispatch_us e =
      if is_ok e
      then on_metrics (λ m. metrics_tx_submitted m stream len dispatch_us)
      else on_metrics metrics_tx_api_failure

  unfoldable pub echo_with_slot : List ℕ → ℕ → M W (Unit {0})
  unfolding echo_sent radio_send_acquired
  echo_with_slot bytes stream = do
    dispatch_us ← timer_get_time
    e ← radio_send_acquired p bytes
    echo_sent stream (length bytes) dispatch_us e

  -- The reply to a ping: its bytes with the type of an echo.
  unfoldable pub echo : List ℕ → ℕ → M W (Unit {0})
  unfolding echo_with_slot radio_acquire_tx
  echo bytes stream = do
    on_metrics (λ m. metrics_tx_requested m stream)
    e ← radio_acquire_tx p 100
    if is_ok e
        then echo_with_slot (set bytes 5 packet_echo) stream
        else on_metrics metrics_tx_slot_timeout

  unfoldable pub receive_current : Header → List ℕ → ℤ → ℕ → M W (Unit {0})
  receive_current header bytes rssi at = do
    on_metrics (λ m. metrics_rx m header rssi at)
    n ← get_node
    let c = n.config
    if is_echo_responder c.role && (header.type == packet_ping)
        then echo bytes header.stream_id
        else pure tt

  unfoldable pub receive_packet : Bool × Option Header → List ℕ → ℤ → ℕ → M W (Unit {0})
  receive_packet (true, some header) bytes rssi at = do
    n ← get_node
    if is_current n header
        then receive_current header bytes rssi at
        else on_metrics (λ m. metrics_drop m true false)
  receive_packet _ bytes rssi at = on_metrics (λ m. metrics_drop m false true)

  unfoldable pub handle_event : Event → M W (Unit {0})
  handle_event ev_barrier = notify_give
  handle_event ev_tx_ok = on_metrics (λ m. metrics_tx_complete m true)
  handle_event ev_tx_fail = on_metrics (λ m. metrics_tx_complete m false)
  handle_event ev_drop = on_metrics (λ m. metrics_drop m false true)
  handle_event (ev_rx bytes rssi at) =
      receive_packet (bench_decode (some bytes) (length bytes) (some blank)) bytes rssi at
