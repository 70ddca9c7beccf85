-- ===== src/Receiver/Queue.antt =====
-- The queue of firmware/main/receiver.c: its posts and receiver_flush.
use esp_now_harness.Common.{ℕ, Bool, false, not, List, if◌then◌else◌, take}
use esp_now_harness.Common.Int.{ℤ}
use esp_now_harness.Metrics.{count_queue_drop}
use esp_now_harness.Runtime.{M, Platform, pure, ◌>>=◌, get_node, on_metrics}
use esp_now_harness.Receiver.{Event, ev_rx, ev_tx_ok, ev_tx_fail, ev_drop, ev_barrier}

-- xQueueSend(queue, &event, pdMS_TO_TICKS(ms)) == pdTRUE
pub record Mailbox (W : Type 0) : Type 0 where
  pub queue_send : Event → ℕ → M W Bool

module _ {W : Type 0} (p : Platform W) (mb : Mailbox W) where
  open p use {notify_take}
  open mb use {queue_send}

  -- An event that is counted where the queue has no room.
  unfoldable pub send_or_count : Event → M W (Unit {0})
  send_or_count e = do sent ← queue_send e 0; if sent then pure tt else on_metrics count_queue_drop

  unfoldable pub receiver_post_rx : List ℕ → ℕ → ℤ → ℕ → M W (Unit {0})
  unfolding send_or_count
  receiver_post_rx bytes length rssi at_us = send_or_count (ev_rx (take length bytes) rssi at_us)

  unfoldable pub receiver_post_tx : Bool → M W (Unit {0})
  unfolding send_or_count
  receiver_post_tx success = send_or_count (if success then ev_tx_ok else ev_tx_fail)

  -- Its arguments are not read.
  unfoldable pub receiver_post_drop : Bool → Bool → M W (Unit {0})
  receiver_post_drop stale invalid = do
    n ← get_node
    if n.queue then (do sent ← queue_send ev_drop 0; pure tt) else pure tt

  unfoldable pub receiver_flush : ℕ → M W Bool
  receiver_flush timeout_ms = do
    n ← get_node
    if not n.queue then pure false else (do
      posted ← queue_send ev_barrier timeout_ms
      if posted then notify_take timeout_ms else pure false)
