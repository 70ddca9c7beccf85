-- ===== src/Radio/Callbacks.antt =====
-- tx_callback and rx_callback of firmware/main/radio.c, which the driver calls.
use esp_now_harness.Common.{ℕ, Bool, true, false, List, Option, some, if◌then◌else◌, leb}
use esp_now_harness.Common.Int.{ℤ, pos}
use esp_now_harness.Harness.{harness_max_packet_size}
use esp_now_harness.Runtime.{M, Platform, ◌>>=◌, ◌>>◌}
use esp_now_harness.Receiver.Queue.{Mailbox, receiver_post_rx, receiver_post_tx, receiver_post_drop}

module _ {W : Type 0} (p : Platform W) (mb : Mailbox W) where
  open p use {semaphore_give, timer_get_time}

  unfoldable pub tx_callback : Bool → M W (Unit {0})
  tx_callback success = do receiver_post_tx p mb success; semaphore_give

  unfoldable pub received : List ℕ → ℕ → ℤ → M W (Unit {0})
  received bytes length rssi = do now ← timer_get_time; receiver_post_rx p mb bytes length rssi now

  -- `signal` is `info->rx_ctrl->rssi`, or `none` where `info` or `info->rx_ctrl` is NULL.
  unfoldable pub rx_callback : Option ℤ → Option (List ℕ) → ℤ → M W (Unit {0})
  unfolding received
  rx_callback (some rssi) (some bytes) (pos length) =
      if leb length harness_max_packet_size
      then received bytes length rssi
      else receiver_post_drop p mb false true
  rx_callback _ _ _ = receiver_post_drop p mb false true
