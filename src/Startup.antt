-- ===== src/Startup.antt =====
-- The start of a node: app_main of firmware/main/app_main.c, radio_init of firmware/main/radio.c and
-- receiver_start of firmware/main/receiver.c.
pub mod Ready
pub mod Tests
use esp_now_harness.Common.{ℕ, Bool, true, false, ◌||◌, if◌then◌else◌}
use esp_now_harness.Harness.{error, harness_max_tx_window}
use esp_now_harness.Runtime.{
  EspErr, is_ok, is_invalid_state, Node, M, System, pure, ◌>>=◌, ◌>>◌, set_state,
}
use esp_now_harness.Radio.Configure.{try_call}

-- The calls of the start, with the constants of their arguments left out.
pub record Boot (W : Type 0) : Type 0 where
  pub netif_init : M W EspErr
  pub event_loop_create_default : M W EspErr
  pub wifi_init : M W EspErr
  pub wifi_set_storage : M W EspErr  -- WIFI_STORAGE_RAM
  pub wifi_set_mode : M W EspErr  -- WIFI_MODE_STA
  pub wifi_start : M W EspErr
  pub wifi_set_ps : M W EspErr  -- WIFI_PS_NONE
  pub now_init : M W EspErr
  pub semaphore_create : ℕ → ℕ → M W (Unit {0})  -- xSemaphoreCreateCountingStatic: most, at first
  pub register_send_cb : M W EspErr  -- tx_callback
  pub register_recv_cb : M W EspErr  -- rx_callback
  pub queue_create : ℕ → M W (Unit {0})  -- xQueueCreateStatic: its length
  pub create_receiver : M W (Unit {0})  -- xTaskCreate(receiver_task, …)
  pub create_control : M W (Unit {0})  -- xTaskCreate(control_task, …)

abbrev pub receiver_queue_length : ℕ
receiver_queue_length = 64

-- `if (error != ESP_OK && error != ESP_ERR_INVALID_STATE) return error;`
abbrev pub try_again : {W : Type 0} → M W EspErr → M W EspErr → M W EspErr
try_again call next = do e ← call; if is_ok e || is_invalid_state e then next else pure e

abbrev pub set_queue : {W : Type 0} → M W (Unit {0})
set_queue s = let n = s.node in (tt, record s { node = record n { queue = true } })

module _ {W : Type 0} (b : Boot W) where
  open b use {
    netif_init, event_loop_create_default, wifi_init, wifi_set_storage, wifi_set_mode, wifi_start,
    wifi_set_ps, now_init, semaphore_create, register_send_cb, register_recv_cb, queue_create,
    create_receiver, create_control,
  }

  -- Once the semaphore exists.
  unfoldable pub register_callbacks : M W EspErr
  register_callbacks = do
    semaphore_create harness_max_tx_window 1
    try_call register_send_cb register_recv_cb

  unfoldable pub radio_init : M W EspErr
  unfolding register_callbacks
  radio_init = try_again netif_init (
      try_again event_loop_create_default (
        try_call wifi_init (
          try_call wifi_set_storage (
            try_call wifi_set_mode (
              try_call wifi_start (try_call wifi_set_ps (try_call now_init register_callbacks)))))))

  unfoldable pub receiver_start : M W (Unit {0})
  receiver_start = do queue_create receiver_queue_length; set_queue; create_receiver

  unfoldable pub app_main : M W (Unit {0})
  unfolding radio_init receiver_start
  app_main = do
    receiver_start
    e ← radio_init
    (if is_ok e then pure tt else set_state error)
    create_control
