-- ===== src/Startup/Tests.antt =====
-- A start in which every call succeeds, and one in which Wi-Fi does not start.
use esp_now_harness.Common.{ℕ, ◌≡◌, ◌≢◌, ◌⊎◌, refl, true, false}
use esp_now_harness.Harness.{boot, error}
use esp_now_harness.Metrics.{metrics_reset}
use esp_now_harness.Runtime.{EspErr, esp_ok, esp_err_no_mem, esp_err_invalid_state, System, pure}
use esp_now_harness.Control.Config.{zero_config}
use esp_now_harness.Startup.{Boot, app_main, radio_init, receiver_start}
use esp_now_harness.Startup.Ready.{Untouched, Fresh, app_main_ready}

-- The world is the count of the semaphore. The event loop exists already.
abbrev starting : EspErr → Boot ℕ
starting e = record {
  netif_init = pure esp_ok;
  event_loop_create_default = pure esp_err_invalid_state;
  wifi_init = pure esp_ok;
  wifi_set_storage = pure esp_ok;
  wifi_set_mode = pure esp_ok;
  wifi_start = pure e;
  wifi_set_ps = pure esp_ok;
  now_init = pure esp_ok;
  semaphore_create = λ most first s. (tt, record s { world = first });
  register_send_cb = pure esp_ok;
  register_recv_cb = pure esp_ok;
  queue_create = λ n. pure tt;
  create_receiver = pure tt;
  create_control = pure tt;
}

unfoldable starting_Fresh : (e : EspErr) → Fresh (starting e)
unfolding Untouched
starting_Fresh e = record {
  free = λ w. w;
  netif_keeps = λ s. (refl, refl);
  loop_keeps = λ s. (refl, refl);
  init_keeps = λ s. (refl, refl);
  storage_keeps = λ s. (refl, refl);
  mode_keeps = λ s. (refl, refl);
  start_keeps = λ s. (refl, refl);
  ps_keeps = λ s. (refl, refl);
  now_keeps = λ s. (refl, refl);
  send_cb_keeps = λ s. (refl, refl);
  recv_cb_keeps = λ s. (refl, refl);
  queue_keeps = λ n s. (refl, refl);
  receiver_keeps = λ s. (refl, refl);
  control_keeps = λ s. (refl, refl);
  semaphore_is = λ most first s. (refl, refl);
}

abbrev reset : System ℕ
reset = record {
  node = record {
    config = zero_config;
    state = boot;
    metrics = metrics_reset;
    current_tx_window = 1;
    handle = false;
    queue = false;
  };
  world = 0;
}

refused : (app_main (starting esp_err_no_mem) reset).1.node.state ≡ error
unfolding app_main radio_init receiver_start
refused = refl

app_main_ready_example :
    let t = (app_main (starting esp_ok) reset).1 in
    let e = (radio_init (starting esp_ok) (receiver_start (starting esp_ok) reset).1).0 in
    ((e ≡ esp_ok)
      × (t.node ≡ record reset.node { queue = true })
      × (t.world ≡ t.node.current_tx_window))
    ⊎ ((e ≢ esp_ok) × (t.node ≡ record reset.node { queue = true; state = error }))
unfolding starting_Fresh
app_main_ready_example = app_main_ready (starting esp_ok) (starting_Fresh esp_ok) reset refl
