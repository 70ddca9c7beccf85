-- ===== src/Firmware/Tests.antt =====
-- A node whose generator has ended, at a radio and a queue without other users.
use esp_now_harness.Common.{ℕ, ◌≡◌, refl, inl, true, false, List, [], none, replicate}
use esp_now_harness.Harness.{State, running, finished, harness_state_name}
use esp_now_harness.Metrics.{metrics_reset}
use esp_now_harness.Metrics.Report.{Report, metrics_json}
use esp_now_harness.Metrics.Distribution.Quantile.{Quantile}
use esp_now_harness.Runtime.{System, pure, esp_ok}
use esp_now_harness.Runtime.Alone.{Slots, alone}
use esp_now_harness.Radio.{radio_wait_idle, take_slots, give_slots}
use esp_now_harness.Radio.Configure.{Driver}
use esp_now_harness.Generator.Stop.{stopped_before, generator_wait_stopped}
use esp_now_harness.Receiver.Queue.{Mailbox, receiver_flush}
use esp_now_harness.Control.Config.{zero_config}
use esp_now_harness.Control.Json.{Cjson, nan}
use esp_now_harness.Control.Calm.{CalmServices, Calm-refl}
use esp_now_harness.Control.Dispatch.{
  state_body, result_body, is_running_or_armed, stop, result, finish_run, when_drained,
  stopped_and_drained, drain_measurement_events, wait_idle_ok, send_state, send_result,
}
use esp_now_harness.Firmware.{services}
use esp_now_harness.Firmware.Interface.{CalmWorld, services-CalmServices}
use esp_now_harness.Firmware.Settled.{stop_settled}

abbrev pub willing : {W : Type 0} → Driver W
willing = record {
  fetch_peer = pure none;
  del_peer = λ mac. pure tt;
  set_country_code = λ code. pure esp_ok;
  set_band_mode = λ band. pure esp_ok;
  set_channel = λ channel. pure esp_ok;
  set_max_tx_power = λ power. pure esp_ok;
  set_ps = λ ps. pure esp_ok;
  set_pmk = λ key. pure esp_ok;
  add_peer = λ peer. pure esp_ok;
  set_peer_rate_config = λ mac rate. pure esp_ok;
}

abbrev prompt : Mailbox Slots
prompt = record { queue_send = λ e ms. pure true }

alone-CalmWorld : CalmWorld alone willing prompt
alone-CalmWorld = record {
  calls = record {
    take_within = λ ms. record { at = λ s. Calm-refl s.node };
    give_within = record { at = λ s. Calm-refl s.node };
    time_within = record { at = λ s. Calm-refl s.node };
    send_within = λ mac bytes. record { at = λ s. Calm-refl s.node };
    delay_within = λ ticks. record { at = λ s. Calm-refl s.node };
    delay_us_within = λ us. record { at = λ s. Calm-refl s.node };
    yield_within = record { at = λ s. Calm-refl s.node };
    tick_within = record { at = λ s. Calm-refl s.node };
    notify_within = λ ms. record { at = λ s. Calm-refl s.node };
  };
  driver_calls = record {
    fetch_peer_within = record { at = λ s. Calm-refl s.node };
    del_peer_within = λ mac. record { at = λ s. Calm-refl s.node };
    country_within = λ code. record { at = λ s. Calm-refl s.node };
    band_within = λ band. record { at = λ s. Calm-refl s.node };
    channel_within = λ channel. record { at = λ s. Calm-refl s.node };
    power_within = λ power. record { at = λ s. Calm-refl s.node };
    ps_within = λ ps. record { at = λ s. Calm-refl s.node };
    pmk_within = λ key. record { at = λ s. Calm-refl s.node };
    add_peer_within = λ peer. record { at = λ s. Calm-refl s.node };
    rate_within = λ mac rate. record { at = λ s. Calm-refl s.node };
  };
  queue_send_within = λ e ms. record { at = λ s. Calm-refl s.node };
  create_started = λ s. record { config_kept = refl; state_moves = inl refl };
}

abbrev pub rest : ℕ → List ℕ
rest size = replicate 50 0

services-CalmServices_example : CalmServices (services alone willing prompt rest 20 2000)
services-CalmServices_example =
    services-CalmServices alone willing prompt rest alone-CalmWorld 20 2000

-- The requests' items are not read here.
abbrev pub no_items : Cjson (Unit {0})
no_items = record {
  get_object_item = λ j name. none;
  is_object = λ j. false;
  is_string = λ j. false;
  is_number = λ j. false;
  is_bool = λ j. false;
  is_true = λ j. false;
  valuestring = λ j. [];
  valuedouble = λ j. nan;
}

abbrev pub scan : List ℕ → List ℕ
scan text = []

abbrev pub percent : Quantile → ℕ → ℕ
percent q n = n

abbrev node_in : State → System Slots
node_in state = record {
  node = record {
    config = record zero_config { tx_window = 2 };
    state = state;
    metrics = metrics_reset;
    current_tx_window = 2;
    handle = false;
    queue = true;
  };
  world = record { free = 2; mine = 0 };
}

stop_replies :
    (stop (services alone willing prompt rest 20 2000) no_items scan percent (node_in running)).0
    ≡ state_body "FINISHED"
unfolding stop finish_run when_drained stopped_and_drained drain_measurement_events wait_idle_ok
    send_state is_running_or_armed stopped_before generator_wait_stopped receiver_flush
    radio_wait_idle take_slots give_slots harness_state_name
stop_replies = refl

stop_settled_example :
    let n =
      (stop
        (services alone willing prompt rest 20 2000)
        no_items
        scan
        percent
        (node_in running)).1.node in
    (n.handle ≡ false) × (is_running_or_armed n.state ≡ false)
stop_settled_example =
    stop_settled alone willing prompt rest 20 2000 no_items scan percent alone-CalmWorld "FINISHED"
      (node_in running) stop_replies

abbrev report : Report
report = (metrics_json percent (node_in finished).node.config metrics_reset).1

result_replies :
    (result (services alone willing prompt rest 20 2000) no_items scan percent (node_in finished)).0
    ≡ result_body report
unfolding result when_drained stopped_and_drained drain_measurement_events wait_idle_ok send_result
    stopped_before generator_wait_stopped receiver_flush radio_wait_idle take_slots give_slots
result_replies = refl
