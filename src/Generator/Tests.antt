-- ===== src/Generator/Tests.antt =====
-- A packet of a node on which the generator is the only task.
use esp_now_harness.Common.{ℕ, refl, true, List, replicate}
use esp_now_harness.Harness.{running}
use esp_now_harness.Metrics.{metrics_reset}
use esp_now_harness.Runtime.{System}
use esp_now_harness.Runtime.Alone.{Slots, alone}
use esp_now_harness.Control.Config.{zero_config}
use esp_now_harness.Generator.{send_one}
use esp_now_harness.Generator.Accounts.{Quiet, accounts, requested_one, Counts, send_one-Counts}

alone-Quiet : Quiet alone
alone-Quiet = record {
  take_quiet = λ ms s. refl;
  give_quiet = λ s. refl;
  time_quiet = λ s. refl;
  send_quiet = λ mac bytes s. refl;
  yield_quiet = λ s. refl;
}

abbrev idle_radio : System Slots
idle_radio = record {
  node = record {
    config = zero_config;
    state = running;
    metrics = metrics_reset;
    current_tx_window = 1;
    handle = true;
    queue = true;
  };
  world = record { free = 1; mine = 0 };
}

abbrev rest : ℕ → List ℕ
rest size = replicate 50 0

send_one-Counts_example :
    let (sent, t) = send_one alone rest 1 3 9 200 4000 true idle_radio in
    Counts sent (requested_one (accounts idle_radio)) (accounts t)
send_one-Counts_example = send_one-Counts alone rest alone-Quiet 1 3 9 200 4000 true idle_radio
