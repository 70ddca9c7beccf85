-- ===== src/Radio/Tests.antt =====
-- The slots at a window of two of which one is free.
use esp_now_harness.Common.{◌+◌, ◌≤◌, ◌≡◌, refl, true, arith, if◌then◌else◌}
use esp_now_harness.Harness.{running}
use esp_now_harness.Metrics.{metrics_reset}
use esp_now_harness.Runtime.{System, esp_err_timeout}
use esp_now_harness.Runtime.Alone.{Slots, alone, take_slot, give_slot}
use esp_now_harness.Control.Config.{zero_config}
use esp_now_harness.Radio.{radio_wait_idle, take_slots, give_slots}
use esp_now_harness.Radio.Slots.{Held}

pub take-held :
    (s : Slots) → (take_slot s).1.mine ≡ (if (take_slot s).0 then s.mine + 1 else s.mine)
take-held s = ground arith

give-held : (s : Slots) → 1 ≤ s.mine → (give_slot s).mine + 1 ≡ s.mine
give-held s h = ground (arith, h)

abbrev alone-Held : Held alone
alone-Held = record {
  held = λ s. let w = s.world in w.mine;
  after_take = λ ms s. take-held s.world;
  after_give = λ s h. give-held s.world h;
  after_send = λ mac bytes s. refl;
}

abbrev busy : System Slots
busy = record {
  node = record {
    config = zero_config;
    state = running;
    metrics = metrics_reset;
    current_tx_window = 2;
    handle = true;
    queue = true;
  };
  world = record { free = 1; mine = 0 };
}

idle_times_out : (radio_wait_idle alone 1000 busy).0 ≡ esp_err_timeout
unfolding radio_wait_idle take_slots give_slots
idle_times_out = refl
