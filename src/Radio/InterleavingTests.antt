-- ===== src/Radio/InterleavingTests.antt =====
-- A wait for an idle radio while a packet is with the driver.
use native.Mathlib.Decide.{dec_lt}
use esp_now_harness.Common.{◌+◌, ◌-◌, ◌≤◌, ◌<◌, ◌≡◌, refl, Bool, true, false, arith}
use esp_now_harness.Harness.{running}
use esp_now_harness.Metrics.{metrics_reset}
use esp_now_harness.Control.Config.{zero_config}
use esp_now_harness.Runtime.{System, Platform, esp_ok, pure}
use esp_now_harness.Radio.{give_slots, take_slots, radio_wait_idle}
use esp_now_harness.Radio.Interleaving.{
  Air, Steps, stay, then_step, acquire, accept, post, give, Reached, start, other, take, back,
  taken_by_wait, given_by_wait,
}
use esp_now_harness.Radio.Completed.{Blocks, Interleaved, radio_wait_idle-posted}

abbrev World : Type 0
World = (a : Air) × Reached 2 a

-- The driver completes a packet.
abbrev completed : Air → Air
completed a = record a {
  driver = a.driver - 1;
  callback = a.callback + 1 - 1;
  posted = a.posted + 1;
  free = a.free + 1;
}

abbrev complete : {a : Air} → 0 < a.driver → Steps a (completed a)
complete h = then_step (then_step stay (post h)) (give (omega arith))

-- A free slot is taken at once; with none, the driver completes a packet if it has one.
abbrev take_now : (w : World) → Dec (0 < w.0.free) → Dec (0 < w.0.driver) → Bool × World
take_now (a, r) (yes h) driver = (true, (taken_by_wait a, take r h))
take_now (a, r) (no h) (yes k) = (
  true,
  (taken_by_wait (completed a), take (other (other r (post k)) (give (omega arith))) (omega arith)),
)
take_now (a, r) (no h) (no k) = (false, (a, r))

take_now-Blocks :
    (w : World) (free : Dec (0 < w.0.free)) (driver : Dec (0 < w.0.driver))
    → Blocks w.0 (take_now w free driver).0 (take_now w free driver).1.0
take_now-Blocks (a, r) (yes h) driver = (a, stay, λ e. (h, refl), λ e. absurd (ground (arith, e)))
take_now-Blocks (a, r) (no h) (yes k) =
    (completed a, complete k, λ e. (omega arith, refl), λ e. absurd (ground (arith, e)))
take_now-Blocks (a, r) (no h) (no k) = (a, stay, λ e. absurd (ground (arith, e)), λ e. refl)

abbrev give_now : (w : World) → Dec (0 < w.0.waiting) → World
give_now (a, r) (yes h) = (given_by_wait a, back r h)
give_now w (no h) = w

abbrev platform : Platform World
platform = record {
  semaphore_take = λ ms s.
      let (taken, w) = take_now s.world (dec_lt 0 s.world.0.free) (dec_lt 0 s.world.0.driver) in
      (taken, record s { world = w });
  semaphore_give = λ s. (tt, record s { world = give_now s.world (dec_lt 0 s.world.0.waiting) });
  timer_get_time = pure 5000;
  now_send = λ mac bytes. pure esp_ok;
  task_delay = λ ms. pure tt;
  delay_us = λ us. pure tt;
  task_yield = pure tt;
  create_generator = pure true;
  tick_count = pure 0;
  ms_to_ticks = λ ms. ms;
  notify_take = λ ms. pure true;
}

abbrev platform-Interleaved : Interleaved platform 2
platform-Interleaved = record {
  air = λ w. w.0;
  reached = λ w. w.1;
  take_blocks =
      λ ms s. take_now-Blocks s.world (dec_lt 0 s.world.0.free) (dec_lt 0 s.world.0.driver);
}

-- One of two slots is with a packet that the driver has.
abbrev sending : World
sending = (
  record { free = 1; waiting = 0; tasks = 0; driver = 1; callback = 0; accepted = 1; posted = 0 },
  other (other start (acquire (omega arith))) (accept (omega arith)),
)

abbrev busy : System World
busy = record {
  node = record {
    config = zero_config;
    state = running;
    metrics = metrics_reset;
    current_tx_window = 2;
    handle = false;
    queue = true;
  };
  world = sending;
}

becomes_idle : (radio_wait_idle platform 1000 busy).0 ≡ esp_ok
unfolding radio_wait_idle take_slots give_slots dec_lt
becomes_idle = refl

radio_wait_idle-posted_example :
    (t : System World) × (1 ≤ t.world.0.accepted)
    × (t.world.0.posted ≡ t.world.0.accepted)
    × ((radio_wait_idle platform 1000 busy).1 ≡ (give_slots platform 2 t).1)
radio_wait_idle-posted_example =
    radio_wait_idle-posted platform 2 platform-Interleaved 1000 busy refl refl becomes_idle
