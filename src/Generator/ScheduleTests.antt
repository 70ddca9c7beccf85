-- ===== src/Generator/ScheduleTests.antt =====
-- A generator whose time passes in its own calls, at a tick of 100 or 1000 Hz.
use esp_now_harness.Common.{
  ℕ, ◌+◌, ◌*◌, ◌/◌, ◌^◌, ◌≤◌, ◌≡◌, ◌≢◌, refl, true, false, List, [], ◌∷◌, some, arith, leb,
  if◌then◌else◌, u32, map, length, replicate,
}
use esp_now_harness.Harness.{Config, running, multi_stream, latency_load}
use esp_now_harness.Metrics.{metrics_reset}
use esp_now_harness.Runtime.{System, Platform, esp_ok, pure}
use esp_now_harness.Runtime.Frame.{CallsWithin}
use esp_now_harness.Control.Config.{zero_config}
use esp_now_harness.Generator.Task.{
  generator_task, wait_deadline, run_loop, plain_loop, keeps_running, wait_round, deadline_at,
  plain_round, attempt,
}
use esp_now_harness.Generator.{send_one}
use esp_now_harness.Protocol.{bench_encode}
use esp_now_harness.Generator.Schedule.{SameConfig, slot, plan}
use esp_now_harness.Generator.Mixture.{generator_task-plan}
use esp_now_harness.Generator.Ends.{Clock, generator_task-ended, wait_deadline-clock}
use esp_now_harness.Generator.Due.{DueBefore, generator_task-DueBefore}
use esp_now_harness.Generator.Rate.{generator_task_rate}
use esp_now_harness.Generator.Stop.{
  Ticks, Starved, Told, generator_wait_stopped, generator_wait_stopped-Told,
  generator_wait_stopped_starved,
}

-- A delay of a tick lets the generator's task end.
abbrev ticking : ℕ → Platform ℕ
ticking hz = record {
  semaphore_take = λ ms s. (true, record s { world = s.world + 1 });
  semaphore_give = pure tt;
  timer_get_time = λ s. (s.world, s);
  now_send = λ mac bytes. pure esp_ok;
  task_delay = λ ticks s.
      let n = s.node in
      (
        tt,
        record s {
          node = record n { handle = if leb 1 ticks then false else n.handle };
          world = s.world + ticks * (1000000 / hz) + 1;
        },
      );
  delay_us = λ us s. (tt, record s { world = s.world + us });
  task_yield = pure tt;
  create_generator = pure true;
  tick_count = λ s. (u32 (s.world / (1000000 / hz)), s);
  ms_to_ticks = λ ms. ms * hz / 1000;
  notify_take = λ ms. pure true;
}

ticking_keeps : (hz : ℕ) → CallsWithin SameConfig (ticking hz)
ticking_keeps hz = record {
  take_within = λ ms. record { at = λ s. refl };
  give_within = record { at = λ s. refl };
  time_within = record { at = λ s. refl };
  send_within = λ mac bytes. record { at = λ s. refl };
  delay_within = λ ticks. record { at = λ s. refl };
  delay_us_within = λ us. record { at = λ s. refl };
  yield_within = record { at = λ s. refl };
  tick_within = record { at = λ s. refl };
  notify_within = λ ms. record { at = λ s. refl };
}

unfoldable ticking_Clock : (hz : ℕ) → Clock (ticking hz)
ticking_Clock hz = record {
  clock = λ w. w;
  passes = record {
    take_within = λ ms. record { at = λ s. omega arith };
    give_within = record { at = λ s. omega arith };
    time_within = record { at = λ s. omega arith };
    send_within = λ mac bytes. record { at = λ s. omega arith };
    delay_within = λ ticks. record { at = λ s. omega arith };
    delay_us_within = λ us. record { at = λ s. omega arith };
    yield_within = record { at = λ s. omega arith };
    tick_within = record { at = λ s. omega arith };
    notify_within = λ ms. record { at = λ s. omega arith };
  };
  time_is = λ s. refl;
  take_on = λ ms s. omega arith;
  delay_on = λ ticks s. omega arith;
  delay_us_on = λ us s. omega arith;
}

unfoldable fine_Ticks : Ticks (ticking 1000)
fine_Ticks = record {
  period = 1000;
  period_pos = omega arith;
  time = λ w. w;
  count_is = λ s. refl;
  count_on = λ s. (omega arith, omega arith);
  delay_on = λ s. (omega arith, omega arith);
}

unfoldable coarse_Ticks : Ticks (ticking 100)
coarse_Ticks = record {
  period = 10000;
  period_pos = omega arith;
  time = λ w. w;
  count_is = λ s. refl;
  count_on = λ s. (omega arith, omega arith);
  delay_on = λ s. (omega arith, omega arith);
}

coarse_Starved : Starved (ticking 100)
coarse_Starved = record { no_tick = refl; count_keeps = λ s. refl; delay_keeps = λ s. refl }

abbrev rest : ℕ → List ℕ
rest size = replicate 20 0

abbrev three_streams : Config
three_streams = record zero_config {
  mode = multi_stream;
  packet_size = 60;
  streams = 3;
  rate_per_stream = 100;
  duration_us = 12000;
}

abbrev about_to_send : System ℕ
about_to_send = record {
  node = record {
    config = three_streams;
    state = running;
    metrics = metrics_reset;
    current_tx_window = 1;
    handle = true;
    queue = true;
  };
  world = 5000;
}

-- The last deadline is after the end of the run, at 17000, and its packet is sent.
round_robin :
    map slot (generator_task (ticking 1000) rest 20 8 about_to_send).0.attempts
    ≡ (0, 5000) ∷ (1, 8333) ∷ (2, 11666) ∷ (0, 15000) ∷ (1, 18333) ∷ []
unfolding generator_task run_loop plain_loop keeps_running wait_round deadline_at plain_round
    attempt send_one bench_encode
round_robin = refl

multi_stream-latency_load : multi_stream ≢ latency_load
multi_stream-latency_load e = cc

generator_task-plan_example :
    let log = (generator_task (ticking 1000) rest 20 8 about_to_send).0.attempts in
    map slot log ≡ plan three_streams 300 5000 0 (length log)
generator_task-plan_example =
    generator_task-plan (ticking 1000) rest (ticking_keeps 1000) 20 8 about_to_send (omega arith)
      (omega arith) multi_stream-latency_load

wait_deadline-clock_example :
    let (returned, t) = wait_deadline (ticking 100) rest 3401 8400 about_to_send in
    (returned ≡ true) × (8400 ≤ t.world)
unfolding ticking_Clock
wait_deadline-clock_example =
    wait_deadline-clock (ticking 100) rest (ticking_Clock 100) 3401 8400 about_to_send (omega arith)

generator_task-ended_example :
    (generator_task (ticking 100) rest (2 ^ 64) 12001 about_to_send).0.ended ≡ true
generator_task-ended_example =
    generator_task-ended (ticking 100) rest (ticking_Clock 100) (2 ^ 64) 12001 about_to_send
      (omega arith) (omega arith) (omega arith)

-- The task ends in the first delay, of one tick.
gone : (generator_wait_stopped (ticking 1000) 5 2000 about_to_send).0 ≡ some true
unfolding generator_wait_stopped
gone = refl

generator_wait_stopped-Told_example :
    Told
      (ticking 1000)
      fine_Ticks
      2005
      (generator_wait_stopped (ticking 1000) 2000001 2000 about_to_send)
unfolding fine_Ticks
generator_wait_stopped-Told_example =
    generator_wait_stopped-Told (ticking 1000) fine_Ticks 2000001 2000 about_to_send (omega arith)
      (omega arith)

generator_wait_stopped_starved_example :
    (generator_wait_stopped (ticking 100) 2000001 2000 about_to_send).0 ≡ some false
unfolding coarse_Ticks
generator_wait_stopped_starved_example =
    generator_wait_stopped_starved (ticking 100) coarse_Ticks coarse_Starved 2000001 2000
      about_to_send refl (omega arith) (omega arith)

generator_task-DueBefore_example :
    DueBefore 17000 (generator_task (ticking 1000) rest 20 8 about_to_send).0.attempts
generator_task-DueBefore_example =
    generator_task-DueBefore (ticking 1000) rest (ticking_Clock 1000) 20 8 about_to_send

generator_task_rate_example :
    length (generator_task (ticking 1000) rest 20 8 about_to_send).0.attempts * 1000000 ≤ 5600000
generator_task_rate_example =
    generator_task_rate (ticking 1000) rest (ticking_Clock 1000) (ticking_keeps 1000) 20 8
      about_to_send (omega arith) (omega arith) multi_stream-latency_load (omega arith)
      (omega arith) (omega arith)
