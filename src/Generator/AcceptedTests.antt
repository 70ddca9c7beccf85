-- ===== src/Generator/AcceptedTests.antt =====
-- A generator of which every second packet is refused by the driver, which keeps what it accepts.
use esp_now_harness.Common.{
  ℕ, ◌+◌, ◌≡◌, refl, Bool, true, false, not, List, [], ◌∷◌, ◌++◌, arith, if◌then◌else◌, length,
  replicate,
}
use esp_now_harness.Harness.{Config, running, multi_stream}
use esp_now_harness.Metrics.{metrics_reset}
use esp_now_harness.Runtime.{System, Platform, esp_ok, esp_err_no_mem, is_ok, pure}
use esp_now_harness.Runtime.Frame.{CallsWithin}
use esp_now_harness.Control.Config.{zero_config}
use esp_now_harness.Protocol.{bench_encode, write_header}
use esp_now_harness.Generator.{send_one}
use esp_now_harness.Generator.Task.{
  finish, generator_task, run_loop, plain_loop, keeps_running, wait_round, deadline_at, bump,
  plain_round, attempt,
}
use esp_now_harness.Generator.Numbering.{numbers, count_up}
use esp_now_harness.Generator.Schedule.{SameConfig}
use esp_now_harness.Generator.Bytes.{stream_in, number_in, carried}
use esp_now_harness.Generator.Carried.{Air, so_far}
use esp_now_harness.Generator.Accepted.{generator_task-numbers}

-- The time, whether the driver has room for the next packet, and the packets that it accepted.
record Driver : Type 0 where
  now : ℕ
  room : Bool
  packets : List (List ℕ)

abbrev later : ℕ → System Driver → System Driver
later us s = let d = s.world in record s { world = record d { now = d.now + us } }

abbrev offered : List ℕ → Driver → Driver
offered bytes d = record d {
  room = not d.room;
  packets = d.packets ++ (if d.room then bytes ∷ [] else []);
}

abbrev half : Platform Driver
half = record {
  semaphore_take = λ ms s. (true, later 1 s);
  semaphore_give = pure tt;
  timer_get_time = λ s. let d = s.world in (d.now, s);
  now_send = λ mac bytes s.
      let d = s.world in
      (if d.room then esp_ok else esp_err_no_mem, record s { world = offered bytes d });
  task_delay = λ ticks s. (tt, later 1000 s);
  delay_us = λ us s. (tt, later us s);
  task_yield = pure tt;
  create_generator = pure true;
  tick_count = pure 0;
  ms_to_ticks = λ ms. ms;
  notify_take = λ ms. pure true;
}

half_keeps : CallsWithin SameConfig half
half_keeps = record {
  take_within = λ ms. record { at = λ s. refl };
  give_within = record { at = λ s. refl };
  time_within = record { at = λ s. refl };
  send_within = λ mac bytes. record { at = λ s. refl };
  delay_within = λ ticks. record { at = λ s. refl };
  delay_us_within = λ us. record { at = λ s. refl };
  yield_within = record { at = λ s. refl };
  tick_within = record { at = λ s. refl };
  notify_within = λ ms. record { at = λ s. refl };
}

one_more :
    (b : Bool) (qs : List (List ℕ)) (bytes : List ℕ)
    → qs ++ (if b then bytes ∷ [] else [])
      ≡ qs ++ (if is_ok (if b then esp_ok else esp_err_no_mem) then bytes ∷ [] else [])
one_more true qs bytes = refl
one_more false qs bytes = refl

abbrev half_Air : Air half
half_Air = record {
  accepted = λ d. d.packets;
  send_adds = λ mac bytes s. let d = s.world in one_more d.room d.packets bytes;
  take_keeps = λ ms s. refl;
  give_keeps = λ s. refl;
  time_keeps = λ s. refl;
  yield_keeps = λ s. refl;
  delay_keeps = λ ticks s. refl;
  delay_us_keeps = λ us s. refl;
}

abbrev rest : ℕ → List ℕ
rest size = replicate 20 0

abbrev two_streams : Config
two_streams = record zero_config {
  mode = multi_stream;
  packet_size = 60;
  streams = 2;
  rate_per_stream = 150;
  duration_us = 4000;
}

abbrev about_to_send : System Driver
about_to_send = record {
  node = record {
    config = two_streams;
    state = running;
    metrics = metrics_reset;
    current_tx_window = 1;
    handle = true;
    queue = true;
  };
  world = record { now = 5000; room = true; packets = [] };
}

-- Stream 0 is accepted each time, stream 1 never.
stream_0 : carried 0 (so_far half_Air (generator_task half rest 20 12 about_to_send).1) ≡ 0 ∷ 1 ∷ []
unfolding generator_task run_loop plain_loop keeps_running wait_round deadline_at plain_round
    attempt send_one bench_encode carried bump finish stream_in number_in write_header replicate
stream_0 = refl

generator_task-numbers_example :
    let (o, t) = generator_task half rest 20 12 about_to_send in
    carried 0 (so_far half_Air t) ≡ count_up 0 (length (numbers 0 o.attempts))
unfolding carried
generator_task-numbers_example =
    generator_task-numbers half rest half_Air half_keeps 20 12 0 about_to_send (omega arith)
      (omega arith)
