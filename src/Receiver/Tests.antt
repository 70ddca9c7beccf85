-- ===== src/Receiver/Tests.antt =====
-- A ping at a node that echoes, of a system in which the receiver is the only task.
use esp_now_harness.Common.{ℕ, ◌≡◌, refl, true, false, List, ◌∷◌, replicate}
use esp_now_harness.Common.Int.{negsuc}
use esp_now_harness.Harness.{running, echo_responder}
use esp_now_harness.Protocol.{Header, bench_decode, read_header, get16, get32, get64}
use esp_now_harness.Metrics.{metrics_reset}
use esp_now_harness.Runtime.{System, pure}
use esp_now_harness.Runtime.Alone.{Slots, alone}
use esp_now_harness.Control.Config.{zero_config}
use esp_now_harness.Receiver.{Event, ev_rx, handle_event}
use esp_now_harness.Receiver.Tallies.{
  Untallied, is_measuring, tally, event_tally, packet_tally, one_received, handle_event-event_tally,
}

alone-Untallied : Untallied alone (pure tt)
alone-Untallied = record {
  take_kept = λ ms s. refl;
  give_kept = λ s. refl;
  time_kept = λ s. refl;
  send_kept = λ mac bytes s. refl;
  notify_kept = λ s. refl;
}

abbrev blank : Header
blank = record {
  type = 0;
  flags = 0;
  run_id = 0;
  stream_id = 0;
  packet_len = 0;
  seq = 0;
  timestamp_us = 0;
}

abbrev responder : System Slots
responder = record {
  node = record {
    config = record zero_config { run_id = 7; role = echo_responder };
    state = running;
    metrics = metrics_reset;
    current_tx_window = 1;
    handle = false;
    queue = true;
  };
  world = record { free = 1; mine = 0 };
}

-- A ping of run 7 on stream 1, of 28 bytes, without a timestamp.
abbrev ping_bytes : List ℕ
ping_bytes =
    0x45 ∷ 0x53 ∷ 0x50 ∷ 0x4e ∷ 1 ∷ 2 ∷ 0 ∷ 0 ∷ 0 ∷ 0 ∷ 0 ∷ 7 ∷ 0 ∷ 1 ∷ 0 ∷ 28 ∷ replicate 12 0

abbrev ping_event : Event
ping_event = ev_rx ping_bytes (negsuc 59) 9000

ping_received :
    event_tally blank responder.node ping_event (tally responder) ≡ one_received (tally responder)
unfolding event_tally packet_tally bench_decode read_header get16 get32 get64 is_measuring replicate
ping_received = refl

handle_event-event_tally_example :
    tally (handle_event alone (pure tt) blank ping_event responder).1
    ≡ event_tally blank responder.node ping_event (tally responder)
handle_event-event_tally_example =
    handle_event-event_tally alone (pure tt) blank alone-Untallied ping_event responder
