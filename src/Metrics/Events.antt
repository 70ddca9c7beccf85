-- ===== src/Metrics/Events.antt =====
-- The calls that the other tasks make on the metrics, as events, and what a history of them says:
-- the list of the events since metrics_reset, the newest first.
use esp_now_harness.Common.{ℕ, ◌-◌, ◌^◌, ◌<◌, Bool, ◌&&◌, List, [], ◌∷◌, leb, ◌==◌, if◌then◌else◌}
use esp_now_harness.Common.Int.{ℤ}
use esp_now_harness.Protocol.{Header, packet_echo}
use esp_now_harness.Metrics.Distribution.{bounded_u32}
use esp_now_harness.Metrics.{
  Metrics, metrics_reset, metrics_tx_requested, metrics_tx_submitted, metrics_tx_api_failure,
  metrics_tx_slot_timeout, metrics_tx_complete, metrics_dispatch_lateness, metrics_drop,
  count_queue_drop,
}
use esp_now_harness.Metrics.Rx.{metrics_rx}

pub data Event : Type 0 where
  requested : ℕ → Event
  submitted : ℕ → ℕ → ℕ → Event
  api_failure : Event
  slot_timeout : Event
  complete : Bool → Event
  late : ℕ → ℕ → Event
  received : Header → ℤ → ℕ → Event
  dropped : Bool → Bool → Event
  queue_full : Event

unfoldable pub apply : Metrics → Event → Metrics
apply g (requested stream) = metrics_tx_requested g stream
apply g (submitted stream size at) = metrics_tx_submitted g stream size at
apply g api_failure = metrics_tx_api_failure g
apply g slot_timeout = metrics_tx_slot_timeout g
apply g (complete success) = metrics_tx_complete g success
apply g (late actual scheduled) = metrics_dispatch_lateness g actual scheduled
apply g (received header rssi now) = metrics_rx g header rssi now
apply g (dropped stale invalid) = metrics_drop g stale invalid
apply g queue_full = count_queue_drop g

unfoldable pub run : List Event → Metrics
unfolding apply
run [] = metrics_reset
run (e ∷ es) = apply (run es) e

-- A stream is one of the sixteen, and a sequence number fits its type.
abbrev pub IsValid : Event → Type 0
IsValid (requested stream) = stream < 16
IsValid (submitted stream size at) = stream < 16
IsValid (received header rssi now) = (header.stream_id < 16) × (header.seq < 2 ^ 32)
IsValid _ = Unit {0}

-- The sequence numbers received on stream `k`.
unfoldable pub sequences : ℕ → List Event → List ℕ
sequences k [] = []
sequences k (received header rssi now ∷ es) =
    if header.stream_id == k then header.seq ∷ sequences k es else sequences k es
sequences k (_ ∷ es) = sequences k es

-- The round-trip times of the echoes, as they are recorded.
unfoldable pub round_trips : List Event → List ℕ
round_trips [] = []
round_trips (received header rssi now ∷ es) =
    if header.type == packet_echo && leb header.timestamp_us now
    then bounded_u32 (now - header.timestamp_us) ∷ round_trips es
    else round_trips es
round_trips (_ ∷ es) = round_trips es

-- How late each scheduled dispatch was.
unfoldable pub latenesses : List Event → List ℕ
latenesses [] = []
latenesses (late actual scheduled ∷ es) = (actual - scheduled) ∷ latenesses es
latenesses (_ ∷ es) = latenesses es
