-- ===== src/Metrics/Samples.antt =====
-- The round-trip times, their jitter, and the dispatch lateness, against the history of events.
use esp_now_harness.Common.{
  ℕ, ◌-◌, ◌^◌, ◌≤◌, ◌<◌, ◌≡◌, refl, Bool, true, false, ◌&&◌, List, [], ◌∷◌, arith, leb, ◌==◌,
  length, sum, u64,
}
use esp_now_harness.Protocol.{Header, packet_echo}
use esp_now_harness.Metrics.Distribution.{distribution_add}
use esp_now_harness.Metrics.Distribution.Summary.{
  Summarises, greatest, distribution_reset-Summarises, distribution_add-Summarises,
}
use esp_now_harness.Metrics.{
  Metrics, metrics_reset, metrics_tx_requested, metrics_tx_submitted, metrics_tx_api_failure,
  metrics_tx_slot_timeout, metrics_tx_complete, metrics_dispatch_lateness, metrics_drop,
  count_queue_drop, lateness_us,
}
use esp_now_harness.Metrics.Rx.{
  metrics_rx, rx_count, rx_sequence, rx_rssi, rx_jitter, rx_rtt, abs_diff,
}
use esp_now_harness.Metrics.Events.{Event, late, received, apply, run, latenesses}

-- The differences between neighbours.
unfoldable pub differences : List ℕ → List ℕ
differences [] = []
differences (a ∷ []) = []
differences (a ∷ b ∷ rs) = abs_diff a b ∷ differences (b ∷ rs)

abbrev pub newest : List ℕ → ℕ
newest [] = 0
newest (r ∷ rs) = r

pub record RttOf (rs : List ℕ) (g : Metrics) : Type 0 where
  pub rtt_summary : Summarises rs g.rtt
  pub last_newest : g.last_rtt ≡ newest rs
  pub jitter_summed : g.jitter_sum ≡ u64 (sum (differences rs))
  pub jitter_counted : g.jitter_count ≡ length (differences rs)
  pub jitter_greatest : g.jitter_max ≡ greatest (differences rs)

abbrev is_echo : Header → ℕ → Bool
is_echo header now = header.type == packet_echo && leb header.timestamp_us now

-- Two metrics with the same round-trip fields.
SameRtt : Metrics → Metrics → Type 0
SameRtt g g' =
    (g'.rtt ≡ g.rtt)
    × (g'.last_rtt ≡ g.last_rtt)
    × (g'.jitter_sum ≡ g.jitter_sum)
    × (g'.jitter_count ≡ g.jitter_count)
    × (g'.jitter_max ≡ g.jitter_max)

abbrev is_received : Event → Bool
is_received (received header rssi now) = true
is_received _ = false

length-latenesses-le : (es : List Event) → length (latenesses es) ≤ length es
unfolding latenesses
length-latenesses-le [] = omega arith
length-latenesses-le (late actual scheduled ∷ es) = omega (arith, length-latenesses-le es)
length-latenesses-le (_ ∷ es) = omega (arith, length-latenesses-le es)

lateness_us_lem : (actual scheduled : ℕ) → lateness_us actual scheduled ≡ actual - scheduled
unfolding lateness_us
lateness_us_lem actual scheduled = ground arith

late_step :
    (g : Metrics) (actual scheduled : ℕ)
    → (apply g (late actual scheduled)).dispatch_lateness
      ≡ distribution_add g.dispatch_lateness (actual - scheduled)
unfolding apply metrics_dispatch_lateness
late_step g actual scheduled = rw lateness_us_lem refl

abbrev is_late : Event → Bool
is_late (late actual scheduled) = true
is_late _ = false

other_lateness :
    (g : Metrics) (e : Event)
    → is_late e ≡ false
    → (apply g e).dispatch_lateness ≡ g.dispatch_lateness
unfolding apply metrics_tx_requested metrics_tx_submitted metrics_tx_api_failure
    metrics_tx_slot_timeout metrics_tx_complete metrics_dispatch_lateness metrics_drop
    count_queue_drop metrics_rx rx_rtt rx_jitter rx_rssi rx_sequence rx_count
other_lateness g (late actual scheduled) h = cc
other_lateness g _ h = ground arith

-- After metrics_reset and fewer than 2 ^ 64 events, the lateness distribution summarises the times
-- by which the dispatches passed their deadlines, with 0 for a dispatch in time.
run_lateness :
    (es : List Event) → length es < 2 ^ 64 → Summarises (latenesses es) (run es).dispatch_lateness
unfolding run latenesses metrics_reset
run_lateness [] few = distribution_reset-Summarises
run_lateness (late actual scheduled ∷ es) few = rw (late_step (run es) actual scheduled) (
    distribution_add-Summarises (latenesses es) (run es).dispatch_lateness (actual - scheduled)
      (run_lateness es (omega arith)) (omega (arith, length-latenesses-le es)))
run_lateness (e ∷ es) few = rw (other_lateness (run es) e refl) (run_lateness es (omega arith))
