-- ===== src/Host/Tests.antt =====
-- The reports of two nodes and a reply, read by the host.
use esp_now_harness.Common.{
  ℕ, ◌-◌, ◌^◌, ◌<◌, ◌≡◌, refl, false, List, [], ◌∷◌, some, ◌==◌, if◌then◌else◌, arith, All, length,
  set, replicate, Bool-cases, inl, inr,
}
use esp_now_harness.Common.Int.{negsuc}
use esp_now_harness.Common.Text.{codes}
use esp_now_harness.Harness.{Config}
use esp_now_harness.Protocol.{Header, packet_stream}
use esp_now_harness.Metrics.Stream.{zero_stream}
use esp_now_harness.Metrics.{
  stream_at, zero_totals, metrics_reset, metrics_tx_requested, metrics_tx_submitted,
}
use esp_now_harness.Metrics.Events.{Event, requested, submitted, received, run, sequences}
use esp_now_harness.Metrics.Distribution.{distribution_reset}
use esp_now_harness.Metrics.Distribution.Quantile.{Quantile}
use esp_now_harness.Metrics.Report.{window_us, metrics_json}
use esp_now_harness.Metrics.Rates.{DoubleReport, report_doubles}
use esp_now_harness.Metrics.Rates.Tests.{Fraction, fractions}
use esp_now_harness.Metrics.Loss.{sum_below}
use esp_now_harness.Control.Config.{zero_config}
use esp_now_harness.Host.{aggregate, stream_tx_counters}
use esp_now_harness.Control.Json.{Double, nan, infinite, finite, whole}
use esp_now_harness.Control.Dispatch.{Body, error_body}
use esp_now_harness.Control.Response.{About, mac_text, hex_byte, hex_digit, reply_tree}
use esp_now_harness.Host.Envelope.{skipped, outcome}
use esp_now_harness.Host.Answers.{said, outcome-reply_tree}
use esp_now_harness.Host.Counters.{IsReadable, stream_tx_counters-report_tree}
use esp_now_harness.Host.Aggregates.{tree_of}
use esp_now_harness.Host.Lost.{InWindow, aggregate-missing}
use esp_now_harness.Metrics.Stream.History.{missing, top}
use esp_now_harness.Host.Unique.{unique, aggregate-unique}
use esp_now_harness.Host.Trees.{Json, builder, reader, reads}

abbrev percent : Quantile → ℕ → ℕ
percent q n = n

abbrev packet : ℕ → Header
packet seq = record {
  type = packet_stream;
  flags = 0;
  run_id = 1;
  stream_id = 3;
  packet_len = 40;
  seq = seq;
  timestamp_us = 0;
}

-- Three packets are sent on stream 3; the first arrives twice, the second is lost.
abbrev sent : List Event
sent =
    submitted 3 40 70
    ∷ requested 3
    ∷ submitted 3 40 60
    ∷ requested 3
    ∷ submitted 3 40 50
    ∷ requested 3
    ∷ []

abbrev arrived : List Event
arrived =
    received (packet 2) (negsuc 60) 90
    ∷ received (packet 0) (negsuc 60) 80
    ∷ received (packet 0) (negsuc 60) 70
    ∷ []

abbrev any_doubles : DoubleReport Fraction
any_doubles = report_doubles fractions (run [])

abbrev still : Config
still = zero_config

abbrev report_of : List Event → Json
report_of es = tree_of builder fractions percent still (run es) any_doubles

sent_streams :
    (run sent).streams
    ≡ set (replicate 16 zero_stream) 3 (record zero_stream { tx_requested = 3; tx_submitted = 3 })
unfolding run metrics_reset metrics_tx_requested metrics_tx_submitted zero_stream replicate
sent_streams = refl

sent_IsReadable : All IsReadable (run sent).streams
unfolding zero_stream replicate
sent_IsReadable =
    let idle : IsReadable zero_stream = (omega arith, omega arith, λ h. refl) in
    let three : IsReadable (record zero_stream { tx_requested = 3; tx_submitted = 3 }) =
      (omega arith, omega arith, λ h. absurd (omega (arith, h))) in
    rw sent_streams (
      idle,
      (
        idle,
        (
          idle,
          (
            three,
            (
              idle,
              (
                idle,
                (idle, (idle, (idle, (idle, (idle, (idle, (idle, (idle, (idle, (idle, tt)))))))))),
              ),
            ),
          ),
        ),
      ),
    )

sent_few : length (run sent).streams < 10 ^ 15
unfolding zero_stream replicate
sent_few = rw sent_streams (omega arith)

sent_packets : (run sent).totals.tx_submitted < 10 ^ 15
unfolding run metrics_reset zero_totals metrics_tx_requested metrics_tx_submitted
sent_packets = omega arith

sent_window : window_us (run sent).first_tx_us (run sent).last_tx_us < 10 ^ 15
unfolding window_us run metrics_reset metrics_tx_requested metrics_tx_submitted
sent_window = omega arith

sent_echoes : (run sent).rtt.sample_count < 10 ^ 15
unfolding run metrics_reset metrics_tx_requested metrics_tx_submitted distribution_reset
sent_echoes = omega arith

aggregate-unique_example :
    let a = aggregate reader false (report_of sent) (report_of arrived) in
    (a.unique_rx_packets ≡ sum_below 16 (λ k. unique (sequences k arrived)))
    × (a.forward_packet_loss
        ≡ (run sent).totals.tx_submitted - sum_below 16 (λ k. unique (sequences k arrived)))
aggregate-unique_example =
    aggregate-unique arrived (omega arith) (omega arith) builder fractions reader reads percent
      still still (run sent) any_doubles any_doubles false sent_IsReadable sent_few sent_packets
      sent_window sent_echoes

stream_tx_counters-report_tree_example :
    stream_tx_counters reader (report_of sent) 3
    ≡ ((stream_at (run sent).streams 3).tx_requested, (stream_at (run sent).streams 3).tx_submitted)
unfolding metrics_json
stream_tx_counters-report_tree_example =
    stream_tx_counters-report_tree builder fractions reader reads 3 (run sent).streams
      (metrics_json percent still (run sent)).1 any_doubles refl sent_IsReadable sent_few

abbrev fraction_of : Double → Fraction
fraction_of nan = (0, 0)
fraction_of (infinite negative) = (1, 0)
fraction_of (finite negative num scale) = (if negative then 0 else num, 2 ^ scale)

abbrev about : About
about = record {
  mac_bytes = 2 ∷ 160 ∷ 255 ∷ 0 ∷ 16 ∷ 9 ∷ [];
  firmware_version = codes "1.0";
  idf_version = codes "v5.5";
  boot = 77;
}

mac_printed : mac_text about.mac_bytes ≡ codes "02:a0:ff:00:10:09"
unfolding mac_text hex_byte hex_digit
mac_printed = refl

abbrev refused : Body
refused = error_body "invalid_state" "arm requires CONFIGURED"

outcome-reply_tree_example :
    outcome reader
      (λ j. some tt)
      5
      (reply_tree builder fractions fraction_of
        (λ e. codes "ESP_FAIL")
        about
        any_doubles
        (record { id = whole 5; body = refused }))
    ≡ (if 5 == 5 then said (λ e. codes "ESP_FAIL") refused else skipped)
outcome-reply_tree_example =
    outcome-reply_tree builder fractions reader reads (λ j. some tt) fraction_of
      (λ e. codes "ESP_FAIL") (λ n. refl) about any_doubles 5 5 refused (omega arith) refl

-- Numbers 0, 1 and 2 are sent on stream 3.
abbrev sent_on : ℕ → ℕ
sent_on k = if 3 == k then 3 else 0

arrived_below : (k : ℕ) → k < 16 → All (λ s. s < sent_on k) (sequences k arrived)
unfolding sequences
arrived_below k h = elim (Bool-cases (3 == k)) [
  | inl e ↦ rw e (omega arith, (omega arith, (omega arith, tt)))
  | inr e ↦ rw e tt
]

arrived-InWindow : (k : ℕ) → k < 16 → InWindow (sequences k arrived)
unfolding sequences top
arrived-InWindow k h = elim (Bool-cases (3 == k)) [
  | inl e ↦ rw e (refl, (refl, (refl, tt)))
  | inr e ↦ rw e tt
]

sent_total : (run sent).totals.tx_submitted ≡ sum_below 16 sent_on
unfolding run metrics_reset zero_totals metrics_tx_requested metrics_tx_submitted
sent_total = refl

aggregate-missing_example :
    (aggregate reader false (report_of sent) (report_of arrived)).forward_packet_loss
    ≡ sum_below 16 (λ k. missing (sent_on k) (sequences k arrived))
aggregate-missing_example =
    aggregate-missing arrived (omega arith) (omega arith) sent_on arrived_below arrived-InWindow
      builder fractions reader reads percent still still (run sent) any_doubles any_doubles false
      sent_IsReadable sent_few sent_packets sent_window sent_echoes sent_total
