-- ===== src/Metrics/Totals.antt =====
-- The totals of the metrics are the sums over the sixteen streams.
use esp_now_harness.Common.{
  ℕ, zero, suc, ◌+◌, ◌-◌, ◌^◌, ◌<◌, ◌≡◌, refl, ap, ◌∙◌, lt→ltb, Bool, List, [], ◌∷◌, arith, length,
  set, replicate, All, u64,
}
use esp_now_harness.Common.Int.{ℤ}
use esp_now_harness.Protocol.{Header}
use esp_now_harness.Metrics.Stream.{StreamMetric, zero_stream, sequence_observe}
use esp_now_harness.Metrics.{
  Metrics, zero_totals, stream_at, metrics_reset, metrics_tx_requested, metrics_tx_submitted,
  metrics_tx_api_failure, metrics_tx_slot_timeout, metrics_tx_complete, metrics_dispatch_lateness,
  metrics_drop, count_queue_drop,
}
use esp_now_harness.Metrics.Rx.{metrics_rx, rx_count, rx_sequence, rx_rssi, rx_jitter, rx_rtt}
use esp_now_harness.Metrics.Events.{
  Event, requested, submitted, api_failure, slot_timeout, complete, late, received, dropped,
  queue_full, apply, run, IsValid, sequences,
}
use esp_now_harness.Metrics.Streams.{length-streams, length-sequences-le, run-StreamOf, counts_fit}

unfoldable pub sum_by : (StreamMetric → ℕ) → List StreamMetric → ℕ
sum_by f [] = 0
sum_by f (m ∷ ms) = f m + sum_by f ms

sum_by-set :
    (f : StreamMetric → ℕ) (ss : List StreamMetric) (j : ℕ) (v : StreamMetric)
    → j < length ss
    → sum_by f (set ss j v) + f (stream_at ss j) ≡ sum_by f ss + f v
unfolding sum_by
sum_by-set f [] j v h = absurd (omega arith)
sum_by-set f (m ∷ ms) zero v h = omega arith
sum_by-set f (m ∷ ms) (suc j) v h = omega (arith, sum_by-set f ms j v (omega arith))

module _ (f : StreamMetric → ℕ) (ss : List StreamMetric) (j : ℕ) (v : StreamMetric)
    (h : j < length ss) where
  sum_kept :
      {t : ℕ} → f v ≡ f (stream_at ss j) → u64 (sum_by f ss) ≡ t → u64 (sum_by f (set ss j v)) ≡ t
  sum_kept e k = omega (arith, sum_by-set f ss j v h)

  sum_next :
      f v ≡ u64 (f (stream_at ss j) + 1) → u64 (sum_by f (set ss j v)) ≡ u64 (u64 (sum_by f ss) + 1)
  sum_next e = omega (arith, sum_by-set f ss j v h)

  sum_moved :
      f (stream_at ss j) < 2 ^ 64
      → u64 (sum_by f (set ss j v))
        ≡ u64 (u64 (sum_by f ss) + u64 (f v + 2 ^ 64 - f (stream_at ss j)))
  sum_moved e = omega (arith, sum_by-set f ss j v h)

sum_by-replicate :
    (f : StreamMetric → ℕ) (n : ℕ) → f zero_stream ≡ 0 → sum_by f (replicate n zero_stream) ≡ 0
unfolding sum_by replicate
sum_by-replicate f zero h = refl
sum_by-replicate f (suc n) h = omega (arith, sum_by-replicate f n h)

-- Each total is the sum over the streams, in 64 bits.
pub record Agrees (g : Metrics) : Type 0 where
  pub rx_packets_sum : u64 (sum_by (λ m. m.rx) g.streams) ≡ g.totals.rx_packets
  pub duplicate_sum : u64 (sum_by (λ m. m.duplicate) g.streams) ≡ g.totals.duplicate
  pub out_of_order_sum : u64 (sum_by (λ m. m.out_of_order) g.streams) ≡ g.totals.out_of_order
  pub tx_requested_sum : u64 (sum_by (λ m. m.tx_requested) g.streams) ≡ g.totals.tx_requested
  pub tx_submitted_sum : u64 (sum_by (λ m. m.tx_submitted) g.streams) ≡ g.totals.tx_submitted

metrics_reset-Agrees : Agrees metrics_reset
unfolding metrics_reset zero_totals zero_stream
metrics_reset-Agrees = record {
  rx_packets_sum = ground (arith, sum_by-replicate (λ m. m.rx) 16 refl);
  duplicate_sum = ground (arith, sum_by-replicate (λ m. m.duplicate) 16 refl);
  out_of_order_sum = ground (arith, sum_by-replicate (λ m. m.out_of_order) 16 refl);
  tx_requested_sum = ground (arith, sum_by-replicate (λ m. m.tx_requested) 16 refl);
  tx_submitted_sum = ground (arith, sum_by-replicate (λ m. m.tx_submitted) 16 refl);
}

next : {a b : ℕ} → a ≡ b → u64 (a + 1) ≡ u64 (b + 1)
next e = ap (λ n. u64 (n + 1)) e

rx-sequence_observe : (m : StreamMetric) (s : ℕ) → (sequence_observe m s).rx ≡ u64 (m.rx + 1)
unfolding sequence_observe
rx-sequence_observe m s = ground arith

tx-sequence_observe :
    (m : StreamMetric) (s : ℕ)
    → ((sequence_observe m s).tx_requested ≡ m.tx_requested)
      × ((sequence_observe m s).tx_submitted ≡ m.tx_submitted)
unfolding sequence_observe
tx-sequence_observe m s = ground arith

module _ (g : Metrics) (a : Agrees g) (n : length g.streams ≡ 16) where
  requested-Agrees : (j : ℕ) → j < 16 → Agrees (metrics_tx_requested g j)
  unfolding metrics_tx_requested
  requested-Agrees j h =
      let fits : j < length g.streams = omega arith in
      rw (lt→ltb j 16 h) (record {
        rx_packets_sum = sum_kept (λ m. m.rx) g.streams j _ fits refl a.rx_packets_sum;
        duplicate_sum = sum_kept (λ m. m.duplicate) g.streams j _ fits refl a.duplicate_sum;
        out_of_order_sum =
            sum_kept (λ m. m.out_of_order) g.streams j _ fits refl a.out_of_order_sum;
        tx_requested_sum =
            sum_next (λ m. m.tx_requested) g.streams j _ fits refl ∙ next a.tx_requested_sum;
        tx_submitted_sum =
            sum_kept (λ m. m.tx_submitted) g.streams j _ fits refl a.tx_submitted_sum;
      })

  submitted-Agrees : (j size at : ℕ) → j < 16 → Agrees (metrics_tx_submitted g j size at)
  unfolding metrics_tx_submitted
  submitted-Agrees j size at h =
      let fits : j < length g.streams = omega arith in
      rw (lt→ltb j 16 h) (record {
        rx_packets_sum = sum_kept (λ m. m.rx) g.streams j _ fits refl a.rx_packets_sum;
        duplicate_sum = sum_kept (λ m. m.duplicate) g.streams j _ fits refl a.duplicate_sum;
        out_of_order_sum =
            sum_kept (λ m. m.out_of_order) g.streams j _ fits refl a.out_of_order_sum;
        tx_requested_sum =
            sum_kept (λ m. m.tx_requested) g.streams j _ fits refl a.tx_requested_sum;
        tx_submitted_sum =
            sum_next (λ m. m.tx_submitted) g.streams j _ fits refl ∙ next a.tx_submitted_sum;
      })

  -- The parts of metrics_rx that leave the streams alone, and the part that does not.
  sequence-Agrees :
      (header : Header) (now : ℕ)
      → header.stream_id < 16
      → (stream_at g.streams header.stream_id).duplicate < 2 ^ 64
      → (stream_at g.streams header.stream_id).out_of_order < 2 ^ 64
      → Agrees (rx_sequence (rx_count g header now) header)
  unfolding rx_sequence rx_count
  sequence-Agrees header now h small small' =
      let j = header.stream_id in
      let old = stream_at g.streams j in
      let fits : j < length g.streams = omega arith in
      let new = sequence_observe old header.seq in
      let same = tx-sequence_observe old header.seq in
      record {
        rx_packets_sum =
            sum_next (λ m. m.rx) g.streams j new fits (rx-sequence_observe old header.seq)
            ∙ next a.rx_packets_sum;
        duplicate_sum =
            sum_moved (λ m. m.duplicate) g.streams j new fits small
            ∙ ap (λ t. u64 (t + u64 (new.duplicate + 2 ^ 64 - old.duplicate))) a.duplicate_sum;
        out_of_order_sum =
            sum_moved (λ m. m.out_of_order) g.streams j new fits small'
            ∙ ap (λ t. u64 (t + u64 (new.out_of_order + 2 ^ 64 - old.out_of_order)))
                a.out_of_order_sum;
        tx_requested_sum =
            sum_kept (λ m. m.tx_requested) g.streams j new fits same.0 a.tx_requested_sum;
        tx_submitted_sum =
            sum_kept (λ m. m.tx_submitted) g.streams j new fits same.1 a.tx_submitted_sum;
      }

-- Two metrics with the same streams and the same five totals.
SameSums : Metrics → Metrics → Type 0
SameSums g g' =
    (g'.streams ≡ g.streams)
    × (g'.totals.rx_packets ≡ g.totals.rx_packets)
    × (g'.totals.duplicate ≡ g.totals.duplicate)
    × (g'.totals.out_of_order ≡ g.totals.out_of_order)
    × (g'.totals.tx_requested ≡ g.totals.tx_requested)
    × (g'.totals.tx_submitted ≡ g.totals.tx_submitted)

SameSums-Agrees : (g g' : Metrics) → SameSums g g' → Agrees g → Agrees g'
unfolding SameSums
SameSums-Agrees g g' s a = record {
  rx_packets_sum = rw (s.0, s.1) a.rx_packets_sum;
  duplicate_sum = rw (s.0, s.2) a.duplicate_sum;
  out_of_order_sum = rw (s.0, s.3) a.out_of_order_sum;
  tx_requested_sum = rw (s.0, s.4) a.tx_requested_sum;
  tx_submitted_sum = rw (s.0, s.5) a.tx_submitted_sum;
}

rest_of_rx :
    (g : Metrics) (header : Header) (rssi : ℤ) (now : ℕ)
    → SameSums (rx_sequence (rx_count g header now) header) (metrics_rx g header rssi now)
unfolding SameSums metrics_rx rx_rssi rx_rtt rx_jitter
rest_of_rx g header rssi now = ground arith

dropped-SameSums : (g : Metrics) (stale invalid : Bool) → SameSums g (metrics_drop g stale invalid)
unfolding SameSums metrics_drop
dropped-SameSums g stale invalid = ground arith

complete-SameSums : (g : Metrics) (success : Bool) → SameSums g (metrics_tx_complete g success)
unfolding SameSums metrics_tx_complete
complete-SameSums g success = ground arith

other-SameSums :
    (g : Metrics) (actual scheduled : ℕ)
    → SameSums g (metrics_tx_api_failure g)
      × SameSums g (metrics_tx_slot_timeout g)
      × SameSums g (metrics_dispatch_lateness g actual scheduled)
      × SameSums g (count_queue_drop g)
unfolding SameSums metrics_tx_api_failure metrics_tx_slot_timeout metrics_dispatch_lateness
    count_queue_drop
other-SameSums g actual scheduled = ground arith

-- After metrics_reset and any events on valid streams, fewer than 2 ^ 64, the totals of received,
-- duplicate, reordered, requested and submitted packets are the sums of the streams' counts.
pub run-Agrees : (es : List Event) → All IsValid es → length es < 2 ^ 64 → Agrees (run es)
unfolding run apply
run-Agrees [] v few = metrics_reset-Agrees
run-Agrees (requested j ∷ es) v few =
    requested-Agrees (run es) (run-Agrees es v.1 (omega arith)) (length-streams es) j v.0
run-Agrees (submitted j size at ∷ es) v few =
    submitted-Agrees (run es) (run-Agrees es v.1 (omega arith)) (length-streams es) j size at v.0
run-Agrees (received header rssi now ∷ es) v few =
    let fit =
      counts_fit (sequences header.stream_id es) (stream_at (run es).streams header.stream_id)
        (run-StreamOf header.stream_id v.0.0 es v.1 (omega arith))
        (omega (arith, length-sequences-le header.stream_id es)) in
    SameSums-Agrees _ _ (rest_of_rx (run es) header rssi now) (
      sequence-Agrees (run es) (run-Agrees es v.1 (omega arith)) (length-streams es) header now
        v.0.0 fit.0 fit.1)
run-Agrees (api_failure ∷ es) v few =
    SameSums-Agrees _ _ (other-SameSums (run es) 0 0).0 (run-Agrees es v.1 (omega arith))
run-Agrees (slot_timeout ∷ es) v few =
    SameSums-Agrees _ _ (other-SameSums (run es) 0 0).1 (run-Agrees es v.1 (omega arith))
run-Agrees (late actual scheduled ∷ es) v few =
    SameSums-Agrees _ _ (other-SameSums (run es) actual scheduled).2
      (run-Agrees es v.1 (omega arith))
run-Agrees (queue_full ∷ es) v few =
    SameSums-Agrees _ _ (other-SameSums (run es) 0 0).3 (run-Agrees es v.1 (omega arith))
run-Agrees (complete success ∷ es) v few =
    SameSums-Agrees _ _ (complete-SameSums (run es) success) (run-Agrees es v.1 (omega arith))
run-Agrees (dropped stale invalid ∷ es) v few =
    SameSums-Agrees _ _ (dropped-SameSums (run es) stale invalid) (run-Agrees es v.1 (omega arith))
