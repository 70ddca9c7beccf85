-- ===== src/Host/Unique.antt =====
-- The loss that the host, host/src/output.rs, computes from the results of the two nodes.
use esp_now_harness.Common.{
  ℕ, zero, suc, ◌-◌, ◌*◌, ◌^◌, ◌≤◌, ◌<◌, ◌≡◌, ap, ◌∙◌, Bool, List, [], ◌∷◌, All, length, u64, arith,
}
use esp_now_harness.Harness.{Config}
use esp_now_harness.Output.{Builder}
use esp_now_harness.Output.Object.{Reader, Reads}
use esp_now_harness.Metrics.{Metrics, stream_at}
use esp_now_harness.Metrics.Stream.{StreamMetric}
use esp_now_harness.Metrics.Stream.History.{duplicates}
use esp_now_harness.Metrics.Stream.Tracking.{duplicates-le}
use esp_now_harness.Metrics.Events.{Event, IsValid, run, sequences}
use esp_now_harness.Metrics.Streams.{StreamOf, length-streams, length-sequences-le, run-StreamOf}
use esp_now_harness.Metrics.Totals.{run-Agrees, sum_by}
use esp_now_harness.Metrics.Loss.{sum_below, sum_by-index, sum_below-eq, sum_below-le}
use esp_now_harness.Metrics.Distribution.Quantile.{Quantile}
use esp_now_harness.Metrics.Report.{window_us}
use esp_now_harness.Metrics.Rates.{Doubles, DoubleReport}
use esp_now_harness.Host.{aggregate}
use esp_now_harness.Host.Counters.{IsReadable}
use esp_now_harness.Host.Aggregates.{aggregate_lem, tree_of}

pub sum_below-sub :
    (n : ℕ) (f g : ℕ → ℕ)
    → ((k : ℕ) → k < n → g k ≤ f k)
    → (sum_below n f - sum_below n g ≡ sum_below n (λ k. f k - g k))
      × (sum_below n g ≤ sum_below n f)
sum_below-sub zero f g h = (omega arith, omega arith)
sum_below-sub (suc n) f g h =
    let (rest, below) =
      sum_below-sub n (λ k. f (suc k)) (λ k. g (suc k)) (λ k l. h (suc k) (omega arith)) in
    let first = h 0 (omega arith) in
    (omega (arith, rest, below, first), omega (arith, below, first))

rx_of : (hs : List ℕ) (m : StreamMetric) → StreamOf hs m → m.rx ≡ length hs
rx_of [] m t = t.1
rx_of (s ∷ hs) m t = t.rx_length

duplicate_of : (hs : List ℕ) (m : StreamMetric) → StreamOf hs m → m.duplicate ≡ duplicates hs
unfolding duplicates
duplicate_of [] m t = t.2
duplicate_of (s ∷ hs) m t = t.duplicates_counted

-- The packets received on a stream, less those whose number had come before within the window.
abbrev pub unique : List ℕ → ℕ
unique hs = length hs - duplicates hs

module _ (es : List Event) (valid : All IsValid es) (few : length es < 6 * 10 ^ 13) where
  -- A sum over the streams of a count that is at most the number of the events.
  total_is :
      (f : StreamMetric → ℕ) (count : List ℕ → ℕ) (total : ℕ)
      → ((hs : List ℕ) (m : StreamMetric) → StreamOf hs m → f m ≡ count hs)
      → ((hs : List ℕ) → count hs ≤ length hs)
      → u64 (sum_by f (run es).streams) ≡ total
      → (total ≡ sum_below 16 (λ k. count (sequences k es))) × (total < 10 ^ 15)
  total_is f count total same small agrees =
      let ss = (run es).streams in
      let counts : sum_by f ss ≡ sum_below 16 (λ k. count (sequences k es)) =
        sum_by-index f ss
        ∙ rw (length-streams es) (
            sum_below-eq 16 (λ k. f (stream_at ss k)) (λ k. count (sequences k es))
              (λ k h.
                same (sequences k es) (stream_at ss k)
                  (run-StreamOf k h es valid (omega arith)))) in
      let bounded =
        sum_below-le 16 (length es) (λ k. count (sequences k es))
          (λ k h. omega (arith, small (sequences k es), length-sequences-le k es)) in
      (omega (arith, agrees, counts, bounded), omega (arith, agrees, counts, bounded))

  rx_total :
      ((run es).totals.rx_packets ≡ sum_below 16 (λ k. length (sequences k es)))
      × ((run es).totals.rx_packets < 10 ^ 15)
  rx_total =
      total_is (λ m. m.rx) length (run es).totals.rx_packets rx_of (λ hs. omega arith)
        (run-Agrees es valid (omega arith)).rx_packets_sum

  duplicate_total :
      ((run es).totals.duplicate ≡ sum_below 16 (λ k. duplicates (sequences k es)))
      × ((run es).totals.duplicate < 10 ^ 15)
  duplicate_total =
      total_is (λ m. m.duplicate) duplicates (run es).totals.duplicate duplicate_of duplicates-le
        (run-Agrees es valid (omega arith)).duplicate_sum

  unique_total :
      (run es).totals.rx_packets - (run es).totals.duplicate
      ≡ sum_below 16 (λ k. unique (sequences k es))
  unique_total =
      let a = rx_total.0 in
      let c = duplicate_total.0 in
      let s =
        sum_below-sub 16 (λ k. length (sequences k es)) (λ k. duplicates (sequences k es))
          (λ k h. duplicates-le (sequences k es)) in
      (λ i. a i - c i) ∙ s.0

  module _ {J D : Type 0} (b : Builder J D) (d : Doubles D) (r : Reader J) (x : Reads b d r)
      (ceil_times : Quantile → ℕ → ℕ) (config config' : Config) (g : Metrics)
      (doubles doubles' : DoubleReport D) where
    -- The packets that the host takes as lost on the way are those that the generating node, whose
    -- metrics are g, has submitted, less the packets that the other node has received since
    -- metrics_reset on each of the sixteen streams, each stream's less those whose number had come
    -- before within the window. The other node's events are on valid streams and fewer than 6 * 10^13;
    -- g's counts are below 10^15, and in a stream of g none is submitted where none is requested.
    pub aggregate-unique :
        (under_load : Bool)
        → All IsReadable g.streams
        → length g.streams < 10 ^ 15
        → g.totals.tx_submitted < 10 ^ 15
        → window_us g.first_tx_us g.last_tx_us < 10 ^ 15
        → g.rtt.sample_count < 10 ^ 15
        → let a =
            aggregate r under_load
              (tree_of b d ceil_times config g doubles)
              (tree_of b d ceil_times config' (run es) doubles') in
          (a.unique_rx_packets ≡ sum_below 16 (λ k. unique (sequences k es)))
          × (a.forward_packet_loss
              ≡ g.totals.tx_submitted - sum_below 16 (λ k. unique (sequences k es)))
    aggregate-unique under_load readable streams sent window echoes =
        let is =
          aggregate_lem b d r x ceil_times config config' g (run es) doubles doubles' under_load
            readable streams sent window echoes rx_total.1 duplicate_total.1 in
        (
          ap (λ a. a.unique_rx_packets) is ∙ unique_total,
          ap (λ a. a.forward_packet_loss) is ∙ ap (λ n. g.totals.tx_submitted - n) unique_total,
        )
