-- ===== src/Host/Lost.antt =====
-- The loss that the host, host/src/output.rs, reports, against the packets that did not arrive.
use esp_now_harness.Common.{
  ℕ, zero, suc, ◌+◌, ◌-◌, ◌*◌, ◌^◌, ◌<◌, ◌≡◌, refl, ap, ◌∙◌, inl, inr, Bool, false, Bool-cases,
  List, [], ◌∷◌, All, length, arith, contains,
}
use esp_now_harness.Harness.{Config}
use esp_now_harness.Output.{Builder}
use esp_now_harness.Output.Object.{Reader, Reads}
use esp_now_harness.Metrics.{Metrics}
use esp_now_harness.Metrics.Stream.History.{
  duplicates, is_old, missing, missing_seen, missing_fresh,
}
use esp_now_harness.Metrics.Stream.Tracking.{duplicates-le}
use esp_now_harness.Metrics.Events.{Event, IsValid, run, sequences}
use esp_now_harness.Metrics.Loss.{sum_below, sum_below-eq}
use esp_now_harness.Metrics.Distribution.Quantile.{Quantile}
use esp_now_harness.Metrics.Report.{window_us}
use esp_now_harness.Metrics.Rates.{Doubles, DoubleReport}
use esp_now_harness.Host.{aggregate}
use esp_now_harness.Host.Counters.{IsReadable}
use esp_now_harness.Host.Aggregates.{tree_of}
use esp_now_harness.Host.Unique.{unique, sum_below-sub, aggregate-unique}

-- No packet came more than 63 behind the highest before it.
abbrev pub InWindow : List ℕ → Type 0
InWindow [] = Unit {0}
InWindow (s ∷ hs) = (is_old hs s ≡ false) × InWindow hs

missing_nil : (n : ℕ) → missing n [] ≡ n
unfolding missing contains
missing_nil zero = refl
missing_nil (suc n) = omega (arith, missing_nil n)

-- Of the numbers below `n` each is missing or counted once.
missing-unique :
    (n : ℕ) (hs : List ℕ) → All (λ s. s < n) hs → InWindow hs → missing n hs + unique hs ≡ n
unfolding duplicates
missing-unique n [] below near = omega (arith, missing_nil n)
missing-unique n (s ∷ hs) (low, below) (young, near) =
    let rest = missing-unique n hs below near in
    let few = duplicates-le hs in
    elim (Bool-cases (contains hs s)) [
      | inl e ↦ rw (young, e) (omega (arith, rest, few, missing_seen n s hs e))
      | inr e ↦ rw (young, e) (omega (arith, rest, few, missing_fresh n s hs low e))
    ]

module _ (es : List Event) (valid : All IsValid es) (few : length es < 6 * 10 ^ 13) (sent : ℕ → ℕ)
    (below : (k : ℕ) → k < 16 → All (λ s. s < sent k) (sequences k es))
    (near : (k : ℕ) → k < 16 → InWindow (sequences k es)) where
  lost_total :
      sum_below 16 sent - sum_below 16 (λ k. unique (sequences k es))
      ≡ sum_below 16 (λ k. missing (sent k) (sequences k es))
  lost_total =
      let each : (k : ℕ)
          → k < 16
          → missing (sent k) (sequences k es) + unique (sequences k es) ≡ sent k =
        λ k h. missing-unique (sent k) (sequences k es) (below k h) (near k h) in
      (sum_below-sub 16 sent (λ k. unique (sequences k es)) (λ k h. omega (arith, each k h))).0
      ∙ sum_below-eq 16 (λ k. sent k - unique (sequences k es))
          (λ k. missing (sent k) (sequences k es)) (λ k h. omega (arith, each k h))

  module _ {J D : Type 0} (b : Builder J D) (d : Doubles D) (r : Reader J) (x : Reads b d r)
      (ceil_times : Quantile → ℕ → ℕ) (config config' : Config) (g : Metrics)
      (doubles doubles' : DoubleReport D) where
    -- The packets that the host reports as lost on the way are those numbers that the generating node
    -- sent on the sixteen streams and the other node never received. The first `sent k` numbers are
    -- sent on stream k, and the metrics g of the generating node count them all; what the other node
    -- receives is of them, and none comes more than 63 behind the highest before it. The other node's
    -- events are on valid streams and fewer than 6 * 10^13; g's counts are below 10^15, and in a stream
    -- of g none is submitted where none is requested.
    pub aggregate-missing :
        (under_load : Bool)
        → All IsReadable g.streams
        → length g.streams < 10 ^ 15
        → g.totals.tx_submitted < 10 ^ 15
        → window_us g.first_tx_us g.last_tx_us < 10 ^ 15
        → g.rtt.sample_count < 10 ^ 15
        → g.totals.tx_submitted ≡ sum_below 16 sent
        → (aggregate r under_load
            (tree_of b d ceil_times config g doubles)
            (tree_of b d ceil_times config' (run es) doubles')).forward_packet_loss
          ≡ sum_below 16 (λ k. missing (sent k) (sequences k es))
    aggregate-missing under_load readable streams packets window echoes all =
        (aggregate-unique es valid few b d r x ceil_times config config' g doubles doubles'
          under_load readable streams packets window echoes).1
        ∙ ap (λ n. n - sum_below 16 (λ k. unique (sequences k es))) all
        ∙ lost_total
