-- ===== src/Metrics/Loss.antt =====
-- The loss estimate of the report, against the history of events.
use esp_now_harness.Common.{
  ℕ, zero, suc, ◌+◌, ◌*◌, ◌^◌, ◌≤◌, ◌<◌, ◌≡◌, refl, ◌∙◌, List, [], ◌∷◌, arith, length, All, u64,
}
use esp_now_harness.Harness.{Config}
use esp_now_harness.Metrics.Stream.{StreamMetric}
use esp_now_harness.Metrics.Stream.History.{top, accepted, missing}
use esp_now_harness.Metrics.Stream.Tracking.{top-lt, missing-le}
use esp_now_harness.Metrics.Distribution.Quantile.{Quantile}
use esp_now_harness.Metrics.{stream_at}
use esp_now_harness.Metrics.Events.{Event, run, IsValid, sequences}
use esp_now_harness.Metrics.Streams.{StreamOf, run-StreamOf, length-streams, sequences_fit}
use esp_now_harness.Metrics.Totals.{sum_by}
use esp_now_harness.Metrics.Report.{add_gaps, metrics_json}

-- The numbers up to the highest one received that were not received within the window.
pub lost : List ℕ → ℕ
lost [] = 0
lost (s ∷ hs) = missing (suc (top (s ∷ hs))) (accepted (s ∷ hs))

-- f 0 + … + f (n - 1)
abbrev pub sum_below : ℕ → (ℕ → ℕ) → ℕ
sum_below zero f = 0
sum_below (suc n) f = f 0 + sum_below n (λ k. f (suc k))

pub sum_by-index :
    (f : StreamMetric → ℕ) (ss : List StreamMetric)
    → sum_by f ss ≡ sum_below (length ss) (λ k. f (stream_at ss k))
unfolding sum_by
sum_by-index f [] = refl
sum_by-index f (m ∷ ms) = omega (arith, sum_by-index f ms)

pub sum_below-eq :
    (n : ℕ) (f g : ℕ → ℕ) → ((k : ℕ) → k < n → f k ≡ g k) → sum_below n f ≡ sum_below n g
sum_below-eq zero f g h = refl
sum_below-eq (suc n) f g h = omega (
  arith,
  h 0 (omega arith),
  sum_below-eq n (λ k. f (suc k)) (λ k. g (suc k)) (λ k l. h (suc k) (omega arith)),
)

pub sum_below-le : (n b : ℕ) (f : ℕ → ℕ) → ((k : ℕ) → k < n → f k ≤ b) → sum_below n f ≤ n * b
sum_below-le zero b f h = omega arith
sum_below-le (suc n) b f h =
    omega
      (arith, h 0 (omega arith), sum_below-le n b (λ k. f (suc k)) (λ k l. h (suc k) (omega arith)))

-- The 64 bit sum does not wrap where the whole sum fits.
add_gaps-sum_by :
    (gaps : ℕ) (ss : List StreamMetric)
    → gaps + sum_by (λ m. m.gaps) ss < 2 ^ 64
    → add_gaps gaps ss ≡ gaps + sum_by (λ m. m.gaps) ss
unfolding add_gaps sum_by
add_gaps-sum_by gaps [] h = omega arith
add_gaps-sum_by gaps (m ∷ ms) h =
    let fits : u64 (gaps + m.gaps) ≡ gaps + m.gaps = omega arith in
    rw fits (omega (arith, add_gaps-sum_by (gaps + m.gaps) ms (omega arith)))

gaps-lost : (hs : List ℕ) (m : StreamMetric) → StreamOf hs m → m.gaps ≡ lost hs
unfolding lost
gaps-lost [] m t = t.4
gaps-lost (s ∷ hs) m t = t.gaps_missing

lost-le : (hs : List ℕ) → All (λ s. s < 2 ^ 32) hs → lost hs ≤ 2 ^ 32
unfolding lost
lost-le [] h = omega arith
lost-le (s ∷ hs) h =
    omega (arith, missing-le (suc (top (s ∷ hs))) (accepted (s ∷ hs)), top-lt (s ∷ hs) h)

-- After metrics_reset and any events on valid streams, fewer than 2 ^ 64, the loss estimate that the
-- report computes is the sum, over the sixteen streams, of how many sequence numbers up to the highest
-- one received on the stream were not received within the window.
pub metrics_json-lost :
    (ceil_times : Quantile → ℕ → ℕ) (config : Config) (es : List Event)
    → All IsValid es
    → length es < 2 ^ 64
    → (metrics_json ceil_times config (run es)).1.totals.estimated_loss
      ≡ sum_below 16 (λ k. lost (sequences k es))
unfolding metrics_json
metrics_json-lost ceil_times config es v few =
    let ss = (run es).streams in
    let each : (k : ℕ) → k < 16 → (stream_at ss k).gaps ≡ lost (sequences k es) =
      λ k h. gaps-lost (sequences k es) (stream_at ss k) (run-StreamOf k h es v few) in
    let total : sum_by (λ m. m.gaps) ss ≡ sum_below 16 (λ k. lost (sequences k es)) =
      sum_by-index (λ m. m.gaps) ss
      ∙ rw (length-streams es)
          (sum_below-eq 16 (λ k. (stream_at ss k).gaps) (λ k. lost (sequences k es)) each) in
    let small =
      sum_below-le 16 (2 ^ 32) (λ k. lost (sequences k es))
        (λ k h. lost-le (sequences k es) (sequences_fit k es v)) in
    add_gaps-sum_by 0 ss (omega (arith, total, small)) ∙ omega (arith, total)
