-- ===== src/Metrics/Stream/Tracking.antt =====
-- `sequence_observe` on a bounded bitmap agrees with the whole history of the stream.
use esp_now_harness.Common.{
  ℕ, zero, suc, ◌+◌, ◌-◌, ◌^◌, ◌≤◌, ◌<◌, ◌≡◌, refl, ap, ◌∙◌, true, false, not, List, [], ◌∷◌, arith,
  bit_and, ◌==◌, if◌then◌else◌, contains, length, All,
}
use esp_now_harness.Common.Bits.{bit_at, bit_at-or_pow, bit_at-one}
use esp_now_harness.Metrics.Stream.{StreamMetric, zero_stream, sequence_observe}
use esp_now_harness.Metrics.Stream.Window.{bit_at-shifted, bit_and-zero_iff}
use esp_now_harness.Metrics.Stream.History.{
  top, accepted, duplicates, reordered, missing, contains_above, contains-accepted, missing_seen,
  missing_fresh, missing_beyond,
}

pub record Tracks (hs : List ℕ) (m : StreamMetric) : Type 0 where
  pub started : m.init ≡ true
  pub highest_top : m.highest ≡ top hs
  pub rx_length : m.rx ≡ length hs
  pub duplicates_counted : m.duplicate ≡ duplicates hs
  pub reordered_counted : m.out_of_order ≡ reordered hs
  pub gaps_missing : m.gaps ≡ missing (suc (top hs)) (accepted hs)
  pub top_received : contains hs (top hs) ≡ true
  pub window :
      (s : ℕ)
      → s ≤ top hs
      → top hs < s + 64
      → bit_at m.bitmap (top hs - s) ≡ (if contains hs s then 1 else 0)

pub duplicates-le : (hs : List ℕ) → duplicates hs ≤ length hs
unfolding duplicates
duplicates-le [] = omega arith
duplicates-le (s ∷ hs) = ground (arith, duplicates-le hs)

pub reordered-le : (hs : List ℕ) → reordered hs ≤ length hs
unfolding reordered
reordered-le [] = omega arith
reordered-le (s ∷ hs) = ground (arith, reordered-le hs)

pub missing-le : (n : ℕ) (acc : List ℕ) → missing n acc ≤ n
unfolding missing
missing-le zero acc = omega arith
missing-le (suc n) acc = ground (arith, missing-le n acc)

first_top : (s : ℕ) → top (s ∷ []) ≡ s
unfolding top
first_top s = ground arith

missing-nil : (n : ℕ) → missing n [] ≡ n
unfolding missing contains
missing-nil zero = refl
missing-nil (suc n) = ground (arith, missing-nil n)

-- All numbers below that of the first packet are missing.
missing_first : (s : ℕ) → missing (suc s) (s ∷ []) ≡ s
unfolding contains
missing_first s = ground (arith, missing_fresh (suc s) s [], missing-nil (suc s))

first_accepted : (s : ℕ) → accepted (s ∷ []) ≡ s ∷ []
unfolding top accepted
first_accepted s = ground arith

first_missing : (s : ℕ) → missing (suc (top (s ∷ []))) (accepted (s ∷ [])) ≡ s
first_missing s = rw (first_top s, first_accepted s) (missing_first s)

accepted_above : (hs : List ℕ) (s : ℕ) → top hs < s → contains (accepted hs) s ≡ false
accepted_above hs s h = contains-accepted hs s (omega arith) ∙ contains_above hs s h

-- All numbers between the highest and a higher one are missing.
missing_ahead :
    (hs : List ℕ) (s : ℕ)
    → top hs < s
    → missing (suc s) (s ∷ accepted hs) ≡ missing (suc (top hs)) (accepted hs) + (s - top hs - 1)
missing_ahead hs s h = ground (
  arith,
  missing_fresh (suc s) s (accepted hs),
  accepted_above hs s h,
  ap (λ (n : ℕ). missing n (accepted hs)) length_of_gap,
  missing_beyond (s - top hs) (suc (top hs)) (accepted hs)
      (λ r le. accepted_above hs r (omega arith)),
)
  where
    length_of_gap : s - top hs + suc (top hs) ≡ suc s
    length_of_gap = omega arith

-- The first packet of a stream.
pub Tracks-first :
    (m : StreamMetric) (s : ℕ)
    → m.init ≡ false
    → m.rx ≡ 0
    → m.duplicate ≡ 0
    → m.out_of_order ≡ 0
    → Tracks (s ∷ []) (sequence_observe m s)
unfolding sequence_observe top duplicates reordered contains
Tracks-first m s i r d o = record {
  started = ground arith;
  highest_top = ground arith;
  rx_length = ground arith;
  duplicates_counted = ground arith;
  reordered_counted = ground arith;
  gaps_missing = ground (arith, first_missing s);
  top_received = ground arith;
  window = λ t le near. ground (arith, bit_at-one (top (s ∷ []) - t));
}

module _ (hs : List ℕ) (m : StreamMetric) (s : ℕ) (t : Tracks hs m) (small : s < 2 ^ 32)
    (fits : top hs < 2 ^ 32) (few : length hs + 1 < 2 ^ 64) where
  started_step : (sequence_observe m s).init ≡ true
  unfolding sequence_observe
  started_step = ground (arith, t.started)

  highest_step : (sequence_observe m s).highest ≡ top (s ∷ hs)
  unfolding sequence_observe top
  highest_step = ground (arith, t.started, t.highest_top)

  rx_step : (sequence_observe m s).rx ≡ length (s ∷ hs)
  unfolding sequence_observe
  rx_step = ground (arith, t.started, t.rx_length)

  bit_step :
      s ≤ top hs
      → top hs < s + 64
      → (bit_and m.bitmap (2 ^ (top hs - s)) == 0) ≡ not (contains hs s)
  bit_step le near = ground (arith, bit_and-zero_iff m.bitmap (top hs - s), t.window s le near)

  duplicate_step : (sequence_observe m s).duplicate ≡ duplicates (s ∷ hs)
  unfolding sequence_observe duplicates
  duplicate_step = ground (
    arith,
    t.started,
    t.highest_top,
    t.duplicates_counted,
    bit_step,
    duplicates-le hs,
    contains_above hs s,
  )

  out_of_order_step : (sequence_observe m s).out_of_order ≡ reordered (s ∷ hs)
  unfolding sequence_observe reordered
  out_of_order_step = ground (
    arith,
    t.started,
    t.highest_top,
    t.reordered_counted,
    t.top_received,
    bit_step,
    reordered-le hs,
    contains_above hs s,
  )

  gaps_step : (sequence_observe m s).gaps ≡ missing (suc (top (s ∷ hs))) (accepted (s ∷ hs))
  unfolding sequence_observe top accepted
  gaps_step = ground (
    arith,
    t.started,
    t.highest_top,
    t.gaps_missing,
    bit_step,
    missing_ahead hs s,
    missing-le (suc (top hs)) (accepted hs),
    missing_seen (suc (top hs)) s (accepted hs),
    missing_fresh (suc (top hs)) s (accepted hs),
    contains-accepted hs s,
  )

  received_step : contains (s ∷ hs) (top (s ∷ hs)) ≡ true
  unfolding top contains
  received_step = ground (arith, t.top_received)

  window_step :
      (r : ℕ)
      → r ≤ top (s ∷ hs)
      → top (s ∷ hs) < r + 64
      → bit_at (sequence_observe m s).bitmap (top (s ∷ hs) - r)
        ≡ (if contains (s ∷ hs) r then 1 else 0)
  unfolding sequence_observe top contains
  window_step r le near = ground (
    arith,
    t.started,
    t.highest_top,
    bit_step,
    bit_at-shifted m.bitmap (s - top hs) (s - r),
    bit_at-or_pow m.bitmap (top hs - s) (top hs - r),
    t.window r,
    contains_above hs r,
  )

-- Any further packet.
pub Tracks-next :
    (hs : List ℕ) (m : StreamMetric) (s : ℕ)
    → Tracks hs m
    → s < 2 ^ 32
    → top hs < 2 ^ 32
    → length hs + 1 < 2 ^ 64
    → Tracks (s ∷ hs) (sequence_observe m s)
Tracks-next hs m s t small fits few = record {
  started = started_step hs m s t small fits few;
  highest_top = highest_step hs m s t small fits few;
  rx_length = rx_step hs m s t small fits few;
  duplicates_counted = duplicate_step hs m s t small fits few;
  reordered_counted = out_of_order_step hs m s t small fits few;
  gaps_missing = gaps_step hs m s t small fits few;
  top_received = received_step hs m s t small fits few;
  window = window_step hs m s t small fits few;
}

-- The stream's record after a history, the newest packet first.
unfoldable pub observe_all : List ℕ → StreamMetric
observe_all [] = zero_stream
observe_all (s ∷ hs) = sequence_observe (observe_all hs) s

pub top-lt : (hs : List ℕ) → All (λ s. s < 2 ^ 32) hs → top hs < 2 ^ 32
unfolding top
top-lt [] h = omega arith
top-lt (s ∷ hs) h = ground (arith, top-lt hs h.1)

-- After any packets on a stream, fewer than 2 ^ 64 with 32 bit sequence numbers, its record agrees
-- with their whole history: the highest number and the number of packets; as duplicates those within
-- 63 of the highest number that had come before; as reordered those below it that had not, or that
-- came later than that; as gaps the numbers up to it that were not received within the window; and
-- in the bitmap, for each number of the window, whether it was received.
pub observe_all-Tracks :
    (s : ℕ) (hs : List ℕ)
    → All (λ r. r < 2 ^ 32) (s ∷ hs)
    → length (s ∷ hs) < 2 ^ 64
    → Tracks (s ∷ hs) (observe_all (s ∷ hs))
unfolding observe_all zero_stream
observe_all-Tracks s [] small few = Tracks-first zero_stream s refl refl refl refl
observe_all-Tracks s (r ∷ hs) small few =
    Tracks-next (r ∷ hs) (observe_all (r ∷ hs)) s (observe_all-Tracks r hs small.1 (omega arith))
      small.0 (top-lt (r ∷ hs) small.1) (omega arith)
