-- ===== src/Metrics/Streams.antt =====
-- Each stream's record agrees with the sequence numbers received on that stream, whatever else
-- the metrics count in between.
use esp_now_harness.Common.{
  ℕ, zero, suc, ◌+◌, ◌^◌, ◌≤◌, ◌<◌, ◌≡◌, ◌≢◌, refl, ◌∙◌, lt→ltb, ==_iff, false, List, [], ◌∷◌,
  arith, ltb, ◌==◌, if◌then◌else◌, length, set, replicate, length-set, get_or-set_self,
  get_or-set_ne, length-replicate, All, Bool-cases, inl, inr, u64,
}
use native.Mathlib.Decide.{ℕ_discrete}
use esp_now_harness.Common.Int.{ℤ}
use esp_now_harness.Protocol.{Header}
use esp_now_harness.Metrics.Stream.{StreamMetric, zero_stream, sequence_observe}
use esp_now_harness.Metrics.Stream.Tracking.{
  Tracks, Tracks-first, Tracks-next, top-lt, duplicates-le, reordered-le,
}
use esp_now_harness.Metrics.{
  Metrics, stream_at, metrics_reset, metrics_tx_requested, metrics_tx_submitted,
  metrics_tx_api_failure, metrics_tx_slot_timeout, metrics_tx_complete, metrics_dispatch_lateness,
  metrics_drop, count_queue_drop,
}
use esp_now_harness.Metrics.Rx.{metrics_rx, rx_count, rx_sequence, rx_rssi, rx_jitter, rx_rtt}
use esp_now_harness.Metrics.Events.{
  Event, requested, submitted, received, apply, run, IsValid, sequences,
}

-- What an event does to the array of streams, and nothing else does.
pub on_streams : List StreamMetric → Event → List StreamMetric
on_streams ss (requested stream) =
    let metric = stream_at ss stream in
    if ltb stream 16
    then set ss stream (record metric { tx_requested = u64 (metric.tx_requested + 1) })
    else ss
on_streams ss (submitted stream size at) =
    let metric = stream_at ss stream in
    if ltb stream 16
    then set ss stream (record metric { tx_submitted = u64 (metric.tx_submitted + 1) })
    else ss
on_streams ss (received header rssi now) =
    set ss header.stream_id (sequence_observe (stream_at ss header.stream_id) header.seq)
on_streams ss _ = ss

pub streams-apply : (g : Metrics) (e : Event) → (apply g e).streams ≡ on_streams g.streams e
unfolding apply on_streams metrics_tx_requested metrics_tx_submitted metrics_tx_api_failure
    metrics_tx_slot_timeout metrics_tx_complete metrics_dispatch_lateness metrics_drop
    count_queue_drop metrics_rx rx_count rx_sequence rx_rssi rx_rtt rx_jitter
streams-apply g (requested stream) = ground arith
streams-apply g (submitted stream size at) = ground arith
streams-apply g (received header rssi now) = ground arith
streams-apply g _ = ground arith

-- What a stream's record says of the numbers received on it; with none it is as memset left it.
abbrev pub StreamOf : List ℕ → StreamMetric → Type 0
StreamOf [] m =
    (m.init ≡ false) × (m.rx ≡ 0) × (m.duplicate ≡ 0) × (m.out_of_order ≡ 0) × (m.gaps ≡ 0)
StreamOf (s ∷ hs) m = Tracks (s ∷ hs) m

StreamOf-observe :
    (hs : List ℕ) (m : StreamMetric) (s : ℕ)
    → StreamOf hs m
    → s < 2 ^ 32
    → All (λ r. r < 2 ^ 32) hs
    → length hs + 1 < 2 ^ 64
    → StreamOf (s ∷ hs) (sequence_observe m s)
StreamOf-observe [] m s (i, r, d, o, g) small fit few = Tracks-first m s i r d o
StreamOf-observe (r ∷ hs) m s t small fit few =
    Tracks-next (r ∷ hs) m s t small (top-lt (r ∷ hs) fit) few

StreamOf-tx :
    (hs : List ℕ) (m : StreamMetric) (x y : ℕ)
    → StreamOf hs m
    → StreamOf hs (record m { tx_requested = x; tx_submitted = y })
StreamOf-tx [] m x y t = t
StreamOf-tx (s ∷ hs) m x y t = record {
  started = t.started;
  highest_top = t.highest_top;
  rx_length = t.rx_length;
  duplicates_counted = t.duplicates_counted;
  reordered_counted = t.reordered_counted;
  gaps_missing = t.gaps_missing;
  top_received = t.top_received;
  window = t.window;
}

pub sequences_fit :
    (k : ℕ) (es : List Event) → All IsValid es → All (λ s. s < 2 ^ 32) (sequences k es)
unfolding sequences
sequences_fit k [] v = tt
sequences_fit k (received header rssi now ∷ es) v = elim (Bool-cases (header.stream_id == k)) [
  | inl e ↦ rw e (v.0.1, sequences_fit k es v.1)
  | inr e ↦ rw e (sequences_fit k es v.1)
]
sequences_fit k (_ ∷ es) v = sequences_fit k es v.1

pub length-sequences-le : (k : ℕ) (es : List Event) → length (sequences k es) ≤ length es
unfolding sequences
length-sequences-le k [] = omega arith
length-sequences-le k (received header rssi now ∷ es) = ground (arith, length-sequences-le k es)
length-sequences-le k (_ ∷ es) = omega (arith, length-sequences-le k es)

-- The array keeps its length.
length-on_streams : (ss : List StreamMetric) (e : Event) → length (on_streams ss e) ≡ length ss
unfolding on_streams
length-on_streams ss (requested stream) = elim (Bool-cases (ltb stream 16)) [
  | inl e ↦ rw e (length-set ss stream _)
  | inr e ↦ rw e refl
]
length-on_streams ss (submitted stream size at) = elim (Bool-cases (ltb stream 16)) [
  | inl e ↦ rw e (length-set ss stream _)
  | inr e ↦ rw e refl
]
length-on_streams ss (received header rssi now) = length-set ss header.stream_id _
length-on_streams ss _ = refl

==_false : (j k : ℕ) → j ≢ k → (j == k) ≡ false
==_false j k h = ground arith

stream_at-set :
    (ss : List StreamMetric) (j k : ℕ) (v : StreamMetric)
    → j < length ss
    → stream_at (set ss j v) k ≡ (if j == k then v else stream_at ss k)
stream_at-set ss j k v h = elim (ℕ_discrete j k) [
  | yes same ↦ rw (← same, (==_iff j j).1 refl) (get_or-set_self ss j v zero_stream h)
  | no other ↦ rw (==_false j k other) (get_or-set_ne ss j k v zero_stream other)
]

-- A transmission changes the counts of transmissions alone.
OnlyTx : StreamMetric → StreamMetric → Type 0
OnlyTx m m' = (x : ℕ) × (y : ℕ) × (m' ≡ record m { tx_requested = x; tx_submitted = y })

OnlyTx-StreamOf : (hs : List ℕ) (m m' : StreamMetric) → OnlyTx m m' → StreamOf hs m → StreamOf hs m'
unfolding OnlyTx
OnlyTx-StreamOf hs m m' (x, y, e) t = rw e (StreamOf-tx hs m x y t)

requested-OnlyTx :
    (ss : List StreamMetric) (j k : ℕ)
    → length ss ≡ 16
    → j < 16
    → OnlyTx (stream_at ss k) (stream_at (on_streams ss (requested j)) k)
unfolding OnlyTx on_streams
requested-OnlyTx ss j k n h = elim (ℕ_discrete j k) [
  | yes same ↦ (
    u64 ((stream_at ss k).tx_requested + 1),
    (stream_at ss k).tx_submitted,
    rw (lt→ltb j 16 h, same) (get_or-set_self ss k _ zero_stream (omega arith)),
  )
  | no other ↦ (
    (stream_at ss k).tx_requested,
    (stream_at ss k).tx_submitted,
    rw (lt→ltb j 16 h) (get_or-set_ne ss j k _ zero_stream other),
  )
]

submitted-OnlyTx :
    (ss : List StreamMetric) (j k size at : ℕ)
    → length ss ≡ 16
    → j < 16
    → OnlyTx (stream_at ss k) (stream_at (on_streams ss (submitted j size at)) k)
unfolding OnlyTx on_streams
submitted-OnlyTx ss j k size at n h = elim (ℕ_discrete j k) [
  | yes same ↦ (
    (stream_at ss k).tx_requested,
    u64 ((stream_at ss k).tx_submitted + 1),
    rw (lt→ltb j 16 h, same) (get_or-set_self ss k _ zero_stream (omega arith)),
  )
  | no other ↦ (
    (stream_at ss k).tx_requested,
    (stream_at ss k).tx_submitted,
    rw (lt→ltb j 16 h) (get_or-set_ne ss j k _ zero_stream other),
  )
]

pub length-streams : (es : List Event) → length (run es).streams ≡ 16
unfolding run metrics_reset
length-streams [] = length-replicate 16 zero_stream
length-streams (e ∷ es) =
    rw streams-apply (length-on_streams (run es).streams e ∙ length-streams es)

replicate_zero : (n k : ℕ) → stream_at (replicate n zero_stream) k ≡ zero_stream
unfolding replicate
replicate_zero zero k = refl
replicate_zero (suc n) zero = refl
replicate_zero (suc n) (suc k) = replicate_zero n k

module _ (k : ℕ) (inside : k < 16) where
  received-StreamOf :
      (ss : List StreamMetric) (header : Header) (rssi : ℤ) (now : ℕ) (es : List Event)
      → length ss ≡ 16
      → IsValid (received header rssi now)
      → All IsValid es
      → length es + 1 < 2 ^ 64
      → StreamOf (sequences k es) (stream_at ss k)
      → StreamOf
          (sequences k (received header rssi now ∷ es))
          (stream_at (on_streams ss (received header rssi now)) k)
  unfolding on_streams sequences
  received-StreamOf ss header rssi now es n v vs few t =
      rw (stream_at-set ss header.stream_id k _ (omega arith))
        (elim (ℕ_discrete header.stream_id k) [
          | yes same ↦
              rw ((==_iff header.stream_id k).1 same, same)
                (StreamOf-observe (sequences k es) (stream_at ss k) header.seq t v.1
                  (sequences_fit k es vs) (omega (arith, length-sequences-le k es)))
          | no other ↦ rw (==_false header.stream_id k other) t
        ])

  -- After metrics_reset and any events on valid streams, fewer than 2 ^ 64, the record of each stream
  -- agrees with the history of the sequence numbers received on that stream: the highest number,
  -- the packets, the duplicates, the reordered packets, the missing numbers and the window.
  pub run-StreamOf :
      (es : List Event)
      → All IsValid es
      → length es < 2 ^ 64
      → StreamOf (sequences k es) (stream_at (run es).streams k)
  unfolding sequences on_streams run metrics_reset zero_stream
  run-StreamOf [] v few = rw (replicate_zero 16 k) (refl, refl, refl, refl, refl)
  run-StreamOf (requested stream ∷ es) v few = rw (streams-apply (run es) (requested stream)) (
      OnlyTx-StreamOf (sequences k es) _ _
        (requested-OnlyTx (run es).streams stream k (length-streams es) v.0)
        (run-StreamOf es v.1 (omega arith)))
  run-StreamOf (submitted stream size at ∷ es) v few =
      rw (streams-apply (run es) (submitted stream size at)) (
        OnlyTx-StreamOf (sequences k es) _ _
          (submitted-OnlyTx (run es).streams stream k size at (length-streams es) v.0)
          (run-StreamOf es v.1 (omega arith)))
  run-StreamOf (received header rssi now ∷ es) v few =
      rw (streams-apply (run es) (received header rssi now)) (
        received-StreamOf (run es).streams header rssi now es (length-streams es) v.0 v.1
          (omega arith) (run-StreamOf es v.1 (omega arith)))
  run-StreamOf (e ∷ es) v few = rw (streams-apply (run es) e) (run-StreamOf es v.1 (omega arith))

-- So no count of a stream comes near the end of its 64 bits.
pub counts_fit :
    (hs : List ℕ) (m : StreamMetric)
    → StreamOf hs m
    → length hs < 2 ^ 64
    → (m.duplicate < 2 ^ 64) × (m.out_of_order < 2 ^ 64)
counts_fit [] m t few = omega arith
counts_fit (s ∷ hs) m t few = omega (
  arith,
  t.duplicates_counted,
  t.reordered_counted,
  duplicates-le (s ∷ hs),
  reordered-le (s ∷ hs),
)
