-- ===== src/Host/Counters.antt =====
-- What the host reads from the tree of metrics_json of firmware/main/metrics.c.
use Prim.Native.String.{String}
use esp_now_harness.Common.{
  ℕ, zero, suc, ◌+◌, ◌^◌, ◌<◌, ◌≡◌, refl, sym, ap, ◌∙◌, inl, inr, true, false, ◌&&◌, List, [], ◌∷◌,
  map, Option, none, some, Bool-cases, ◌==◌, arith, All, length,
}
use esp_now_harness.Common.Text.{str_eq}
use esp_now_harness.Output.{Builder, Fields, is_fresh, is_distinct, field, object, u64_item}
use esp_now_harness.Output.Object.{Reader, Reads, get-object, as_array-add_items}
use esp_now_harness.Metrics.Report.{Report, StreamReport, stream_reports}
use esp_now_harness.Metrics.Rates.{Doubles, DoubleReport}
use esp_now_harness.Metrics.Stream.{StreamMetric, zero_stream}
use esp_now_harness.Metrics.{stream_at}
use esp_now_harness.Metrics.Tree.{stream_fields, stream_tree, report_tree, report_fields}
use esp_now_harness.Host.{bind, or_zero, has_id, find_stream, stream_counter, stream_tx_counters}

-- A stream's counters are below 10^15, and no packet is submitted that was not requested.
abbrev pub IsReadable : StreamMetric → Type 0
IsReadable m =
    (m.tx_requested < 10 ^ 15)
    × (m.tx_submitted < 10 ^ 15)
    × (m.tx_requested ≡ 0 → m.tx_submitted ≡ 0)

module _ {J D : Type 0} (b : Builder J D) (d : Doubles D) (r : Reader J) (x : Reads b d r) where
  -- A number of an object, as the host reads it.
  read_u64 :
      (name : String) (fields : Fields J) (n : ℕ)
      → is_distinct fields ≡ true
      → field name fields ≡ some (u64_item b d n)
      → n < 10 ^ 15
      → bind (r.get (object b fields) name) r.as_u64 ≡ some n
  unfolding u64_item
  read_u64 name fields n distinct is small =
      rw (get-object b d r x name fields distinct ∙ is) (x.whole n small)

  stream_distinct : (m : StreamReport) → is_distinct (stream_fields b d m) ≡ true
  unfolding stream_fields is_distinct str_eq
  stream_distinct m = refl

  has_id-stream_tree :
      (k : ℕ) (m : StreamReport)
      → m.stream_id < 10 ^ 15
      → has_id r k (stream_tree b d m) ≡ (m.stream_id == k)
  unfolding has_id stream_tree field str_eq stream_fields
  has_id-stream_tree k m small =
      rw (read_u64 "stream_id" (stream_fields b d m) m.stream_id (stream_distinct m) refl small)
        refl

  counters-stream_tree :
      (m : StreamReport)
      → m.tx_requested < 10 ^ 15
      → m.tx_submitted < 10 ^ 15
      → (stream_counter r (some (stream_tree b d m)) "tx_requested" ≡ m.tx_requested)
        × (stream_counter r (some (stream_tree b d m)) "tx_submitted" ≡ m.tx_submitted)
  unfolding stream_counter stream_tree field str_eq stream_fields
  counters-stream_tree m few_requested few_submitted = (
    ap or_zero (
        read_u64 "tx_requested" (stream_fields b d m) m.tx_requested (stream_distinct m) refl
          few_requested),
    ap or_zero (
        read_u64 "tx_submitted" (stream_fields b d m) m.tx_submitted (stream_distinct m) refl
          few_submitted),
  )

  abbrev item : ℕ → StreamMetric → StreamReport
  item i m = record {
    stream_id = i;
    tx_requested = m.tx_requested;
    tx_submitted = m.tx_submitted;
    rx_packets = m.rx;
    missing = m.gaps;
    duplicate = m.duplicate;
    out_of_order = m.out_of_order;
  }

  abbrev trees : ℕ → List StreamMetric → List J
  trees i ms = map (stream_tree b d) (stream_reports i ms)

  -- No stream before the first is found.
  find_before :
      (k i : ℕ) (ms : List StreamMetric)
      → k < i
      → i + length ms < 10 ^ 15
      → find_stream r k (trees i ms) ≡ none
  unfolding find_stream stream_reports
  find_before k i [] before few = refl
  find_before k i (m ∷ ms) before few =
      let rest = find_before k (i + 1) ms (omega arith) (omega arith) in
      elim (Bool-cases ((m.tx_requested == 0) && (m.rx == 0))) [
        | inl e ↦ rw e rest
        | inr e ↦
            let other : (i == k) ≡ false = ground arith in
            rw (e, has_id-stream_tree k (item i m) (omega arith), other) rest
      ]

  abbrev Shows : Option J → StreamMetric → Type 0
  Shows stream m =
      (stream_counter r stream "tx_requested" ≡ m.tx_requested)
      × (stream_counter r stream "tx_submitted" ≡ m.tx_submitted)

  step : (i j : ℕ) → i + suc j ≡ i + 1 + j
  step i j = omega arith

  -- The counters of the stream that is `j` after the first.
  find_counters :
      (j i : ℕ) (ms : List StreamMetric)
      → All IsReadable ms
      → i + length ms < 10 ^ 15
      → Shows (find_stream r (i + j) (trees i ms)) (stream_at ms j)
  unfolding find_stream stream_reports stream_counter zero_stream
  find_counters j i [] readable few = (refl, refl)
  find_counters zero i (m ∷ ms) (readable, others) few =
      elim (Bool-cases ((m.tx_requested == 0) && (m.rx == 0))) [
        | inl e ↦
            let requested : m.tx_requested ≡ 0 = ground (arith, e) in
            let submitted = readable.2 requested in
            let none_found = find_before (i + 0) (i + 1) ms (omega arith) (omega arith) in
            rw (e, none_found) (sym requested, sym submitted)
        | inr e ↦
            let this : (i == i + 0) ≡ true = ground arith in
            rw (e, has_id-stream_tree (i + 0) (item i m) (omega arith), this)
              (counters-stream_tree (item i m) readable.0 readable.1)
      ]
  find_counters (suc j) i (m ∷ ms) (readable, others) few =
      let rest : Shows (find_stream r (i + suc j) (trees (i + 1) ms)) (stream_at ms j) =
        rw (step i j) (find_counters j (i + 1) ms others (omega arith)) in
      elim (Bool-cases ((m.tx_requested == 0) && (m.rx == 0))) [
        | inl e ↦ rw e rest
        | inr e ↦
            let other : (i == i + suc j) ≡ false = ground arith in
            rw (e, has_id-stream_tree (i + suc j) (item i m) (omega arith), other) rest
      ]

  streams_found :
      (k : ℕ) (ms : List StreamMetric) (report : Report) (doubles : DoubleReport D)
      → report.streams ≡ stream_reports 0 ms
      → bind (bind (r.get (report_tree b d report doubles) "streams") r.as_array) (find_stream r k)
        ≡ find_stream r k (trees 0 ms)
  unfolding report_tree report_fields is_distinct is_fresh field str_eq
  streams_found k ms report doubles is =
      let fields = report_fields b d report doubles in
      let streams = get-object b d r x "streams" fields refl in
      let items =
        as_array-add_items b d r x b.create_array [] (map (stream_tree b d) report.streams)
          x.array_new in
      ap (λ v. bind (bind v r.as_array) (find_stream r k)) streams
      ∙ ap (λ v. bind v (find_stream r k)) items
      ∙ ap (λ v. find_stream r k (map (stream_tree b d) v)) is

  -- The counters that the host reads of the stream `k` in the tree of a report are those of the
  -- stream's record, also where the report leaves the stream out. The report is of the streams `ms`,
  -- fewer than 10^15; the counters of each are below 10^15, and in each none is submitted where none is
  -- requested.
  pub stream_tx_counters-report_tree :
      (k : ℕ) (ms : List StreamMetric) (report : Report) (doubles : DoubleReport D)
      → report.streams ≡ stream_reports 0 ms
      → All IsReadable ms
      → length ms < 10 ^ 15
      → stream_tx_counters r (report_tree b d report doubles) k
        ≡ ((stream_at ms k).tx_requested, (stream_at ms k).tx_submitted)
  unfolding stream_tx_counters
  stream_tx_counters-report_tree k ms report doubles is readable few =
      let first : 0 + k ≡ k = omega arith in
      let (requested, submitted) = rw first at (find_counters k 0 ms readable (omega arith)) in
      rw (streams_found k ms report doubles is) (λ i. (requested i, submitted i))
