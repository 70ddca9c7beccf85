-- ===== src/Metrics/Distribution/Summary.antt =====
-- What a distribution says of the values added to it: the list of them, the newest first.
use esp_now_harness.Common.{
  ℕ, zero, suc, ◌+◌, ◌-◌, ◌*◌, ◌%◌, ◌^◌, ◌≤◌, ◌<◌, ◌≡◌, ◌≢◌, refl, sym, ◌∙◌, true, List, [], ◌∷◌,
  arith, ltb, if◌then◌else◌, contains, length, get_or, set, length-set, get_or-set_self,
  get_or-set_ne, length-replicate, sum, u64,
}
use native.Mathlib.Decide.{ℕ_discrete}
use native.Mathlib.Nat.{mul-le-mul}
use esp_now_harness.Metrics.Distribution.{
  SampleDistribution, metric_sample_capacity, uint32_max, distribution_reset, sample_hash,
  bounded_u32, long_double, nearest, round_from, distribution_add,
}

-- The values as they are recorded.
unfoldable pub recorded : List ℕ → List ℕ
recorded [] = []
recorded (v ∷ vs) = bounded_u32 v ∷ recorded vs

unfoldable pub squares : List ℕ → List ℕ
squares [] = []
squares (v ∷ vs) = v * v ∷ squares vs

-- The sum of the squares, rounded to a long double after each.
unfoldable pub square_sum : List ℕ → ℕ
square_sum [] = 0
square_sum (v ∷ vs) = long_double (square_sum vs + v * v)

unfoldable pub least : List ℕ → ℕ
least [] = uint32_max
least (v ∷ vs) = if ltb v (least vs) then v else least vs

unfoldable pub greatest : List ℕ → ℕ
greatest [] = 0
greatest (v ∷ vs) = if ltb (greatest vs) v then v else greatest vs

pub record Summarises (vs : List ℕ) (d : SampleDistribution) : Type 0 where
  pub capacity : length d.samples ≡ metric_sample_capacity
  pub counted : d.sample_count ≡ length vs
  pub retained :
      d.reservoir_count
      ≡ (if ltb (length vs) metric_sample_capacity then length vs else metric_sample_capacity)
  pub summed : d.sum ≡ u64 (sum (recorded vs))
  pub squared : d.sum_sq ≡ square_sum (recorded vs)
  pub min_least : d.min ≡ least (recorded vs)
  pub max_greatest : d.max ≡ greatest (recorded vs)
  pub samples_recorded :
      (i : ℕ) → i < d.reservoir_count → contains (recorded vs) (get_or d.samples i 0) ≡ true

pub distribution_reset-Summarises : Summarises [] distribution_reset
unfolding distribution_reset recorded square_sum least greatest sum
distribution_reset-Summarises = record {
  capacity = length-replicate 8192 0;
  counted = refl;
  retained = refl;
  summed = refl;
  squared = refl;
  min_least = refl;
  max_greatest = refl;
  samples_recorded = λ i h. absurd (omega arith);
}

-- After a write each entry is the new value or an old one.
contains-set :
    (vs xs : List ℕ) (j i v : ℕ)
    → j < length xs
    → (i ≢ j → contains vs (get_or xs i 0) ≡ true)
    → contains (v ∷ vs) (get_or (set xs j v) i 0) ≡ true
unfolding contains
contains-set vs xs j i v h old = elim (ℕ_discrete i j) [
  | yes same ↦ rw (same, get_or-set_self xs j v 0 h) (ground arith)
  | no other ↦ rw (get_or-set_ne xs j i v 0 (λ e. other (sym e)), old other) (ground arith)
]

module _ (vs : List ℕ) (d : SampleDistribution) (v : ℕ) (s : Summarises vs d)
    (few : length vs + 1 < 2 ^ 64) where
  abbrev slot : ℕ
  slot = sample_hash (u64 (d.sample_count + 1)) % u64 (d.sample_count + 1)

  numbers_step :
      (length (distribution_add d v).samples ≡ metric_sample_capacity)
      × ((distribution_add d v).sample_count ≡ length (v ∷ vs))
      × ((distribution_add d v).sum ≡ u64 (sum (recorded (v ∷ vs))))
      × ((distribution_add d v).sum_sq ≡ square_sum (recorded (v ∷ vs)))
  unfolding distribution_add recorded square_sum sum
  numbers_step = ground (
    arith,
    s.capacity,
    s.counted,
    s.retained,
    s.summed,
    s.squared,
    length-set d.samples d.reservoir_count (bounded_u32 v),
    length-set d.samples slot (bounded_u32 v),
  )

  retained_step : (distribution_add d v).reservoir_count ≡ (
      if ltb (length (v ∷ vs)) metric_sample_capacity
      then length (v ∷ vs)
      else metric_sample_capacity)
  unfolding distribution_add
  retained_step = ground (arith, s.counted, s.retained)

  extremes_step :
      ((distribution_add d v).min ≡ least (recorded (v ∷ vs)))
      × ((distribution_add d v).max ≡ greatest (recorded (v ∷ vs)))
  unfolding distribution_add recorded least greatest
  extremes_step = ground (arith, s.min_least, s.max_greatest)

  samples_step :
      (i : ℕ)
      → i < (distribution_add d v).reservoir_count
      → contains (recorded (v ∷ vs)) (get_or (distribution_add d v).samples i 0) ≡ true
  unfolding distribution_add recorded contains
  samples_step i h = ground (
    arith,
    s.capacity,
    s.retained,
    s.samples_recorded i,
    contains-set (recorded vs) d.samples d.reservoir_count i (bounded_u32 v),
    contains-set (recorded vs) d.samples slot i (bounded_u32 v),
  )

long_double_exact : (n : ℕ) → n < 2 ^ 113 → long_double n ≡ n
unfolding long_double round_from nearest
long_double_exact n h =
    let first : ltb n (2 ^ (113 + 0)) ≡ true = ground arith in rw first (ground arith)

bounded_square : (v : ℕ) → bounded_u32 v * bounded_u32 v ≤ 2 ^ 64
unfolding bounded_u32
bounded_square v =
    let small : bounded_u32 v ≤ 2 ^ 32 = ground arith in omega (arith, mul-le-mul small small)

-- Fewer than 2 ^ 49 values lose nothing by the rounding.
square_sum_exact :
    (vs : List ℕ)
    → length vs < 2 ^ 49
    → (square_sum (recorded vs) ≡ sum (squares (recorded vs)))
      × (sum (squares (recorded vs)) ≤ length vs * 2 ^ 64)
unfolding square_sum squares recorded sum
square_sum_exact [] few = (refl, omega arith)
square_sum_exact (v ∷ vs) few =
    let (same, bound) = square_sum_exact vs (omega arith) in
    let small : bounded_u32 v * bounded_u32 v ≤ 2 ^ 64 = bounded_square v in
    (
      long_double_exact (square_sum (recorded vs) + bounded_u32 v * bounded_u32 v)
            (omega (arith, same, bound, small))
          ∙ omega (arith, same),
      omega (arith, bound, small),
    )

-- One more value.
pub distribution_add-Summarises :
    (vs : List ℕ) (d : SampleDistribution) (v : ℕ)
    → Summarises vs d
    → length vs + 1 < 2 ^ 64
    → Summarises (v ∷ vs) (distribution_add d v)
distribution_add-Summarises vs d v s few =
    let (capacity, counted, summed, squared) = numbers_step vs d v s few in
    let (min_least, max_greatest) = extremes_step vs d v s few in
    record {
      capacity = capacity;
      counted = counted;
      retained = retained_step vs d v s few;
      summed = summed;
      squared = squared;
      min_least = min_least;
      max_greatest = max_greatest;
      samples_recorded = samples_step vs d v s few;
    }

-- The distribution after a list of values, the newest first.
unfoldable pub add_all : List ℕ → SampleDistribution
add_all [] = distribution_reset
add_all (v ∷ vs) = distribution_add (add_all vs) v

pub add_all-Summarises : (vs : List ℕ) → length vs < 2 ^ 64 → Summarises vs (add_all vs)
unfolding add_all
add_all-Summarises [] few = distribution_reset-Summarises
add_all-Summarises (v ∷ vs) few =
    distribution_add-Summarises vs (add_all vs) v (add_all-Summarises vs (omega arith))
      (omega arith)

samples_of_add :
    (vs : List ℕ) (d : SampleDistribution) (v : ℕ)
    → Summarises vs d
    → length vs < metric_sample_capacity
    → (distribution_add d v).samples ≡ set d.samples (length vs) (bounded_u32 v)
unfolding distribution_add
samples_of_add vs d v s few =
    let full : d.reservoir_count ≡ length vs = ground (arith, s.retained) in
    rw (← full) (ground arith)

get_or-zero : (x : ℕ) (xs : List ℕ) (k : ℕ) → k ≡ 0 → get_or (x ∷ xs) k 0 ≡ x
get_or-zero x xs zero h = refl
get_or-zero x xs (suc k) h = absurd (omega arith)

get_or-pred : (x : ℕ) (xs : List ℕ) (k j : ℕ) → k ≡ suc j → get_or (x ∷ xs) k 0 ≡ get_or xs j 0
get_or-pred x xs k j h = rw h refl

-- Up to the capacity nothing is replaced: the samples are the values in the order of their arrival.
add_all_exact :
    (vs : List ℕ) (i : ℕ)
    → length vs ≤ metric_sample_capacity
    → i < length vs
    → get_or (add_all vs).samples i 0 ≡ get_or (recorded vs) (length vs - 1 - i) 0
unfolding add_all recorded
add_all_exact [] i few h = absurd (omega arith)
add_all_exact (v ∷ vs) i few h =
    let s = add_all-Summarises vs (omega arith) in
    rw (samples_of_add vs (add_all vs) v s (omega arith)) (elim (ℕ_discrete i (length vs)) [
      | yes last ↦
          rw
            (
              get_or-zero (bounded_u32 v) (recorded vs) (length (v ∷ vs) - 1 - i) (omega arith),
              last,
            )
            (get_or-set_self (add_all vs).samples (length vs) (bounded_u32 v) 0
              (omega (arith, s.capacity)))
      | no earlier ↦
          get_or-set_ne (add_all vs).samples (length vs) i (bounded_u32 v) 0 (λ e. earlier (sym e))
          ∙ add_all_exact vs i (omega arith) (omega arith)
          ∙ sym (
              get_or-pred (bounded_u32 v) (recorded vs) (length (v ∷ vs) - 1 - i)
                (length vs - 1 - i) (omega arith))
    ])
