-- ===== src/Metrics/Rates/Tests.antt =====
-- Exact fractions in place of doubles.
use esp_now_harness.Common.{ℕ, ◌*◌, ◌-◌, ◌≤◌, ◌≡◌, refl, [], ◌∷◌, arith, ltb, ◌==◌, if◌then◌else◌}
use esp_now_harness.Common.Int.{pos_part}
use esp_now_harness.Metrics.{Metrics, metrics_reset}
use esp_now_harness.Metrics.Distribution.{bounded_u32}
use esp_now_harness.Metrics.Distribution.Summary.{add_all, recorded, greatest}
use esp_now_harness.Metrics.Report.{window_us}
use esp_now_harness.Metrics.Rates.{Doubles, mean, rates, report_doubles}
use esp_now_harness.Metrics.Rates.Guarded.{report_doubles_guarded}
use esp_now_harness.Metrics.Rates.Mean.{Rounding, mean_bounds}

-- A numerator and a denominator; what is below zero is cut off, and a square root is rounded to 0.
abbrev pub Fraction : Type 0
Fraction = ℕ × ℕ

abbrev pub fractions : Doubles Fraction
fractions = record {
  of_nat = λ n. (n, 1);
  of_int = λ z. (pos_part z, 1);
  mul = λ a b. (a.0 * b.0, a.1 * b.1);
  div = λ a b. (a.0 * b.1, a.1 * b.0);
  sub = λ a b. (a.0 * b.1 - b.0 * a.1, a.1 * b.1);
  sqrt = λ a. (0, 1);
  is_positive = λ a. ltb 0 a.0;
  div_long = λ a n. (a, n);
}

fractions-Rounding : Rounding fractions
fractions-Rounding = record {
  Le = λ a b. a.0 * b.1 ≤ b.0 * a.1;
  above = λ low value n a b c h. grind arith;
  below = λ high value n a b c h. grind arith;
}

-- A division by zero that gives 7.
abbrev seven_at_zero : Fraction → Fraction → Fraction
seven_at_zero a b = if b.0 == 0 then (7, 1) else (a.0 * b.1, a.1 * b.0)

same_above_zero :
    (a : Fraction) (n : ℕ)
    → 1 ≤ n
    → seven_at_zero a (fractions.of_nat n) ≡ fractions.div a (fractions.of_nat n)
same_above_zero a n h = ground arith

abbrev run_of_2_s : Metrics
run_of_2_s =
    let g = metrics_reset in
    let t = g.totals in
    record g { totals = record t { tx_submitted = 500 }; start_us = 1000000; end_us = 3000000 }

-- 500 packets in two seconds.
two_seconds : (rates fractions run_of_2_s).tx_pps ≡ (500000000, 2000000)
unfolding rates window_us
two_seconds = refl

report_doubles_guarded_example :
    report_doubles (record fractions { div = seven_at_zero; div_long = λ a n. (a, n) }) run_of_2_s
    ≡ report_doubles fractions run_of_2_s
report_doubles_guarded_example =
    report_doubles_guarded fractions seven_at_zero (λ a n. (a, n)) same_above_zero (λ a n h. refl)
      run_of_2_s

mean_bounds_example :
    let s = add_all (900 ∷ 100 ∷ 500 ∷ []) in
    fractions-Rounding.Le (fractions.of_nat s.min) (mean fractions s)
    × fractions-Rounding.Le (mean fractions s) (fractions.of_nat s.max)
unfolding greatest recorded bounded_u32
mean_bounds_example =
    mean_bounds fractions fractions-Rounding (900 ∷ 100 ∷ 500 ∷ []) (omega arith) (omega arith)
      (omega arith)
