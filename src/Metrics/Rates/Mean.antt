-- ===== src/Metrics/Rates/Mean.antt =====
-- The mean of a distribution in the report of firmware/main/metrics.c.
use esp_now_harness.Common.{
  ℕ, ◌*◌, ◌^◌, ◌≤◌, ◌<◌, ◌≡◌, refl, inl, inr, false, List, [], ◌∷◌, ltb, ◌==◌, Bool-cases, arith,
  length, sum,
}
use native.Mathlib.Nat.{mul-le-mul_right}
use esp_now_harness.Metrics.Distribution.Summary.{
  recorded, least, greatest, add_all, add_all-Summarises,
}
use esp_now_harness.Metrics.Rates.{Doubles, quotient, mean}

-- What a quotient of whole numbers below 2^53 is: such numbers are exact as doubles, and rounding to the
-- nearest keeps the order.
pub record Rounding {D : Type 0} (d : Doubles D) : Type 1 where
  pub Le : D → D → Type 0
  pub above :
      (low value n : ℕ)
      → 1 ≤ n
      → n < 2 ^ 53
      → value < 2 ^ 53
      → low * n ≤ value
      → Le (d.of_nat low) (d.div (d.of_nat value) (d.of_nat n))
  pub below :
      (high value n : ℕ)
      → 1 ≤ n
      → n < 2 ^ 53
      → value < 2 ^ 53
      → value ≤ high * n
      → Le (d.div (d.of_nat value) (d.of_nat n)) (d.of_nat high)

least-mul-le : (vs : List ℕ) → least vs * length vs ≤ sum vs
unfolding least sum
least-mul-le [] = omega arith
least-mul-le (v ∷ vs) = elim (Bool-cases (ltb v (least vs))) [
  | inl e ↦
      let low : v ≤ least vs = ground (arith, e) in
      rw e (omega (arith, mul-le-mul_right (length vs) low, least-mul-le vs))
  | inr e ↦ let low : least vs ≤ v = ground (arith, e) in rw e (omega (arith, low, least-mul-le vs))
]

le-greatest-mul : (vs : List ℕ) → sum vs ≤ greatest vs * length vs
unfolding greatest sum
le-greatest-mul [] = omega arith
le-greatest-mul (v ∷ vs) = elim (Bool-cases (ltb (greatest vs) v)) [
  | inl e ↦
      let high : greatest vs ≤ v = ground (arith, e) in
      rw e (omega (arith, mul-le-mul_right (length vs) high, le-greatest-mul vs))
  | inr e ↦
      let high : v ≤ greatest vs = ground (arith, e) in
      rw e (omega (arith, high, le-greatest-mul vs))
]

length-recorded : (vs : List ℕ) → length (recorded vs) ≡ length vs
unfolding recorded
length-recorded [] = refl
length-recorded (v ∷ vs) = omega (arith, length-recorded vs)

module _ {D : Type 0} (d : Doubles D) (r : Rounding d) where
  -- The mean that the report gives lies between the least and the greatest value recorded, where a value
  -- above 2^32 - 1 is recorded as 2^32 - 1, for any values added in any order, at least one, whose number
  -- and whose number times the greatest recorded stay below 2^53: then the sum has not wrapped and is
  -- exact as a double.
  pub mean_bounds :
      (vs : List ℕ)
      → 1 ≤ length vs
      → length vs < 2 ^ 53
      → greatest (recorded vs) * length vs < 2 ^ 53
      → let s = add_all vs in r.Le (d.of_nat s.min) (mean d s) × r.Le (mean d s) (d.of_nat s.max)
  unfolding mean quotient
  mean_bounds vs some_value few small =
      let s = add_all vs in
      let said = add_all-Summarises vs (omega arith) in
      let size = length-recorded vs in
      let low : least (recorded vs) * length vs ≤ sum (recorded vs) =
        rw size at (least-mul-le (recorded vs)) in
      let high : sum (recorded vs) ≤ greatest (recorded vs) * length vs =
        rw size at (le-greatest-mul (recorded vs)) in
      let some_samples : (s.sample_count == 0) ≡ false = ground (arith, said.counted) in
      let exact : s.sum ≡ sum (recorded vs) = omega (arith, said.summed, high) in
      let small_sum : s.sum < 2 ^ 53 = omega (arith, exact, high) in
      let positive : 1 ≤ s.sample_count = omega (arith, said.counted) in
      let few_samples : s.sample_count < 2 ^ 53 = omega (arith, said.counted) in
      rw some_samples (
        r.above s.min s.sum s.sample_count positive few_samples small_sum
            (rw (said.min_least, said.counted, exact) low),
        r.below s.max s.sum s.sample_count positive few_samples small_sum
            (rw (said.max_greatest, said.counted, exact) high),
      )
