-- ===== src/Control/Ranges.antt =====
-- The ranges of the numbers that a request may give: integer_in_range and the power of
-- firmware/main/control.c.
use esp_now_harness.Common.{ℕ, ◌*◌, ◌/◌, ◌^◌, ◌≤◌, ◌≡◌, true, false, arith}
use native.Mathlib.Nat.{one-le-pow, div-add-mod}
use esp_now_harness.Control.Config.{power_valid, quadruple}
use esp_now_harness.Control.Json.{
  Double, nan, infinite, finite, ge_whole, le_whole, to_nat, integer_in_range,
}

le-div : (a b p : ℕ) → 1 ≤ p → a * p ≤ b → a ≤ b / p
le-div a b p h k = grind (arith, div-add-mod b p)

div-le : (a b p : ℕ) → 1 ≤ p → b ≤ a * p → b / p ≤ a
div-le a b p h k = grind (arith, div-add-mod b p)

-- A number that passes the test lies in the range after the conversion.
pub integer_in_range_bounds :
    (v : Double) (lo hi : ℕ) → integer_in_range v lo hi ≡ true → (lo ≤ to_nat v) × (to_nat v ≤ hi)
unfolding integer_in_range to_nat
integer_in_range_bounds nan lo hi h = cc
integer_in_range_bounds (infinite b) lo hi h = cc
integer_in_range_bounds (finite true num scale) lo hi h = ground arith
integer_in_range_bounds (finite false num scale) lo hi h =
    ground (arith, one-le-pow scale 2, le-div lo num (2 ^ scale), div-le hi num (2 ^ scale))

pub power_valid_bounds :
    (v : Double) → power_valid v ≡ true → (8 ≤ to_nat (quadruple v)) × (to_nat (quadruple v) ≤ 80)
unfolding power_valid quadruple to_nat ge_whole le_whole
power_valid_bounds nan h = cc
power_valid_bounds (infinite b) h = cc
power_valid_bounds (finite true num scale) h = ground arith
power_valid_bounds (finite false num scale) h =
    ground
      (arith, one-le-pow scale 2, le-div 8 (num * 4) (2 ^ scale), div-le 80 (num * 4) (2 ^ scale))
