-- ===== src/Common/Division.antt =====
-- Quotients and products of numbers that are not numerals.
use Prim.Native.Nat.{ℕ, ◌+◌, ◌*◌, ◌/◌, ◌≤◌, ◌<◌}
use native.Mathlib.Omega.{arith}
use native.Mathlib.Decide.{dec_lt}
use native.Mathlib.Nat.{div-add-mod, mod-lt, mul-le-mul_left, mul-le-mul_right}

pub div_mono : (a b p : ℕ) → 1 ≤ p → a ≤ b → a / p ≤ b / p
div_mono a b p h k =
    grind (arith, div-add-mod a p, div-add-mod b p, mod-lt a {m = p} h, mod-lt b {m = p} h)

pub lt_of_div : (a d p : ℕ) → 1 ≤ p → a / p < d → a < d * p
lt_of_div a d p h k = grind (arith, div-add-mod a p, mod-lt a {m = p} h)

pub div-mul-le : (a p : ℕ) → 1 ≤ p → a / p * p ≤ a
div-mul-le a p h = grind (arith, div-add-mod a p)

pub le_of_mul_le : (q d e r : ℕ) → 1 ≤ r → q * r ≤ d * r + e → q ≤ d + e
le_of_mul_le q d e r h k = elim (dec_lt (d + e) q) [
  | yes l ↦ absurd (omega (arith, mul-le-mul_right r l, mul-le-mul_left e h))
  | no l ↦ omega arith
]
