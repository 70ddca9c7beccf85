-- ===== src/Common/Bits.antt =====
-- Single bits of a number: what `x & (1 << k)`, `x | (1 << k)` and `x << d` do, for every `k`.
use Prim.Native.Nat.{
  ℕ, zero, suc, ◌+◌, ◌-◌, ◌*◌, ◌/◌, ◌%◌, ◌^◌, ◌≤◌, ◌<◌, min, max, bit_and, bit_or, digits,
  bit_and-bitwise, bit_or-bitwise,
}
use mathlib.Core.Path.{◌≡◌, refl, ap, ◌∙◌}
use native.Mathlib.Omega.{arith}
use native.Mathlib.Nat.{pow-suc, div-add-mod, div-div-eq-div-mul, mul_comm}
use esp_now_harness.Common.Tests.{◌==◌, ltb, leb, if◌then◌else◌}

-- The bit of weight 2 ^ k.
unfoldable pub bit_at : ℕ → ℕ → ℕ
bit_at b zero = b % 2
bit_at b (suc k) = bit_at (b / 2) k

pub bit_at-le : (b k : ℕ) → bit_at b k ≤ 1
unfolding bit_at
bit_at-le b zero = omega arith
bit_at-le b (suc k) = bit_at-le (b / 2) k

-- The native operations are recursions on digits with fuel; more fuel than the number changes nothing.
module _ (z : ℕ → ℕ) (f : ℕ → ℕ → ℕ) where
  enough_fuel : (n m a b : ℕ) → a ≤ n → a ≤ m → digits z f n a b ≡ digits z f m a b
  enough_fuel zero zero a b h k = refl
  enough_fuel zero (suc m) zero b h k = refl
  enough_fuel zero (suc m) (suc a) b h k = absurd (omega arith)
  enough_fuel (suc n) zero zero b h k = refl
  enough_fuel (suc n) zero (suc a) b h k = absurd (omega arith)
  enough_fuel (suc n) (suc m) zero b h k = refl
  enough_fuel (suc n) (suc m) (suc a) b h k =
      ap (λ (t : ℕ). t * 2 + f (suc a % 2) (b % 2))
        (enough_fuel n m (suc a / 2) (b / 2) (omega arith) (omega arith))

and_low : (a b : ℕ) → bit_and a b ≡ bit_and (a / 2) (b / 2) * 2 + min (a % 2) (b % 2)
and_low zero b = omega (arith, bit_and-bitwise 0 b, bit_and-bitwise 0 (b / 2))
and_low (suc a) b = omega (
  arith,
  bit_and-bitwise (suc a) b,
  bit_and-bitwise (suc a / 2) (b / 2),
  enough_fuel (λ _. 0) min a (suc a / 2) (suc a / 2) (b / 2) (omega arith) (omega arith),
)

or_low : (a b : ℕ) → bit_or a b ≡ bit_or (a / 2) (b / 2) * 2 + max (a % 2) (b % 2)
or_low zero b = omega (arith, bit_or-bitwise 0 b, bit_or-bitwise 0 (b / 2))
or_low (suc a) b = omega (
  arith,
  bit_or-bitwise (suc a) b,
  bit_or-bitwise (suc a / 2) (b / 2),
  enough_fuel (λ y. y) max a (suc a / 2) (suc a / 2) (b / 2) (omega arith) (omega arith),
)

bit_and-zero_below : (n a : ℕ) → a ≤ n → bit_and a 0 ≡ 0
bit_and-zero_below n zero h = refl
bit_and-zero_below zero (suc a) h = absurd (omega arith)
bit_and-zero_below (suc n) (suc a) h =
    omega (arith, and_low (suc a) 0, bit_and-zero_below n (suc a / 2) (omega arith))

bit_and-zero : (a : ℕ) → bit_and a 0 ≡ 0
bit_and-zero a = bit_and-zero_below a a (omega arith)

bit_or-zero_below : (n a : ℕ) → a ≤ n → bit_or a 0 ≡ a
bit_or-zero_below n zero h = refl
bit_or-zero_below zero (suc a) h = absurd (omega arith)
bit_or-zero_below (suc n) (suc a) h =
    omega (arith, or_low (suc a) 0, bit_or-zero_below n (suc a / 2) (omega arith))

bit_or-zero : (a : ℕ) → bit_or a 0 ≡ a
bit_or-zero a = bit_or-zero_below a a (omega arith)

-- `b & (1 << k)` is nonzero exactly if the bit is set.
pub bit_and-pow : (k b : ℕ) → bit_and b (2 ^ k) ≡ bit_at b k * 2 ^ k
unfolding bit_at
bit_and-pow zero b = omega (arith, and_low b 1, bit_and-zero (b / 2))
bit_and-pow (suc k) b = omega (
  arith,
  and_low b (2 ^ suc k),
  pow-suc 2 k,
  ap (λ (t : ℕ). bit_and (b / 2) t) (half_pow k),
  bit_and-pow k (b / 2),
  ap (λ (t : ℕ). bit_at (b / 2) k * t) (pow-suc 2 k),
)
  where
    half_pow : (k : ℕ) → 2 ^ suc k / 2 ≡ 2 ^ k
    half_pow k = omega (arith, pow-suc 2 k)

half-or_pow : (k b : ℕ) → bit_or b (2 ^ suc k) / 2 ≡ bit_or (b / 2) (2 ^ k)
half-or_pow k b =
    omega (arith, or_low b (2 ^ suc k), pow-suc 2 k, ap (λ (t : ℕ). bit_or (b / 2) t) (half_pow k))
  where
    half_pow : (k : ℕ) → 2 ^ suc k / 2 ≡ 2 ^ k
    half_pow k = omega (arith, pow-suc 2 k)

-- `b | (1 << k)` sets the bit and leaves the others.
pub bit_at-or_pow : (b k i : ℕ) → bit_at (bit_or b (2 ^ k)) i ≡ (if i == k then 1 else bit_at b i)
unfolding bit_at
bit_at-or_pow b zero zero = omega (arith, or_low b 1)
bit_at-or_pow b (suc k) zero = ground (arith, or_low b (2 ^ suc k), pow-suc 2 k)
bit_at-or_pow b zero (suc i) = ground (arith, ap (λ (t : ℕ). bit_at t i) low)
  where
    low : bit_or b 1 / 2 ≡ b / 2
    low = omega (arith, or_low b 1, bit_or-zero (b / 2))
bit_at-or_pow b (suc k) (suc i) =
    ground (arith, ap (λ (t : ℕ). bit_at t i) (half-or_pow k b), bit_at-or_pow (b / 2) k i)

bit_at-zero : (i : ℕ) → bit_at 0 i ≡ 0
unfolding bit_at
bit_at-zero zero = refl
bit_at-zero (suc i) = bit_at-zero i

pub bit_at-one : (i : ℕ) → bit_at 1 i ≡ (if i == 0 then 1 else 0)
unfolding bit_at
bit_at-one zero = refl
bit_at-one (suc i) = ground (arith, bit_at-zero i)

pub bit_at-shl : (b d i : ℕ) → bit_at (b * 2 ^ d) i ≡ (if leb d i then bit_at b (i - d) else 0)
unfolding bit_at
bit_at-shl b zero i = ground (arith, ap (λ (t : ℕ). bit_at t i) (by_one b))
  where
    by_one : (b : ℕ) → b * 1 ≡ b
    by_one b = omega arith
bit_at-shl b (suc d) zero = ground (arith, ap (λ (t : ℕ). b * t) (pow-suc 2 d))
bit_at-shl b (suc d) (suc i) = ground (arith, ap (λ (t : ℕ). bit_at t i) half, bit_at-shl b d i)
  where
    half : b * 2 ^ suc d / 2 ≡ b * 2 ^ d
    half = omega (arith, ap (λ (t : ℕ). b * t) (pow-suc 2 d))

half-mod : (x m : ℕ) → x % (m * 2) / 2 ≡ x / 2 % m
half-mod x m = omega (
  arith,
  div-add-mod x (m * 2),
  div-add-mod (x / 2) m,
  div-div-eq-div-mul x 2 m,
  ap (λ (t : ℕ). x / t) (mul_comm 2 m),
  ap (λ (t : ℕ). m * t) (div-div-eq-div-mul x 2 m ∙ ap (λ (t : ℕ). x / t) (mul_comm 2 m)),
)

mod-even : (x m : ℕ) → x % (m * 2) % 2 ≡ x % 2
mod-even x m = omega (arith, div-add-mod x (m * 2))

pub bit_at-mod_pow : (x w i : ℕ) → bit_at (x % 2 ^ w) i ≡ (if ltb i w then bit_at x i else 0)
unfolding bit_at
bit_at-mod_pow x zero i = ground (arith, ap (λ (t : ℕ). bit_at t i) by_one, bit_at-zero i)
  where
    by_one : x % 1 ≡ 0
    by_one = omega arith
bit_at-mod_pow x (suc w) zero =
    ground (arith, ap (λ (t : ℕ). x % t % 2) (pow-suc 2 w), mod-even x (2 ^ w))
bit_at-mod_pow x (suc w) (suc i) =
    ground (arith, ap (λ (t : ℕ). bit_at t i) half, bit_at-mod_pow (x / 2) w i)
  where
    half : x % 2 ^ suc w / 2 ≡ x / 2 % 2 ^ w
    half = rw (pow-suc 2 w) (half-mod x (2 ^ w))

pub bit_or-lt : (w b k : ℕ) → b < 2 ^ w → k < w → bit_or b (2 ^ k) < 2 ^ w
bit_or-lt zero b k h e = absurd (omega arith)
bit_or-lt (suc w) b zero h e = omega (arith, or_low b 1, bit_or-zero (b / 2), pow-suc 2 w)
bit_or-lt (suc w) b (suc k) h e = omega (
  arith,
  half-or_pow k b,
  pow-suc 2 w,
  bit_or-lt w (b / 2) k (omega (arith, pow-suc 2 w)) (omega arith),
)
