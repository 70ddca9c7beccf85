-- ===== src/Metrics/Stream/Window.antt =====
-- The 64 bit window: what the shift and the mark of `sequence_observe` do to each bit.
use esp_now_harness.Common.{
  ℕ, ◌-◌, ◌*◌, ◌^◌, ◌≤◌, ◌<◌, ◌≡◌, arith, bit_and, bit_or, leb, ◌==◌, if◌then◌else◌, u64,
}
use esp_now_harness.Common.Bits.{
  bit_at, bit_at-le, bit_and-pow, bit_at-or_pow, bit_at-one, bit_at-shl, bit_at-mod_pow,
}
use native.Mathlib.Nat.{one-le-pow}

-- The bitmap after the highest number moved up by `d`.
abbrev pub shifted : ℕ → ℕ → ℕ
shifted b d = if leb 64 d then 1 else bit_or (u64 (b * 2 ^ d)) 1

-- Bit 0 is the new highest number; the others move up by `d`, and leave at 64.
pub bit_at-shifted :
    (b d i : ℕ)
    → 1 ≤ d
    → i < 64
    → bit_at (shifted b d) i ≡ (if i == 0 then 1 else if leb d i then bit_at b (i - d) else 0)
bit_at-shifted b d i lo hi = ground (
  arith,
  bit_at-one i,
  bit_at-or_pow (u64 (b * 2 ^ d)) 0 i,
  bit_at-mod_pow (b * 2 ^ d) 64 i,
  bit_at-shl b d i,
)

-- The test of the source is on the bit.
pub bit_and-zero_iff : (b k : ℕ) → (bit_and b (2 ^ k) == 0) ≡ (bit_at b k == 0)
bit_and-zero_iff b k = grind (arith, bit_and-pow k b, bit_at-le b k, one-le-pow k 2)
