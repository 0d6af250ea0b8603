-- ===== src/Shared/Bits.antt =====
-- `|` of numbers without a common digit and `&` with low digits, for services/shared/src/instruments.ts.
use Prim.Native.Nat.{bit_and, bit_or, bit_or-bitwise, bit_and-bitwise, digits, max, min}
use native.Mathlib.Nat.{pow-suc}
use derive_docs.Base.{ℕ, zero, suc, ◌+◌, ◌*◌, ◌/◌, ◌%◌, ◌^◌, ◌≤◌, ◌<◌, ◌≡◌, refl, ap, arith}

shift_suc : (q k : ℕ) → q * 2 ^ suc k ≡ q * 2 ^ k + q * 2 ^ k
shift_suc q k = omega (arith, ap (λ (power : ℕ). q * power) (pow-suc 2 k))

-- `high` is shifted past the `k` digits of `low`.
digits-max :
    (fuel k low high shifted : ℕ)
    → low ≤ fuel
    → low < 2 ^ k
    → shifted ≡ high * 2 ^ k
    → digits (λ b. b) max fuel low shifted ≡ low + shifted
digits-max zero k zero high shifted h fits e = omega arith
digits-max zero k (suc low) high shifted h fits e = absurd (omega arith)
digits-max (suc fuel) k zero high shifted h fits e = omega arith
digits-max (suc fuel) zero (suc low) high shifted h fits e = absurd (omega arith)
digits-max (suc fuel) (suc k) (suc low) high shifted h fits e = omega (
  arith,
  shift_suc high k,
  e,
  digits-max fuel k (suc low / 2) high (shifted / 2) (omega arith) (omega (arith, pow-suc 2 k))
      (omega (arith, shift_suc high k)),
)

-- The `k` low digits of a number are its remainder.
digits-min :
    (fuel k a high low mask : ℕ)
    → a ≤ fuel
    → a ≡ high * 2 ^ k + low
    → low < 2 ^ k
    → mask + 1 ≡ 2 ^ k
    → digits (λ b. 0) min fuel a mask ≡ low
digits-min zero k zero high low mask h e fits m = omega arith
digits-min zero k (suc a) high low mask h e fits m = absurd (omega arith)
digits-min (suc fuel) k zero high low mask h e fits m = omega arith
digits-min (suc fuel) zero (suc a) high low mask h e fits m = omega (
  arith,
  digits-min fuel 0 (suc a / 2) (suc a / 2) 0 (mask / 2) (omega arith) (omega arith) (omega arith)
      (omega arith),
)
digits-min (suc fuel) (suc k) (suc a) high low mask h e fits m = omega (
  arith,
  shift_suc high k,
  pow-suc 2 k,
  digits-min fuel k (suc a / 2) high (low / 2) (mask / 2) (omega arith)
      (omega (arith, shift_suc high k)) (omega (arith, pow-suc 2 k)) (omega (arith, pow-suc 2 k)),
)

pub bit_or_shifted : (k low high : ℕ) → low < 2 ^ k → bit_or low (high * 2 ^ k) ≡ low + high * 2 ^ k
bit_or_shifted k low high fits =
    simp bit_or-bitwise (digits-max low k low high (high * 2 ^ k) (omega arith) fits refl)

pub bit_and_low : (k a mask : ℕ) → mask + 1 ≡ 2 ^ k → bit_and a mask ≡ a % 2 ^ k
bit_and_low k a mask m = simp bit_and-bitwise (
    digits-min a k a (a / 2 ^ k) (a % 2 ^ k) mask (omega arith) (omega (arith, m))
      (omega (arith, m)) m)
