-- ===== src/Prelude/Xor.antt =====
-- Bounds and tables for the exclusive or of native numbers.
use Prim.Native.Nat.{ℕ, zero, suc, ◌+◌, ◌*◌, ◌/◌, ◌%◌, ◌^◌, ◌<◌, bit_xor, bit_xor-bitwise, differ}
use mathlib.Core.Path.{◌≡◌, ◌∙◌, ap}
use mathlib.Core.Bool.{Bool, true, ◌&&◌}
use native.Mathlib.Nat.{pow-suc}
use native.Mathlib.Omega.{arith}
use driver_amiga_os_ks.Prelude.Bits.{fuel_enough, differ-digit}

xor_low : (a b : ℕ) → bit_xor a b ≡ bit_xor (a / 2) (b / 2) * 2 + differ (a % 2) (b % 2)
xor_low zero b = omega (arith, bit_xor-bitwise 0 b, bit_xor-bitwise 0 (b / 2))
xor_low (suc a) b = omega (
  arith,
  bit_xor-bitwise (suc a) b,
  bit_xor-bitwise (suc a / 2) (b / 2),
  fuel_enough (λ y. y) differ a (suc a / 2) (suc a / 2) (b / 2) (omega arith) (omega arith),
)

-- An exclusive or has no more bits than both of its arguments.
pub bit_xor-below : (k a b : ℕ) → a < 2 ^ k → b < 2 ^ k → bit_xor a b < 2 ^ k
bit_xor-below zero a b h l =
    let nil : a ≡ 0 = omega arith in
    let nil' : b ≡ 0 = omega arith in
    let same : bit_xor a b ≡ 0 = ap (λ t. bit_xor t b) nil ∙ ap (bit_xor 0) nil' in
    omega (arith, same)
bit_xor-below (suc k) a b h l =
    let power = pow-suc 2 k in
    let rest = bit_xor-below k (a / 2) (b / 2) (omega (arith, power)) (omega (arith, power)) in
    omega
      (arith, power, rest, xor_low a b, differ-digit (a % 2) (b % 2) (omega arith) (omega arith))

-- Whether all numbers below a bound pass a test.
abbrev pub all_below : ℕ → (ℕ → Bool) → Bool
all_below zero p = true
all_below (suc n) p = p n && all_below n p

pub all_below_sound : (n : ℕ) (p : ℕ → Bool) (x : ℕ) → all_below n p ≡ true → x < n → p x ≡ true
all_below_sound zero p x h lt = absurd (omega arith)
all_below_sound (suc n) p x h lt = ground (arith, all_below_sound n p x)
