-- ===== src/Prelude/Bits.antt =====
-- Single bits of a number, and how `&`, `|`, `~` and a shift act on them.
use Prim.Native.Nat.{ℕ, zero, suc, ◌+◌, ◌-◌, ◌*◌, ◌/◌, ◌%◌, ◌^◌, ◌≤◌, ◌<◌, min, max}
use Prim.Native.Nat.{
  bit_and, bit_or, bit_xor, digits, differ, bit_and-bitwise, bit_or-bitwise, bit_xor-bitwise,
}
use mathlib.Core.Path.{◌≡◌, refl, sym, ◌∙◌, ap}
use mathlib.Core.Bool.{Bool, true, false, not, ◌&&◌, ◌||◌}
use native.Mathlib.Nat.{pow-suc, one-le-pow, div-div-eq-div-mul}
use native.Mathlib.Omega.{arith}
use driver_amiga_os_ks.Prelude.Tests.{◌==◌, if◌then◌else◌}

-- Bit k of a.
abbrev pub bit : ℕ → ℕ → Bool
bit zero a = a % 2 == 1
bit (suc k) a = bit k (a / 2)

-- The C test `v & mask`, and `~mask` on 16 bits.
abbrev pub has : ℕ → ℕ → Bool
has v mask = not (bit_and v mask == 0)

abbrev pub not16 : ℕ → ℕ
not16 mask = 65535 - mask

-- The recursion on digits that the native operations mean gives the same for every fuel that lasts.
pub fuel_enough :
    (z : ℕ → ℕ) (f : ℕ → ℕ → ℕ) (k l a b : ℕ) → a ≤ k → a ≤ l → digits z f k a b ≡ digits z f l a b
fuel_enough z f k l zero b p q = at_zero k ∙ sym_zero l
  where
    at_zero : (n : ℕ) → digits z f n 0 b ≡ z b
    at_zero zero = refl
    at_zero (suc n) = refl

    sym_zero : (n : ℕ) → z b ≡ digits z f n 0 b
    sym_zero zero = refl
    sym_zero (suc n) = refl
fuel_enough z f zero l (suc a) b p q = absurd (omega arith)
fuel_enough z f (suc k) zero (suc a) b p q = absurd (omega arith)
fuel_enough z f (suc k) (suc l) (suc a) b p q =
    ap (λ t. t * 2 + f (suc a % 2) (b % 2))
      (fuel_enough z f k l (suc a / 2) (b / 2) (omega arith) (omega arith))

and_low : (a b : ℕ) → bit_and a b ≡ bit_and (a / 2) (b / 2) * 2 + min (a % 2) (b % 2)
and_low zero b = omega (arith, bit_and-bitwise 0 b, bit_and-bitwise 0 (b / 2))
and_low (suc a) b = omega (
  arith,
  bit_and-bitwise (suc a) b,
  bit_and-bitwise (suc a / 2) (b / 2),
  fuel_enough (λ _. 0) min a (suc a / 2) (suc a / 2) (b / 2) (omega arith) (omega arith),
)

or_low : (a b : ℕ) → bit_or a b ≡ bit_or (a / 2) (b / 2) * 2 + max (a % 2) (b % 2)
or_low zero b = omega (arith, bit_or-bitwise 0 b, bit_or-bitwise 0 (b / 2))
or_low (suc a) b = omega (
  arith,
  bit_or-bitwise (suc a) b,
  bit_or-bitwise (suc a / 2) (b / 2),
  fuel_enough (λ y. y) max a (suc a / 2) (suc a / 2) (b / 2) (omega arith) (omega arith),
)

and_half : (a b : ℕ) → bit_and a b / 2 ≡ bit_and (a / 2) (b / 2)
and_half a b = omega (arith, and_low a b)

or_half : (a b : ℕ) → bit_or a b / 2 ≡ bit_or (a / 2) (b / 2)
or_half a b = omega (arith, or_low a b)

pub bit-bit_and : (k a b : ℕ) → bit k (bit_and a b) ≡ (bit k a && bit k b)
bit-bit_and zero a b = ground (arith, and_low a b)
bit-bit_and (suc k) a b = ap (bit k) (and_half a b) ∙ bit-bit_and k (a / 2) (b / 2)

pub bit-bit_or : (k a b : ℕ) → bit k (bit_or a b) ≡ (bit k a || bit k b)
bit-bit_or zero a b = ground (arith, or_low a b)
bit-bit_or (suc k) a b = ap (bit k) (or_half a b) ∙ bit-bit_or k (a / 2) (b / 2)

complement : (w k m : ℕ) → k < w → m < 2 ^ w → bit k (2 ^ w - 1 - m) ≡ not (bit k m)
complement zero k m p q = absurd (omega arith)
complement (suc w) zero m p q = ground (arith, pow-suc 2 w, one-le-pow w 2)
complement (suc w) (suc k) m p q =
    let half : (2 ^ suc w - 1 - m) / 2 ≡ 2 ^ w - 1 - m / 2 = omega (arith, pow-suc 2 w) in
    ap (bit k) half ∙ complement w k (m / 2) (omega arith) (omega (arith, pow-suc 2 w))

pub bit-not16 : (k m : ℕ) → k < 16 → m < 65536 → bit k (not16 m) ≡ not (bit k m)
bit-not16 k m p q = complement 16 k m p q

and-nil_fuel : (n a : ℕ) → a ≤ n → bit_and a 0 ≡ 0
and-nil_fuel n zero h = refl
and-nil_fuel zero (suc a) h = absurd (omega arith)
and-nil_fuel (suc n) (suc a) h =
    omega (arith, and_low (suc a) 0, and-nil_fuel n (suc a / 2) (omega arith))

-- `&` with a mask of one bit is that bit, in its place.
abbrev place : Bool → ℕ → ℕ
place true m = m
place false m = 0

place_double : (k : ℕ) (b : Bool) → place b (2 ^ k) * 2 ≡ place b (2 ^ suc k)
place_double k true = omega (arith, pow-suc 2 k)
place_double k false = refl

and-one_place : (v : ℕ) → bit_and v 1 ≡ place (v % 2 == 1) 1
and-one_place v =
    let low : bit_and v 1 ≡ v % 2 =
      omega (arith, and_low v 1, and-nil_fuel (v / 2) (v / 2) (omega arith)) in
    ground (arith, low)

and-pow : (k v : ℕ) → bit_and v (2 ^ k) ≡ place (bit k v) (2 ^ k)
and-pow zero v = and-one_place v
and-pow (suc k) v =
    let halved : 2 ^ suc k / 2 ≡ 2 ^ k = omega (arith, pow-suc 2 k) in
    let rest : bit_and (v / 2) (2 ^ suc k / 2) ≡ place (bit k (v / 2)) (2 ^ k) =
      ap (bit_and (v / 2)) halved ∙ and-pow k (v / 2) in
    let doubled : bit_and v (2 ^ suc k) ≡ place (bit k (v / 2)) (2 ^ k) * 2 =
      omega (arith, and_low v (2 ^ suc k), pow-suc 2 k, rest) in
    doubled ∙ place_double k (bit k (v / 2))

-- Testing against a mask of one bit is reading that bit.
pub has-pow : (k v : ℕ) → has v (2 ^ k) ≡ bit k v
has-pow k v = ap (λ t. not (t == 0)) (and-pow k v) ∙ placed (bit k v)
  where
    placed : (b : Bool) → not (place b (2 ^ k) == 0) ≡ b
    placed true = ground (arith, one-le-pow k 2)
    placed false = refl

or-zero_fuel : (n b : ℕ) → b ≤ n → bit_or 0 b ≡ b
or-zero_fuel n zero h = refl
or-zero_fuel zero (suc b) h = absurd (omega arith)
or-zero_fuel (suc n) (suc b) h =
    omega (arith, or_low 0 (suc b), or-zero_fuel n (suc b / 2) (omega arith))

-- `|` of two numbers that share no bit is their sum.
pub bit_or-shifted : (k a b : ℕ) → a < 2 ^ k → bit_or a (b * 2 ^ k) ≡ a + b * 2 ^ k
bit_or-shifted zero a b h =
    let none : a ≡ 0 = omega arith in
    ap (λ t. bit_or t (b * 1)) none ∙ or-zero_fuel (b * 1) (b * 1) (omega arith) ∙ omega arith
bit_or-shifted (suc k) a b h =
    let twice : b * 2 ^ suc k ≡ b * 2 ^ k * 2 = ap (λ t. b * t) (pow-suc 2 k) ∙ omega arith in
    let half : b * 2 ^ suc k / 2 ≡ b * 2 ^ k = omega (arith, twice) in
    let rest : bit_or (a / 2) (b * 2 ^ suc k / 2) ≡ a / 2 + b * 2 ^ k =
      ap (bit_or (a / 2)) half ∙ bit_or-shifted k (a / 2) b (omega (arith, pow-suc 2 k)) in
    omega (arith, or_low a (b * 2 ^ suc k), rest, twice)

or_comm_fuel : (n a b : ℕ) → a ≤ n → b ≤ n → bit_or a b ≡ bit_or b a
or_comm_fuel zero a b p q =
    let nil : a ≡ 0 = omega arith in
    let nil' : b ≡ 0 = omega arith in
    ap (λ t. bit_or t b) nil
    ∙ ap (bit_or 0) nil'
    ∙ sym (ap (λ t. bit_or t a) nil' ∙ ap (bit_or 0) nil)
or_comm_fuel (suc n) a b p q =
    omega
      (arith, or_low a b, or_low b a, or_comm_fuel n (a / 2) (b / 2) (omega arith) (omega arith))

pub bit_or_comm : (a b : ℕ) → bit_or a b ≡ bit_or b a
bit_or_comm a b = or_comm_fuel (a + b) a b (omega arith) (omega arith)

pub bit_or-shifted_left : (k a b : ℕ) → a < 2 ^ k → bit_or (b * 2 ^ k) a ≡ b * 2 ^ k + a
bit_or-shifted_left k a b h = bit_or_comm (b * 2 ^ k) a ∙ bit_or-shifted k a b h ∙ omega arith

-- A mask that ends in a one keeps the last digit.
and_odd : (v m : ℕ) → bit_and v (m * 2 + 1) ≡ bit_and (v / 2) m * 2 + v % 2
and_odd v m =
    let halved : (m * 2 + 1) / 2 ≡ m = omega arith in
    let half = ap (bit_and (v / 2)) halved in omega (arith, and_low v (m * 2 + 1), half)

pub low_1 : (v : ℕ) → bit_and v 1 ≡ v % 2
low_1 v = omega (arith, and_odd v 0, and-nil_fuel (v / 2) (v / 2) (omega arith))

low_3 : (v : ℕ) → bit_and v 3 ≡ v % 4
low_3 v = omega (arith, and_odd v 1, low_1 (v / 2))

low_7 : (v : ℕ) → bit_and v 7 ≡ v % 8
low_7 v = omega (arith, and_odd v 3, low_3 (v / 2))

pub low_15 : (v : ℕ) → bit_and v 15 ≡ v % 16
low_15 v = omega (arith, and_odd v 7, low_7 (v / 2))

pub low_31 : (v : ℕ) → bit_and v 31 ≡ v % 32
low_31 v = omega (arith, and_odd v 15, low_15 (v / 2))

pub low_63 : (v : ℕ) → bit_and v 63 ≡ v % 64
low_63 v = omega (arith, and_odd v 31, low_31 (v / 2))

low_127 : (v : ℕ) → bit_and v 127 ≡ v % 128
low_127 v = omega (arith, and_odd v 63, low_63 (v / 2))

-- `& 0xff`
pub bit_and-byte : (v : ℕ) → bit_and v 255 ≡ v % 256
bit_and-byte v = omega (arith, and_odd v 127, low_127 (v / 2))

low_255 : (v : ℕ) → bit_and v 255 ≡ v % 256
low_255 v = bit_and-byte v

low_511 : (v : ℕ) → bit_and v 511 ≡ v % 512
low_511 v = omega (arith, and_odd v 255, low_255 (v / 2))

low_1023 : (v : ℕ) → bit_and v 1023 ≡ v % 1024
low_1023 v = omega (arith, and_odd v 511, low_511 (v / 2))

low_2047 : (v : ℕ) → bit_and v 2047 ≡ v % 2048
low_2047 v = omega (arith, and_odd v 1023, low_1023 (v / 2))

low_4095 : (v : ℕ) → bit_and v 4095 ≡ v % 4096
low_4095 v = omega (arith, and_odd v 2047, low_2047 (v / 2))

low_8191 : (v : ℕ) → bit_and v 8191 ≡ v % 8192
low_8191 v = omega (arith, and_odd v 4095, low_4095 (v / 2))

low_16383 : (v : ℕ) → bit_and v 16383 ≡ v % 16384
low_16383 v = omega (arith, and_odd v 8191, low_8191 (v / 2))

low_32767 : (v : ℕ) → bit_and v 32767 ≡ v % 32768
low_32767 v = omega (arith, and_odd v 16383, low_16383 (v / 2))

-- `& 0xffff`
pub bit_and-word : (v : ℕ) → bit_and v 65535 ≡ v % 65536
bit_and-word v = omega (arith, and_odd v 32767, low_32767 (v / 2))

pub bit-zero : (k : ℕ) → bit k 0 ≡ false
bit-zero zero = refl
bit-zero (suc k) = bit-zero k

pub bit-pow : (k j : ℕ) → bit k (2 ^ j) ≡ (k == j)
bit-pow zero zero = refl
bit-pow (suc k) zero = bit-zero k ∙ ground arith
bit-pow zero (suc j) = ground (arith, pow-suc 2 j)
bit-pow (suc k) (suc j) =
    let half : 2 ^ suc j / 2 ≡ 2 ^ j = omega (arith, pow-suc 2 j) in
    ap (bit k) half ∙ bit-pow k j ∙ ground arith

-- Cutting a number to 16 bits keeps those bits.
pub bit-word : (k a : ℕ) → k < 16 → bit k (a % 65536) ≡ bit k a
bit-word k a h =
    let ones = bit-not16 k 0 h (omega arith) in
    ap (bit k) (sym (bit_and-word a)) ∙ bit-bit_and k a 65535 ∙ ground (arith, ones, bit-zero k)

pub bit-div : (k a : ℕ) → bit k a ≡ (a / 2 ^ k % 2 == 1)
bit-div zero a = ap (λ t. t % 2 == 1) (omega arith)
bit-div (suc k) a =
    let power : 2 * 2 ^ k ≡ 2 ^ suc k = omega (arith, pow-suc 2 k) in
    bit-div k (a / 2)
    ∙ ap (λ t. t % 2 == 1) (div-div-eq-div-mul a 2 (2 ^ k) ∙ ap (λ t. a / t) power)

-- The last digit of an exclusive or.
pub differ-digit : (x y : ℕ) → x < 2 → y < 2 → differ x y < 2
differ-digit zero y p q = q
differ-digit (suc zero) zero p q = omega arith
differ-digit (suc zero) (suc zero) p q = omega arith
differ-digit (suc (suc x)) y p q = absurd (omega arith)
differ-digit (suc zero) (suc (suc y)) p q = absurd (omega arith)

pub bit_xor-parity : (a b : ℕ) → bit_xor a b % 2 ≡ differ (a % 2) (b % 2)
bit_xor-parity zero b = ap (λ t. t % 2) (bit_xor-bitwise 0 b)
bit_xor-parity (suc a) b =
    omega (
      arith,
      bit_xor-bitwise (suc a) b,
      differ-digit (suc a % 2) (b % 2) (omega arith) (omega arith),
    )

-- Two ways to test whether two digits are the same.
pub xor-digits :
    (p q : ℕ) → p < 2 → q < 2 → (bit_xor (if p == 1 then 1 else 0) q == 0) ≡ (differ p q == 0)
xor-digits zero zero h k = refl
xor-digits zero (suc zero) h k = refl
xor-digits (suc zero) zero h k = refl
xor-digits (suc zero) (suc zero) h k = refl
xor-digits (suc (suc p)) q h k = absurd (omega arith)
xor-digits zero (suc (suc q)) h k = absurd (omega arith)
xor-digits (suc zero) (suc (suc q)) h k = absurd (omega arith)

pub zero-bit_or : (b : ℕ) → bit_or 0 b ≡ b
zero-bit_or b = or-zero_fuel b b (omega arith)
