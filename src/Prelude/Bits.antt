-- ===== src/Prelude/Bits.antt =====
-- Facts about the native bit operations.
use Prim.Native.Nat.{
  ℕ, zero, suc, ◌+◌, ◌-◌, ◌*◌, ◌/◌, ◌%◌, ◌≤◌, ◌<◌, bit_xor, digits, differ, bit_xor-bitwise, bit_or,
  bit_or-bitwise, max, ◌^◌,
}
use mathlib.Core.Path.{◌≡◌, refl, ◌∙◌}
use native.Mathlib.Omega.{arith}
use outbe_circuits.Prelude.Tests.{if◌then◌else◌, ◌==◌}

differ-zero : (x : ℕ) → differ x 0 ≡ x
differ-zero zero = refl
differ-zero (suc x) = refl

differ-one : (x : ℕ) → x < 2 → differ x 1 ≡ 1 - x
differ-one zero h = omega arith
differ-one (suc zero) h = omega arith
differ-one (suc (suc x)) h = absurd (omega arith)

xor_digits-zero : (n a : ℕ) → a ≤ n → digits (λ b. b) differ n a 0 ≡ a
xor_digits-zero zero zero h = refl
xor_digits-zero zero (suc a) h = absurd (omega arith)
xor_digits-zero (suc n) zero h = refl
xor_digits-zero (suc n) (suc a) h =
    omega (arith, xor_digits-zero n (suc a / 2) (omega arith), differ-zero (suc a % 2))

-- `n ^ 1` flips the lowest bit.
pub bit_xor-one : (n : ℕ) → bit_xor n 1 ≡ (if n % 2 == 0 then n + 1 else n - 1)
bit_xor-one zero = refl
bit_xor-one (suc a) =
    bit_xor-bitwise (suc a) 1
    ∙ ground
        (arith, xor_digits-zero a (suc a / 2) (omega arith), differ-one (suc a % 2) (omega arith))

double : (b k : ℕ) → b * 2 ^ suc k ≡ 2 * (b * 2 ^ k)
double b k = grind arith

or_digits : (n a b k : ℕ) → a ≤ n → a < 2 ^ k → digits (λ b. b) max n a (b * 2 ^ k) ≡ a + b * 2 ^ k
or_digits zero zero b k h lt = omega arith
or_digits zero (suc a) b k h lt = absurd (omega arith)
or_digits (suc n) zero b k h lt = omega arith
or_digits (suc n) (suc a) b zero h lt = absurd (omega arith)
or_digits (suc n) (suc a) b (suc k) h lt =
    rw (double b k, half) (omega (arith, or_digits n (suc a / 2) b k (omega arith) (omega arith)))
  where
    half : 2 * (b * 2 ^ k) / 2 ≡ b * 2 ^ k
    half = omega arith

-- Bits below `k` and bits from `k` on do not meet.
pub bit_or-shift : (a b k : ℕ) → a < 2 ^ k → bit_or a (b * 2 ^ k) ≡ a + b * 2 ^ k
bit_or-shift zero b k lt = bit_or-bitwise 0 (b * 2 ^ k) ∙ omega arith
bit_or-shift (suc a) b k lt =
    bit_or-bitwise (suc a) (b * 2 ^ k) ∙ or_digits (suc a) (suc a) b k (omega arith) lt

or_digits_above :
    (n x a b k : ℕ) → x ≤ n → x ≡ b * 2 ^ k → a < 2 ^ k → digits (λ b. b) max n x a ≡ x + a
or_digits_above zero zero a b k h e lt = omega arith
or_digits_above zero (suc x) a b k h e lt = absurd (omega arith)
or_digits_above (suc n) zero a b k h e lt = omega arith
or_digits_above (suc n) (suc x) zero b zero h e lt =
    omega (
      arith,
      or_digits_above n (suc x / 2) 0 (suc x / 2) 0 (omega arith) (omega arith) (omega arith),
    )
or_digits_above (suc n) (suc x) (suc a) b zero h e lt = absurd (omega arith)
or_digits_above (suc n) (suc x) a b (suc k) h e lt = omega (
  arith,
  double b k,
  or_digits_above n (suc x / 2) (a / 2) b k (omega arith) (omega (arith, double b k)) (omega arith),
)

-- The same, with the higher bits first.
pub shift-bit_or : (a b k : ℕ) → a < 2 ^ k → bit_or (b * 2 ^ k) a ≡ b * 2 ^ k + a
shift-bit_or a b k lt =
    bit_or-bitwise (b * 2 ^ k) a
    ∙ or_digits_above (b * 2 ^ k) (b * 2 ^ k) a b k (omega arith) refl lt
