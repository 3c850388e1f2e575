-- ===== src/Imt/Trailing.antt =====
-- `u64::trailing_ones` and the bits of a position.
use outbe_circuits.Prelude.{
  ℕ, zero, suc, ◌/◌, ◌^◌, ◌≤◌, ◌≡◌, refl, ap, true, false, arith, Bool-cases, inl, inr, ◌==◌, ◌+◌,
  ◌<◌, ==_iff,
}
use mathlib.Core.Path.{subst, sym}
use native.Mathlib.Nat.{pow-suc}
use outbe_circuits.Imt.Node.{is_left}
use outbe_circuits.Imt.Spec.{shift}
use outbe_circuits.Imt.Tree.{trailing_ones, trailing_ones_below}

pub shift-half : (n k : ℕ) → shift (n / 2) k ≡ shift n (suc k)
unfolding shift
shift-half n zero = refl
shift-half n (suc k) = ap (λ t. t / 2) (shift-half n k)

trailing_ones_below-le : (bits n d : ℕ) → n < 2 ^ d → trailing_ones_below bits n ≤ d
unfolding trailing_ones_below
trailing_ones_below-le zero n d h = omega arith
trailing_ones_below-le (suc bits) n zero h = ground arith
trailing_ones_below-le (suc bits) n (suc d) h =
    ground (arith, trailing_ones_below-le bits (n / 2) d, pow-suc 2 d)

-- A position below `2 ^ d` has at most `d` ones at its end.
pub trailing_ones-le : (n d : ℕ) → n < 2 ^ d → trailing_ones n ≤ d
unfolding trailing_ones
trailing_ones-le n d h = trailing_ones_below-le 64 n d h

trailing_ones_below-odd :
    (bits n k : ℕ) → k < trailing_ones_below bits n → is_left (shift n k) ≡ false
unfolding trailing_ones_below is_left
trailing_ones_below-odd zero n k h = absurd (omega arith)
trailing_ones_below-odd (suc bits) n zero h = unfold shift in ground arith
trailing_ones_below-odd (suc bits) n (suc k) h =
    ground (arith, trailing_ones_below-odd bits (n / 2) k, shift-half n k)

-- Below the first zero bit every bit is one.
pub trailing_ones-odd : (n k : ℕ) → k < trailing_ones n → is_left (shift n k) ≡ false
unfolding trailing_ones
trailing_ones-odd n k h = trailing_ones_below-odd 64 n k h

shift_none : (n : ℕ) → shift n 0 ≡ n
unfolding shift
shift_none n = refl

trailing_ones_below-even :
    (bits n : ℕ)
    → trailing_ones_below bits n < bits
    → is_left (shift n (trailing_ones_below bits n)) ≡ true
unfolding trailing_ones_below is_left
trailing_ones_below-even zero n h = absurd (omega arith)
trailing_ones_below-even (suc bits) n h = ground (
  arith,
  trailing_ones_below-even bits (n / 2),
  shift-half n (trailing_ones_below bits (n / 2)),
  shift_none n,
)

-- The bit after them is zero.
pub trailing_ones-even : (n : ℕ) → trailing_ones n < 64 → is_left (shift n (trailing_ones n)) ≡ true
unfolding trailing_ones
trailing_ones-even n h = trailing_ones_below-even 64 n h

-- Adding one carries through the ones at the end, and changes no bit above the zero behind them.
pub shift_carry : (n l : ℕ) → l ≤ trailing_ones n → shift (n + 1) l ≡ shift n l + 1
unfolding shift
shift_carry n zero le = refl
shift_carry n (suc l) le =
    omega (arith, shift_carry n l (omega arith), odd_half (shift n l) (trailing_ones-odd n l le))
  where
    odd_half : (m : ℕ) → is_left m ≡ false → (m + 1) / 2 ≡ m / 2 + 1
    odd_half m odd = unfold is_left in ground arith

even_half : (m m' : ℕ) → m' ≡ m + 1 → is_left m ≡ true → m' / 2 ≡ m / 2
unfolding is_left
even_half m m' q even = ground arith

pub shift_above : (n l : ℕ) → trailing_ones n < l → l < 64 → shift (n + 1) l ≡ shift n l
unfolding shift
shift_above n zero lt hi = absurd (omega arith)
shift_above n (suc l) lt hi = elim (Bool-cases (l == trailing_ones n)) [
  | inl here ↦ even_half (shift n l) (shift (n + 1) l) (shift_carry n l (ground arith)) (
      subst (λ k. is_left (shift n k) ≡ true) (sym ((==_iff l (trailing_ones n)).0 here))
        (trailing_ones-even n (omega arith)))
  | inr later ↦ omega (arith, shift_above n l (ground arith) (omega arith))
]

-- So of `n + 1` the bits below the first zero of `n` are zero.
pub carry_left : (n l : ℕ) → l < trailing_ones n → is_left (shift (n + 1) l) ≡ true
carry_left n l lt =
    flip (shift n l) (shift (n + 1) l) (shift_carry n l (omega arith)) (trailing_ones-odd n l lt)
  where
    flip : (m m' : ℕ) → m' ≡ m + 1 → is_left m ≡ false → is_left m' ≡ true
    flip m m' q odd = unfold is_left in ground arith
