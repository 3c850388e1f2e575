-- ===== src/Text/Numerals.antt =====
-- Printed numbers are read back, and a printed version has its parts.
use outbe_circuits.Prelude.{
  ℕ, zero, suc, ◌+◌, ◌-◌, ◌*◌, ◌/◌, ◌%◌, ◌^◌, ◌≤◌, ◌<◌, ◌≡◌, refl, ap, ◌∙◌, ◌≢◌, inl, inr, false,
  some, List, [], ◌∷◌, ◌++◌, arith, ltb, ◌==◌, ltb→lt, Bool-cases, All,
}
use outbe_circuits.Bytes.{All-append}
use outbe_circuits.Text.{split, decimal_loop, parse_u64, decimal, show_u64, fits}

decimal_loop-append :
    (acc : ℕ) (xs ys : List ℕ) (n : ℕ)
    → decimal_loop acc xs ≡ some n
    → decimal_loop acc (xs ++ ys) ≡ decimal_loop n ys
unfolding decimal_loop
decimal_loop-append acc [] ys n h = ground arith
decimal_loop-append acc (x ∷ xs) ys n h =
    ground (arith, decimal_loop-append (10 * acc + (x - 48)) xs ys n)

pow_suc : (k : ℕ) → 10 ^ suc k ≡ 10 * 10 ^ k
pow_suc k = grind arith

more_fuel : (fuel n : ℕ) → n < 10 ^ suc fuel → 10 ≤ n → 0 < fuel
more_fuel zero n h large = absurd (omega arith)
more_fuel (suc fuel) n h large = omega arith

decimal_loop-decimal :
    (fuel n : ℕ) → n < 10 ^ fuel → 0 < fuel → decimal_loop 0 (decimal fuel n) ≡ some n
unfolding decimal decimal_loop
decimal_loop-decimal zero n h p = absurd (omega arith)
decimal_loop-decimal (suc fuel) n h p = elim (Bool-cases (ltb n 10)) [
  | inl q ↦ rw q (ground arith)
  | inr q ↦
      let large : 10 ≤ n = ground arith in
      let some_fuel : 0 < fuel = more_fuel fuel n h large in
      rw q (
        decimal_loop-append 0 (decimal fuel (n / 10)) ((48 + n % 10) ∷ []) (n / 10)
          (decimal_loop-decimal fuel (n / 10) (omega (arith, pow_suc fuel)) some_fuel)
        ∙ ground arith)
]

no_dot : (fuel n : ℕ) → All (λ c. c ≢ 46) (decimal fuel n)
unfolding decimal
no_dot zero n = tt
no_dot (suc fuel) n = elim (Bool-cases (ltb n 10)) [
  | inl q ↦ rw q (omega (arith, ltb→lt n 10 q), tt)
  | inr q ↦
      rw q (
        All-append (λ c. c ≢ 46) (decimal fuel (n / 10)) _ (no_dot fuel (n / 10)) (omega arith, tt))
]

pub split_part :
    (part rest : List ℕ)
    → All (λ c. c ≢ 46) part
    → split 46 (part ++ 46 ∷ rest) ≡ part ∷ split 46 rest
unfolding split
split_part [] rest all = refl
split_part (c ∷ part) rest (p, all) = rw (split_part part rest all) (ground arith)

pub split_last : (part : List ℕ) → All (λ c. c ≢ 46) part → split 46 part ≡ part ∷ []
unfolding split
split_last [] all = refl
split_last (c ∷ part) (p, all) = rw (split_last part all) (ground arith)

-- A printed number has a digit first, so no sign.
first_digit :
    (fuel n : ℕ) → 0 < fuel → (c : ℕ) × (text : List ℕ) × (decimal fuel n ≡ c ∷ text) × (48 ≤ c)
unfolding decimal
first_digit zero n h = absurd (omega arith)
first_digit (suc zero) n h = elim (Bool-cases (ltb n 10)) [
  | inl q ↦ (48 + n, [], rw q refl, omega arith)
  | inr q ↦ (48 + n % 10, [], rw q refl, omega arith)
]
first_digit (suc (suc fuel)) n h = elim (Bool-cases (ltb n 10)) [
  | inl q ↦ (48 + n, [], rw q refl, omega arith)
  | inr q ↦
      let (c, text, e, le) = first_digit (suc fuel) (n / 10) (omega arith) in
      (c, text ++ (48 + n % 10) ∷ [], rw q (ap (λ t. t ++ (48 + n % 10) ∷ []) e), le)
]

parse_u64_digits :
    (c : ℕ) (text : List ℕ) → 48 ≤ c → parse_u64 (c ∷ text) ≡ fits (decimal_loop 0 (c ∷ text))
unfolding parse_u64
parse_u64_digits c [] h = refl
parse_u64_digits c (d ∷ text) h = let q : (c == 43) ≡ false = ground arith in rw q refl

-- A printed 64-bit number is read back.
pub parse_u64-show_u64 : (n : ℕ) → n < 2 ^ 64 → parse_u64 (show_u64 n) ≡ some n
unfolding show_u64
parse_u64-show_u64 n h =
    let (c, text, e, le) = first_digit 20 n (omega arith) in
    rw e (
      parse_u64_digits c text le
      ∙ rw (← e, decimal_loop-decimal 20 n (omega arith) (omega arith)) (ground arith))

pub no_dot-show_u64 : (n : ℕ) → All (λ c. c ≢ 46) (show_u64 n)
unfolding show_u64
no_dot-show_u64 n = no_dot 20 n
