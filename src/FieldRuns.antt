-- ===== src/FieldRuns.antt =====
-- The integers modulo the order of BN254, as the field that the examples use.
use outbe_circuits.Prelude.{ℕ, ◌%◌, ◌<◌, ◌≡◌, refl, none, some, arith, ltb, if◌then◌else◌, lt→ltb}
use native.Mathlib.Nat.{mod-eq_of_lt, mod-lt}
use native.Mathlib.Bridge.{le_prop}
use mathlib.Core.HLevel.{Σ_prop_path}
use outbe_circuits.Field.{PrimeField, IsLawful, bits_loop}

abbrev pub bn254_modulus : ℕ
bn254_modulus = 21888242871839275222246405745257275088548364400416034343698204186575808495617

-- A reduced number.
abbrev pub Residue : Type 0
Residue = (n : ℕ) × (n < bn254_modulus)

abbrev residue : ℕ → Residue
residue n = (n % bn254_modulus, mod-lt n (omega arith))

residue_of_value : (x : Residue) → residue x.0 ≡ x
residue_of_value x = Σ_prop_path (λ n. le_prop) (mod-eq_of_lt x.1)

instance unfoldable pub bn254 : PrimeField Residue
bn254 = record {
  modulus = bn254_modulus;
  from = residue;
  from_bigint = λ n. if ltb n bn254_modulus then some (residue n) else none;
  into_bigint = λ x. x.0;
  from_bits_be = bits_loop 0;
}

pub bn254-IsLawful : IsLawful bn254
unfolding bn254
bn254-IsLawful = record {
  into_bigint-lt = λ x. x.1;
  into_bigint-from = λ n. refl;
  from-into_bigint = residue_of_value;
  from_bigint-some = λ n lt. rw (lt→ltb n bn254_modulus lt) refl;
  from_bigint-none = λ n le. ground arith;
  from_bits_be-value = λ bits lt. refl;
  modulus_min = omega arith;
  modulus_max = omega arith;
}
