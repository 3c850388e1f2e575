-- ===== src/Signature/Runs.antt =====
-- A signature over the additive group of the residues, with a toy digest.
use outbe_circuits.Prelude.{
  ℕ, ◌+◌, ◌-◌, ◌*◌, ◌/◌, ◌%◌, ◌≡◌, refl, sym, ap, ◌∙◌, true, Option, none, some, List, [], ◌∷◌,
  arith, Result, ok, err, panic, ◌==◌, if◌then◌else◌, length, replicate,
}
use native.Mathlib.Nat.{mod-mod, add-mod, mod-add-div, add-mul-mod_self_left}
use outbe_circuits.Error.{Error}
use outbe_circuits.Field.{IsLawful}
use outbe_circuits.FieldRuns.{Residue, bn254, bn254-IsLawful, bn254_modulus}
use outbe_circuits.Hash.{coords}
use outbe_circuits.Bytes.{be_loop, from_be_bytes, to_be_bytes}
use outbe_circuits.Curve.{Curve, IsGroup, Suite, base_to_scalar, mul_generator}
use outbe_circuits.Signature.Sign.{
  field_to_be32, pedersen_hash3, challenge_bytes, verify_bytes, derive_nonce, attempt, sign_bytes,
}
use outbe_circuits.Signature.SignLaws.{verify_bytes-sign_bytes, sign_bytes_enough}

abbrev m : ℕ
m = bn254_modulus

abbrev pub residues : Curve Residue Residue ℕ
residues = record {
  generator = 1;
  new_unchecked = λ x y. x.0;
  mul_bigint = λ p n. p * n % m;
  add = λ p q. (p + q) % m;
  sub = λ a b. bn254.from (a.0 + m - b.0);
  times = λ a b. bn254.from (a.0 * b.0);
}

spread : (r q a b : ℕ) → (r + m * q) * b ≡ r * b + m * (q * b)
spread r q a b = grind arith

mul_bigint-mul_bigint : (p a b : ℕ) → p * a % m * b % m ≡ p * (a * b) % m
mul_bigint-mul_bigint p a b =
    sym (add-mul-mod_self_left (p * a % m * b) m (p * a / m * b))
    ∙ ap (λ n. n % m)
        (sym (spread (p * a % m) (p * a / m) a b) ∙ ap (λ n. n * b) (mod-add-div (p * a) m) ∙ assoc)
  where
    assoc : p * a * b ≡ p * (a * b)
    assoc = grind arith

pub residues-IsGroup : IsGroup residues bn254
unfolding bn254
residues-IsGroup = record {
  mul_bigint-mul_bigint = mul_bigint-mul_bigint;
  add-mul_bigint = λ p a b. sym (add-mod (p * a) (p * b) m) ∙ ap (λ n. n % m) (distribute p a b);
  generator_order = λ n.
      ap (λ k. k % m) (one_mul n) ∙ sym (mod-mod n m) ∙ ap (λ k. k % m) (sym (one_mul (n % m)));
  sub_value = λ a b. refl;
  times_value = λ a b. refl;
}
  where
    distribute : (p a b : ℕ) → p * a + p * b ≡ p * (a + b)
    distribute p a b = grind arith

    one_mul : (n : ℕ) → 1 * n ≡ n
    one_mul n = omega arith

unfoldable pub toy_suite : Suite Residue Residue ℕ
toy_suite = record {
  F = bn254;
  S = bn254;
  A = record { xy = λ n. if n == 0 then none else some (bn254.from n, bn254.from 1) };
  C = residues;
  D = record { blake2s = λ bytes. to_be_bytes 32 (5 + length bytes) };
}

pub toy-IsLawful : IsLawful toy_suite.S
unfolding toy_suite
toy-IsLawful = bn254-IsLawful

pub toy-IsGroup : IsGroup toy_suite.C toy_suite.S
unfolding toy_suite
toy-IsGroup = residues-IsGroup

abbrev sk : Residue
sk = bn254.from 12345

abbrev message : List ℕ
message = 104 ∷ 105 ∷ []

abbrev aux : List ℕ
aux = replicate 32 7

abbrev signature_of : Result Error (Option (List ℕ)) → List ℕ
signature_of (ok (some s)) = s
signature_of (ok none) = []
signature_of (err e) = []
signature_of panic = []

abbrev signature : List ℕ
signature = signature_of (attempt toy_suite sk message aux 0)

first_turn : attempt toy_suite sk message aux 0 ≡ ok (some signature)
unfolding attempt derive_nonce challenge_bytes pedersen_hash3 field_to_be32 base_to_scalar
    mul_generator coords toy_suite bn254 to_be_bytes from_be_bytes be_loop
first_turn = refl

sign_bytes_enough_example : sign_bytes toy_suite (1 + 3) aux sk message ≡ some (ok signature)
sign_bytes_enough_example =
    sign_bytes_enough toy_suite 0 3 aux sk message signature (omega arith)
      (λ i lt. absurd (omega arith)) first_turn

verify_bytes-sign_bytes_example :
    verify_bytes toy_suite (mul_generator toy_suite.S toy_suite.C sk) signature message ≡ true
verify_bytes-sign_bytes_example =
    verify_bytes-sign_bytes toy_suite 4 aux sk message signature toy-IsLawful toy-IsGroup (
      sign_bytes_enough toy_suite 0 3 aux sk message signature (omega arith)
        (λ i lt. absurd (omega arith)) first_turn)
