-- ===== src/Field.antt =====
-- What the program takes from third-party crates: the BN254 field of `ark_bn254` and the hasher of
-- `outbe_poseidon`, as interfaces. Big integers (`BigInteger256`) are natural numbers.
use outbe_circuits.Prelude.{
  ℕ, String, List, Result, Option, some, none, Bool, [], ◌∷◌, ◌≡◌, ◌≤◌, ◌<◌, ◌+◌, ◌*◌, ◌%◌, ◌^◌,
  if◌then◌else◌,
}

-- `outbe_poseidon::PoseidonHasher`: the sponge over field elements, which may refuse its input.
pub record PoseidonHasher (Fr : Type 0) : Type 0 where
  pub hash : List Fr → Result String Fr

-- `ark_ec::AffineRepr::xy`: the coordinates of a point other than the identity.
pub record Affine (Fr Point : Type 0) : Type 0 where
  pub xy : Point → Option (Fr × Fr)

-- `ark_ff::PrimeField` for `ark_bn254::Fr`: `from` is `From<u128>` and `from_be_bytes_mod_order`,
-- on the number that the bytes spell.
pub record PrimeField (Fr : Type 0) : Type 0 where
  pub modulus : ℕ
  pub from : ℕ → Fr
  pub from_bigint : ℕ → Option Fr
  pub into_bigint : Fr → ℕ
  pub from_bits_be : List Bool → ℕ

-- The number that bits spell, the highest first.
unfoldable pub bits_loop : ℕ → List Bool → ℕ
bits_loop acc [] = acc
bits_loop acc (bit ∷ bits) = bits_loop (2 * acc + (if bit then 1 else 0)) bits

-- What `ark_ff` documents of them: `from` reduces, `from_bigint` refuses what is not reduced, and
-- `into_bigint` gives the representative; `BigInteger::from_bits_be` reads bits that fit its four
-- limbs. The modulus of BN254 has 254 bits.
pub record IsLawful {Fr : Type 0} (F : PrimeField Fr) : Type 0 where
  pub into_bigint-lt : (x : Fr) → F.into_bigint x < F.modulus
  pub into_bigint-from : (n : ℕ) → F.into_bigint (F.from n) ≡ n % F.modulus
  pub from-into_bigint : (x : Fr) → F.from (F.into_bigint x) ≡ x
  pub from_bigint-some : (n : ℕ) → n < F.modulus → F.from_bigint n ≡ some (F.from n)
  pub from_bigint-none : (n : ℕ) → F.modulus ≤ n → F.from_bigint n ≡ none
  pub from_bits_be-value :
      (bits : List Bool) → bits_loop 0 bits < 2 ^ 256 → F.from_bits_be bits ≡ bits_loop 0 bits
  pub modulus_min : 2 ^ 253 ≤ F.modulus
  pub modulus_max : F.modulus < 2 ^ 254
