-- ===== src/Curve.antt =====
-- The Grumpkin curve of `ark_grumpkin` and the digest of `blake2`, as interfaces, and
-- crates/outbe-protocol/src/primitive/curve.rs.
use outbe_circuits.Prelude.{ℕ, ◌+◌, ◌-◌, ◌*◌, ◌%◌, ◌≡◌, List}
use outbe_circuits.Field.{PrimeField, Affine}

-- Points and scalars, with what the program calls. Points are compared by their coordinates, so
-- `into_affine` is left out. `sub` and `times` are the scalar field's `-` and `*`.
pub record Curve (Fr Scalar Point : Type 0) : Type 0 where
  pub generator : Point
  pub new_unchecked : Fr → Fr → Point
  pub mul_bigint : Point → ℕ → Point
  pub add : Point → Point → Point
  pub sub : Scalar → Scalar → Scalar
  pub times : Scalar → Scalar → Scalar

-- `mul_bigint` is the multiple of a group element, the generator has the scalars' order, and the scalar
-- operations are those of the residues.
pub record IsGroup {Fr Scalar Point : Type 0} (C : Curve Fr Scalar Point) (S : PrimeField Scalar)
    : Type 0 where
  pub mul_bigint-mul_bigint :
      (p : Point) (a b : ℕ) → C.mul_bigint (C.mul_bigint p a) b ≡ C.mul_bigint p (a * b)
  pub add-mul_bigint :
      (p : Point) (a b : ℕ) → C.add (C.mul_bigint p a) (C.mul_bigint p b) ≡ C.mul_bigint p (a + b)
  pub generator_order :
      (n : ℕ) → C.mul_bigint C.generator n ≡ C.mul_bigint C.generator (n % S.modulus)
  pub sub_value :
      (a b : Scalar)
      → S.into_bigint (C.sub a b) ≡ (S.into_bigint a + S.modulus - S.into_bigint b) % S.modulus
  pub times_value :
      (a b : Scalar) → S.into_bigint (C.times a b) ≡ S.into_bigint a * S.into_bigint b % S.modulus

-- `blake2::Blake2s256`
pub record Digest : Type 0 where
  pub blake2s : List ℕ → List ℕ

module _ {Fr Scalar : Type 0} (F : PrimeField Fr) (S : PrimeField Scalar) where
  unfoldable pub base_to_scalar : Fr → Scalar
  base_to_scalar x = S.from (F.into_bigint x)

module _ {Fr Scalar Point : Type 0} (S : PrimeField Scalar) (C : Curve Fr Scalar Point) where
  unfoldable pub mul_generator : Scalar → Point
  mul_generator scalar = C.mul_bigint C.generator (S.into_bigint scalar)

-- All that signatures are made of: both fields, the curve and the digest.
pub record Suite (Fr Scalar Point : Type 0) : Type 0 where
  pub F : PrimeField Fr
  pub S : PrimeField Scalar
  pub A : Affine Fr Point
  pub C : Curve Fr Scalar Point
  pub D : Digest
