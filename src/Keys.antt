-- ===== src/Keys.antt =====
-- crates/outbe-protocol/src/protocol/key.rs, primitive/exchange.rs and primitive/kdf.rs: keys and the
-- consent box. What a random generator gives is an argument; wiping a secret has no effect here.
use outbe_circuits.Prelude.{
  ℕ, ◌+◌, ◌*◌, ◌≡◌, refl, sym, ap, ◌∙◌, inl, inr, Option, List, [], ◌∷◌, arith, Result, ok, ◌>>=◌,
  Result-cases, bind_ok, ok_inj,
}
use mathlib.Core.Path.{subst}
use outbe_circuits.Error.{Error}
use outbe_circuits.Field.{PoseidonHasher}
use outbe_circuits.Hash
use outbe_circuits.Hash.{poseidon2, coords}
use outbe_circuits.Curve.{Suite, IsGroup, base_to_scalar, mul_generator}
use outbe_circuits.Signature.Sign.{sign}

-- The number that little-endian bytes spell.
unfoldable pub from_le_bytes : List ℕ → ℕ
from_le_bytes [] = 0
from_le_bytes (b ∷ bytes) = b + 256 * from_le_bytes bytes

-- "Outbe/kdf/poseidon/v1"
abbrev kdf_domain : List ℕ
kdf_domain =
    79 ∷ 117 ∷ 116 ∷ 98 ∷ 101 ∷ 47 ∷ 107 ∷ 100 ∷ 102 ∷ 47 ∷ 112 ∷ 111 ∷ 115 ∷ 101 ∷ 105 ∷ 100 ∷ 111
    ∷ 110 ∷ 47 ∷ 118 ∷ 49 ∷ []

-- `struct OwnerSeed`
pub record OwnerSeed (Fr Point : Type 0) : Type 0 where
  pub pk : Point
  pub nonce : Fr

-- `struct Signer`; `NftSecret` and `SecretScalar` wrap the scalar.
pub record Signer (Fr Scalar Point : Type 0) : Type 0 where
  pub secret : Scalar
  pub seed : OwnerSeed Fr Point

module _ {Fr Scalar Point : Type 0} (U : Suite Fr Scalar Point) where
  -- `exchange::random_keypair` and `signature::keypair`, from the scalar drawn.
  unfoldable pub random_keypair : Scalar → Scalar × Point
  random_keypair sk = (sk, mul_generator U.S U.C sk)

  unfoldable pub shared : Scalar → Point → Result Error Fr
  shared sk other = do (x, _) ← coords ⦃A = U.A⦄ (U.C.mul_bigint other (U.S.into_bigint sk)); ok x

  unfoldable pub public_key : Scalar → Result Error Point
  public_key sk = ok (mul_generator U.S U.C sk)

  -- `NftSigner::sign` of a `Signer`.
  unfoldable pub signer_sign :
      ℕ → List ℕ → Signer Fr Scalar Point → Fr → Option (Result Error (List ℕ))
  signer_sign fuel aux signer payload = sign U fuel aux signer.secret payload

  unfoldable pub local : Scalar → Fr → Result Error (Signer Fr Scalar Point)
  local drawn nonce =
      let (sk, pk) = random_keypair drawn in
      ok (record { secret = sk; seed = record { pk = pk; nonce = nonce } })

  unfoldable pub from_secret : Scalar → Fr → Result Error (Signer Fr Scalar Point)
  from_secret secret nonce = do
    pk ← public_key secret
    ok (record { secret = secret; seed = record { pk = pk; nonce = nonce } })

  module _ ⦃P : PoseidonHasher Fr⦄ where
    -- `kdf::derive`
    unfoldable pub derive : List Fr → Result Error Fr
    derive inputs = poseidon2 (U.F.from (from_le_bytes kdf_domain) ∷ inputs)

    unfoldable pub seed_owner : OwnerSeed Fr Point → Result Error Fr
    seed_owner seed = Hash.derive_owner ⦃A = U.A⦄ seed.pk seed.nonce

    unfoldable pub derive_nft_secret : Fr → Fr → Result Error Scalar
    derive_nft_secret shared nonce = do
      kdf_out ← derive (shared ∷ nonce ∷ [])
      ok (base_to_scalar U.F U.S kdf_out)

    -- `Signer::issue_for_remote`, from the scalar and the nonce drawn.
    unfoldable pub issue_for_remote :
        Scalar → Fr → Point → Result Error (OwnerSeed Fr Point × Point)
    issue_for_remote drawn nonce consent_pk = do
      let (opaque_sk, opaque_pk) = random_keypair drawn
      common ← shared opaque_sk consent_pk
      nft_sk ← derive_nft_secret common nonce
      pk ← public_key nft_sk
      ok (record { pk = pk; nonce = nonce }, opaque_pk)

    unfoldable pub from_exchange : Scalar → Point → Fr → Result Error (Signer Fr Scalar Point)
    from_exchange consent_sk opaque_pk nonce = do
      common ← shared consent_sk opaque_pk
      secret ← derive_nft_secret common nonce
      pk ← public_key secret
      ok (record { secret = secret; seed = record { pk = pk; nonce = nonce } })

module _ {Fr Scalar Point : Type 0} (U : Suite Fr Scalar Point) (group : IsGroup U.C U.S) where
  shared-mul_generator :
      (a b : Scalar) → shared U a (mul_generator U.S U.C b) ≡ shared U b (mul_generator U.S U.C a)
  unfolding shared mul_generator
  shared-mul_generator a b =
      ap (λ p. coords ⦃A = U.A⦄ p >>= λ (x, _). ok x)
        (group.mul_bigint-mul_bigint U.C.generator (U.S.into_bigint b) (U.S.into_bigint a)
          ∙ ap (U.C.mul_bigint U.C.generator) swap
          ∙ sym (group.mul_bigint-mul_bigint U.C.generator (U.S.into_bigint a) (U.S.into_bigint b)))
    where
      swap : U.S.into_bigint b * U.S.into_bigint a ≡ U.S.into_bigint a * U.S.into_bigint b
      swap = grind arith

-- What the server issues to a consent key, an error included, is what the holder of the consent secret
-- reconstructs from the server's public key and the nonce; the secret that is reconstructed is that of the
-- public key issued.
pub from_exchange-issue_for_remote :
    {Fr Scalar Point : Type 0} ⦃P : PoseidonHasher Fr⦄ (U : Suite Fr Scalar Point)
    (consent_sk drawn : Scalar) (nonce : Fr)
    → IsGroup U.C U.S
    → (issue_for_remote U drawn nonce (mul_generator U.S U.C consent_sk) ≡ (
        from_exchange U consent_sk (mul_generator U.S U.C drawn) nonce >>= λ signer.
        ok (signer.seed, mul_generator U.S U.C drawn)))
      × ((signer : Signer Fr Scalar Point)
          → from_exchange U consent_sk (mul_generator U.S U.C drawn) nonce ≡ ok signer
          → signer.seed ≡ record { pk = mul_generator U.S U.C signer.secret; nonce = nonce })
unfolding issue_for_remote from_exchange random_keypair public_key
from_exchange-issue_for_remote U consent_sk drawn nonce group = (
  rw (shared-mul_generator U group consent_sk drawn)
      (elim (Result-cases (shared U drawn (mul_generator U.S U.C consent_sk))) [
        | inl (x, q) ↦ elim (Result-cases (derive_nft_secret U x nonce)) [
          | inl (sk, r) ↦ rw (q, r) refl
          | inr (inl (e, r)) ↦ rw (q, r) refl
          | inr (inr r) ↦ rw (q, r) refl
        ]
        | inr (inl (e, q)) ↦ rw q refl
        | inr (inr q) ↦ rw q refl
      ]),
  (λ signer h. bind_ok (shared U consent_sk (mul_generator U.S U.C drawn)) h λ x e1 h1.
      bind_ok (derive_nft_secret U x nonce) h1 λ sk e2 h2.
        subst (λ s. s.seed ≡ record { pk = mul_generator U.S U.C s.secret; nonce = nonce })
          (ok_inj h2) refl),
)
