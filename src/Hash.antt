-- ===== src/Hash.antt =====
-- crates/outbe-protocol/src/primitive/hash.rs, with the coordinates of primitive/curve.rs. A `&str` is
-- the list of its bytes.
use outbe_circuits.Prelude.{ℕ, List, [], ◌∷◌, Result, ok, ◌>>=◌, map_err, ok_or, take, drop}
use outbe_circuits.Error.{Error}
use outbe_circuits.Field.{PoseidonHasher, PrimeField, Affine}
use outbe_circuits.Codec.Bytes.{field_from_be_bytes}

module _ {Fr : Type 0} ⦃P : PoseidonHasher Fr⦄ where
  -- `hasher.hash(inputs).map_err(|error| Error::Hash(error.to_string()))`
  unfoldable pub poseidon2 : List Fr → Result Error Fr
  poseidon2 inputs = map_err Error.hash (P.hash inputs)

  unfoldable pub iterate : Fr → List Fr → Result Error Fr
  iterate seed [] = ok seed
  iterate seed (x ∷ body) = do state ← poseidon2 (seed ∷ x ∷ []); iterate state body

  unfoldable pub nft_hash : Fr → List Fr → Result Error Fr
  nft_hash id body = iterate id body

  unfoldable pub signing_payload : Fr → Fr → Fr → Result Error Fr
  signing_payload nft_hash nonce binding = poseidon2 (nft_hash ∷ nonce ∷ binding ∷ [])

module _ {Fr Point : Type 0} ⦃A : Affine Fr Point⦄ where
  unfoldable pub coords : Point → Result Error (Fr × Fr)
  coords p = ok_or (Error.identity "curve point coords") (A.xy p)

  unfoldable pub derive_owner : ⦃P : PoseidonHasher Fr⦄ → Point → Fr → Result Error Fr
  derive_owner pk nonce = do (x, y) ← coords pk; poseidon2 (x ∷ y ∷ nonce ∷ [])

abbrev pub binding_domain : ℕ
binding_domain = 1

module _ {Fr : Type 0} ⦃F : PrimeField Fr⦄ where
  unfoldable pub binding : ⦃P : PoseidonHasher Fr⦄ → List ℕ → List ℕ → ℕ → ℕ → Result Error Fr
  binding sender commitment_id host_chain_id l2_chain_id = poseidon2 (
      F.from binding_domain
      ∷ field_from_be_bytes sender
      ∷ field_from_be_bytes (drop 16 commitment_id)
      ∷ field_from_be_bytes (take 16 commitment_id)
      ∷ F.from host_chain_id
      ∷ F.from l2_chain_id
      ∷ [])

  unfoldable pub ascii_field : List ℕ → Fr
  ascii_field value = field_from_be_bytes value
