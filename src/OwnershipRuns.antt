-- ===== src/OwnershipRuns.antt =====
-- Keys and ownership witnesses on concrete values, over the residues.
use outbe_circuits.Prelude.{
  ℕ, ◌≡◌, refl, true, Option, none, some, List, [], Result, ok, err, panic, ◌>>=◌, replicate,
}
use outbe_circuits.Error.{Error}
use outbe_circuits.Field.{IsLawful}
use outbe_circuits.FieldRuns.{Residue, bn254, bn254-IsLawful}
use outbe_circuits.Bytes.{be_loop, from_be_bytes, to_be_bytes}
use outbe_circuits.Hash.{poseidon2, derive_owner, signing_payload, coords}
use outbe_circuits.Notes.Runs.{toy, toy_sum}
use outbe_circuits.Curve.{base_to_scalar, mul_generator}
use outbe_circuits.Signature.Runs.{toy_suite, toy-IsLawful, toy-IsGroup}
use outbe_circuits.Signature.Sign.{
  field_to_be32, pedersen_hash3, challenge_bytes, derive_nonce, attempt, sign_loop, sign_bytes,
  sign,
}
use outbe_circuits.Keys.{
  Signer, signer_sign, issue_for_remote, from_exchange, from_exchange-issue_for_remote,
}
use outbe_circuits.Ownership.{
  Entity, receipt_entity, as_nft_signer, PublicInputs, Witness, owner_checked,
  derive_ownership_witness, verify_signature, derive_ownership_witness-verifies,
}

abbrev consent_sk : Residue
consent_sk = bn254.from 11

abbrev drawn : Residue
drawn = bn254.from 13

abbrev nonce : Residue
nonce = bn254.from 17

from_exchange-issue_for_remote_example :
    (issue_for_remote toy_suite drawn nonce (mul_generator toy_suite.S toy_suite.C consent_sk) ≡ (
      from_exchange toy_suite consent_sk (mul_generator toy_suite.S toy_suite.C drawn) nonce
      >>= λ signer. ok (signer.seed, mul_generator toy_suite.S toy_suite.C drawn)))
    × ((signer : Signer Residue Residue ℕ)
        → from_exchange toy_suite consent_sk (mul_generator toy_suite.S toy_suite.C drawn) nonce
          ≡ ok signer
        → signer.seed
          ≡ record { pk = mul_generator toy_suite.S toy_suite.C signer.secret; nonce = nonce })
from_exchange-issue_for_remote_example =
    from_exchange-issue_for_remote toy_suite consent_sk drawn nonce toy-IsGroup

abbrev signer : Signer Residue Residue ℕ
signer = record {
  secret = drawn;
  seed = record { pk = mul_generator toy_suite.S toy_suite.C drawn; nonce = nonce };
}

abbrev owner_of : Result Error Residue → Residue
owner_of (ok o) = o
owner_of (err e) = nonce
owner_of panic = nonce

abbrev entity : Entity Residue
entity = receipt_entity (record {
  id = bn254.from 1;
  owner = owner_of (derive_owner ⦃A = toy_suite.A⦄ signer.seed.pk nonce);
  nft_hash = bn254.from 99;
})

abbrev aux : List ℕ
aux = replicate 32 7

abbrev nothing : Witness Residue × PublicInputs Residue
nothing = (
  record { x = nonce; y = nonce; signature = []; nonce = nonce },
  record { owner = nonce; nft_hash = nonce; binding_hash = nonce },
)

abbrev made_of :
    Option (Result Error (Witness Residue × PublicInputs Residue))
    → Witness Residue × PublicInputs Residue
made_of none = nothing
made_of (some (ok r)) = r
made_of (some (err e)) = nothing
made_of (some panic) = nothing

abbrev made : Witness Residue × PublicInputs Residue
made = made_of (
    derive_ownership_witness toy_suite entity (as_nft_signer toy_suite 2 aux signer) (bn254.from 5))

made_run :
    derive_ownership_witness toy_suite entity (as_nft_signer toy_suite 2 aux signer) (bn254.from 5)
    ≡ some (ok made)
unfolding derive_ownership_witness owner_checked as_nft_signer signer_sign receipt_entity
    derive_owner signing_payload poseidon2 toy toy_sum sign sign_bytes sign_loop attempt
    derive_nonce challenge_bytes pedersen_hash3 field_to_be32 base_to_scalar mul_generator coords
    toy_suite bn254 to_be_bytes from_be_bytes be_loop
made_run = refl

toy-IsLawful_base : IsLawful toy_suite.F
unfolding toy_suite
toy-IsLawful_base = bn254-IsLawful

derive_ownership_witness-verifies_example :
    (verify_signature toy_suite made.1 made.0.nonce signer.seed.pk made.0.signature ≡ ok true)
    × (derive_owner ⦃A = toy_suite.A⦄ signer.seed.pk made.0.nonce ≡ ok made.1.owner)
    × (entity.owner ≡ ok made.1.owner)
    × (entity.entity_hash ≡ ok made.1.nft_hash)
    × (made.1.binding_hash ≡ bn254.from 5)
derive_ownership_witness-verifies_example =
    derive_ownership_witness-verifies toy_suite entity 2 aux signer (bn254.from 5) made.0 made.1
      toy-IsLawful_base toy-IsLawful toy-IsGroup refl made_run
