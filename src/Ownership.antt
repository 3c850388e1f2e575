-- ===== src/Ownership.antt =====
-- crates/outbe-protocol/src/protocol/entity.rs and crates/outbe-zk-canonical/src/ownership.rs: entities,
-- and the witness that proves ownership of one.
use outbe_circuits.Prelude.{
  ℕ, ◌≡◌, refl, sym, ap, ◌∙◌, Bool, true, Option, none, some, List, [], arith, Result, ok, err,
  panic, ◌>>=◌, ◌>>◌, guard, ◌==◌, ==_iff, bind_ok, ok_inj, guard-eq-ok,
}
use mathlib.Core.Path.{subst}
use outbe_circuits.Error.{Error}
use outbe_circuits.Field.{PoseidonHasher, IsLawful}
use outbe_circuits.Hash.{nft_hash, signing_payload, derive_owner, coords}
use outbe_circuits.Curve.{Suite, IsGroup, mul_generator}
use outbe_circuits.Signature.Sign.{sign, verify}
use outbe_circuits.Signature.SignLaws.{verify_bytes-sign_bytes}
use outbe_circuits.Keys.{from_exchange, OwnerSeed, Signer, signer_sign}

-- What an implementation of `Entity` and `Owned` provides; `entity_hash` may be overridden.
pub record Entity (Fr : Type 0) : Type 0 where
  pub id_seed : Result Error Fr
  pub encode_id_body : List Fr → Result Error (List Fr)
  pub encode_body : List Fr → Result Error (List Fr)
  pub entity_hash : Result Error Fr
  pub owner : Result Error Fr

module _ {Fr : Type 0} ⦃P : PoseidonHasher Fr⦄ where
  unfoldable pub id : Result Error Fr → (List Fr → Result Error (List Fr)) → Result Error Fr
  id id_seed encode_id_body = do body ← encode_id_body []; seed ← id_seed; nft_hash seed body

  -- The provided `entity_hash`.
  unfoldable pub default_entity_hash :
      Result Error Fr
      → (List Fr → Result Error (List Fr))
      → (List Fr → Result Error (List Fr))
      → Result Error Fr
  default_entity_hash id_seed encode_id_body encode_body = do
    body ← encode_body []
    seed ← id id_seed encode_id_body
    nft_hash seed body

-- `struct OwnershipReceipt`, with its id, owner and entity hash.
pub record OwnershipReceipt (Fr : Type 0) : Type 0 where
  pub id : Fr
  pub owner : Fr
  pub nft_hash : Fr

unfoldable pub receipt_entity : {Fr : Type 0} → OwnershipReceipt Fr → Entity Fr
receipt_entity r = record {
  id_seed = ok r.id;
  encode_id_body = λ out. ok out;
  encode_body = λ out. ok out;
  entity_hash = ok r.nft_hash;
  owner = ok r.owner;
}

-- The generated `PublicInputs` and `Witness` of the ownership circuit.
pub record PublicInputs (Fr : Type 0) : Type 0 where
  pub owner : Fr
  pub nft_hash : Fr
  pub binding_hash : Fr

pub record Witness (Fr : Type 0) : Type 0 where
  pub x : Fr
  pub y : Fr
  pub signature : List ℕ
  pub nonce : Fr

-- `trait NftSigner`; a signer's loop may not end.
pub record NftSigner (Fr Point : Type 0) : Type 0 where
  pub owner_seed : OwnerSeed Fr Point
  pub sign : Fr → Option (Result Error (List ℕ))

-- `impl NftSigner for Signer`
unfoldable pub as_nft_signer :
    {Fr Scalar Point : Type 0}
    → Suite Fr Scalar Point
    → ℕ
    → List ℕ
    → Signer Fr Scalar Point
    → NftSigner Fr Point
as_nft_signer U fuel aux signer = record {
  owner_seed = signer.seed;
  sign = signer_sign U fuel aux signer;
}

-- `?` on what a signer gives.
abbrev pub signed :
    {A B : Type 0} → Option (Result Error A) → (A → Result Error B) → Option (Result Error B)
signed none k = none
signed (some r) k = some (r >>= k)

-- `?` before the signer runs.
abbrev pub before :
    {A B : Type 0} → Result Error A → (A → Option (Result Error B)) → Option (Result Error B)
before (ok a) k = k a
before (err e) k = some (err e)
before panic k = some panic

module _ {Fr Scalar Point : Type 0} ⦃P : PoseidonHasher Fr⦄ (U : Suite Fr Scalar Point) where
  unfoldable pub verify_signature : PublicInputs Fr → Fr → Point → List ℕ → Result Error Bool
  verify_signature public nonce pk signature = do
    payload ← signing_payload public.nft_hash nonce public.binding_hash
    ok (verify U pk payload signature)

  -- The checks, and the payload to sign.
  unfoldable pub owner_checked : Entity Fr → OwnerSeed Fr Point → Fr → Result Error (Fr × Fr × Fr)
  owner_checked entity seed binding = do
    owner ← derive_owner ⦃A = U.A⦄ seed.pk seed.nonce
    stored ← entity.owner
    guard (U.F.into_bigint owner == U.F.into_bigint stored) Error.owner_mismatch
    hash ← entity.entity_hash
    payload ← signing_payload hash seed.nonce binding
    ok (owner, hash, payload)

  unfoldable pub derive_ownership_witness :
      Entity Fr → NftSigner Fr Point → Fr → Option (Result Error (Witness Fr × PublicInputs Fr))
  derive_ownership_witness entity signer binding =
      before (owner_checked entity signer.owner_seed binding) (λ (owner, hash, payload).
        signed (signer.sign payload) (λ signature. do
          (x, y) ← coords ⦃A = U.A⦄ signer.owner_seed.pk
          ok (
            record { x = x; y = y; signature = signature; nonce = signer.owner_seed.nonce },
            record { owner = owner; nft_hash = hash; binding_hash = binding },
          )))

-- The parts of a run that gives a witness.
module _ {Fr Scalar Point : Type 0} ⦃P : PoseidonHasher Fr⦄ (U : Suite Fr Scalar Point) where
  unfoldable pub prove_ownership_via_consent :
      Entity Fr
      → ℕ
      → List ℕ
      → Scalar
      → Point
      → Fr
      → Fr
      → Option (Result Error (Witness Fr × PublicInputs Fr))
  prove_ownership_via_consent entity fuel aux consent_sk opaque_pk nonce binding =
      before (from_exchange U consent_sk opaque_pk nonce)
        (λ signer. derive_ownership_witness U entity (as_nft_signer U fuel aux signer) binding)

  module _ {Proof : Type 0} (generate : Witness Fr → PublicInputs Fr → Result Error Proof) where
    unfoldable pub generate_ownership_proof :
        Entity Fr → NftSigner Fr Point → Fr → Option (Result Error Proof)
    generate_ownership_proof entity signer binding =
        signed (derive_ownership_witness U entity signer binding)
          (λ (witness, public). generate witness public)

    unfoldable pub prove_and_verify :
        (PublicInputs Fr → Proof → Result Error Bool)
        → Entity Fr
        → NftSigner Fr Point
        → Fr
        → Option (Result Error Bool)
    prove_and_verify check entity signer binding =
        signed (derive_ownership_witness U entity signer binding)
          (λ (witness, public). do proof ← generate witness public; check public proof)

pub before_ok :
    {A B G : Type 0} (m : Result Error A) (k : A → Option (Result Error B)) {b : B}
    → before m k ≡ some (ok b)
    → ((a : A) → m ≡ ok a → k a ≡ some (ok b) → G)
    → G
before_ok (ok a) k h use_it = use_it a refl h
before_ok (err e) k h use_it = cc
before_ok panic k h use_it = cc

some_inj : {A : Type 0} {a b : A} → ◌≡◌ {A = Option A} (some a) (some b) → a ≡ b
some_inj h = grind arith

pub signed_ok :
    {A B G : Type 0} (m : Option (Result Error A)) (k : A → Result Error B) {b : B}
    → signed m k ≡ some (ok b)
    → ((a : A) → m ≡ some (ok a) → k a ≡ ok b → G)
    → G
signed_ok none k h use_it = cc
signed_ok (some (ok a)) k h use_it = use_it a refl (some_inj h)
signed_ok (some (err e)) k h use_it = cc
signed_ok (some panic) k h use_it = cc

module _ {Fr Scalar Point : Type 0} ⦃P : PoseidonHasher Fr⦄ (U : Suite Fr Scalar Point)
    (lawful : IsLawful U.F) where
  same_element : (a b : Fr) → (U.F.into_bigint a == U.F.into_bigint b) ≡ true → a ≡ b
  same_element a b h =
      sym (lawful.from-into_bigint a)
      ∙ ap U.F.from ((==_iff (U.F.into_bigint a) (U.F.into_bigint b)).0 h)
      ∙ lawful.from-into_bigint b

  pub checked_parts :
      (entity : Entity Fr) (seed : OwnerSeed Fr Point) (binding owner hash payload : Fr)
      → owner_checked U entity seed binding ≡ ok (owner, hash, payload)
      → (derive_owner ⦃A = U.A⦄ seed.pk seed.nonce ≡ ok owner)
        × (entity.owner ≡ ok owner)
        × (entity.entity_hash ≡ ok hash)
        × (signing_payload hash seed.nonce binding ≡ ok payload)
  unfolding owner_checked
  checked_parts entity seed binding owner hash payload h =
      bind_ok (derive_owner ⦃A = U.A⦄ seed.pk seed.nonce) h (λ o p1 h.
        bind_ok entity.owner h (λ st p2 h.
          bind_ok (guard (U.F.into_bigint o == U.F.into_bigint st) Error.owner_mismatch) h (λ _ g h.
            bind_ok entity.entity_hash h (λ hs p3 h.
              bind_ok (signing_payload hs seed.nonce binding) h (λ pl p4 h.
                let t = ok_inj h in
                let eo : o ≡ owner = ap (λ x. x.0) t in
                let eh : hs ≡ hash = ap (λ x. x.1) t in
                let ep : pl ≡ payload = ap (λ x. x.2) t in
                (
                  p1 ∙ ap ok eo,
                  p2 ∙ ap ok (sym (same_element o st (guard-eq-ok _ _ g)) ∙ eo),
                  p3 ∙ ap ok eh,
                  ap (λ x. signing_payload x seed.nonce binding) (sym eh) ∙ p4 ∙ ap ok ep,
                ))))))

verify-sign :
    {Fr Scalar Point : Type 0} (U : Suite Fr Scalar Point) (fuel : ℕ) (aux : List ℕ) (sk : Scalar)
    (payload : Fr) (signature : List ℕ)
    → IsLawful U.S
    → IsGroup U.C U.S
    → sign U fuel aux sk payload ≡ some (ok signature)
    → verify U (mul_generator U.S U.C sk) payload signature ≡ true
unfolding sign verify
verify-sign U fuel aux sk payload signature lawful group h =
    verify_bytes-sign_bytes U fuel aux sk _ signature lawful group h

-- A witness that a signer with its own public key makes holds a signature that verifies against the
-- public inputs, and these hold the entity's hash, the binding and the stored owner, which the key and
-- the nonce derive.
pub derive_ownership_witness-verifies :
    {Fr Scalar Point : Type 0} ⦃P : PoseidonHasher Fr⦄ (U : Suite Fr Scalar Point)
    (entity : Entity Fr) (fuel : ℕ) (aux : List ℕ) (signer : Signer Fr Scalar Point) (binding : Fr)
    (witness : Witness Fr) (public : PublicInputs Fr)
    → IsLawful U.F
    → IsLawful U.S
    → IsGroup U.C U.S
    → signer.seed.pk ≡ mul_generator U.S U.C signer.secret
    → derive_ownership_witness U entity (as_nft_signer U fuel aux signer) binding
      ≡ some (ok (witness, public))
    → (verify_signature U public witness.nonce signer.seed.pk witness.signature ≡ ok true)
      × (derive_owner ⦃A = U.A⦄ signer.seed.pk witness.nonce ≡ ok public.owner)
      × (entity.owner ≡ ok public.owner)
      × (entity.entity_hash ≡ ok public.nft_hash)
      × (public.binding_hash ≡ binding)
unfolding derive_ownership_witness as_nft_signer verify_signature signer_sign
derive_ownership_witness-verifies {Fr} U entity fuel aux signer binding witness public lf ls group
      key h =
    before_ok (owner_checked U entity signer.seed binding) _ h (λ (owner, hash, payload) checked h.
      signed_ok (signer_sign U fuel aux signer payload) _ h (λ signature made h.
        bind_ok (coords ⦃A = U.A⦄ signer.seed.pk) h (λ (x, y) point h.
          let (p1, p2, p3, p4) =
            checked_parts U lf entity signer.seed binding owner hash payload checked in
          subst
            (λ r.
              (verify_signature U r.1 r.0.nonce signer.seed.pk r.0.signature ≡ ok true)
              × (derive_owner ⦃A = U.A⦄ signer.seed.pk r.0.nonce ≡ ok r.1.owner)
              × (entity.owner ≡ ok r.1.owner)
              × (entity.entity_hash ≡ ok r.1.nft_hash)
              × (r.1.binding_hash ≡ binding))
            (ok_inj h) (rw p4 (ap ok (accepted payload signature made)), p1, p2, p3, refl))))
  where
    accepted :
        (payload : Fr) (signature : List ℕ)
        → signer_sign U fuel aux signer payload ≡ some (ok signature)
        → verify U signer.seed.pk payload signature ≡ true
    accepted payload signature made =
        ap (λ pk. verify U pk payload signature) key
        ∙ verify-sign U fuel aux signer.secret payload signature ls group made
