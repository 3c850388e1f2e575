-- ===== src/Demo.antt =====
-- crates/outbe-zk-canonical/src/demo_tribute.rs: the witness that proves ownership and inclusion in a tree.
pub mod Inclusion
mod Runs
use outbe_circuits.Prelude.{
  ℕ, zero, suc, ◌+◌, ◌-◌, ◌*◌, ◌/◌, ◌%◌, ◌^◌, ◌≤◌, ◌<◌, min, max, String, ◌≡◌, refl, sym, ap, ◌∙◌,
  ◌≢◌, ◌↔◌, ◌⊎◌, inl, inr, Bool, true, false, not, ◌&&◌, ◌||◌, Option, none, some, List, [], ◌∷◌,
  ◌++◌, map, arith, Result, ok, err, panic, ◌>>=◌, ◌>>◌, guard, map_err, ok_or, expect, index,
  assert, ltb, leb, ◌==◌, if◌then◌else◌, ltb→lt, lt→ltb, leb→le, le→leb, ==_iff, ==_refl,
  Bool-cases, Option-cases, length, get_elem?, get_or, set, take, drop, replicate, All,
  length-append, length-set, length-take, length-drop, length-replicate, take-append, drop-append,
  take-append-drop, get_elem?-some, get_elem?-none, bit_xor-one, bind_ok, ok_inj, err_ok,
  guard-eq-ok, ok_or-eq-ok, Result-cases, some_inj, expect-eq-ok, assert-eq-ok,
}
use outbe_circuits.Error.{Error, Message, Arg}
use outbe_circuits.Field.{PoseidonHasher}
use outbe_circuits.Bytes.{from_be_bytes}
use outbe_circuits.Text.{codes}
use outbe_circuits.Hash.{coords}
use outbe_circuits.Curve.{Suite}
use outbe_circuits.Imt.Path.{InclusionPath, root, circuit_indices}
use outbe_circuits.Ownership.{Entity, NftSigner, owner_checked, before, signed}

-- `INCLUSION_DEPTH`
abbrev pub inclusion_depth : ℕ
inclusion_depth = 32

-- `DEMO_TRIBUTE_DOMAIN`
abbrev pub demo_tribute_tag : List ℕ
demo_tribute_tag = codes "OUTBE_FULL_CIRCUIT"

-- The generated `Witness` and `PublicInputs` of the circuit.
pub record Witness (Fr : Type 0) : Type 0 where
  pub x : Fr
  pub y : Fr
  pub signature : List ℕ
  pub nonce : Fr
  pub merkle_path_siblings : List Fr
  pub merkle_path_indices : List Bool

pub record PublicInputs (Fr : Type 0) : Type 0 where
  pub derived_owner : Fr
  pub nft_hash : Fr
  pub binding_hash : Fr
  pub merkle_root : Fr

abbrev pub wrong_depth : ℕ → Error
wrong_depth depth = Error.merkle (
    Message.fmt "expected an inclusion path of depth {}, got {}"
      (Arg.num inclusion_depth ∷ Arg.num depth ∷ []))

abbrev pub merkle_error : String → Error
merkle_error text = Error.merkle (Message.fmt text [])

module _ {Fr Scalar Point : Type 0} ⦃P : PoseidonHasher Fr⦄ (U : Suite Fr Scalar Point) where
  unfoldable pub demo_tribute_domain : Fr
  demo_tribute_domain = U.F.from (from_be_bytes demo_tribute_tag)

  -- What is tested of the path before anything else.
  unfoldable pub path_checked : InclusionPath Fr → Result Error (Unit {0})
  path_checked path = do
    guard (length path.siblings == inclusion_depth) (wrong_depth (length path.siblings))
    guard (U.F.into_bigint path.domain == U.F.into_bigint demo_tribute_domain)
        (merkle_error "inclusion path uses the wrong tree domain")

  -- What follows the signature.
  unfoldable pub assemble :
      InclusionPath Fr
      → Point
      → Fr
      → Fr
      → Fr
      → Fr
      → List ℕ
      → Result Error (Witness Fr × PublicInputs Fr)
  assemble path pk nonce binding owner hash signature = do
    (x, y) ← coords ⦃A = U.A⦄ pk
    merkle_root ← root path hash
    guard (length path.siblings == 32) (merkle_error "siblings length")
    indices ← circuit_indices path
    guard (length indices == 32) (merkle_error "indices length")
    ok (
      record {
        x = x;
        y = y;
        signature = signature;
        nonce = nonce;
        merkle_path_siblings = path.siblings;
        merkle_path_indices = indices;
      },
      record {
        derived_owner = owner;
        nft_hash = hash;
        binding_hash = binding;
        merkle_root = merkle_root;
      },
    )

  unfoldable pub derive_demo_tribute_witness :
      Entity Fr
      → NftSigner Fr Point
      → Fr
      → InclusionPath Fr
      → Option (Result Error (Witness Fr × PublicInputs Fr))
  derive_demo_tribute_witness entity signer binding path = before (path_checked path) (λ u.
      before (owner_checked U entity signer.owner_seed binding) (λ (owner, hash, payload).
        signed (signer.sign payload) (λ signature.
          assemble path signer.owner_seed.pk signer.owner_seed.nonce binding owner hash signature)))

  module _ {Proof : Type 0} (generate : Witness Fr → PublicInputs Fr → Result Error Proof) where
    unfoldable pub generate_demo_tribute_proof :
        Entity Fr → NftSigner Fr Point → Fr → InclusionPath Fr → Option (Result Error Proof)
    generate_demo_tribute_proof entity signer binding path =
        signed (derive_demo_tribute_witness entity signer binding path)
          (λ (witness, public). generate witness public)

    unfoldable pub demo_tribute_prove_and_verify :
        (PublicInputs Fr → Proof → Result Error Bool)
        → Entity Fr
        → NftSigner Fr Point
        → Fr
        → InclusionPath Fr
        → Option (Result Error Bool)
    demo_tribute_prove_and_verify check entity signer binding path =
        signed (derive_demo_tribute_witness entity signer binding path)
          (λ (witness, public). do proof ← generate witness public; check public proof)
