-- ===== src/Backend/Prove.antt =====
-- crates/outbe-zk-backend: witness.rs, and the prover and verifier of barretenberg/mod.rs. The ACVM, the
-- codecs and the foreign prover are arguments.
use outbe_circuits.Prelude.{
  ℕ, suc, ◌-◌, String, Bool, Option, none, some, List, [], ◌∷◌, ◌++◌, Result, ok, err, panic,
  map_err, ok_or, leb, if◌then◌else◌, length, replicate,
}
use outbe_circuits.Error.{Error, Message}
use outbe_circuits.Field.{PrimeField}
use outbe_circuits.Bytes.{to_be_bytes}
use outbe_circuits.Text.{trim}
use outbe_circuits.Srs.Process.{Host, Action, bound, lift, ◌>>=◌, ◌>>◌}
use outbe_circuits.Backend.{failure, Barretenberg, api, configure_memory, ensure_srs_for}

-- `trait CircuitId`
pub record CircuitId : Type 0 where
  pub label : List ℕ
  pub version : List ℕ
  pub circuit_hash : List ℕ
  pub bytecode_b64 : List ℕ
  pub vk_bytes : List ℕ
  pub vk_hash : List ℕ

-- `trait Circuit`, for the types of the witness and of the public inputs.
pub record Circuit (Fr Witness PublicInputs : Type 0) : Type 0 where
  pub id : CircuitId
  pub public_inputs : PublicInputs → List Fr
  pub witness_inputs : Witness → PublicInputs → List Fr

-- The libraries that witness.rs and mod.rs call.
pub record Tools (Fr : Type 0) : Type 1 where
  pub base64_decode : List ℕ → Result String (List ℕ)
  pub gunzip : List ℕ → Result String (List ℕ)
  pub Program : Type 0
  pub Function : Type 0
  pub deserialize_program : List ℕ → Result String Program
  pub functions : Program → List Function
  -- `ACVM::new(..)`, `solve` and `finalize`, from the initial witness
  pub solve : Program → Function → List (ℕ × Fr) → Result String (List (ℕ × Fr))
  -- `WitnessStack::serialize` of one entry
  pub serialize : List (ℕ × Fr) → Result String (List ℕ)
  -- `circuit_prove` of the label, the code, the key, the solved witness and `disable_zk`
  pub circuit_prove : List ℕ → List ℕ → List ℕ → List ℕ → Bool → Result String (List (List ℕ))
  -- `circuit_verify` of the key, the public inputs, the proof and `disable_zk`
  pub circuit_verify : List ℕ → List (List ℕ) → List (List ℕ) → Bool → Result String Bool

unfoldable pub number_from {ℓ} : {A : Type ℓ} → ℕ → List A → List (ℕ × A)
number_from i [] = []
number_from i (x ∷ xs) = (i, x) ∷ number_from (suc i) xs

unfoldable pub program : {Fr : Type 0} (T : Tools Fr) → CircuitId → Result Error T.Program
program T id =
    bound (map_err (failure "acir bytecode base64: {}") (T.base64_decode (trim id.bytecode_b64)))
      (λ bytes. map_err (failure "acir deserialize: {}") (T.deserialize_program bytes))

abbrev first {ℓ} : {A : Type ℓ} → List A → Option A
first [] = none
first (x ∷ xs) = some x

abbrev pub no_functions : Error
no_functions = Error.proof (Message.fmt "acir program has no functions" [])

module _ {Fr Witness PublicInputs : Type 0} where
  -- The initial witness: input `i` at index `i`.
  unfoldable pub witness_map :
      Circuit Fr Witness PublicInputs → Witness → PublicInputs → List (ℕ × Fr)
  witness_map c witness public = number_from 0 (c.witness_inputs witness public)

  unfoldable pub solved_witness :
      Tools Fr → Circuit Fr Witness PublicInputs → Witness → PublicInputs → Result Error (List ℕ)
  solved_witness T c witness public = bound (program T c.id) λ prog.
      bound (ok_or no_functions (first (T.functions prog))) λ circuit.
        bound
          (map_err (failure "acvm solve: {}") (T.solve prog circuit (witness_map c witness public)))
          λ solved.
            bound (map_err (failure "witness serialize: {}") (T.serialize solved))
              λ compressed. map_err (failure "witness decompress: {}") (T.gunzip compressed)

-- `out[32 - be.len()..].copy_from_slice(&be)` over 32 zero bytes.
unfoldable pub padded : List ℕ → Result Error (List ℕ)
padded be = if leb (length be) 32 then ok (replicate (32 - length be) 0 ++ be) else panic

abbrev pub cons_ok :
    Result Error (List ℕ) → Result Error (List (List ℕ)) → Result Error (List (List ℕ))
cons_ok (ok w) (ok ws) = ok (w ∷ ws)
cons_ok (ok w) r = r
cons_ok (err e) r = err e
cons_ok panic r = panic

-- `into_bigint().to_bytes_be()` has the 32 bytes of its four limbs.
unfoldable pub public_words : {Fr : Type 0} → PrimeField Fr → List Fr → Result Error (List (List ℕ))
public_words F [] = ok []
public_words F (f ∷ fs) = cons_ok (padded (to_be_bytes 32 (F.into_bigint f))) (public_words F fs)

-- `acir_buffer_uncompressed`
unfoldable pub acir_buffer : {Fr : Type 0} → Tools Fr → CircuitId → Result Error (List ℕ)
acir_buffer T id =
    bound (map_err (failure "acir bytecode base64: {}") (T.base64_decode (trim id.bytecode_b64)))
      (λ compressed. map_err (failure "acir decompress: {}") (T.gunzip compressed))

module _ {Fr Witness PublicInputs : Type 0} where
  -- `ProofGenerator::generate`
  unfoldable pub generate :
      Host
      → Tools Fr
      → Circuit Fr Witness PublicInputs
      → Barretenberg
      → Witness
      → PublicInputs
      → Action (List (List ℕ))
  generate host T c b witness public = do
    solved ← lift (solved_witness T c witness public)
    acir ← lift (acir_buffer T c.id)
    configure_memory b
    api host
    ensure_srs_for host acir b.disable_zk
    lift (
        map_err (failure "bb prove: {}")
          (T.circuit_prove c.id.label acir c.id.vk_bytes solved b.disable_zk))

  -- `ProofVerifier::verify`
  unfoldable pub verify :
      Host
      → PrimeField Fr
      → Tools Fr
      → Circuit Fr Witness PublicInputs
      → Barretenberg
      → PublicInputs
      → List (List ℕ)
      → Action Bool
  verify host F T c b public proof = do
    words ← lift (public_words F (c.public_inputs public))
    acir ← lift (acir_buffer T c.id)
    api host
    ensure_srs_for host acir b.disable_zk
    lift (
        map_err (failure "bb verify: {}") (T.circuit_verify c.id.vk_bytes words proof b.disable_zk))
