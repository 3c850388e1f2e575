-- ===== src/Registry/Manifest.antt =====
-- crates/outbe-zk-canonical/circuits/manifest.toml and resources/circuits, as build.rs and xtask read them, and
-- the entries of src/lib.rs.
use outbe_circuits.Prelude.{ℕ, Bool, Option, List}

-- A table `[[circuit]]`.
pub record Entry : Type 0 where
  pub module_name : List ℕ
  pub label : List ℕ
  pub version : List ℕ
  pub status : List ℕ
  pub circuit_hash : Option (List ℕ)

-- The files of one version: `circuit.vk`, `bytecode.b64` and `abi.json`, each there or not.
pub record Artifacts : Type 0 where
  pub vk : Option (List ℕ)
  pub bytecode : Option (List ℕ)
  pub abi : Option (List ℕ)

-- `resources/circuits/<module>/<version>`
abbrev pub Resources : Type 0
Resources = List ℕ → List ℕ → Artifacts

mutual
  -- A type of an ABI, by its `kind`.
  pub data AbiType : Type 0 where
    field boolean : AbiType
    integer : List ℕ → ℕ → AbiType
    array : Option ℕ → AbiType → AbiType
    struct : List ℕ → AbiFields → AbiType
    other : AbiType

  pub data AbiFields : Type 0 where
    end : AbiFields
    more : AbiType → AbiFields → AbiFields

-- One of `abi.parameters`.
pub record Param : Type 0 where
  pub name : List ℕ
  pub type : AbiType
  pub visibility : List ℕ

-- The libraries: `tiny_keccak`, `base64`, and `serde_json` on an ABI.
pub record Codecs : Type 0 where
  pub keccak256 : List ℕ → List ℕ
  pub base64_decode : List ℕ → Option (List ℕ)
  pub parse_abi : List ℕ → Option (List Param)

-- `struct Loaded`
pub record Loaded : Type 0 where
  pub module_name : List ℕ
  pub label : List ℕ
  pub version : List ℕ
  pub status : List ℕ
  pub circuit_hash : List ℕ
  pub vk_hash : List ℕ
  pub vk : List ℕ
  pub abi : Option (List Param)
  pub has_bytecode : Bool

-- `enum CircuitStatus`
pub data CircuitStatus : Type 0 where
  active deprecated revoked : CircuitStatus

pub record RegistryEntry : Type 0 where
  pub label : List ℕ
  pub version : List ℕ
  pub status : CircuitStatus
  pub proof_system : List ℕ
  pub circuit_hash : List ℕ
  pub vk_hash : List ℕ
  pub vk_bytes : List ℕ

pub record L2CircuitVersion : Type 0 where
  pub version : List ℕ
  pub circuit_hash : List ℕ
  pub vk_hash : List ℕ

pub record L2ChainEntry : Type 0 where
  pub chain_id : ℕ
  pub circuits : List L2CircuitVersion
