-- ===== src/Registry/Load.antt =====
-- build.rs: `load_circuits`, `generate_circuit_registry` and what they call.
use outbe_circuits.Prelude.{
  ℕ, Bool, true, false, ◌&&◌, Option, none, some, List, [], ◌∷◌, Result, ok, panic, ◌>>=◌, ◌>>◌,
  expect, assert, ◌==◌, if◌then◌else◌, length,
}
use outbe_circuits.Error.{Error}
use outbe_circuits.Text.{codes, trim}
use outbe_circuits.Hex.{unhex}
use outbe_circuits.Slices.{bytes_eq}
use outbe_circuits.Registry.Manifest.{
  Entry, Resources, Param, Codecs, Loaded, CircuitStatus, RegistryEntry,
}

-- `strip_prefix("0x")`, or the text as it is.
abbrev pub strip_0x : List ℕ → List ℕ
strip_0x (c ∷ d ∷ text) = if c == 48 && d == 120 then text else c ∷ d ∷ text
strip_0x text = text

unfoldable pub hex_to_32 : List ℕ → Result Error (List ℕ)
hex_to_32 s = do let digits = strip_0x s; assert (length digits == 64); expect (unhex digits)

abbrev pub is_some : {A : Type 0} → Option A → Bool
is_some none = false
is_some (some a) = true

abbrev pub is_revoked : Entry → Bool
is_revoked c = bytes_eq c.status (codes "revoked")

-- `if status == "revoked" { continue; }`
abbrev pub push_loaded :
    Bool → Result Error Loaded → Result Error (List Loaded) → Result Error (List Loaded)
push_loaded true l rest = rest
push_loaded false l rest = do loaded ← l; more ← rest; ok (loaded ∷ more)

module _ (C : Codecs) where
  -- The identity: of the bytecode where it is there, else what the manifest has kept.
  unfoldable pub circuit_hash_of : Option (List ℕ) → Option (List ℕ) → Result Error (List ℕ)
  circuit_hash_of (some bytecode) manifest_hash = do
    acir ← expect (C.base64_decode (trim bytecode))
    ok (C.keccak256 acir)
  circuit_hash_of none manifest_hash = do hash ← expect manifest_hash; hex_to_32 hash

  abbrev pub abi_of : Option (List ℕ) → Result Error (Option (List Param))
  abi_of none = ok none
  abi_of (some text) = do abi ← expect (C.parse_abi text); ok (some abi)

  -- One round of the loop, for an entry that is not revoked.
  unfoldable pub load_entry : Resources → Entry → Result Error Loaded
  load_entry resources c = do
    let files = resources c.module_name c.version
    vk ← expect files.vk
    circuit_hash ← circuit_hash_of files.bytecode c.circuit_hash
    abi ← abi_of files.abi
    ok (record {
      module_name = c.module_name;
      label = c.label;
      version = c.version;
      status = c.status;
      circuit_hash = circuit_hash;
      vk_hash = C.keccak256 vk;
      vk = vk;
      abi = abi;
      has_bytecode = is_some files.bytecode;
    })

  unfoldable pub load_circuits : Resources → List Entry → Result Error (List Loaded)
  load_circuits resources [] = ok []
  load_circuits resources (c ∷ circuits) =
      push_loaded (is_revoked c) (load_entry resources c) (load_circuits resources circuits)

unfoldable pub status_of : List ℕ → Result Error CircuitStatus
status_of status =
    if bytes_eq status (codes "active")
    then ok CircuitStatus.active
    else if bytes_eq status (codes "deprecated")
    then ok CircuitStatus.deprecated
    else if bytes_eq status (codes "revoked")
    then ok CircuitStatus.revoked
    else panic

-- `generate_registry_entry`, as the entry that the literal denotes.
unfoldable pub registry_entry : List ℕ → Loaded → Result Error RegistryEntry
registry_entry proof_system l = do
  status ← status_of l.status
  ok (record {
    label = l.label;
    version = l.version;
    status = status;
    proof_system = proof_system;
    circuit_hash = l.circuit_hash;
    vk_hash = l.vk_hash;
    vk_bytes = l.vk;
  })

-- `CIRCUIT_REGISTRY`
unfoldable pub circuit_registry : List ℕ → List Loaded → Result Error (List RegistryEntry)
circuit_registry proof_system [] = ok []
circuit_registry proof_system (l ∷ loaded) = do
  entry ← registry_entry proof_system l
  more ← circuit_registry proof_system loaded
  ok (entry ∷ more)
