-- ===== src/Registry/Generate.antt =====
-- build.rs: `main`, as what the generated file declares.
use outbe_circuits.Prelude.{ℕ, Option, List, [], ◌∷◌, Result, ok, ◌>>=◌, expect}
use outbe_circuits.Error.{Error}
use outbe_circuits.Registry.Manifest.{
  Entry, Resources, Param, Codecs, Loaded, RegistryEntry, L2ChainEntry,
}
use outbe_circuits.Registry.Load.{load_circuits, circuit_registry}
use outbe_circuits.Registry.Heads.{heads}
use outbe_circuits.Registry.Chains.{ChainTable, l2_registry}
use outbe_circuits.Registry.Widths.{public_input_count, proof_words, combined_len}

-- The constants of a circuit's module, and those that `CircuitId` passes on.
pub record Constants : Type 0 where
  pub public_input_count : ℕ
  pub proof_words : ℕ
  pub combined_len : ℕ
  pub label : List ℕ
  pub version : List ℕ
  pub circuit_hash : List ℕ
  pub vk_bytes : List ℕ
  pub vk_hash : List ℕ

unfoldable pub circuit_constants : List ℕ → Loaded → List Param → Result Error Constants
circuit_constants proof_system l params = do
  count ← public_input_count params
  words ← proof_words l.vk count proof_system
  ok (record {
    public_input_count = count;
    proof_words = words;
    combined_len = combined_len count words;
    label = l.label;
    version = l.version;
    circuit_hash = l.circuit_hash;
    vk_bytes = l.vk;
    vk_hash = l.vk_hash;
  })

-- `generate_circuit_module`, of the constants.
unfoldable pub circuit_module : List ℕ → Loaded → Result Error Constants
circuit_module proof_system l = do params ← expect l.abi; circuit_constants proof_system l params

unfoldable pub modules_loop :
    List ℕ → List (List ℕ × Loaded) → Result Error (List (List ℕ × Constants))
modules_loop proof_system [] = ok []
modules_loop proof_system ((m, l) ∷ head) = do
  constants ← circuit_module proof_system l
  more ← modules_loop proof_system head
  ok ((m, constants) ∷ more)

-- `generate_circuit_modules`, by the name of the module.
unfoldable pub circuit_modules : List ℕ → List Loaded → Result Error (List (List ℕ × Constants))
circuit_modules proof_system loaded = modules_loop proof_system (heads loaded)

-- The parsed `circuits/manifest.toml`; a proof system that is no string is not there.
pub record Manifest : Type 0 where
  pub proof_system : Option (List ℕ)
  pub circuits : List Entry
  pub chains : List ChainTable

pub record Generated : Type 0 where
  pub modules : List (List ℕ × Constants)
  pub registry : List RegistryEntry
  pub l2_circuits : List L2ChainEntry

-- `main`
unfoldable pub build : Codecs → Resources → Manifest → Result Error Generated
build C resources manifest = do
  proof_system ← expect manifest.proof_system
  loaded ← load_circuits C resources manifest.circuits
  modules ← circuit_modules proof_system loaded
  registry ← circuit_registry proof_system loaded
  l2_circuits ← l2_registry loaded manifest.chains
  ok (record { modules = modules; registry = registry; l2_circuits = l2_circuits })
