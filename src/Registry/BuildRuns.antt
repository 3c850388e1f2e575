-- ===== src/Registry/BuildRuns.antt =====
-- A build of a manifest with one circuit, whose key has a header of 32 gates.
use outbe_circuits.Prelude.{
  ℕ, ◌%◌, ◌≡◌, refl, none, some, List, [], ◌∷◌, ◌++◌, Result, ok, err, panic, length, replicate,
}
use mathlib.Core.List.{Memᴰ}
use outbe_circuits.Error.{Error}
use outbe_circuits.Text.{codes}
use outbe_circuits.Slices.{bytes_eq}
use outbe_circuits.Bytes.{to_be_bytes}
use outbe_circuits.Registry.Manifest.{Entry, Resources, Codecs, RegistryEntry, Param, AbiType}
use outbe_circuits.Registry.Ordered.{lookup}
use outbe_circuits.Registry.Generate.{Constants, Manifest, Generated, build}
use outbe_circuits.Registry.Verified.{Verifies, build-Verifies}

abbrev params : List Param
params = record { name = codes "hash"; type = AbiType.field; visibility = codes "public" } ∷ []

abbrev C : Codecs
C = record {
  keccak256 = λ input. replicate 32 (length input % 256);
  base64_decode = λ text. some text;
  parse_abi = λ text. some params;
}

-- 32 gates, and one public input beside the eight of the proof system.
abbrev vk : List ℕ
vk = to_be_bytes 32 5 ++ (to_be_bytes 32 9 ++ replicate 1824 0)

abbrev entry : Entry
entry = record {
  module_name = codes "demo_tribute";
  label = codes "demo.tribute";
  version = codes "1.0.0";
  status = codes "active";
  circuit_hash = none;
}

abbrev resources : Resources
resources m v = record { vk = some vk; bytecode = some (7 ∷ []); abi = some [] }

abbrev manifest : Manifest
manifest = record { proof_system = some (codes "bb-keccak-v1"); circuits = entry ∷ []; chains = [] }

abbrev generated_of : Result Error Generated → Generated
generated_of (ok g) = g
generated_of (err e) = record { modules = []; registry = []; l2_circuits = [] }
generated_of panic = record { modules = []; registry = []; l2_circuits = [] }

abbrev generated : Generated
generated = generated_of (build C resources manifest)

is_built : build C resources manifest ≡ ok generated
unfolding build lookup outbe_circuits.Registry.Load.load_circuits
    outbe_circuits.Registry.Load.load_entry outbe_circuits.Registry.Load.circuit_hash_of
    outbe_circuits.Registry.Load.circuit_registry outbe_circuits.Registry.Load.registry_entry
    outbe_circuits.Registry.Load.status_of outbe_circuits.Registry.Generate.circuit_modules
    outbe_circuits.Registry.Generate.modules_loop outbe_circuits.Registry.Generate.circuit_module
    outbe_circuits.Registry.Generate.circuit_constants outbe_circuits.Registry.Heads.heads
    outbe_circuits.Registry.Heads.heads_loop outbe_circuits.Registry.Heads.add_head
    outbe_circuits.Registry.Heads.is_provable outbe_circuits.Registry.Ordered.insert
    outbe_circuits.Registry.Widths.public_input_count outbe_circuits.Registry.Widths.abi_field_count
    outbe_circuits.Registry.Widths.proof_words outbe_circuits.Registry.Widths.vk_header to_be_bytes
    outbe_circuits.Bytes.be_loop outbe_circuits.Bytes.from_be_bytes
    outbe_circuits.Registry.Chains.chain_loop outbe_circuits.Registry.Chains.l2_registry
    outbe_circuits.Text.is_whitespace outbe_circuits.Text.trim outbe_circuits.Text.trim_start
is_built = refl

abbrev constants : Constants
constants = record {
  public_input_count = 1;
  proof_words = 142;
  combined_len = 4580;
  label = codes "demo.tribute";
  version = codes "1.0.0";
  circuit_hash = replicate 32 1;
  vk_bytes = vk;
  vk_hash = replicate 32 96;
}

has_module : lookup bytes_eq (codes "demo_tribute") generated.modules ≡ some constants
unfolding build lookup outbe_circuits.Registry.Load.load_circuits
    outbe_circuits.Registry.Load.load_entry outbe_circuits.Registry.Load.circuit_hash_of
    outbe_circuits.Registry.Load.circuit_registry outbe_circuits.Registry.Load.registry_entry
    outbe_circuits.Registry.Load.status_of outbe_circuits.Registry.Generate.circuit_modules
    outbe_circuits.Registry.Generate.modules_loop outbe_circuits.Registry.Generate.circuit_module
    outbe_circuits.Registry.Generate.circuit_constants outbe_circuits.Registry.Heads.heads
    outbe_circuits.Registry.Heads.heads_loop outbe_circuits.Registry.Heads.add_head
    outbe_circuits.Registry.Heads.is_provable outbe_circuits.Registry.Ordered.insert
    outbe_circuits.Registry.Widths.public_input_count outbe_circuits.Registry.Widths.abi_field_count
    outbe_circuits.Registry.Widths.proof_words outbe_circuits.Registry.Widths.vk_header to_be_bytes
    outbe_circuits.Bytes.be_loop outbe_circuits.Bytes.from_be_bytes
    outbe_circuits.Registry.Chains.chain_loop outbe_circuits.Registry.Chains.l2_registry
    outbe_circuits.Text.is_whitespace outbe_circuits.Text.trim outbe_circuits.Text.trim_start
has_module = refl

build-Verifies_example :
    (proof_system : List ℕ) × (e : RegistryEntry) × (manifest.proof_system ≡ some proof_system)
    × Memᴰ e generated.registry
    × Verifies constants proof_system e
build-Verifies_example =
    build-Verifies C resources manifest generated (codes "demo_tribute") constants is_built
      has_module
