-- ===== src/Registry/Runs.antt =====
-- The registry on a small manifest: two versions of one circuit, the older one deprecated, and one chain.

use outbe_circuits.Prelude.{
  ℕ, ◌+◌, ◌%◌, ◌≡◌, refl, Bool, true, false, Option, none, some, List, [], ◌∷◌, map, arith, Result,
  ok, err, panic, ◌==◌, if◌then◌else◌, length, replicate, All,
}
use outbe_circuits.Error.{Error}
use outbe_circuits.FieldRuns.{Residue, bn254, bn254-IsLawful}
use outbe_circuits.Bytes.{to_be_bytes, to_be_bytes-IsBytes}
use outbe_circuits.Codec.Bytes.{field_to_be_bytes}
use outbe_circuits.Zkproof.PublicWords.{decode_public_words}
use outbe_circuits.Verifier.{verify_combined}
use outbe_circuits.Registry.Manifest.{AbiType, AbiFields, Param}
use outbe_circuits.Registry.Widths.{combined_len}
use outbe_circuits.Registry.Flatten.{Value, Elements, Members, Inputs}
use outbe_circuits.Registry.Combined.{encode_combined_proof, encode_combined_proof-verify_combined}
use outbe_circuits.Text.{codes}
use outbe_circuits.Slices.{bytes_eq}
use outbe_circuits.Registry.Manifest.{Entry, Resources, Codecs, Loaded, L2ChainEntry}
use outbe_circuits.Registry.Load.{load_circuits}
use outbe_circuits.Registry.Heads.{heads}
use outbe_circuits.Registry.Heads.Latest.{IsLatest, heads-IsLatest}
use outbe_circuits.Registry.Ordered.{lookup}
use outbe_circuits.Registry.Chains.{ChainTable, ℤ, version_loop, l2_registry}
use outbe_circuits.Registry.Chains.Bound.{chain_with}
use outbe_circuits.Registry.Enabled.{IsEnabled, l2_circuits-l2_registry}
use outbe_circuits.Registry.Declared.{IsBound, version_loop-FromEntry}

abbrev C : Codecs
C = record {
  keccak256 = λ input. replicate 32 (length input % 256);
  base64_decode = λ text. some text;
  parse_abi = λ text. some [];
}

abbrev old : Entry
old = record {
  module_name = codes "demo_tribute";
  label = codes "demo.tribute";
  version = codes "1.0.0";
  status = codes "deprecated";
  circuit_hash = some (codes "f106c4863f8018bab673d6d229d7983d3491cc8912de328904c6126492d15e7b");
}

abbrev new : Entry
new = record {
  module_name = codes "demo_tribute";
  label = codes "demo.tribute";
  version = codes "1.1.0";
  status = codes "active";
  circuit_hash = none;
}

abbrev entries : List Entry
entries = old ∷ new ∷ []

abbrev resources : Resources
resources m v =
    if bytes_eq v (codes "1.1.0")
    then record { vk = some (1 ∷ 2 ∷ []); bytecode = some (7 ∷ []); abi = some [] }
    else record { vk = some (3 ∷ []); bytecode = none; abi = none }

abbrev loaded_of : Result Error (List Loaded) → List Loaded
loaded_of (ok l) = l
loaded_of (err e) = []
loaded_of panic = []

abbrev loaded : List Loaded
loaded = loaded_of (load_circuits C resources entries)

is_loaded : load_circuits C resources entries ≡ ok loaded
unfolding load_circuits outbe_circuits.Registry.Load.load_entry
    outbe_circuits.Registry.Load.circuit_hash_of outbe_circuits.Registry.Load.hex_to_32
    outbe_circuits.Hex.unhex outbe_circuits.Hex.from_str_radix_16
is_loaded = refl

abbrev table : ChainTable
table = record {
  chain_id = some (ℤ.pos 57005);
  circuits = some ((some (codes "1.1.0"), some (codes "demo_tribute")) ∷ []);
}

abbrev chains : List ChainTable
chains = table ∷ record table { chain_id = some (ℤ.pos 11); circuits = some [] } ∷ []

abbrev registry_of : Result Error (List L2ChainEntry) → List L2ChainEntry
registry_of (ok r) = r
registry_of (err e) = []
registry_of panic = []

abbrev registry : List L2ChainEntry
registry = registry_of (l2_registry loaded chains)

is_generated : l2_registry loaded chains ≡ ok registry
unfolding load_circuits l2_registry outbe_circuits.Registry.Chains.chain_loop version_loop
    outbe_circuits.Text.trim outbe_circuits.Text.trim_start outbe_circuits.Text.is_whitespace
    outbe_circuits.Registry.Chains.find_loaded outbe_circuits.Registry.Load.load_entry
    outbe_circuits.Registry.Load.circuit_hash_of outbe_circuits.Registry.Load.hex_to_32
    outbe_circuits.Hex.unhex outbe_circuits.Hex.from_str_radix_16 lookup
    outbe_circuits.Registry.Ordered.insert
is_generated = refl

abbrev versions_of : Result Error (List (List ℕ × Loaded)) → List (List ℕ × Loaded)
versions_of (ok v) = v
versions_of (err e) = []
versions_of panic = []

abbrev named : List (Option (List ℕ) × Option (List ℕ))
named = (some (codes "1.1.0"), some (codes "demo_tribute")) ∷ []

is_bound : version_loop loaded [] named ≡ ok (versions_of (version_loop loaded [] named))
unfolding load_circuits version_loop outbe_circuits.Text.trim outbe_circuits.Text.trim_start
    outbe_circuits.Text.is_whitespace outbe_circuits.Registry.Chains.find_loaded
    outbe_circuits.Registry.Load.load_entry outbe_circuits.Registry.Load.circuit_hash_of
    outbe_circuits.Registry.Load.hex_to_32 outbe_circuits.Hex.unhex
    outbe_circuits.Hex.from_str_radix_16 lookup
is_bound = refl

version_loop-FromEntry_example :
    (length (versions_of (version_loop loaded [] named)) ≡ length named)
    × All (IsBound C resources entries (versions_of (version_loop loaded [] named))) named
version_loop-FromEntry_example =
    version_loop-FromEntry C resources entries loaded named
      (versions_of (version_loop loaded [] named)) is_loaded is_bound

l2_circuits-l2_registry_example : IsEnabled loaded registry 57005 (chain_with 57005 chains)
l2_circuits-l2_registry_example = l2_circuits-l2_registry loaded chains registry 57005 is_generated

heads-IsLatest_example :
    IsLatest (codes "demo_tribute") (lookup bytes_eq (codes "demo_tribute") (heads loaded)) loaded
heads-IsLatest_example = heads-IsLatest (codes "demo_tribute") loaded

abbrev params : List Param
params =
    record { name = codes "id"; type = AbiType.field; visibility = codes "public" }
    ∷ record {
      name = codes "path";
      type = AbiType.array (some 2) AbiType.boolean;
      visibility = codes "private";
    }
    ∷ record {
      name = codes "owner";
      type =
          AbiType.struct (codes "EthAddress")
            (AbiFields.more (AbiType.integer (codes "unsigned") 64) AbiFields.end);
      visibility = codes "public";
    }
    ∷ []

abbrev inputs : Inputs Residue params
inputs = Inputs.given (Value.element (bn254.from 7)) (
    Inputs.given
      (Value.array
        (Elements.cons (Value.bit true) (Elements.cons (Value.bit false) Elements.empty)))
      (Inputs.given (Value.struct (Members.member (Value.integer false 5) Members.none_left))
        Inputs.done))

abbrev public_pair : List Residue
public_pair = bn254.from 7 ∷ bn254.from 5 ∷ []

abbrev proof_word : List ℕ
proof_word = to_be_bytes 32 9

abbrev combined_of : Result Error (List ℕ) → List ℕ
combined_of (ok bytes) = bytes
combined_of (err e) = []
combined_of panic = []

abbrev encoded : Result Error (List ℕ)
encoded =
    encode_combined_proof bn254 (λ fs. fs) (λ bytes. ok public_pair) 2 1 public_pair
      (proof_word ∷ [])

is_encoded : encoded ≡ ok (combined_of encoded)
unfolding encode_combined_proof outbe_circuits.Registry.Combined.push_words to_be_bytes
is_encoded = refl

-- A verifier that asks for two public words and one proof word.
abbrev by_counts : List ℕ → List (List ℕ) → List (List ℕ) → Result Error Bool
by_counts vk words proof = ok (length words + length proof == 3)

encode_combined_proof-verify_combined_example :
    (length (combined_of encoded) ≡ combined_len 2 1)
    × (decode_public_words bn254 2 (combined_of encoded) (combined_len 2 1)
        ≡ ok (map (field_to_be_bytes ⦃F = bn254⦄) public_pair))
    × (verify_combined by_counts (1 ∷ []) (combined_of encoded)
        ≡ by_counts (1 ∷ []) (map (field_to_be_bytes ⦃F = bn254⦄) public_pair) (proof_word ∷ []))
encode_combined_proof-verify_combined_example =
    encode_combined_proof-verify_combined bn254 bn254-IsLawful (λ fs. fs) (λ bytes. ok public_pair)
      2 1 by_counts (1 ∷ []) public_pair (proof_word ∷ []) (combined_of encoded) (omega arith) refl
      (to_be_bytes-IsBytes 32 9, tt) is_encoded
