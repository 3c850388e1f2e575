-- ===== src/Registry/Chains.antt =====
-- build.rs: `generate_l2_registry`, as the entries that the generated text denotes.
pub mod Bound
use outbe_circuits.Prelude.{
  ℕ, zero, suc, ◌+◌, ◌-◌, ◌*◌, ◌/◌, ◌%◌, ◌^◌, ◌≤◌, ◌<◌, min, max, String, ◌≡◌, refl, sym, ap, ◌∙◌,
  ◌≢◌, ◌↔◌, ◌⊎◌, inl, inr, Bool, true, false, not, ◌&&◌, ◌||◌, Option, none, some, List, [], ◌∷◌,
  ◌++◌, map, arith, Result, ok, err, panic, ◌>>=◌, ◌>>◌, guard, map_err, ok_or, expect, index,
  assert, ltb, leb, ◌==◌, if◌then◌else◌, ltb→lt, lt→ltb, leb→le, le→leb, ==_iff, ==_refl,
  Bool-cases, Option-cases, length, get_elem?, get_or, set, take, drop, replicate, All,
  length-append, length-set, length-take, length-drop, length-replicate, take-append, drop-append,
  take-append-drop, get_elem?-some, get_elem?-none, bit_xor-one, bind_ok, ok_inj, err_ok,
  guard-eq-ok, ok_or-eq-ok, Result-cases,
}
use outbe_circuits.Error.{Error}
use outbe_circuits.Text.{text_lt, trim}
use outbe_circuits.Slices.{bytes_eq}
use outbe_circuits.Registry.Manifest.{Loaded, L2CircuitVersion, L2ChainEntry}
use outbe_circuits.Registry.Load.{is_some}
use outbe_circuits.Registry.Ordered.{lookup, insert}

-- An integer of TOML; `negsuc n` is `-(n + 1)`.
pub data ℤ : Type 0 where
  pos negsuc : ℕ → ℤ

-- A table `[[l2_chain]]`: what is not of the right type is not there. A circuit has its version and
-- its module.
pub record ChainTable : Type 0 where
  pub chain_id : Option ℤ
  pub circuits : Option (List (Option (List ℕ) × Option (List ℕ)))

-- `as_integer` and `u64::try_from`
abbrev pub id_of : Option ℤ → Option ℕ
id_of (some (pos n)) = some n
id_of _ = none

-- `.filter(|version| !version.trim().is_empty())`
abbrev is_blank : List ℕ → Bool
is_blank [] = true
is_blank (c ∷ text) = false

abbrev pub non_blank : Option (List ℕ) → Option (List ℕ)
non_blank none = none
non_blank (some version) = if is_blank (trim version) then none else some version

unfoldable pub find_loaded : List ℕ → List ℕ → List Loaded → Option Loaded
find_loaded m version [] = none
find_loaded m version (l ∷ loaded) =
    if bytes_eq l.module_name m && bytes_eq l.version version
    then some l
    else find_loaded m version loaded

-- The loop over the circuits of a chain.
unfoldable pub version_loop :
    List Loaded
    → List (List ℕ × Loaded)
    → List (Option (List ℕ) × Option (List ℕ))
    → Result Error (List (List ℕ × Loaded))
version_loop loaded versions [] = ok versions
version_loop loaded versions ((v, m) ∷ circuits) = do
  version ← expect (non_blank v)
  module_name ← expect m
  target ← expect (find_loaded module_name version loaded)
  assert (not (is_some (lookup bytes_eq target.version versions)))
  version_loop loaded (insert bytes_eq text_lt target.version target versions) circuits

-- The loop over the chains.
unfoldable pub chain_loop :
    List Loaded
    → List (ℕ × List (List ℕ × Loaded))
    → List ChainTable
    → Result Error (List (ℕ × List (List ℕ × Loaded)))
chain_loop loaded bindings [] = ok bindings
chain_loop loaded bindings (chain ∷ chains) = do
  chain_id ← expect (id_of chain.chain_id)
  circuits ← expect chain.circuits
  versions ← version_loop loaded [] circuits
  assert (not (is_some (lookup ◌==◌ chain_id bindings)))
  chain_loop loaded (insert ◌==◌ ltb chain_id versions bindings) chains

-- `generate_l2_circuit_version`
unfoldable pub l2_version : List ℕ × Loaded → L2CircuitVersion
l2_version (version, target) = record {
  version = version;
  circuit_hash = target.circuit_hash;
  vk_hash = target.vk_hash;
}

-- `generate_l2_chain_entry`
unfoldable pub l2_entry : ℕ × List (List ℕ × Loaded) → L2ChainEntry
l2_entry (chain_id, versions) = record { chain_id = chain_id; circuits = map l2_version versions }

-- `L2_CIRCUITS_REGISTRY`
unfoldable pub l2_registry : List Loaded → List ChainTable → Result Error (List L2ChainEntry)
l2_registry loaded chains = do bindings ← chain_loop loaded [] chains; ok (map l2_entry bindings)
