-- ===== src/Release/Workspace.antt =====
-- xtask/src/main.rs: the manifest with its frozen files, and the files that each status keeps.
use outbe_circuits.Prelude.{ℕ, Bool, ◌&&◌, Option, none, some, List, [], ◌∷◌, if◌then◌else◌}
use outbe_circuits.Text.{codes, trim}
use outbe_circuits.Hex.{hex}
use outbe_circuits.Slices.{bytes_eq}
use outbe_circuits.Registry.Manifest.{Entry, Artifacts, Resources, Codecs}
use outbe_circuits.Registry.Load.{is_some}

-- The tables `[[circuit]]` in their order, and `resources/circuits`.
pub record Workspace : Type 0 where
  pub entries : List Entry
  pub resources : Resources

-- The directory of one version is given other files.
abbrev pub update : Resources → List ℕ → List ℕ → Artifacts → Resources
update resources m v files n w = if bytes_eq n m && bytes_eq w v then files else resources n w

abbrev pub is_active : Entry → Bool
is_active e = bytes_eq e.status (codes "active")

abbrev pub is_revoked_status : List ℕ → Bool
is_revoked_status status = bytes_eq status (codes "revoked")

-- `keccak_hex`
unfoldable pub keccak_hex : Codecs → List ℕ → List ℕ
keccak_hex C bytes = hex (C.keccak256 bytes)

abbrev pub hash_kept : Codecs → Option (List ℕ) → Option (List ℕ)
hash_kept C none = none
hash_kept C (some acir) = some (keccak_hex C acir)

abbrev pub decoded : Codecs → Option (List ℕ) → Option (List ℕ)
decoded C none = none
decoded C (some b64) = C.base64_decode (trim b64)

-- The hash of an entry that has none is taken from the bytecode that is about to go.
unfoldable pub preserved : Codecs → Resources → Entry → Entry
preserved C resources e = if is_some e.circuit_hash then e else record e {
  circuit_hash = hash_kept C (decoded C (resources e.module_name e.version).bytecode);
}

-- Bytecode and ABI go, and the key of a revoked version.
unfoldable pub retained : Entry → Artifacts → Artifacts
retained e files = record {
  vk = if is_revoked_status e.status then none else files.vk;
  bytecode = none;
  abi = none;
}

unfoldable pub reconcile_entry : Codecs → Entry → Resources → Entry × Resources
reconcile_entry C e resources = if is_active e then (e, resources) else (
  preserved C resources e,
  update resources e.module_name e.version (retained e (resources e.module_name e.version)),
)

-- `reconcile_artifacts`
unfoldable pub reconcile : Codecs → List Entry → Resources → List Entry × Resources
reconcile C [] resources = ([], resources)
reconcile C (e ∷ entries) resources =
    let (e', between) = reconcile_entry C e resources in
    let (rest, last) = reconcile C entries between in (e' ∷ rest, last)

unfoldable pub reconcile_artifacts : Codecs → Workspace → Workspace
reconcile_artifacts C w =
    let (entries, resources) = reconcile C w.entries w.resources in
    record { entries = entries; resources = resources }
