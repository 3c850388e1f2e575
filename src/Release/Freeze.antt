-- ===== src/Release/Freeze.antt =====
-- xtask/src/main.rs: `freeze`, which mints new versions of the circuits that have changed.
use outbe_circuits.Prelude.{
  ℕ, zero, suc, String, Bool, true, false, ◌&&◌, ◌||◌, Option, none, some, List, [], ◌∷◌, ◌++◌,
  Result, ok, err, panic, ◌>>=◌, ◌>>◌, ok_or, expect, if◌then◌else◌,
}
use outbe_circuits.Error.{Message}
use outbe_circuits.Text.{codes, trim}
use outbe_circuits.Slices.{bytes_eq}
use outbe_circuits.Registry.Manifest.{Entry, Artifacts, Resources}
use outbe_circuits.Release.Names.{circuits, label, bump}
use outbe_circuits.Release.Workspace.{Workspace, update, keccak_hex, reconcile_artifacts}
use outbe_circuits.Release.Check.{
  Compiled, Tools, one_error, assert_pinned, active_from, check_loop, all_reproduce,
}

-- The flags that are given.
pub record Flags : Type 0 where
  pub check : Bool
  pub semantic : Bool
  pub abi_change : Bool

-- What becomes of a circuit: nothing, or a new version, with the entry that it supersedes and its hash.
pub data Decision : Type 0 where
  unchanged : Decision
  mint : List ℕ → Option (ℕ × List ℕ) → Decision

abbrev pub same_abi : {Json : Type 0} → Tools Json → Json → Option Json → Bool
same_abi T abi none = false
same_abi T abi (some cur) = T.json_eq cur abi

abbrev pub parsed : {Json : Type 0} → Tools Json → Option (List ℕ) → Option Json
parsed T none = none
parsed T (some text) = T.parse_json text

-- A changed ABI needs a flag, the stronger of which wins.
abbrev pub abi_level : Flags → Result (List Message) ℕ
abi_level flags = if flags.semantic then ok 0 else if flags.abi_change then ok 1 else panic

module _ {Json : Type 0} (T : Tools Json) (flags : Flags) where
  -- `match &active`
  abbrev pub decide :
      Resources
      → List ℕ
      → Compiled Json
      → List ℕ
      → Option (ℕ × Entry)
      → Result (List Message) Decision
  decide resources m compiled new_hash none = ok (mint (codes "1.0.0") none)
  decide resources m compiled new_hash (some (i, e)) = do
    let files = resources m e.version
    cur_b64 ← expect files.bytecode
    cur_acir ← expect (T.codecs.base64_decode (trim cur_b64))
    let cur_hash = keccak_hex T.codecs cur_acir
    let same = same_abi T compiled.abi (parsed T files.abi)
    let level = if same then ok 2 else abi_level flags
    let bumped = level >>= λ l.
        bump T.overflow_checks e.version l >>= λ nv. ok (mint nv (some (i, cur_hash)))
    if bytes_eq cur_hash new_hash && same then ok unchanged else bumped

-- `old["status"] = "deprecated"; old["circuit_hash"] = hash`
unfoldable pub deprecate : ℕ → List ℕ → List Entry → List Entry
deprecate i hash [] = []
deprecate zero hash (e ∷ entries) =
    record e { status = codes "deprecated"; circuit_hash = some hash } ∷ entries
deprecate (suc i) hash (e ∷ entries) = e ∷ deprecate i hash entries

abbrev pub supersede : Option (ℕ × List ℕ) → List Entry → List Entry
supersede none entries = entries
supersede (some (i, hash)) entries = deprecate i hash entries

module _ {Json : Type 0} (T : Tools Json) where
  -- `write_version`, the new entry, and the end of the old one.
  abbrev pub carry_out :
      Workspace → List ℕ → Compiled Json → Decision → Result (List Message) Workspace
  carry_out w m compiled unchanged = ok w
  carry_out w m compiled (mint version old) = do
    vk ← elim (T.write_vk compiled.bytecode) [ ok vk ↦ ok vk | err e ↦ panic | panic ↦ panic ]
    name ← label m
    let files : Artifacts = record {
      vk = some vk;
      bytecode = some compiled.bytecode;
      abi = some compiled.abi_text;
    }
    let entry : Entry = record {
      module_name = m;
      label = name;
      version = version;
      status = codes "active";
      circuit_hash = none;
    }
    ok (record {
      entries = supersede old (w.entries ++ entry ∷ []);
      resources = update w.resources m version files;
    })

  -- One round of the loop.
  unfoldable pub freeze_circuit : Flags → Workspace → List ℕ → Result (List Message) Workspace
  freeze_circuit flags w m = do
    compiled ← expect (T.compile m)
    acir ← expect (T.codecs.base64_decode compiled.bytecode)
    let new_hash = keccak_hex T.codecs acir
    decision ← decide T flags w.resources m compiled new_hash (active_from 0 m w.entries)
    carry_out w m compiled decision

  unfoldable pub freeze_loop : Flags → Workspace → List (List ℕ) → Result (List Message) Workspace
  freeze_loop flags w [] = ok w
  freeze_loop flags w (m ∷ modules) = do
    next ← freeze_circuit flags w m
    freeze_loop flags next modules

  -- `freeze` after its flags are read. A check writes to its scratch directory alone, which is not part of the
  -- workspace.
  abbrev pub run : Flags → Workspace → Bool → List (List ℕ) → Result (List Message) Workspace
  run flags w true modules = do
    assert_pinned T
    one_error T.scratch
    failures ← check_loop T w modules
    all_reproduce failures
    ok w
  run flags w false modules = do
    frozen ← freeze_loop flags w modules
    ok (reconcile_artifacts T.codecs frozen)

abbrev pub modules_of : List (String × String) → List (List ℕ)
modules_of [] = []
modules_of ((dir, m) ∷ rest) = codes m ∷ modules_of rest

abbrev known : List ℕ → Bool
known flag =
    bytes_eq flag (codes "--check")
    || bytes_eq flag (codes "--abi-change")
    || bytes_eq flag (codes "--semantic")

abbrev pub flags_of : List (List ℕ) → Option Flags
flags_of [] = some (record { check = false; semantic = false; abi_change = false })
flags_of (flag ∷ []) =
    if known flag
    then some (record {
      check = bytes_eq flag (codes "--check");
      semantic = bytes_eq flag (codes "--semantic");
      abi_change = bytes_eq flag (codes "--abi-change");
    })
    else none
flags_of (flag ∷ other ∷ more) = none

unfoldable pub freeze :
    {Json : Type 0} → Tools Json → List (List ℕ) → Workspace → Result (List Message) Workspace
freeze T args w = do
  flags ←
      ok_or
        (Message.fmt "usage: cargo xtask freeze-circuits [--check | --abi-change | --semantic]" []
          ∷ [])
        (flags_of args)
  run T flags w flags.check (modules_of circuits)
