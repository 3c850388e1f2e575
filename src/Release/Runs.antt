-- ===== src/Release/Runs.antt =====
-- The release tool on a small workspace, and with tools that know one program for all circuits.
use outbe_circuits.Prelude.{
  ℕ, zero, suc, ◌%◌, ◌<◌, ◌≡◌, refl, true, false, none, some, List, [], ◌∷◌, map, arith, Result, ok,
  err, panic, if◌then◌else◌, length, replicate, All,
}
use outbe_circuits.Error.{Error, Message}
use outbe_circuits.Text.{codes, split}
use outbe_circuits.Bytes.{IsBytes}
use outbe_circuits.Slices.{bytes_eq}
use outbe_circuits.Registry.Manifest.{Entry, Codecs}
use outbe_circuits.Registry.Version.{version_key, key_lt, parts}
use outbe_circuits.Release.Names.{circuits, bump}
use outbe_circuits.Release.Bumps.{next_key, bump-next_key}
use outbe_circuits.Release.Workspace.{Workspace, reconcile_artifacts}
use outbe_circuits.Release.Reconcile.{IsDigest}
use outbe_circuits.Release.Kept.{AllKeep, reconcile_artifacts-AllKeep}
use outbe_circuits.Release.Check.{Tools, Compiled, assert_pinned}
use outbe_circuits.Release.Freeze.{freeze, modules_of}
use outbe_circuits.Registry.Version.{version_key, key_lt, parts}
use outbe_circuits.Release.Fresh.{HasRoom, freeze_circuit-keeps}
use outbe_circuits.Release.Freeze.{Flags, freeze_circuit}
use outbe_circuits.Release.Check.{Compiled, without_prefix}
use outbe_circuits.Release.Run.{Node, Nodes, copy_noir, read, in_target, copy_noir-read}
use outbe_circuits.Release.Reproduced.{IsPin, IsReproduced, freeze_check}

bump-next_key_example :
    (w : List ℕ) × (bump {E = Error} true (codes "1.9.2") 1 ≡ ok w)
    × (version_key w ≡ next_key 1 (version_key (codes "1.9.2")))
    × (key_lt (version_key (codes "1.9.2")) (version_key w) ≡ true)
unfolding version_key outbe_circuits.Registry.Version.parts split outbe_circuits.Text.parse_u64
    outbe_circuits.Text.decimal_loop
bump-next_key_example =
    bump-next_key true (codes "1.9.2") 1 (omega arith) (omega arith) (omega arith)

minor : bump {E = Error} true (codes "1.9.2") 1 ≡ ok (codes "1.10.0")
unfolding bump outbe_circuits.Release.Names.increment outbe_circuits.Registry.Version.parts split
    outbe_circuits.Text.parse_u64 outbe_circuits.Text.decimal_loop
    outbe_circuits.Release.Names.version_text outbe_circuits.Text.show_u64
    outbe_circuits.Text.decimal
minor = refl

abbrev C : Codecs
C = record {
  keccak256 = λ input. replicate 32 (length input % 256);
  base64_decode = λ text. some text;
  parse_abi = λ text. some [];
}

digest : IsDigest C
digest = record {
  bytes = λ input. bytes_of (length input % 256) (omega arith) 32;
  width = λ input. refl;
}
  where
    bytes_of : (b : ℕ) → b < 256 → (n : ℕ) → IsBytes (replicate n b)
    bytes_of b h zero = tt
    bytes_of b h (suc n) = (h, bytes_of b h n)

abbrev active : Entry
active = record {
  module_name = codes "paynote";
  label = codes "outbe.paynote";
  version = codes "1.1.0";
  status = codes "active";
  circuit_hash = none;
}

abbrev retired : Entry
retired = record active { version = codes "1.0.0"; status = codes "deprecated" }

abbrev w : Workspace
w = record {
  entries = retired ∷ active ∷ [];
  resources = λ m v. record { vk = some (1 ∷ []); bytecode = some (codes "AQ=="); abi = some [] };
}

reconcile_artifacts-AllKeep_example :
    AllKeep C w.resources
      (reconcile_artifacts C w).resources
      w.entries
      (reconcile_artifacts C w).entries
reconcile_artifacts-AllKeep_example =
    reconcile_artifacts-AllKeep C w digest ((refl, tt), (tt, tt))
      ((λ kept bytecode e f. cc), ((λ kept bytecode e f. cc), tt))

abbrev T : Tools (List ℕ)
T = record {
  codecs = C;
  json_eq = bytes_eq;
  parse_json = λ text. some text;
  compile = λ m. some (record { bytecode = codes "AQ=="; abi = []; abi_text = [] });
  write_vk = λ bytecode. ok (1 ∷ []);
  scratch = ok tt;
  pin = λ tool. some (codes "1.0");
  version_of = λ tool. ok (codes " 1.0 ");
  overflow_checks = true;
}

abbrev entry_of : List ℕ → Entry
entry_of m = record active { module_name = m }

abbrev all : Workspace
all = record w { entries = map entry_of (modules_of circuits) }

checked : freeze T (codes "--check" ∷ []) all ≡ ok all
unfolding freeze assert_pinned outbe_circuits.Release.Check.assert_pin
    outbe_circuits.Release.Check.without_prefix outbe_circuits.Text.trim
    outbe_circuits.Text.trim_start outbe_circuits.Release.Check.first_line
    outbe_circuits.Text.is_whitespace outbe_circuits.Release.Check.check_loop
    outbe_circuits.Release.Check.active_from outbe_circuits.Release.Check.check_version
    outbe_circuits.Release.Workspace.keccak_hex outbe_circuits.Hex.hex
checked = refl

freeze_check_example :
    IsPin T (codes "nargo") (without_prefix (codes "nargo version = "))
    × IsPin T (codes "bb") (λ line. line)
    × All (IsReproduced T all) (modules_of circuits)
freeze_check_example = freeze_check T all all checked

abbrev flags : Flags
flags = record { check = false; semantic = false; abi_change = false }

-- The frozen bytecode is not what is compiled now.
abbrev old_w : Workspace
old_w = record w {
  resources = λ m v. record { vk = some (2 ∷ []); bytecode = some (codes "AAA="); abi = some [] };
}

abbrev frozen_of : Result (List Message) Workspace → Workspace
frozen_of (ok v) = v
frozen_of (err e) = w
frozen_of panic = w

abbrev frozen : Workspace
frozen = frozen_of (freeze_circuit T flags old_w (codes "paynote"))

is_frozen : freeze_circuit T flags old_w (codes "paynote") ≡ ok frozen
unfolding freeze_circuit outbe_circuits.Release.Check.active_from
    outbe_circuits.Release.Workspace.keccak_hex outbe_circuits.Hex.hex outbe_circuits.Text.trim
    outbe_circuits.Text.trim_start outbe_circuits.Text.is_whitespace
is_frozen = refl

is_active :
    outbe_circuits.Release.Check.active_from 0 (codes "paynote") old_w.entries ≡ some (1, active)
unfolding outbe_circuits.Release.Check.active_from
is_active = refl

room : HasRoom active.version
unfolding version_key parts outbe_circuits.Text.split outbe_circuits.Text.parse_u64
    outbe_circuits.Text.decimal_loop
room = (omega arith, omega arith, omega arith)

freeze_circuit-keeps_example :
    All
      (λ x. frozen.resources x.module_name x.version ≡ old_w.resources x.module_name x.version)
      old_w.entries
unfolding version_key key_lt parts split outbe_circuits.Text.parse_u64
    outbe_circuits.Text.decimal_loop
freeze_circuit-keeps_example =
    freeze_circuit-keeps T flags old_w frozen (codes "paynote") 1 active is_active room
      ((λ p. refl), ((λ p. refl), tt)) is_frozen

abbrev retired_w : Workspace
retired_w = record old_w { entries = retired ∷ [] }

abbrev again : Workspace
again = frozen_of (freeze_circuit T flags retired_w (codes "paynote"))

abbrev sources : Nodes
sources = Nodes.entry (codes "target") (Node.file (1 ∷ [])) (
    Nodes.entry (codes "src")
      (Node.folder (Nodes.entry (codes "main.nr") (Node.file (2 ∷ [])) Nodes.none_left))
      Nodes.none_left)

copy_noir-read_example : read (copy_noir sources) (codes "src") (codes "main.nr" ∷ []) ≡ (
    if in_target (codes "src" ∷ codes "main.nr" ∷ [])
    then none
    else read sources (codes "src") (codes "main.nr" ∷ []))
copy_noir-read_example = copy_noir-read sources (codes "src") (codes "main.nr" ∷ [])
