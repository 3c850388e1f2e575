-- ===== src/Release/Check.antt =====
-- xtask/src/main.rs: the tools that the release calls, and the check that the frozen files reproduce.
use outbe_circuits.Prelude.{
  ℕ, suc, String, Bool, ◌&&◌, Option, none, some, List, [], ◌∷◌, ◌++◌, Result, ok, err, panic,
  ◌>>=◌, ◌>>◌, guard, map_err, ok_or, expect, ◌==◌, if◌then◌else◌, length, take, drop,
}
use outbe_circuits.Error.{Message, Arg}
use outbe_circuits.Text.{codes, trim}
use outbe_circuits.Slices.{bytes_eq}
use outbe_circuits.Registry.Manifest.{Entry, Artifacts, Resources, Codecs}
use outbe_circuits.Release.Workspace.{Workspace, keccak_hex, is_active}

-- What `nargo compile` leaves: the bytecode and the ABI, as a value and as it is printed.
pub record Compiled (Json : Type 0) : Type 0 where
  pub bytecode : List ℕ
  pub abi : Json
  pub abi_text : List ℕ

-- `nargo`, `bb`, `serde_json` and `mise.toml`.
pub record Tools (Json : Type 0) : Type 0 where
  pub codecs : Codecs
  pub json_eq : Json → Json → Bool
  pub parse_json : List ℕ → Option Json
  pub compile : List ℕ → Option (Compiled Json)
  -- `bb write_vk -t evm-no-zk`
  pub write_vk : List ℕ → Result Message (List ℕ)
  -- `tools.<tool>.version`
  pub pin : List ℕ → Option (List ℕ)
  -- what `<tool> --version` prints
  pub version_of : List ℕ → Result Message (List ℕ)
  -- creating the scratch directory of a check and copying the Noir tree into it
  pub scratch : Result Message (Unit {0})
  pub overflow_checks : Bool

abbrev pub because : {A : Type 0} → String → List Arg → Result (List Message) A
because what args = err (Message.fmt what args ∷ [])

abbrev pub one_error : {A : Type 0} → Result Message A → Result (List Message) A
one_error r = map_err (λ m. m ∷ []) r

-- `lines().next().unwrap_or("")`
unfoldable pub first_line : List ℕ → List ℕ
first_line [] = []
first_line (c ∷ text) = if c == 10 then [] else c ∷ first_line text

-- `strip_prefix(prefix).unwrap_or(text)`
unfoldable pub without_prefix : List ℕ → List ℕ → List ℕ
without_prefix prefix text =
    if bytes_eq (take (length prefix) text) prefix then drop (length prefix) text else text

module _ {Json : Type 0} (T : Tools Json) where
  unfoldable pub assert_pin : List ℕ → Result (List Message) (Unit {0})
  assert_pin tool = do
    pin ←
        ok_or (Message.fmt "mise.toml: missing tools.{}.version" (Arg.text tool ∷ []) ∷ [])
          (T.pin tool)
    stdout ← one_error (T.version_of tool)
    let first = trim (first_line stdout)
    let version =
        if bytes_eq tool (codes "nargo")
        then without_prefix (codes "nargo version = ") first
        else first
    guard (bytes_eq version pin) (
        Message.fmt "{} --version reports {}; mise.toml pins {} {}"
          (Arg.text tool ∷ Arg.text first ∷ Arg.text tool ∷ Arg.text pin ∷ [])
        ∷ [])

  unfoldable pub assert_pinned : Result (List Message) (Unit {0})
  assert_pinned = assert_pin (codes "nargo") >> assert_pin (codes "bb")

abbrev pub missing : String → Message
missing name = Message.fmt "{}: no such file" (Arg.str name ∷ [])

abbrev pub malformed : String → Message
malformed name = Message.fmt "{}: malformed" (Arg.str name ∷ [])

abbrev pub differs : String → List ℕ → List ℕ → Message
differs what frozen new = Message.fmt what (Arg.text frozen ∷ Arg.text new ∷ [])

unfoldable pub check_version :
    {Json : Type 0} → Tools Json → Artifacts → List ℕ → Json → List ℕ → Result Message (Unit {0})
check_version T files acir_hash abi vk = do
  b64 ← ok_or (missing "bytecode.b64") files.bytecode
  acir ← ok_or (malformed "bytecode.b64") (T.codecs.base64_decode (trim b64))
  let frozen_hash = keccak_hex T.codecs acir
  guard (bytes_eq frozen_hash acir_hash)
      (differs "bytecode.b64 does not reproduce: committed {}, compiled {}" frozen_hash acir_hash)
  abi_text ← ok_or (missing "abi.json") files.abi
  frozen_abi ← ok_or (malformed "abi.json") (T.parse_json abi_text)
  guard (T.json_eq frozen_abi abi) (Message.fmt "abi.json does not match the compiled ABI" [])
  frozen_vk ← ok_or (missing "circuit.vk") files.vk
  guard (bytes_eq frozen_vk vk) (
      differs "circuit.vk does not reproduce: committed {}, derived {}"
        (keccak_hex T.codecs frozen_vk) (keccak_hex T.codecs vk))

-- The first active entry of a module, with its index.
unfoldable pub active_from : ℕ → List ℕ → List Entry → Option (ℕ × Entry)
active_from i m [] = none
active_from i m (e ∷ entries) =
    if bytes_eq e.module_name m && is_active e then some (i, e) else active_from (suc i) m entries

-- `failures.push(format!("{module} @ {ver}: {error}"))`
abbrev pub failures_of : Result Message (Unit {0}) → Result (List Message) (List Message)
failures_of (ok u) = ok []
failures_of (err e) = ok (Message.within "{module} @ {ver}: {error}" e ∷ [])
failures_of panic = panic

module _ {Json : Type 0} (T : Tools Json) where
  -- The failures that one circuit adds.
  abbrev pub check_active :
      Resources
      → List ℕ
      → Compiled Json
      → List ℕ
      → Option (ℕ × Entry)
      → Result (List Message) (List Message)
  check_active resources m compiled hash none =
      ok (Message.fmt "{}: no active frozen version" (Arg.text m ∷ []) ∷ [])
  check_active resources m compiled hash (some (i, e)) = failures_of (
      T.write_vk compiled.bytecode >>= λ vk.
      check_version T (resources m e.version) hash compiled.abi vk)

  unfoldable pub check_loop : Workspace → List (List ℕ) → Result (List Message) (List Message)
  check_loop w [] = ok []
  check_loop w (m ∷ modules) = do
    compiled ← expect (T.compile m)
    acir ← expect (T.codecs.base64_decode compiled.bytecode)
    let hash = keccak_hex T.codecs acir
    added ← check_active w.resources m compiled hash (active_from 0 m w.entries)
    failures ← check_loop w modules
    ok (added ++ failures)

abbrev pub all_reproduce : List Message → Result (List Message) (Unit {0})
all_reproduce [] = ok tt
all_reproduce (m ∷ failures) = err (m ∷ failures)
