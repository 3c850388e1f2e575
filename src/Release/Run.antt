-- ===== src/Release/Run.antt =====
-- xtask/src/main.rs: `main`, `test_circuits`, the search for tools and the copy of the Noir tree.
use outbe_circuits.Prelude.{
  ℕ, String, ◌≡◌, refl, Bool, false, ◌||◌, Option, none, some, List, [], ◌∷◌, arith, Result, ok,
  err, panic, ◌>>=◌, expect, if◌then◌else◌,
}
use outbe_circuits.Error.{Message}
use outbe_circuits.Text.{codes}
use outbe_circuits.Slices.{bytes_eq, bytes_eq_iff}
use outbe_circuits.Release.Names.{circuits}
use outbe_circuits.Release.Workspace.{Workspace}
use outbe_circuits.Release.Check.{Tools}
use outbe_circuits.Release.Freeze.{freeze}

-- What `std` tells of the environment: variables, files, paths, and whether `<bin> --version` succeeds.
pub record Environment : Type 0 where
  pub var : String → Option (List ℕ)
  pub exists : List ℕ → Bool
  pub join : List ℕ → String → List ℕ
  pub runs : String → Bool

abbrev existing : Environment → Option (List ℕ) → Option (List ℕ)
existing env none = none
existing env (some p) = if env.exists p then some p else none

abbrev under_home : Environment → String → Option (List ℕ) → Option (List ℕ)
under_home env home_rel none = none
under_home env home_rel (some home) = existing env (some (env.join home home_rel))

abbrev or_else : Option (List ℕ) → Option (List ℕ) → Option (List ℕ)
or_else none p = p
or_else (some q) p = some q

unfoldable pub locate : Environment → String → String → String → Option (List ℕ)
locate env env_var home_rel bin = or_else (existing env (env.var env_var)) (
    or_else (under_home env home_rel (env.var "HOME"))
      (if env.runs bin then some (codes bin) else none))

-- How the process ends: by itself, or by `exit` with a code.
pub data Ending : Type 0 where
  returned : Ending
  exited : ℕ → Ending

-- How `nargo test` ends in a directory: a code that is not there is a signal's.
pub data Status : Type 0 where
  passed : Status
  failed : Option ℕ → Status

abbrev exit_code : Option ℕ → ℕ
exit_code none = 1
exit_code (some code) = code

module _ {E : Type 0} (nargo_test : String → Result E Status) where
  unfoldable pub test_loop : List (String × String) → Result E Ending
  test_loop [] = ok Ending.returned
  test_loop ((dir, name) ∷ packages) = do
    status ← nargo_test dir
    elim status [ passed ↦ test_loop packages | failed code ↦ ok (Ending.exited (exit_code code)) ]

  unfoldable pub test_circuits : Option (List ℕ) → Result E Ending
  test_circuits nargo = do
    tool ← expect nargo
    test_loop (
        ("outbe-circuit-core", "outbe_circuit_core")
        ∷ ("outbe-paynote-lib", "paynote_lib")
        ∷ ("outbe-pledgenote-lib", "pledgenote_lib")
        ∷ circuits)

module _ {Json : Type 0} (T : Tools Json) (nargo_test : String → Result (List Message) Status)
    (nargo : Option (List ℕ)) where
  abbrev frozen :
      Workspace → Result (List Message) Workspace → Result (List Message) (Workspace × Ending)
  frozen w (ok w') = ok (w', Ending.returned)
  frozen w (err errors) = ok (w, Ending.exited 1)
  frozen w panic = panic

  -- `main`, on the arguments after the name of the program.
  unfoldable pub main : Workspace → List (List ℕ) → Result (List Message) (Workspace × Ending)
  main w [] = ok (w, Ending.exited 2)
  main w (command ∷ flags) =
      let tests = test_circuits nargo_test nargo >>= λ ending. ok (w, ending) in
      if bytes_eq command (codes "freeze-circuits")
      then frozen w (freeze T flags w)
      else if bytes_eq command (codes "test-circuits")
      then tests
      else ok (w, Ending.exited 2)

mutual
  -- A directory, by the names of what it holds.
  pub data Node : Type 0 where
    file : List ℕ → Node
    folder : Nodes → Node

  pub data Nodes : Type 0 where
    none_left : Nodes
    entry : List ℕ → Node → Nodes → Nodes

abbrev target : List ℕ
target = codes "target"

-- `copy_noir`, into a directory that is new.
unfoldable mutual
  pub copy_noir : Nodes → Nodes
  copy_noir none_left = none_left
  copy_noir (entry name node nodes) =
      let copied = copy_node node in
      let rest = copy_noir nodes in if bytes_eq name target then rest else entry name copied rest

  pub copy_node : Node → Node
  copy_node (file text) = file text
  copy_node (folder nodes) = folder (copy_noir nodes)

-- The file at a path that starts with a name.
unfoldable mutual
  pub read : Nodes → List ℕ → List (List ℕ) → Option (List ℕ)
  read none_left name path = none
  read (entry n node nodes) name path =
      let here = read_node node path in
      let later = read nodes name path in if bytes_eq n name then here else later

  pub read_node : Node → List (List ℕ) → Option (List ℕ)
  read_node (file text) [] = some text
  read_node (file text) (name ∷ path) = none
  read_node (folder nodes) [] = none
  read_node (folder nodes) (name ∷ path) = read nodes name path

abbrev pub in_target : List (List ℕ) → Bool
in_target [] = false
in_target (name ∷ path) = bytes_eq name target || in_target path

mutual
  unfolding copy_noir read

  read_all :
      (nodes : Nodes) (name : List ℕ) (path : List (List ℕ))
      → read (copy_noir nodes) name path
        ≡ (if in_target (name ∷ path) then none else read nodes name path)
  read_all none_left name path = ground arith
  read_all (entry n node nodes) name path = ground (
    arith,
    read_all nodes name path,
    read_inside node path,
    bytes_eq_iff n name,
    bytes_eq_iff n target,
    bytes_eq_iff name target,
  )

  read_inside :
      (node : Node) (path : List (List ℕ))
      → read_node (copy_node node) path ≡ (if in_target path then none else read_node node path)
  read_inside (file text) [] = refl
  read_inside (file text) (name ∷ path) = ground arith
  read_inside (folder nodes) [] = refl
  read_inside (folder nodes) (name ∷ path) = read_all nodes name path

-- The copy that a check compiles has the files of the Noir tree at their paths, and none at a path with a
-- component `target`.
pub copy_noir-read :
    (nodes : Nodes) (name : List ℕ) (path : List (List ℕ))
    → read (copy_noir nodes) name path
      ≡ (if in_target (name ∷ path) then none else read nodes name path)
copy_noir-read nodes name path = read_all nodes name path
