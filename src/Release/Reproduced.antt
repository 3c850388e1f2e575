-- ===== src/Release/Reproduced.antt =====
-- xtask/src/main.rs: what `freeze-circuits --check` has found where it succeeds.
use outbe_circuits.Prelude.{
  ℕ, ◌≡◌, refl, ap, ◌∙◌, true, Option, none, some, List, [], ◌∷◌, ◌++◌, Result, ok, err, panic,
  ◌>>=◌, guard, ok_or, expect, All, bind_ok, ok_inj, guard-eq-ok, ok_or-eq-ok, expect-eq-ok,
  if◌then◌else◌,
}
use outbe_circuits.Error.{Message}
use outbe_circuits.Text.{codes, trim}
use outbe_circuits.Slices.{bytes_eq, bytes_eq_iff}
use outbe_circuits.Registry.Manifest.{Entry, Artifacts, Resources}
use outbe_circuits.Release.Names.{circuits}
use outbe_circuits.Release.Workspace.{Workspace, keccak_hex}
use outbe_circuits.Release.Check.{
  Compiled, Tools, missing, malformed, one_error, first_line, without_prefix, assert_pin,
  assert_pinned, active_from, failures_of, check_active, check_version, check_loop, all_reproduce,
}
use outbe_circuits.Release.Freeze.{freeze, modules_of}

module _ {Json : Type 0} (T : Tools Json) where
  -- The frozen files of a version are those that the tools derive: the bytecode up to its hash, the ABI as
  -- a value, the key byte by byte.
  abbrev pub Reproduces : Artifacts → Compiled Json → Type 0
  Reproduces files compiled =
      (b64 : List ℕ) × (acir : List ℕ) × (frozen : List ℕ) × (abi_text : List ℕ) × (abi : Json)
      × (vk : List ℕ) × (files.bytecode ≡ some b64)
      × (T.codecs.base64_decode (trim b64) ≡ some frozen)
      × (T.codecs.base64_decode compiled.bytecode ≡ some acir)
      × (keccak_hex T.codecs frozen ≡ keccak_hex T.codecs acir)
      × (files.abi ≡ some abi_text)
      × (T.parse_json abi_text ≡ some abi)
      × (T.json_eq abi compiled.abi ≡ true)
      × (files.vk ≡ some vk)
      × (T.write_vk compiled.bytecode ≡ ok vk)

  -- A module has an active entry, whose files are reproduced.
  abbrev pub IsReproduced : Workspace → List ℕ → Type 0
  IsReproduced w m =
      (compiled : Compiled Json) × (i : ℕ) × (e : Entry) × (T.compile m ≡ some compiled)
      × (active_from 0 m w.entries ≡ some (i, e))
      × Reproduces (w.resources m e.version) compiled

check_version-Reproduces :
    {Json : Type 0} (T : Tools Json) (files : Artifacts) (compiled : Compiled Json)
    (acir vk : List ℕ) {u : Unit {0}}
    → T.codecs.base64_decode compiled.bytecode ≡ some acir
    → T.write_vk compiled.bytecode ≡ ok vk
    → check_version T files (keccak_hex T.codecs acir) compiled.abi vk ≡ ok u
    → Reproduces T files compiled
unfolding check_version
check_version-Reproduces T files compiled acir vk eacir evk h =
    bind_ok (ok_or (missing "bytecode.b64") files.bytecode) h λ b64 e1 h1.
      bind_ok (ok_or (malformed "bytecode.b64") (T.codecs.base64_decode (trim b64))) h1
        λ frozen e2 h2.
          bind_ok (guard (bytes_eq (keccak_hex T.codecs frozen) (keccak_hex T.codecs acir)) _) h2
            λ u3 e3 h3. bind_ok (ok_or (missing "abi.json") files.abi) h3 λ abi_text e4 h4.
              bind_ok (ok_or (malformed "abi.json") (T.parse_json abi_text)) h4 λ abi e5 h5.
                bind_ok (guard (T.json_eq abi compiled.abi) _) h5 λ u6 e6 h6.
                  bind_ok (ok_or (missing "circuit.vk") files.vk) h6 λ frozen_vk e7 h7.
                    let same : frozen_vk ≡ vk =
                      (bytes_eq_iff frozen_vk vk).0 (guard-eq-ok _ _ h7) in
                    (
                      b64,
                      acir,
                      frozen,
                      abi_text,
                      abi,
                      vk,
                      ok_or-eq-ok _ _ e1,
                      ok_or-eq-ok _ _ e2,
                      eacir,
                      (bytes_eq_iff _ _).0 (guard-eq-ok _ _ e3),
                      ok_or-eq-ok _ _ e4,
                      ok_or-eq-ok _ _ e5,
                      guard-eq-ok _ _ e6,
                      ok_or-eq-ok _ _ e7 ∙ ap (λ x. some x) same,
                      evk,
                    )

failures_of-none : (r : Result Message (Unit {0})) → failures_of r ≡ ok [] → r ≡ ok tt
failures_of-none (ok u) h = refl
failures_of-none (err e) h = let bad : _ ≡ [] = ok_inj h in cc
failures_of-none panic h = cc

both_empty : {A : Type 0} (xs ys : List A) → xs ++ ys ≡ [] → (xs ≡ []) × (ys ≡ [])
both_empty [] ys h = (refl, h)
both_empty (x ∷ xs) ys h = cc

check_active-Reproduces :
    {Json : Type 0} (T : Tools Json) (resources : Resources) (m : List ℕ) (compiled : Compiled Json)
    (acir : List ℕ) (active : Option (ℕ × Entry))
    → T.codecs.base64_decode compiled.bytecode ≡ some acir
    → check_active T resources m compiled (keccak_hex T.codecs acir) active ≡ ok []
    → (i : ℕ) × (e : Entry) × (active ≡ some (i, e)) × Reproduces T (resources m e.version) compiled
check_active-Reproduces T resources m compiled acir none eacir h = let bad : _ ≡ [] = ok_inj h in cc
check_active-Reproduces T resources m compiled acir (some (i, e)) eacir h =
    let all_ok : (T.write_vk compiled.bytecode >>= λ vk.
    check_version T (resources m e.version) (keccak_hex T.codecs acir) compiled.abi vk)
        ≡ ok tt =
      failures_of-none _ h in
    bind_ok (T.write_vk compiled.bytecode) all_ok λ vk evk h1.
      (i, e, refl, check_version-Reproduces T (resources m e.version) compiled acir vk eacir evk h1)

check_loop-IsReproduced :
    {Json : Type 0} (T : Tools Json) (w : Workspace) (modules : List (List ℕ))
    (failures : List Message)
    → check_loop T w modules ≡ ok failures
    → failures ≡ []
    → All (IsReproduced T w) modules
unfolding check_loop
check_loop-IsReproduced T w [] failures h clean = tt
check_loop-IsReproduced T w (m ∷ modules) failures h clean =
    bind_ok (expect (T.compile m)) h λ compiled e1 h1.
      bind_ok (expect (T.codecs.base64_decode compiled.bytecode)) h1 λ acir e2 h2.
        bind_ok
          (check_active T w.resources m compiled (keccak_hex T.codecs acir)
            (active_from 0 m w.entries))
          h2
          λ added e3 h3. bind_ok (check_loop T w modules) h3 λ more e4 h4.
            let (first, rest) = both_empty added more (ok_inj h4 ∙ clean) in
            let (i, e, active, r) =
              check_active-Reproduces T w.resources m compiled acir (active_from 0 m w.entries)
                (expect-eq-ok _ e2) (e3 ∙ ap (λ x. ok x) first) in
            (
              (compiled, i, e, expect-eq-ok _ e1, active, r),
              check_loop-IsReproduced T w modules more e4 rest,
            )

all_reproduce-none :
    (failures : List Message) {u : Unit {0}} → all_reproduce failures ≡ ok u → failures ≡ []
all_reproduce-none [] h = refl
all_reproduce-none (m ∷ failures) h = cc

module _ {Json : Type 0} (T : Tools Json) where
  -- `mise.toml` pins a version of the tool, and the first line that the tool prints, read by `read_line`, is
  -- that version.
  abbrev pub IsPin : List ℕ → (List ℕ → List ℕ) → Type 0
  IsPin tool read_line =
      (version : List ℕ) × (stdout : List ℕ) × (T.pin tool ≡ some version)
      × (T.version_of tool ≡ ok stdout)
      × (read_line (trim (first_line stdout)) ≡ version)

  one_error-eq-ok : {A : Type 0} (r : Result Message A) {a : A} → one_error r ≡ ok a → r ≡ ok a
  one_error-eq-ok (ok a) h = ap ok (ok_inj h)
  one_error-eq-ok (err e) h = cc
  one_error-eq-ok panic h = cc

  -- What a tool that passes reports.
  assert_pin-eq-ok :
      (tool : List ℕ) {u : Unit {0}}
      → assert_pin T tool ≡ ok u
      → IsPin tool (λ line.
        if bytes_eq tool (codes "nargo")
        then without_prefix (codes "nargo version = ") line
        else line)
  unfolding assert_pin
  assert_pin-eq-ok tool h = bind_ok (ok_or _ (T.pin tool)) h λ version e1 h1.
      bind_ok (one_error (T.version_of tool)) h1 λ stdout e2 h2. (
        version,
        stdout,
        ok_or-eq-ok _ _ e1,
        one_error-eq-ok (T.version_of tool) e2,
        (bytes_eq_iff _ version).0 (guard-eq-ok _ _ h2),
      )

-- Where `freeze-circuits --check` succeeds, `nargo` and `bb` report the versions that `mise.toml` pins, and
-- every circuit has an active version: the tools derive its key byte by byte, an ABI of the same value, and
-- a bytecode with the same hash.
pub freeze_check :
    {Json : Type 0} (T : Tools Json) (w w' : Workspace)
    → freeze T (codes "--check" ∷ []) w ≡ ok w'
    → IsPin T (codes "nargo") (without_prefix (codes "nargo version = "))
      × IsPin T (codes "bb") (λ line. line)
      × All (IsReproduced T w) (modules_of circuits)
unfolding freeze assert_pinned
freeze_check T w w' h = bind_ok (assert_pinned T) h λ u e1 h1.
    bind_ok (assert_pin T (codes "nargo")) e1 λ v e2 e3. bind_ok (one_error T.scratch) h1 λ y e6 h4.
      bind_ok (check_loop T w (modules_of circuits)) h4 λ failures e4 h2.
        bind_ok (all_reproduce failures) h2 λ x e5 h3. (
          assert_pin-eq-ok T (codes "nargo") e2,
          assert_pin-eq-ok T (codes "bb") e3,
          check_loop-IsReproduced T w (modules_of circuits) failures e4
              (all_reproduce-none failures e5),
        )
