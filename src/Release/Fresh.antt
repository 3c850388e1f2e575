-- ===== src/Release/Fresh.antt =====
-- xtask/src/main.rs: which frozen files `freeze` writes.
use outbe_circuits.Prelude.{
  ℕ, ◌-◌, ◌^◌, ◌<◌, ◌≡◌, refl, sym, ap, ◌∙◌, inl, inr, Bool, true, false, Option, some, List, [],
  ◌∷◌, arith, Result, ok, err, panic, expect, if◌then◌else◌, Bool-cases, All, bind_ok, ok_inj,
}
use mathlib.Core.Path.{subst}
use outbe_circuits.Error.{Message}
use outbe_circuits.Text.{trim}
use outbe_circuits.Slices.{bytes_eq, bytes_eq_iff}
use outbe_circuits.Registry.Manifest.{Entry, Artifacts, Resources}
use outbe_circuits.Registry.Version.{version_key, key_lt}
use outbe_circuits.Release.Names.{label, bump}
use outbe_circuits.Release.Bumps.{bump-next_key}
use outbe_circuits.Release.Workspace.{Workspace, update, keccak_hex}
use outbe_circuits.Release.Check.{Compiled, Tools, active_from}
use outbe_circuits.Release.Freeze.{
  Flags, Decision, same_abi, parsed, abi_level, decide, carry_out, freeze_circuit,
}

-- Each number of a version can be counted up.
abbrev pub HasRoom : List ℕ → Type 0
HasRoom version =
    ((version_key version).0 < 2 ^ 64 - 1)
    × ((version_key version).1 < 2 ^ 64 - 1)
    × ((version_key version).2 < 2 ^ 64 - 1)

-- No entry of the module has a greater version.
abbrev pub IsGreatest : List ℕ → List ℕ → List Entry → Type 0
IsGreatest m version entries =
    All
      (λ x.
        bytes_eq x.module_name m ≡ true
        → key_lt (version_key version) (version_key x.version) ≡ false)
      entries

abbrev version_of : Decision → List ℕ
version_of Decision.unchanged = []
version_of (Decision.mint version old) = version

All-imp :
    {A : Type 0} {P Q : A → Type 0} (xs : List A) → ((x : A) → P x → Q x) → All P xs → All Q xs
All-imp [] f all = tt
All-imp (x ∷ xs) f (p, all) = (f x p, All-imp xs f all)

All-refl : {A : Type 0} {P : A → Type 0} (xs : List A) → ((x : A) → P x) → All P xs
All-refl [] f = tt
All-refl (x ∷ xs) f = (f x, All-refl xs f)

-- A version is only minted by a bump.
minted :
    {E : Type 0} (b : Bool) (d : Decision) (r : Result E Decision) {version : List ℕ}
    {old : Option (ℕ × List ℕ)}
    → (if b then ok Decision.unchanged else r) ≡ ok (Decision.mint version old)
    → r ≡ ok (Decision.mint version old)
minted true d r h = let e = ok_inj h in cc
minted false d r h = h

module _ {Json : Type 0} (T : Tools Json) (flags : Flags) where
  decide-greater :
      (resources : Resources) (m : List ℕ) (compiled : Compiled Json) (hash : List ℕ) (i : ℕ)
      (a : Entry) (version : List ℕ) (old : Option (ℕ × List ℕ))
      → HasRoom a.version
      → decide T flags resources m compiled hash (some (i, a)) ≡ ok (Decision.mint version old)
      → key_lt (version_key a.version) (version_key version) ≡ true
  decide-greater resources m compiled hash i a version old (r0, r1, r2) h =
      let files = resources m a.version in
      let same = same_abi T compiled.abi (parsed T files.abi) in
      bind_ok (expect files.bytecode) h λ text e1 h1.
        bind_ok (expect (T.codecs.base64_decode (trim text))) h1 λ acir e2 h2.
          bind_ok (if same then ok 2 else abi_level flags) (minted _ Decision.unchanged _ h2)
            λ level e3 h3. bind_ok (bump T.overflow_checks a.version level) h3 λ next e4 h4.
              let (v, run, _, above) =
                bump-next_key {E = List Message} T.overflow_checks a.version level r0 r1 r2 in
              let is_next : next ≡ version = ap version_of (ok_inj h4) in
              subst (λ x. key_lt (version_key a.version) (version_key x) ≡ true)
                (ok_inj (sym run ∙ e4) ∙ is_next) above

  -- The files of a declared version are not those that are written.
  update-other :
      (resources : Resources) (m version : List ℕ) (files : Artifacts) (top : List ℕ) (x : Entry)
      → key_lt (version_key top) (version_key version) ≡ true
      → (bytes_eq x.module_name m ≡ true → key_lt (version_key top) (version_key x.version) ≡ false)
      → update resources m version files x.module_name x.version ≡ resources x.module_name x.version
  update-other resources m version files top x above below =
      elim (Bool-cases (bytes_eq x.module_name m)) [
        | inl p ↦ elim (Bool-cases (bytes_eq x.version version)) [
          | inl q ↦
              let same : x.version ≡ version = (bytes_eq_iff x.version version).0 q in
              let low : key_lt (version_key top) (version_key version) ≡ false =
                subst (λ v. key_lt (version_key top) (version_key v) ≡ false) same (below p) in
              absurd (grind (arith, sym above ∙ low))
          | inr q ↦ rw (p, q) refl
        ]
        | inr p ↦ rw p refl
      ]

  carried :
      (w w' : Workspace) (m : List ℕ) (compiled : Compiled Json) (i : ℕ) (a : Entry) (d : Decision)
      (hash : List ℕ)
      → HasRoom a.version
      → IsGreatest m a.version w.entries
      → decide T flags w.resources m compiled hash (some (i, a)) ≡ ok d
      → carry_out T w m compiled d ≡ ok w'
      → All
          (λ x. w'.resources x.module_name x.version ≡ w.resources x.module_name x.version)
          w.entries
  carried w w' m compiled i a Decision.unchanged hash room greatest made h =
      All-refl w.entries (λ x. ap (λ v. v.resources x.module_name x.version) (sym (ok_inj h)))
  carried w w' m compiled i a (Decision.mint version old) hash room greatest made h =
      let above = decide-greater w.resources m compiled hash i a version old room made in
      bind_ok
        (elim (T.write_vk compiled.bytecode) [ ok vk ↦ ok vk | err e ↦ panic | panic ↦ panic ]) h
        λ vk e1 h1. bind_ok (label m) h1 λ name e2 h2.
          All-imp w.entries
            (λ x below.
              ap (λ v. v.resources x.module_name x.version) (sym (ok_inj h2))
              ∙ update-other w.resources m version _ a.version x above below)
            greatest

-- Where a module's active version is there, none of its entries has a greater one, and its numbers can be
-- counted up, freezing the circuit leaves the files of every declared version as they are.
pub freeze_circuit-keeps :
    {Json : Type 0} (T : Tools Json) (flags : Flags) (w w' : Workspace) (m : List ℕ) (i : ℕ)
    (a : Entry)
    → active_from 0 m w.entries ≡ some (i, a)
    → HasRoom a.version
    → IsGreatest m a.version w.entries
    → freeze_circuit T flags w m ≡ ok w'
    → All
        (λ x. w'.resources x.module_name x.version ≡ w.resources x.module_name x.version)
        w.entries
unfolding freeze_circuit
freeze_circuit-keeps T flags w w' m i a active room greatest h =
    bind_ok (expect (T.compile m)) h λ compiled e1 h1.
      bind_ok (expect (T.codecs.base64_decode compiled.bytecode)) h1 λ acir e2 h2.
        bind_ok
          (decide T flags w.resources m compiled (keccak_hex T.codecs acir)
            (active_from 0 m w.entries))
          h2
          λ d e3 h3.
            carried T flags w w' m compiled i a d (keccak_hex T.codecs acir) room greatest
              (subst
                (λ o. decide T flags w.resources m compiled (keccak_hex T.codecs acir) o ≡ ok d)
                active e3)
              h3
