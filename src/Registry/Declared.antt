-- ===== src/Registry/Declared.antt =====
-- What the build script binds: the versions that a table declares, of circuits that are not revoked.
use mathlib.Core.List.{Memᴰ}
use mathlib.Core.Path.{subst}
use outbe_circuits.Prelude.{
  ℕ, ◌+◌, ◌≡◌, refl, sym, ap, ◌∙◌, inl, inr, Bool, true, false, not, ◌&&◌, Option, none, some, List,
  [], ◌∷◌, arith, ok, expect, assert, if◌then◌else◌, Bool-cases, length, All, bind_ok, ok_inj,
  some_inj, expect-eq-ok, assert-eq-ok,
}
use outbe_circuits.Text.{text_lt}
use outbe_circuits.Slices.{bytes_eq, bytes_eq_iff}
use outbe_circuits.Registry.Manifest.{Entry, Resources, Codecs, Loaded}
use outbe_circuits.Registry.Load.{is_some, is_revoked, push_loaded, load_entry, load_circuits}
use outbe_circuits.Registry.Ordered.{lookup, insert, lookup-insert, length-insert}
use outbe_circuits.Registry.Chains.{non_blank, find_loaded, version_loop}

-- A loaded version comes from an entry of the manifest that is not revoked.
abbrev pub FromEntry : Codecs → Resources → List Entry → Loaded → Type 0
FromEntry C resources entries l =
    (c : Entry) × Memᴰ c entries × (is_revoked c ≡ false) × (load_entry C resources c ≡ ok l)

All-later :
    (C : Codecs) (resources : Resources) (c : Entry) (entries : List Entry) (loaded : List Loaded)
    → All (FromEntry C resources entries) loaded
    → All (FromEntry C resources (c ∷ entries)) loaded
All-later C resources c entries [] all = tt
All-later C resources c entries (l ∷ loaded) ((d, mem, live, run), all) =
    ((d, Memᴰ.tail mem, live, run), All-later C resources c entries loaded all)

load_circuits-FromEntry :
    (C : Codecs) (resources : Resources) (entries : List Entry) (loaded : List Loaded)
    → load_circuits C resources entries ≡ ok loaded
    → All (FromEntry C resources entries) loaded
unfolding load_circuits
load_circuits-FromEntry C resources [] loaded h = rw (← ok_inj h) tt
load_circuits-FromEntry C resources (c ∷ entries) loaded h =
    given (is_revoked c) refl (load_circuits-FromEntry C resources entries) h
  where
    given :
        (b : Bool)
        → is_revoked c ≡ b
        → ((more : List Loaded)
            → load_circuits C resources entries ≡ ok more
            → All (FromEntry C resources entries) more)
        → push_loaded b (load_entry C resources c) (load_circuits C resources entries) ≡ ok loaded
        → All (FromEntry C resources (c ∷ entries)) loaded
    given true e ih h' = All-later C resources c entries loaded (ih loaded h')
    given false e ih h' = bind_ok (load_entry C resources c) h' λ l run h1.
        bind_ok (load_circuits C resources entries) h1 λ more rest h2.
          rw (← ok_inj h2)
            ((c, Memᴰ.head refl, e, run), All-later C resources c entries more (ih more rest))

and_true : (a b : Bool) → (a && b) ≡ true → (a ≡ true) × (b ≡ true)
and_true true b h = (refl, h)
and_true false b h = cc

is_some-none : {A : Type 0} (o : Option A) → not (is_some o) ≡ true → o ≡ none
is_some-none none h = refl
is_some-none (some a) h = cc

-- A key that is there is not one that is not.
other :
    (w k : List ℕ) (t l : Loaded) (m : List (List ℕ × Loaded))
    → lookup bytes_eq w m ≡ some t
    → lookup bytes_eq k m ≡ none
    → (if bytes_eq w k then some l else lookup bytes_eq w m) ≡ some t
other w k t l m e fresh = elim (Bool-cases (bytes_eq w k)) [
  | inl q ↦
      let same : w ≡ k = (bytes_eq_iff w k).0 q in
      let bad : some t ≡ none = sym e ∙ ap (λ x. lookup bytes_eq x m) same ∙ fresh in cc
  | inr q ↦ rw q e
]

find_loaded-lem :
    (m version : List ℕ) (loaded : List Loaded) {l : Loaded}
    → find_loaded m version loaded ≡ some l
    → Memᴰ l loaded × (l.module_name ≡ m) × (l.version ≡ version)
unfolding find_loaded
find_loaded-lem m version [] h = cc
find_loaded-lem m version (x ∷ loaded) {l} h =
    elim (Bool-cases (bytes_eq x.module_name m && bytes_eq x.version version)) [
      | inl q ↦
          let same : x ≡ l = some_inj (rw q at h) in
          let (qm, qv) = and_true (bytes_eq x.module_name m) (bytes_eq x.version version) q in
          rw (← same) (
            Memᴰ.head refl,
            (bytes_eq_iff x.module_name m).0 qm,
            (bytes_eq_iff x.version version).0 qv,
          )
      | inr q ↦
          let (mem, a, b) = find_loaded-lem m version loaded (rw q at h) in (Memᴰ.tail mem, a, b)
    ]

-- A circuit of a table is bound: to the loaded version that it names.
abbrev IsDeclared :
    List Loaded → List (List ℕ × Loaded) → Option (List ℕ) × Option (List ℕ) → Type 0
IsDeclared loaded versions (v, m) =
    (version : List ℕ) × (module_name : List ℕ) × (target : Loaded) × (v ≡ some version)
    × (m ≡ some module_name)
    × (find_loaded module_name version loaded ≡ some target)
    × (lookup bytes_eq version versions ≡ some target)

non_blank-eq-some :
    (v : Option (List ℕ)) {version : List ℕ} → non_blank v ≡ some version → v ≡ some version
non_blank-eq-some none h = cc
non_blank-eq-some (some w) h = ground arith

record Binds (loaded : List Loaded) (before after : List (List ℕ × Loaded))
    (circuits : List (Option (List ℕ) × Option (List ℕ))) : Type 0 where
  kept :
      (v : List ℕ) (t : Loaded)
      → lookup bytes_eq v before ≡ some t
      → lookup bytes_eq v after ≡ some t
  declared : All (IsDeclared loaded after) circuits
  size : length after ≡ length before + length circuits

version_loop-Binds :
    (loaded : List Loaded) (circuits : List (Option (List ℕ) × Option (List ℕ)))
    (before after : List (List ℕ × Loaded))
    → version_loop loaded before circuits ≡ ok after
    → Binds loaded before after circuits
unfolding version_loop
version_loop-Binds loaded [] before after h =
    rw (← ok_inj h) (record { kept = λ v t e. e; declared = tt; size = omega arith })
version_loop-Binds loaded ((v, m) ∷ circuits) before after h =
    bind_ok (expect (non_blank v)) h λ version e1 h1. bind_ok (expect m) h1 λ module_name e2 h2.
      bind_ok (expect (find_loaded module_name version loaded)) h2 λ target e3 h3.
        bind_ok (assert (not (is_some (lookup bytes_eq target.version before)))) h3 λ u e4 h4.
          let b : Binds loaded (insert bytes_eq text_lt target.version target before) after
              circuits =
            version_loop-Binds loaded circuits
              (insert bytes_eq text_lt target.version target before) after h4 in
          let fresh : lookup bytes_eq target.version before ≡ none =
            is_some-none (lookup bytes_eq target.version before) (assert-eq-ok _ e4) in
          let found : find_loaded module_name version loaded ≡ some target = expect-eq-ok _ e3 in
          let names : target.version ≡ version =
            (find_loaded-lem module_name version loaded found).2 in
          record {
            kept = λ w t e. b.kept w t (
                lookup-insert bytes_eq text_lt bytes_eq_iff target.version w target before
                ∙ other w target.version t target before e fresh);
            declared = (
              (
                version,
                module_name,
                target,
                non_blank-eq-some v (expect-eq-ok _ e1),
                expect-eq-ok m e2,
                found,
                b.kept version target (
                    lookup-insert bytes_eq text_lt bytes_eq_iff target.version version target before
                    ∙ ground (arith, bytes_eq_iff version target.version)),
              ),
              b.declared,
            );
            size =
                omega (
                  arith,
                  b.size,
                  length-insert bytes_eq text_lt target.version target before fresh,
                );
          }

All-Memᴰ : {A : Type 0} (P : A → Type 0) (xs : List A) (x : A) → All P xs → Memᴰ x xs → P x
All-Memᴰ P [] x all mem = elim mem [ ]
All-Memᴰ P (y ∷ ys) x (p, all) (Memᴰ.head e) = subst P (sym e) p
All-Memᴰ P (y ∷ ys) x (p, all) (Memᴰ.tail mem) = All-Memᴰ P ys x all mem

-- A circuit of a table is bound, under its version, to what an entry of its module and version loads.
abbrev pub IsBound :
    Codecs
    → Resources
    → List Entry
    → List (List ℕ × Loaded)
    → Option (List ℕ) × Option (List ℕ)
    → Type 0
IsBound C resources entries versions (v, m) =
    (version : List ℕ) × (module_name : List ℕ) × (target : Loaded) × (v ≡ some version)
    × (m ≡ some module_name)
    × (lookup bytes_eq version versions ≡ some target)
    × (target.module_name ≡ module_name)
    × (target.version ≡ version)
    × FromEntry C resources entries target

-- The build accepts a list of circuits of a chain only where each names an entry of the manifest that is
-- not revoked and has loaded; each is then bound to it, under its version, and nothing else is bound.
pub version_loop-FromEntry :
    (C : Codecs) (resources : Resources) (entries : List Entry) (loaded : List Loaded)
    (circuits : List (Option (List ℕ) × Option (List ℕ))) (versions : List (List ℕ × Loaded))
    → load_circuits C resources entries ≡ ok loaded
    → version_loop loaded [] circuits ≡ ok versions
    → (length versions ≡ length circuits) × All (IsBound C resources entries versions) circuits
version_loop-FromEntry C resources entries loaded circuits versions load run =
    let b : Binds loaded [] versions circuits =
      version_loop-Binds loaded circuits [] versions run in
    (omega (arith, b.size), each circuits b.declared)
  where
    each :
        (rest : List (Option (List ℕ) × Option (List ℕ)))
        → All (IsDeclared loaded versions) rest
        → All (IsBound C resources entries versions) rest
    each [] all = tt
    each ((v, m) ∷ rest) ((version, module_name, target, ev, em, found, bound), all) =
        let (mem, qm, qv) = find_loaded-lem module_name version loaded found in
        (
          (
            version,
            module_name,
            target,
            ev,
            em,
            bound,
            qm,
            qv,
            All-Memᴰ (FromEntry C resources entries) loaded target
                (load_circuits-FromEntry C resources entries loaded load) mem,
          ),
          each rest all,
        )
