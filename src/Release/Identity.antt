-- ===== src/Release/Identity.antt =====
-- Every version that is not revoked keeps its identity when the files are reconciled.

use outbe_circuits.Prelude.{
  ℕ, ◌≡◌, refl, sym, ap, ◌∙◌, inl, inr, Bool, false, ◌&&◌, Option, none, some, List, [], ◌∷◌, arith,
  ok, if◌then◌else◌, Bool-cases, All,
}
use outbe_circuits.Slices.{bytes_eq}
use outbe_circuits.Registry.Manifest.{Entry, Artifacts, Resources, Codecs, Loaded}
use outbe_circuits.Registry.Load.{is_revoked, circuit_hash_of, load_entry}
use outbe_circuits.Release.Workspace.{is_active, preserved, retained, reconcile_entry, reconcile}
use outbe_circuits.Release.Reconcile.{
  IsDigest, IsConsistent, SameIdentity, identity_kept, loads, load_entry-kept, update_self,
  PreservedAs, preserved-PreservedAs,
}

-- `load_entry` reads the files of its version only.
pub load_entry_local :
    (C : Codecs) (before after : Resources) (e : Entry)
    → after e.module_name e.version ≡ before e.module_name e.version
    → load_entry C after e ≡ load_entry C before e
unfolding load_entry
load_entry_local C before after e same = rw same refl

-- An entry loads afterwards, with the same identity.
abbrev pub StaysLoaded : Codecs → Loaded → Entry → Resources → Type 0
StaysLoaded C l e resources = (k : Loaded) × (load_entry C resources e ≡ ok k) × SameIdentity l k

pub SameIdentity-refl : (l : Loaded) → SameIdentity l l
SameIdentity-refl l = record {
  module_name = refl;
  label = refl;
  version = refl;
  circuit_hash = refl;
  vk_hash = refl;
  vk = refl;
}

left : Option (List ℕ) → Artifacts
left vk = record { vk = vk; bytecode = none; abi = none }

dropped :
    (C : Codecs) (before after : Resources) (e : Entry) (l : Loaded)
    → IsDigest C
    → is_revoked e ≡ false
    → IsConsistent C before e
    → load_entry C before e ≡ ok l
    → after e.module_name e.version ≡ retained e (before e.module_name e.version)
    → StaysLoaded C l (preserved C before e) after
unfolding retained left
dropped C before after e l d live same run files =
    let (vk, hash, evk, ehash, lm, ll, lv, lh, lvh, lvk) = loads C before e l run in
    let p : PreservedAs C before e = preserved-PreservedAs C before e in
    let kept : circuit_hash_of C none (preserved C before e).circuit_hash ≡ ok hash =
      ap (circuit_hash_of C none) p.kept
      ∙ identity_kept C (before e.module_name e.version).bytecode e.circuit_hash hash d same
          ehash in
    let at : after (preserved C before e).module_name (preserved C before e).version
        ≡ record { vk = some vk; bytecode = none; abi = none } =
      ap (λ m. after m (preserved C before e).version) p.module_name
      ∙ ap (after e.module_name) p.version
      ∙ files
      ∙ ap (λ (b : Bool). left (if b then none else (before e.module_name e.version).vk)) live
      ∙ ap left evk in
    (
      _,
      load_entry-kept C after (preserved C before e) vk hash at kept,
      record {
        module_name = p.module_name ∙ sym lm;
        label = p.label ∙ sym ll;
        version = p.version ∙ sym lv;
        circuit_hash = sym lh;
        vk_hash = sym lvh;
        vk = sym lvk;
      },
    )

-- What an entry loads, where it is not revoked, and whether it stays.
abbrev pub Keeps : Codecs → Resources → Resources → Entry → Entry → Type 0
Keeps C before after e e' =
    (l : Loaded) → is_revoked e ≡ false → load_entry C before e ≡ ok l → StaysLoaded C l e' after

pub reconcile_entry-Keeps :
    (C : Codecs) (before after : Resources) (e : Entry)
    → IsDigest C
    → IsConsistent C before e
    → after e.module_name e.version ≡ (reconcile_entry C e before).1 e.module_name e.version
    → Keeps C before after e (reconcile_entry C e before).0
unfolding reconcile_entry
reconcile_entry-Keeps C before after e d same files l live run = elim (Bool-cases (is_active e)) [
  | inl q ↦
      let files' : after e.module_name e.version ≡ before e.module_name e.version =
        simp q at files in
      simp q (l, load_entry_local C before after e files' ∙ run, SameIdentity-refl l)
  | inr q ↦
      let files' : after e.module_name e.version ≡ retained e (before e.module_name e.version) =
        (simp q at files)
        ∙ update_self before e.module_name e.version
            (retained e (before e.module_name e.version)) in
      simp q (dropped C before after e l d live same run files')
]

-- Two entries of one version.
abbrev pub same_version : Entry → Entry → Bool
same_version e f = bytes_eq f.module_name e.module_name && bytes_eq f.version e.version

-- Every version is declared once.
abbrev pub IsUnique : List Entry → Type 0
IsUnique [] = Unit {0}
IsUnique (e ∷ entries) = All (λ f. same_version e f ≡ false) entries × IsUnique entries

pub reconcile_entry_elsewhere :
    (C : Codecs) (resources : Resources) (e : Entry) (m v : List ℕ)
    → (bytes_eq m e.module_name && bytes_eq v e.version) ≡ false
    → (reconcile_entry C e resources).1 m v ≡ resources m v
unfolding reconcile_entry
reconcile_entry_elsewhere C resources e m v other = elim (Bool-cases (is_active e)) [
  | inl q ↦ simp q refl
  | inr q ↦ simp (q, other) refl
]

bytes_eq_sym : (xs ys : List ℕ) → bytes_eq xs ys ≡ bytes_eq ys xs
bytes_eq_sym [] [] = refl
bytes_eq_sym [] (y ∷ ys) = refl
bytes_eq_sym (x ∷ xs) [] = refl
bytes_eq_sym (x ∷ xs) (y ∷ ys) = ground (arith, bytes_eq_sym xs ys)

pub reconcile_untouched :
    (C : Codecs) (entries : List Entry) (resources : Resources) (e : Entry)
    → All (λ f. same_version e f ≡ false) entries
    → (reconcile C entries resources).1 e.module_name e.version ≡ resources e.module_name e.version
unfolding reconcile
reconcile_untouched C [] resources e all = refl
reconcile_untouched C (f ∷ entries) resources e (other, all) =
    reconcile_untouched C entries (reconcile_entry C f resources).1 e all
    ∙ reconcile_entry_elsewhere C resources f e.module_name e.version
        (rw (bytes_eq_sym e.module_name f.module_name, bytes_eq_sym e.version f.version) other)
