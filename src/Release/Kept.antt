-- ===== src/Release/Kept.antt =====
-- Reconciling a whole manifest: which files are left, and that no identity is lost.
use mathlib.Core.Path.{subst}
use outbe_circuits.Prelude.{
  ℕ, ◌≡◌, refl, sym, ap, ◌∙◌, inl, inr, true, false, none, List, [], ◌∷◌, Bool-cases, All,
}
use outbe_circuits.Text.{codes}
use outbe_circuits.Slices.{bytes_eq, bytes_eq_iff}
use outbe_circuits.Registry.Manifest.{Entry, Artifacts, Resources, Codecs}
use outbe_circuits.Release.Workspace.{
  Workspace, is_active, retained, reconcile_entry, reconcile, reconcile_artifacts,
}
use outbe_circuits.Release.Reconcile.{IsDigest, IsConsistent, update_self}
use outbe_circuits.Release.Identity.{
  Keeps, same_version, IsUnique, load_entry_local, reconcile_entry-Keeps, reconcile_entry_elsewhere,
  reconcile_untouched,
}

-- Entry by entry, and nothing added or left out.
abbrev pub AllKeep : Codecs → Resources → Resources → List Entry → List Entry → Type 0
AllKeep C before after [] [] = Unit {0}
AllKeep C before after [] (f ∷ fs) = ⊥
AllKeep C before after (e ∷ es) [] = ⊥
AllKeep C before after (e ∷ es) (f ∷ fs) = Keeps C before after e f × AllKeep C before after es fs

elsewhere :
    (C : Codecs) (resources : Resources) (e : Entry) (f : Entry)
    → same_version e f ≡ false
    → (reconcile_entry C e resources).1 f.module_name f.version ≡ resources f.module_name f.version
elsewhere C resources e f other =
    reconcile_entry_elsewhere C resources e f.module_name f.version other

AllKeep-earlier :
    (C : Codecs) (e : Entry) (before after : Resources) (es fs : List Entry)
    → All (λ f. same_version e f ≡ false) es
    → AllKeep C (reconcile_entry C e before).1 after es fs
    → AllKeep C before after es fs
AllKeep-earlier C e before after [] [] all keep = keep
AllKeep-earlier C e before after [] (f ∷ fs) all keep = keep
AllKeep-earlier C e before after (g ∷ es) [] all keep = keep
AllKeep-earlier C e before after (g ∷ es) (f ∷ fs) (other, all) (k, keep) = (
  λ l live run. k l live (
      load_entry_local C before (reconcile_entry C e before).1 g (elsewhere C before e g other)
      ∙ run),
  AllKeep-earlier C e before after es fs all keep,
)

IsConsistent-later :
    (C : Codecs) (e : Entry) (before : Resources) (es : List Entry)
    → All (λ f. same_version e f ≡ false) es
    → All (IsConsistent C before) es
    → All (IsConsistent C (reconcile_entry C e before).1) es
IsConsistent-later C e before [] all same = tt
IsConsistent-later C e before (f ∷ es) (other, all) (s, same) = (
  λ kept bytecode ek eb.
      s kept bytecode ek
        (ap (λ (x : Artifacts). x.bytecode) (sym (elsewhere C before e f other)) ∙ eb),
  IsConsistent-later C e before es all same,
)

reconcile-AllKeep :
    (C : Codecs) (entries : List Entry) (resources : Resources)
    → IsDigest C
    → IsUnique entries
    → All (IsConsistent C resources) entries
    → AllKeep C resources
        (reconcile C entries resources).1
        entries
        (reconcile C entries resources).0
unfolding reconcile
reconcile-AllKeep C [] resources d unique same = tt
reconcile-AllKeep C (e ∷ entries) resources d (alone, unique) (s, same) =
    let between : Resources = (reconcile_entry C e resources).1 in
    (
      reconcile_entry-Keeps C resources (reconcile C entries between).1 e d s
          (reconcile_untouched C entries between e alone),
      AllKeep-earlier C e resources (reconcile C entries between).1 entries
          (reconcile C entries between).0 alone
          (reconcile-AllKeep C entries between d unique
            (IsConsistent-later C e resources entries alone same)),
    )

-- Where every version is declared once, and a hash that is kept is the bytecode's, each entry that is not
-- revoked and that the build script could load before it can load afterwards, with the same module, label,
-- version, circuit hash, key and hash of the key. Digests have 32 bytes.
pub reconcile_artifacts-AllKeep :
    (C : Codecs) (w : Workspace)
    → IsDigest C
    → IsUnique w.entries
    → All (IsConsistent C w.resources) w.entries
    → AllKeep C w.resources
        (reconcile_artifacts C w).resources
        w.entries
        (reconcile_artifacts C w).entries
unfolding reconcile_artifacts
reconcile_artifacts-AllKeep C w d unique same =
    reconcile-AllKeep C w.entries w.resources d unique same

-- The files that a status allows.
abbrev pub IsAllowed : List ℕ → Artifacts → Type 0
IsAllowed status files =
    (bytes_eq status (codes "active") ≡ false → (files.bytecode ≡ none) × (files.abi ≡ none))
    × (bytes_eq status (codes "revoked") ≡ true → files.vk ≡ none)

retained-IsAllowed : (e : Entry) (files : Artifacts) → IsAllowed e.status (retained e files)
unfolding retained
retained-IsAllowed e files = (λ inactive. (refl, refl), λ revoked. rw revoked refl)

not_both :
    (status : List ℕ)
    → bytes_eq status (codes "active") ≡ true
    → bytes_eq status (codes "revoked") ≡ false
not_both status h =
    let is : status ≡ codes "active" = (bytes_eq_iff status (codes "active")).0 h in
    subst (λ x. bytes_eq x (codes "revoked") ≡ false) (sym is) refl

entry-IsAllowed :
    (C : Codecs) (before after : Resources) (e : Entry)
    → after e.module_name e.version ≡ (reconcile_entry C e before).1 e.module_name e.version
    → IsAllowed e.status (after e.module_name e.version)
unfolding reconcile_entry
entry-IsAllowed C before after e same = elim (Bool-cases (is_active e)) [
  | inl q ↦ (
    λ inactive. cc,
    λ revoked. let bad : bytes_eq e.status (codes "revoked") ≡ false = not_both e.status q in cc,
  )
  | inr q ↦
      let files : after e.module_name e.version ≡ retained e (before e.module_name e.version) =
        (simp q at same)
        ∙ update_self before e.module_name e.version
            (retained e (before e.module_name e.version)) in
      subst (IsAllowed e.status) (sym files) (retained-IsAllowed e (before e.module_name e.version))
]

reconcile-IsAllowed :
    (C : Codecs) (entries : List Entry) (resources : Resources)
    → IsUnique entries
    → All
        (λ e. IsAllowed e.status ((reconcile C entries resources).1 e.module_name e.version))
        entries
unfolding reconcile
reconcile-IsAllowed C [] resources unique = tt
reconcile-IsAllowed C (e ∷ entries) resources (alone, unique) =
    let between : Resources = (reconcile_entry C e resources).1 in
    (
      entry-IsAllowed C resources (reconcile C entries between).1 e
          (reconcile_untouched C entries between e alone),
      reconcile-IsAllowed C entries between unique,
    )

-- Where every version is declared once, reconciling leaves no bytecode and no ABI to a version that is not
-- active, and no key to a revoked one.
pub reconcile_artifacts-IsAllowed :
    (C : Codecs) (w : Workspace)
    → IsUnique w.entries
    → All
        (λ e. IsAllowed e.status ((reconcile_artifacts C w).resources e.module_name e.version))
        w.entries
unfolding reconcile_artifacts
reconcile_artifacts-IsAllowed C w unique = reconcile-IsAllowed C w.entries w.resources unique
