-- ===== src/Registry/Verified.antt =====
-- The registry that build.rs generates has what the generated circuit modules need.
use outbe_circuits.Prelude.{
  ℕ, ◌≡◌, refl, sym, ap, ◌∙◌, ◌⊎◌, inl, inr, Bool, true, false, Option, some, List, [], ◌∷◌, ok,
  expect, if◌then◌else◌, and_left, bind_ok, ok_inj, some_inj, expect-eq-ok,
}
use mathlib.Core.List.{Memᴰ}
use mathlib.Core.Path.{subst}
use outbe_circuits.Text.{codes}
use outbe_circuits.Slices.{bytes_eq}
use outbe_circuits.Registry.Manifest.{Resources, Codecs, Loaded, CircuitStatus, RegistryEntry}
use outbe_circuits.Registry.Load.{load_circuits, status_of, registry_entry, circuit_registry}
use outbe_circuits.Registry.Heads.{is_provable, heads}
use outbe_circuits.Registry.Heads.Latest.{is_candidate, IsLatest, heads-IsLatest}
use outbe_circuits.Registry.Ordered.{lookup}
use outbe_circuits.Registry.Chains.{l2_registry}
use outbe_circuits.Registry.Widths.{public_input_count, proof_words}
use outbe_circuits.Registry.Generate.{
  Constants, circuit_constants, circuit_module, modules_loop, circuit_modules, Manifest, Generated,
  build,
}

-- The entry that verifies what a module proves.
pub record Verifies (c : Constants) (proof_system : List ℕ) (e : RegistryEntry) : Type 0 where
  pub active : e.status ≡ CircuitStatus.active
  pub system : e.proof_system ≡ proof_system
  pub label : e.label ≡ c.label
  pub version : e.version ≡ c.version
  pub circuit_hash : e.circuit_hash ≡ c.circuit_hash
  pub vk_bytes : e.vk_bytes ≡ c.vk_bytes
  pub vk_hash : e.vk_hash ≡ c.vk_hash

either :
    {A : Type 0} (b : Bool) (d c : A) (rest : Option A)
    → ◌≡◌ {A = Option A} (if b then some d else rest) (some c)
    → ((b ≡ true) × (d ≡ c)) ⊎ ((b ≡ false) × (rest ≡ some c))
either true d c rest h = inl (refl, some_inj h)
either false d c rest h = inr (refl, h)

modules_loop-from :
    (ps m : List ℕ) (head : List (List ℕ × Loaded)) (ms : List (List ℕ × Constants)) (c : Constants)
    → modules_loop ps head ≡ ok ms
    → lookup bytes_eq m ms ≡ some c
    → (l : Loaded) × (lookup bytes_eq m head ≡ some l) × (circuit_module ps l ≡ ok c)
unfolding modules_loop lookup
modules_loop-from ps m [] ms c h found =
    let missing : lookup {V = Constants} bytes_eq m [] ≡ some c =
      subst (λ x. lookup bytes_eq m x ≡ some c) (sym (ok_inj h)) found in
    cc
modules_loop-from ps m ((k, l) ∷ head) ms c h found = bind_ok (circuit_module ps l) h λ d e h1.
    bind_ok (modules_loop ps head) h1 λ more e2 h2.
      let first : lookup bytes_eq m ((k, d) ∷ more) ≡ some c =
        subst (λ x. lookup bytes_eq m x ≡ some c) (sym (ok_inj h2)) found in
      elim (either (bytes_eq m k) d c (lookup bytes_eq m more) first) [
        | inl (q, same) ↦ (l, rw q refl, e ∙ ap ok same)
        | inr (q, later) ↦
            let (x, at, made) = modules_loop-from ps m head more c e2 later in (x, rw q at, made)
      ]

circuit_registry-of :
    (ps : List ℕ) (l : Loaded) (loaded : List Loaded) (es : List RegistryEntry)
    → Memᴰ l loaded
    → circuit_registry ps loaded ≡ ok es
    → (e : RegistryEntry) × Memᴰ e es × (registry_entry ps l ≡ ok e)
unfolding circuit_registry
circuit_registry-of ps l [] es mem h = elim mem [ ]
circuit_registry-of ps l (x ∷ loaded) es (Memᴰ.head at) h =
    bind_ok (registry_entry ps x) h λ e made h1.
      bind_ok (circuit_registry ps loaded) h1 λ more e2 h2.
        (e, subst (Memᴰ e) (ok_inj h2) (Memᴰ.head refl), ap (registry_entry ps) at ∙ made)
circuit_registry-of ps l (x ∷ loaded) es (Memᴰ.tail mem) h =
    bind_ok (registry_entry ps x) h λ e made h1.
      bind_ok (circuit_registry ps loaded) h1 λ more e2 h2.
        let (f, there, from) = circuit_registry-of ps l loaded more mem e2 in
        (f, subst (Memᴰ f) (ok_inj h2) (Memᴰ.tail there), from)

active-status :
    (status : List ℕ)
    → bytes_eq status (codes "active") ≡ true
    → status_of status ≡ ok CircuitStatus.active
unfolding status_of
active-status status h = rw h refl

provable-active : (l : Loaded) → is_provable l ≡ true → bytes_eq l.status (codes "active") ≡ true
unfolding is_provable
provable-active l h = and_left _ _ h

candidate-provable : (m : List ℕ) (l : Loaded) → is_candidate m l ≡ true → is_provable l ≡ true
unfolding is_candidate
candidate-provable m l h = and_left _ _ h

entry-Verifies :
    (ps : List ℕ) (l : Loaded) (c : Constants) (e : RegistryEntry)
    → bytes_eq l.status (codes "active") ≡ true
    → circuit_module ps l ≡ ok c
    → registry_entry ps l ≡ ok e
    → Verifies c ps e
unfolding circuit_module circuit_constants registry_entry
entry-Verifies ps l c e active h k = bind_ok (expect l.abi) h λ params e1 h1.
    bind_ok (public_input_count params) h1 λ count e2 h2.
      bind_ok (proof_words l.vk count ps) h2 λ words e3 h3.
        bind_ok (status_of l.status) k λ status e4 k1.
          let is_active : status ≡ CircuitStatus.active =
            ok_inj (sym e4 ∙ active-status l.status active) in
          subst (λ c'. Verifies c' ps e) (ok_inj h3)
            (subst (Verifies _ ps) (ok_inj k1) (record {
              active = is_active;
              system = refl;
              label = refl;
              version = refl;
              circuit_hash = refl;
              vk_bytes = refl;
              vk_hash = refl;
            }))

-- Where the build succeeds, the registry has an active entry for every circuit module, with the manifest's
-- proof system and with the label, version, identity and verification key of that module.
pub build-Verifies :
    (C : Codecs) (resources : Resources) (manifest : Manifest) (g : Generated) (m : List ℕ)
    (c : Constants)
    → build C resources manifest ≡ ok g
    → lookup bytes_eq m g.modules ≡ some c
    → (proof_system : List ℕ) × (e : RegistryEntry) × (manifest.proof_system ≡ some proof_system)
      × Memᴰ e g.registry
      × Verifies c proof_system e
unfolding build circuit_modules
build-Verifies C resources manifest g m c h found =
    bind_ok (expect manifest.proof_system) h λ ps e1 h1.
      bind_ok (load_circuits C resources manifest.circuits) h1 λ loaded e2 h2.
        bind_ok (modules_loop ps (heads loaded)) h2 λ modules e3 h3.
          bind_ok (circuit_registry ps loaded) h3 λ registry e4 h4.
            bind_ok (l2_registry loaded manifest.chains) h4 λ l2 e5 h5.
              let found' : lookup bytes_eq m modules ≡ some c =
                ap (λ x. lookup bytes_eq m x.modules) (ok_inj h5) ∙ found in
              let (l, at, made) = modules_loop-from ps m (heads loaded) modules c e3 found' in
              let (mem, counts, _) =
                subst (λ o. IsLatest m o loaded) at (heads-IsLatest m loaded) in
              let (e, there, from) = circuit_registry-of ps l loaded registry mem e4 in
              (
                ps,
                e,
                expect-eq-ok _ e1,
                subst (λ x. Memᴰ e x.registry) (ok_inj h5) there,
                entry-Verifies ps l c e (provable-active l (candidate-provable m l counts)) made
                    from,
              )
