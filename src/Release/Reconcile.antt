-- ===== src/Release/Reconcile.antt =====
-- Reconciling the files with the statuses keeps what the registry is built from.

use outbe_circuits.Prelude.{
  ℕ, ◌%◌, ◌<◌, ◌≡◌, refl, sym, ap, ◌∙◌, inl, inr, true, false, Option, none, some, List, [], ◌∷◌,
  arith, ok, ◌>>=◌, expect, ◌==◌, if◌then◌else◌, Bool-cases, length, bind_ok, ok_inj, expect-eq-ok,
}
use outbe_circuits.Error.{Error}
use outbe_circuits.Text.{trim}
use outbe_circuits.Bytes.{IsBytes}
use outbe_circuits.Hex.{hex, hex_digit, unhex-hex, length-hex}
use outbe_circuits.Slices.{bytes_eq, bytes_eq_iff}
use outbe_circuits.Registry.Manifest.{Entry, Artifacts, Resources, Codecs, Loaded}
use outbe_circuits.Registry.Load.{is_some, strip_0x, hex_to_32, circuit_hash_of, abi_of, load_entry}
use outbe_circuits.Release.Workspace.{update, keccak_hex, hash_kept, decoded, preserved}

-- A digest has 32 bytes.
pub record IsDigest (C : Codecs) : Type 0 where
  pub bytes : (input : List ℕ) → IsBytes (C.keccak256 input)
  pub width : (input : List ℕ) → length (C.keccak256 input) ≡ 32

hex_not_x : (b : ℕ) → b < 256 → (hex_digit (b % 16) == 120) ≡ false
unfolding hex_digit
hex_not_x b h = ground arith

pub strip_0x-hex : (bytes : List ℕ) → IsBytes bytes → strip_0x (hex bytes) ≡ hex bytes
unfolding hex
strip_0x-hex [] all = refl
strip_0x-hex (b ∷ bytes) (h, all) = ground (arith, hex_not_x b h)

-- What the release tool keeps of a digest is what the build script reads.
hex_to_32-keccak_hex :
    (C : Codecs) (acir : List ℕ)
    → IsDigest C
    → hex_to_32 (keccak_hex C acir) ≡ ok (C.keccak256 acir)
unfolding hex_to_32 keccak_hex
hex_to_32-keccak_hex C acir d =
    let size : length (hex (C.keccak256 acir)) ≡ 64 =
      length-hex (C.keccak256 acir) ∙ omega (arith, d.width acir) in
    rw
      (
        strip_0x-hex (C.keccak256 acir) (d.bytes acir),
        size,
        unhex-hex (C.keccak256 acir) (d.bytes acir),
      )
      refl

-- An entry that has kept a hash has the one of its bytecode, where that is still there.
abbrev pub IsConsistent : Codecs → Resources → Entry → Type 0
IsConsistent C resources e =
    (kept bytecode : List ℕ)
    → e.circuit_hash ≡ some kept
    → (resources e.module_name e.version).bytecode ≡ some bytecode
    → circuit_hash_of C (some bytecode) none ≡ hex_to_32 kept

-- The same identity, under the same name.
pub record SameIdentity (l k : Loaded) : Type 0 where
  pub module_name : k.module_name ≡ l.module_name
  pub label : k.label ≡ l.label
  pub version : k.version ≡ l.version
  pub circuit_hash : k.circuit_hash ≡ l.circuit_hash
  pub vk_hash : k.vk_hash ≡ l.vk_hash
  pub vk : k.vk ≡ l.vk

-- The identity survives the loss of the bytecode.
pub identity_kept :
    (C : Codecs) (bytecode kept : Option (List ℕ)) (hash : List ℕ)
    → IsDigest C
    → ((k b : List ℕ)
        → kept ≡ some k
        → bytecode ≡ some b
        → circuit_hash_of C (some b) none ≡ hex_to_32 k)
    → circuit_hash_of C bytecode kept ≡ ok hash
    → circuit_hash_of C none (if is_some kept then kept else hash_kept C (decoded C bytecode))
      ≡ ok hash
unfolding circuit_hash_of
identity_kept C none (some k) hash d same h = h
identity_kept C none none hash d same h = cc
identity_kept C (some b) (some k) hash d same h = sym (same k b refl refl) ∙ h
identity_kept C (some b) none hash d same h = given (C.base64_decode (trim b)) h
  where
    given :
        (o : Option (List ℕ))
        → (expect {E = Error} o >>= (λ acir. ok (C.keccak256 acir))) ≡ ok hash
        → (expect {E = Error} (hash_kept C o) >>= (λ k. hex_to_32 k)) ≡ ok hash
    given none e = cc
    given (some acir) e = hex_to_32-keccak_hex C acir d ∙ e

-- What loads of an entry, given its files.
pub loads :
    (C : Codecs) (resources : Resources) (e : Entry) (l : Loaded)
    → load_entry C resources e ≡ ok l
    → (vk : List ℕ) × (hash : List ℕ) × ((resources e.module_name e.version).vk ≡ some vk)
      × (circuit_hash_of C (resources e.module_name e.version).bytecode e.circuit_hash ≡ ok hash)
      × (l.module_name ≡ e.module_name)
      × (l.label ≡ e.label)
      × (l.version ≡ e.version)
      × (l.circuit_hash ≡ hash)
      × (l.vk_hash ≡ C.keccak256 vk)
      × (l.vk ≡ vk)
unfolding load_entry
loads C resources e l h = bind_ok (expect (resources e.module_name e.version).vk) h λ vk e1 h1.
    bind_ok (circuit_hash_of C (resources e.module_name e.version).bytecode e.circuit_hash) h1
      λ hash e2 h2. bind_ok (abi_of C (resources e.module_name e.version).abi) h2 λ abi e3 h3.
        let is : _ ≡ l = ok_inj h3 in
        (
          vk,
          hash,
          expect-eq-ok _ e1,
          e2,
          sym (ap (λ (x : Loaded). x.module_name) is),
          sym (ap (λ (x : Loaded). x.label) is),
          sym (ap (λ (x : Loaded). x.version) is),
          sym (ap (λ (x : Loaded). x.circuit_hash) is),
          sym (ap (λ (x : Loaded). x.vk_hash) is),
          sym (ap (λ (x : Loaded). x.vk) is),
        )

-- Files of a version without bytecode and ABI load by the kept hash.
pub load_entry-kept :
    (C : Codecs) (resources : Resources) (e : Entry) (vk hash : List ℕ)
    → resources e.module_name e.version ≡ record { vk = some vk; bytecode = none; abi = none }
    → circuit_hash_of C none e.circuit_hash ≡ ok hash
    → load_entry C resources e
      ≡ ok (record {
        module_name = e.module_name;
        label = e.label;
        version = e.version;
        status = e.status;
        circuit_hash = hash;
        vk_hash = C.keccak256 vk;
        vk = vk;
        abi = none;
        has_bytecode = false;
      })
unfolding load_entry
load_entry-kept C resources e vk hash files kept = rw (files, kept) refl

pub bytes_eq_refl : (xs : List ℕ) → bytes_eq xs xs ≡ true
bytes_eq_refl xs = (bytes_eq_iff xs xs).1 refl

pub update_self :
    (resources : Resources) (m v : List ℕ) (files : Artifacts)
    → update resources m v files m v ≡ files
update_self resources m v files = rw (bytes_eq_refl m, bytes_eq_refl v) refl

pub record PreservedAs (C : Codecs) (resources : Resources) (e : Entry) : Type 0 where
  pub module_name : (preserved C resources e).module_name ≡ e.module_name
  pub label : (preserved C resources e).label ≡ e.label
  pub version : (preserved C resources e).version ≡ e.version
  pub kept : (preserved C resources e).circuit_hash ≡ (
      if is_some e.circuit_hash
      then e.circuit_hash
      else hash_kept C (decoded C (resources e.module_name e.version).bytecode))

pub preserved-PreservedAs :
    (C : Codecs) (resources : Resources) (e : Entry) → PreservedAs C resources e
unfolding preserved
preserved-PreservedAs C resources e = elim (Bool-cases (is_some e.circuit_hash)) [
  | inl q ↦ record {
    module_name = simp q refl;
    label = simp q refl;
    version = simp q refl;
    kept = simp q refl;
  }
  | inr q ↦ record {
    module_name = simp q refl;
    label = simp q refl;
    version = simp q refl;
    kept = simp q refl;
  }
]
