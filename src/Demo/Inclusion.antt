-- ===== src/Demo/Inclusion.antt =====
-- A demo tribute witness folds to the root of the tree that its path is from.
use native.Mathlib.Nat.{div-div-eq-div-mul}
use mathlib.Core.Path.{subst}
use outbe_circuits.Prelude.{
  ℕ, suc, ◌+◌, ◌*◌, ◌/◌, ◌^◌, ◌≡◌, refl, sym, ap, ◌∙◌, Bool, some, List, [], ◌∷◌, arith, Result, ok,
  err, panic, ◌>>=◌, guard, ltb, ◌==◌, if◌then◌else◌, ==_iff, length, get_elem?, bind_ok, ok_inj,
  guard-eq-ok,
}
use outbe_circuits.Error.{Error}
use outbe_circuits.Field.{PoseidonHasher, IsLawful}
use outbe_circuits.Hash.{coords}
use outbe_circuits.Curve.{Suite}
use outbe_circuits.Imt.Node.{is_left, node_hash, validate_depth}
use outbe_circuits.Imt.Path.{
  InclusionPath, root, path_loop, root_from_inclusion_path, index_bits, circuit_indices,
}
use outbe_circuits.Imt.Tree.{Imt, inclusion_path}
use outbe_circuits.Imt.Tree
use outbe_circuits.Imt.Append.{Hashes}
use outbe_circuits.Imt.Append.{IsTree}
use outbe_circuits.Imt.PathLaws.{root-inclusion_path}
use outbe_circuits.Imt.Binding.{inclusion_path-domain}
use outbe_circuits.Ownership.{Entity, NftSigner, owner_checked, before_ok, signed_ok, checked_parts}
use outbe_circuits.Demo.{
  Witness, PublicInputs, demo_tribute_domain, path_checked, assemble, derive_demo_tribute_witness,
}

doubled : (i : ℕ) → 2 ^ i * 2 ≡ 2 ^ (i + 1)
doubled i =
    let q : i + 1 ≡ suc i = omega arith in
    let p : 2 ^ suc i ≡ 2 ^ i * 2 = grind arith in rw q (sym p)

halved : (leaf i : ℕ) → leaf / 2 ^ i / 2 ≡ leaf / 2 ^ (i + 1)
halved leaf i = div-div-eq-div-mul leaf (2 ^ i) 2 ∙ ap (λ d. leaf / d) (doubled i)

-- Two continuations that agree.
bind_agree :
    {E A B : Type 0} (m : Result E A) (f g : A → Result E B)
    → ((a : A) → f a ≡ g a)
    → ◌≡◌ {A = Result E B} (m >>= f) (m >>= g)
bind_agree (ok a) f g h = h a
bind_agree (err e) f g h = refl
bind_agree panic f g h = refl

module _ {Fr : Type 0} ⦃P : PoseidonHasher Fr⦄ where
  -- What the circuit computes of its inputs: each level is told by its bit which side it is on.
  unfoldable pub circuit_root : Fr → Fr → List Fr → List Bool → Result Error Fr
  circuit_root domain current [] indices = ok current
  circuit_root domain current (sibling ∷ siblings) [] = panic
  circuit_root domain current (sibling ∷ siblings) (left ∷ indices) = do
    next ← if left then node_hash domain current sibling else node_hash domain sibling current
    circuit_root domain next siblings indices

  path_loop-circuit_root :
      (domain current : Fr) (siblings : List Fr) (leaf i : ℕ)
      → path_loop domain (leaf / 2 ^ i) current siblings
        ≡ circuit_root domain current siblings (index_bits (length siblings) i leaf)
  unfolding path_loop circuit_root index_bits
  path_loop-circuit_root domain current [] leaf i = refl
  path_loop-circuit_root domain current (sibling ∷ siblings) leaf i =
      bind_agree
        (if is_left (leaf / 2 ^ i)
          then node_hash domain current sibling
          else node_hash domain sibling current)
        _ _
        λ next.
          ap (λ q. path_loop domain q next siblings) (halved leaf i)
          ∙ path_loop-circuit_root domain next siblings leaf (i + 1)

module _ {Fr : Type 0} ⦃P : PoseidonHasher Fr⦄ where
  -- The circuit folds the siblings and the bits of a path to the path's root.
  circuit_root-root :
      (path : InclusionPath Fr) (leaf r : Fr) (indices : List Bool)
      → root path leaf ≡ ok r
      → circuit_indices path ≡ ok indices
      → circuit_root path.domain leaf path.siblings indices ≡ ok r
  unfolding root root_from_inclusion_path circuit_indices
  circuit_root-root path leaf r indices h k =
      bind_ok (validate_depth (length path.siblings)) h λ u1 e1 h1.
        bind_ok (guard (ltb path.leaf_index (2 ^ length path.siblings)) _) h1 λ u2 e2 h2.
          bind_ok (validate_depth (length path.siblings)) k λ u3 e3 k1.
            bind_ok (guard (ltb path.leaf_index (2 ^ length path.siblings)) _) k1 λ u4 e4 k2.
              let whole : path.leaf_index ≡ path.leaf_index / 2 ^ 0 = omega arith in
              rw (← ok_inj k2) (
                sym (path_loop-circuit_root path.domain leaf path.siblings path.leaf_index 0)
                ∙ ap (λ q. path_loop path.domain q leaf path.siblings) (sym whole)
                ∙ h2)

-- What a witness and its public inputs hold.
record Assembled {Fr : Type 0} ⦃P : PoseidonHasher Fr⦄ (path : InclusionPath Fr)
    (binding owner hash : Fr) (witness : Witness Fr) (public : PublicInputs Fr) : Type 0 where
  merkle_root : root path hash ≡ ok public.merkle_root
  siblings : witness.merkle_path_siblings ≡ path.siblings
  indices : circuit_indices path ≡ ok witness.merkle_path_indices
  width : length witness.merkle_path_indices ≡ 32
  nft_hash : public.nft_hash ≡ hash
  derived_owner : public.derived_owner ≡ owner
  binding_hash : public.binding_hash ≡ binding

assemble-Assembled :
    {Fr Scalar Point : Type 0} ⦃P : PoseidonHasher Fr⦄ (U : Suite Fr Scalar Point)
    (path : InclusionPath Fr) (pk : Point) (nonce binding owner hash : Fr) (signature : List ℕ)
    (witness : Witness Fr) (public : PublicInputs Fr)
    → assemble U path pk nonce binding owner hash signature ≡ ok (witness, public)
    → Assembled path binding owner hash witness public
unfolding assemble
assemble-Assembled U path pk nonce binding owner hash signature witness public h =
    bind_ok (coords ⦃A = U.A⦄ pk) h λ (x, y) e1 h1. bind_ok (root path hash) h1 λ merkle_root e2 h2.
      bind_ok (guard (length path.siblings == 32) _) h2 λ u3 e3 h3.
        bind_ok (circuit_indices path) h3 λ indices e4 h4.
          bind_ok (guard (length indices == 32) _) h4 λ u5 e5 h5.
            subst (λ r. Assembled path binding owner hash r.0 r.1) (ok_inj h5)
              (record {
                merkle_root = e2;
                siblings = refl;
                indices = e4;
                width = (==_iff (length indices) 32).0 (guard-eq-ok _ _ e5);
                nft_hash = refl;
                derived_owner = refl;
                binding_hash = refl;
              })

path_checked-parts :
    {Fr Scalar Point : Type 0} ⦃P : PoseidonHasher Fr⦄ (U : Suite Fr Scalar Point)
    (path : InclusionPath Fr) {u : Unit {0}}
    → IsLawful U.F
    → path_checked U path ≡ ok u
    → (length path.siblings ≡ 32) × (path.domain ≡ demo_tribute_domain U)
unfolding path_checked
path_checked-parts U path lawful h = bind_ok (guard (length path.siblings == 32) _) h λ u1 e1 h1. (
  (==_iff (length path.siblings) 32).0 (guard-eq-ok _ _ e1),
  sym (lawful.from-into_bigint path.domain)
      ∙ ap U.F.from ((==_iff _ _).0 (guard-eq-ok _ _ h1))
      ∙ lawful.from-into_bigint (demo_tribute_domain U),
)

-- A witness that is built from the path a tree gives for a leaf, where that leaf is the entity's hash: the
-- public root is the tree's, the circuit folds the 32 siblings and bits to it, the tree has the domain of
-- the circuit, and the public inputs hold the entity's hash, its owner and the binding.
pub derive_demo_tribute_witness-root :
    {Fr Scalar Point : Type 0} ⦃P : PoseidonHasher Fr⦄ (U : Suite Fr Scalar Point)
    (H : Fr → Fr → Fr) (e : Fr) (t : Imt Fr) (xs : List Fr) (i : ℕ) (entity : Entity Fr)
    (signer : NftSigner Fr Point) (binding : Fr) (path : InclusionPath Fr) (witness : Witness Fr)
    (public : PublicInputs Fr)
    → IsLawful U.F
    → Hashes t.domain H
    → IsTree H e t xs
    → inclusion_path t i ≡ ok path
    → get_elem? xs i ≡ some public.nft_hash
    → derive_demo_tribute_witness U entity signer binding path ≡ some (ok (witness, public))
    → (Tree.root t ≡ ok public.merkle_root)
      × (circuit_root
            (demo_tribute_domain U)
            public.nft_hash
            witness.merkle_path_siblings
            witness.merkle_path_indices
          ≡ ok public.merkle_root)
      × (t.domain ≡ demo_tribute_domain U)
      × (length witness.merkle_path_siblings ≡ 32)
      × (length witness.merkle_path_indices ≡ 32)
      × (entity.entity_hash ≡ ok public.nft_hash)
      × (entity.owner ≡ ok public.derived_owner)
      × (public.binding_hash ≡ binding)
unfolding derive_demo_tribute_witness
derive_demo_tribute_witness-root U H e t xs i entity signer binding path witness public lawful
      hashes w from_tree leaf h =
    before_ok (path_checked U path) _ h λ u checked h1.
      before_ok (owner_checked U entity signer.owner_seed binding) _ h1
        λ (owner, hash, payload) owned h2. signed_ok (signer.sign payload) _ h2 λ signature made h3.
          let a : Assembled path binding owner hash witness public =
            assemble-Assembled U path signer.owner_seed.pk signer.owner_seed.nonce binding owner
              hash signature witness public h3 in
          let (depth, domain) = path_checked-parts U path lawful checked in
          let (p1, p2, p3, p4) =
            checked_parts U lawful entity signer.owner_seed binding owner hash payload owned in
          let (path', same, _, _, resolves) =
            root-inclusion_path H e t xs i public.nft_hash hashes w leaf in
          let is_path : path' ≡ path = ok_inj (sym same ∙ from_tree) in
          let rooted : root path public.nft_hash ≡ ok public.merkle_root =
            ap (root path) a.nft_hash ∙ a.merkle_root in
          (
            sym resolves ∙ ap (λ q. root q public.nft_hash) is_path ∙ rooted,
            rw (← domain, a.siblings)
                (circuit_root-root path public.nft_hash public.merkle_root
                  witness.merkle_path_indices rooted a.indices),
            sym (inclusion_path-domain t i path from_tree) ∙ domain,
            ap length a.siblings ∙ depth,
            a.width,
            p3 ∙ ap ok (sym a.nft_hash),
            p2 ∙ ap ok (sym a.derived_owner),
            a.binding_hash,
          )
