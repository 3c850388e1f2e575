-- ===== src/Demo/Runs.antt =====
-- A demo tribute witness over the residues, for a tree of depth 32 with one leaf.
use outbe_circuits.Prelude.{
  ℕ, ◌≡◌, refl, ◌⊎◌, Option, none, some, [], ◌∷◌, arith, Result, ok, err, panic, length, get_elem?,
}
use outbe_circuits.Error.{Error}
use outbe_circuits.Field.{IsLawful}
use outbe_circuits.FieldRuns.{Residue, bn254, bn254-IsLawful}
use outbe_circuits.Notes.Runs.{toy, toy_sum}
use outbe_circuits.Hash.{derive_owner}
use outbe_circuits.Signature.Runs.{toy_suite}
use outbe_circuits.Keys.{OwnerSeed}
use outbe_circuits.Imt.Node.{node_hash}
use outbe_circuits.Imt.Path.{InclusionPath}
use outbe_circuits.Imt.Spec.{empties, tree_levels}
use outbe_circuits.Imt.Tree.{Imt, inclusion_path}
use outbe_circuits.Imt.Tree
use outbe_circuits.Imt.Append.{Hashes, IsTree}
use outbe_circuits.Imt.Binding.{path_pairs, root-cases}
use outbe_circuits.Imt.Path
use outbe_circuits.Notes.NoteLaws.{Clash}
use outbe_circuits.Ownership.{Entity, NftSigner, receipt_entity}
use outbe_circuits.Demo.{Witness, PublicInputs, demo_tribute_domain, derive_demo_tribute_witness}
use outbe_circuits.Demo.Inclusion.{circuit_root, derive_demo_tribute_witness-root}

abbrev nonce : Residue
nonce = bn254.from 17

abbrev seed : OwnerSeed Residue ℕ
seed = record { pk = 13; nonce = nonce }

abbrev signer : NftSigner Residue ℕ
signer = record { owner_seed = seed; sign = λ payload. some (ok []) }

abbrev owner_of : Result Error Residue → Residue
owner_of (ok o) = o
owner_of (err e) = nonce
owner_of panic = nonce

abbrev leaf : Residue
leaf = bn254.from 99

abbrev entity : Entity Residue
entity = receipt_entity (record {
  id = bn254.from 1;
  owner = owner_of (derive_owner ⦃A = toy_suite.A⦄ seed.pk nonce);
  nft_hash = leaf;
})

abbrev domain : Residue
domain = demo_tribute_domain toy_suite

abbrev H : Residue → Residue → Residue
H l r = bn254.from (toy_sum (domain ∷ l ∷ r ∷ []))

hashes : Hashes domain H
unfolding node_hash toy outbe_circuits.Hash.poseidon2
hashes l r = refl

abbrev tree : Imt Residue
tree = record {
  domain = domain;
  depth = 32;
  empty_roots = empties H (bn254.from 0) 32 0;
  levels = tree_levels H (bn254.from 0) 32 0 (leaf ∷ []);
}

tree-IsTree : IsTree H (bn254.from 0) tree (leaf ∷ [])
tree-IsTree = record {
  depth_pos = omega arith;
  depth_max = omega arith;
  stored_empties = refl;
  stored_levels = refl;
  fits = omega arith;
}

abbrev path_of : Result Error (InclusionPath Residue) → InclusionPath Residue
path_of (ok p) = p
path_of (err e) = record { domain = domain; leaf_index = 0; siblings = [] }
path_of panic = record { domain = domain; leaf_index = 0; siblings = [] }

abbrev path : InclusionPath Residue
path = path_of (inclusion_path tree 0)

from_tree : inclusion_path tree 0 ≡ ok path
unfolding inclusion_path Tree.leaves tree_levels Tree.siblings_loop empties
from_tree = refl

abbrev nothing : Witness Residue × PublicInputs Residue
nothing = (
  record {
    x = nonce;
    y = nonce;
    signature = [];
    nonce = nonce;
    merkle_path_siblings = [];
    merkle_path_indices = [];
  },
  record { derived_owner = nonce; nft_hash = nonce; binding_hash = nonce; merkle_root = nonce },
)

abbrev made_of :
    Option (Result Error (Witness Residue × PublicInputs Residue))
    → Witness Residue × PublicInputs Residue
made_of none = nothing
made_of (some (ok r)) = r
made_of (some (err e)) = nothing
made_of (some panic) = nothing

abbrev made : Witness Residue × PublicInputs Residue
made = made_of (derive_demo_tribute_witness toy_suite entity signer (bn254.from 5) path)

made_run : derive_demo_tribute_witness toy_suite entity signer (bn254.from 5) path ≡ some (ok made)
unfolding derive_demo_tribute_witness outbe_circuits.Demo.path_checked inclusion_path Tree.leaves
    tree_levels Tree.siblings_loop empties toy_suite bn254 demo_tribute_domain
    outbe_circuits.Bytes.from_be_bytes outbe_circuits.Bytes.be_loop
    outbe_circuits.Ownership.owner_checked derive_owner outbe_circuits.Hash.coords
    outbe_circuits.Hash.poseidon2 toy receipt_entity outbe_circuits.Bytes.to_be_bytes
    outbe_circuits.Demo.assemble outbe_circuits.Field.bits_loop outbe_circuits.Hash.signing_payload
    outbe_circuits.Imt.Node.is_left node_hash outbe_circuits.Imt.Node.validate_depth
    outbe_circuits.Imt.Path.circuit_indices outbe_circuits.Imt.Path.index_bits
    outbe_circuits.Imt.Path.path_loop outbe_circuits.Imt.Path.root
    outbe_circuits.Imt.Path.root_from_inclusion_path outbe_circuits.Imt.Spec.pair_up toy_sum
made_run = refl

leaf_found : get_elem? (leaf ∷ []) 0 ≡ some made.1.nft_hash
unfolding derive_demo_tribute_witness outbe_circuits.Demo.path_checked inclusion_path Tree.leaves
    tree_levels Tree.siblings_loop empties toy_suite bn254 demo_tribute_domain
    outbe_circuits.Bytes.from_be_bytes outbe_circuits.Bytes.be_loop
    outbe_circuits.Ownership.owner_checked derive_owner outbe_circuits.Hash.coords
    outbe_circuits.Hash.poseidon2 toy receipt_entity outbe_circuits.Bytes.to_be_bytes
    outbe_circuits.Demo.assemble outbe_circuits.Field.bits_loop outbe_circuits.Hash.signing_payload
    outbe_circuits.Imt.Node.is_left node_hash outbe_circuits.Imt.Node.validate_depth
    outbe_circuits.Imt.Path.circuit_indices outbe_circuits.Imt.Path.index_bits
    outbe_circuits.Imt.Path.path_loop outbe_circuits.Imt.Path.root
    outbe_circuits.Imt.Path.root_from_inclusion_path outbe_circuits.Imt.Spec.pair_up toy_sum
leaf_found = refl

base-IsLawful : IsLawful toy_suite.F
unfolding toy_suite
base-IsLawful = bn254-IsLawful

derive_demo_tribute_witness-root_example :
    (Tree.root tree ≡ ok made.1.merkle_root)
    × (circuit_root
          (demo_tribute_domain toy_suite)
          made.1.nft_hash
          made.0.merkle_path_siblings
          made.0.merkle_path_indices
        ≡ ok made.1.merkle_root)
    × (tree.domain ≡ demo_tribute_domain toy_suite)
    × (length made.0.merkle_path_siblings ≡ 32)
    × (length made.0.merkle_path_indices ≡ 32)
    × (entity.entity_hash ≡ ok made.1.nft_hash)
    × (entity.owner ≡ ok made.1.derived_owner)
    × (made.1.binding_hash ≡ bn254.from 5)
derive_demo_tribute_witness-root_example =
    derive_demo_tribute_witness-root toy_suite H (bn254.from 0) tree (leaf ∷ []) 0 entity signer
      (bn254.from 5) path made.0 made.1 base-IsLawful hashes tree-IsTree from_tree leaf_found
      made_run

abbrev root_of : Result Error Residue → Residue
root_of (ok r) = r
root_of (err e) = nonce
root_of panic = nonce

rooted : Tree.root tree ≡ ok (root_of (Tree.root tree))
unfolding Tree.root tree_levels empties
rooted = refl

path_rooted : Path.root path leaf ≡ ok (root_of (Tree.root tree))
unfolding Tree.root Path.root Path.root_from_inclusion_path outbe_circuits.Imt.Node.validate_depth
    inclusion_path Tree.leaves tree_levels Tree.siblings_loop empties Path.path_loop
    outbe_circuits.Imt.Node.is_left node_hash outbe_circuits.Hash.poseidon2 toy
    outbe_circuits.Imt.Spec.pair_up
path_rooted = refl

leaf_stored : get_elem? (leaf ∷ []) path.leaf_index ≡ some leaf
unfolding inclusion_path Tree.leaves tree_levels Tree.siblings_loop empties
leaf_stored = refl

root-cases_example :
    (own : InclusionPath Residue) × (inclusion_path tree path.leaf_index ≡ ok own)
    × (((leaf ≡ leaf) × (path ≡ own))
        ⊎ Clash H
            (path_pairs H path.leaf_index leaf path.siblings)
            (path_pairs H path.leaf_index leaf own.siblings))
unfolding inclusion_path Tree.leaves tree_levels Tree.siblings_loop empties
root-cases_example =
    root-cases ⦃F = bn254⦄ H (bn254.from 0) tree (leaf ∷ []) path leaf leaf
      (root_of (Tree.root tree)) bn254-IsLawful hashes tree-IsTree leaf_stored refl refl rooted
      path_rooted
