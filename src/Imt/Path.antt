-- ===== src/Imt/Path.antt =====
-- imt.rs: inclusion paths.
use outbe_circuits.Prelude.{
  ℕ, zero, suc, ◌+◌, ◌/◌, ◌^◌, Bool, List, [], ◌∷◌, Result, ok, ◌>>=◌, ◌>>◌, guard, length, ltb,
  if◌then◌else◌,
}
use outbe_circuits.Error.{Error, Message, Arg}
use outbe_circuits.Field.{PoseidonHasher}
use outbe_circuits.Imt.Node.{is_left, validate_depth, node_hash}

-- `struct InclusionPath`
pub record InclusionPath (Fr : Type 0) : Type 0 where
  pub domain : Fr
  pub leaf_index : ℕ
  pub siblings : List Fr

abbrev pub leaf_overflow : ℕ → ℕ → Error
leaf_overflow leaf_index depth = Error.merkle (
    Message.fmt "root_from_inclusion_path: leaf_index {leaf_index} overflows depth-{depth} tree"
      (Arg.num leaf_index ∷ Arg.num depth ∷ []))

module _ {Fr : Type 0} ⦃P : PoseidonHasher Fr⦄ where
  unfoldable pub path_loop : Fr → ℕ → Fr → List Fr → Result Error Fr
  path_loop domain position current [] = ok current
  path_loop domain position current (sibling ∷ siblings) = do
    next ←
        if is_left position
        then node_hash domain current sibling
        else node_hash domain sibling current
    path_loop domain (position / 2) next siblings

  unfoldable pub root_from_inclusion_path : Fr → Fr → ℕ → List Fr → Result Error Fr
  root_from_inclusion_path domain leaf leaf_index siblings = do
    let depth = length siblings
    validate_depth depth
    guard (ltb leaf_index (2 ^ depth)) (leaf_overflow leaf_index depth)
    path_loop domain leaf_index leaf siblings

  -- `InclusionPath::root`
  unfoldable pub root : InclusionPath Fr → Fr → Result Error Fr
  root path leaf = root_from_inclusion_path path.domain leaf path.leaf_index path.siblings

-- `(self.leaf_index >> i) & 1 == 0` for `i` in `0..depth`.
unfoldable pub index_bits : ℕ → ℕ → ℕ → List Bool
index_bits zero i leaf_index = []
index_bits (suc rounds) i leaf_index =
    is_left (leaf_index / 2 ^ i) ∷ index_bits rounds (i + 1) leaf_index

abbrev pub indices_overflow : ℕ → ℕ → Error
indices_overflow leaf_index depth = Error.merkle (
    Message.fmt "circuit_indices: leaf_index {} overflows depth-{depth} tree"
      (Arg.num leaf_index ∷ Arg.num depth ∷ []))

-- `InclusionPath::circuit_indices`
unfoldable pub circuit_indices : {Fr : Type 0} → InclusionPath Fr → Result Error (List Bool)
circuit_indices path = do
  let depth = length path.siblings
  validate_depth depth
  guard (ltb path.leaf_index (2 ^ depth)) (indices_overflow path.leaf_index depth)
  ok (index_bits depth 0 path.leaf_index)
