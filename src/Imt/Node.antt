-- ===== src/Imt/Node.antt =====
-- imt.rs: depths, node hashes and the roots of empty subtrees.
use outbe_circuits.Prelude.{
  ℕ, zero, suc, ◌-◌, ◌%◌, Bool, ◌&&◌, List, [], ◌∷◌, ◌++◌, Result, ok, err, ◌>>=◌, ◌>>◌, index, leb,
  ◌==◌, if◌then◌else◌,
}
use outbe_circuits.Error.{Error, Message, Arg}
use outbe_circuits.Field.{PoseidonHasher}
use outbe_circuits.Hash.{poseidon2}

-- `index & 1 == 0`
unfoldable pub is_left : ℕ → Bool
is_left i = i % 2 == 0

abbrev pub depth_range : ℕ → Error
depth_range depth =
    Error.merkle (Message.fmt "tree depth must be in 1..=63, got {depth}" (Arg.num depth ∷ []))

unfoldable pub validate_depth : ℕ → Result Error (Unit {0})
validate_depth depth = if leb 1 depth && leb depth 63 then ok tt else err (depth_range depth)

module _ {Fr : Type 0} ⦃P : PoseidonHasher Fr⦄ where
  unfoldable pub node_hash : Fr → Fr → Fr → Result Error Fr
  node_hash domain left right = poseidon2 (domain ∷ left ∷ right ∷ [])

  -- `for level in 1..=depth`, over the rounds left.
  unfoldable pub empty_roots_loop : Fr → ℕ → ℕ → List Fr → Result Error (List Fr)
  empty_roots_loop domain zero level roots = ok roots
  empty_roots_loop domain (suc rounds) level roots = do
    below ← index roots (level - 1)
    root ← node_hash domain below below
    empty_roots_loop domain rounds (suc level) (roots ++ root ∷ [])

  unfoldable pub empty_roots : Fr → Fr → ℕ → Result Error (List Fr)
  empty_roots domain empty_leaf depth = do
    validate_depth depth
    empty_roots_loop domain depth 1 (empty_leaf ∷ [])

  unfoldable pub empty_root : Fr → Fr → ℕ → Result Error Fr
  empty_root domain empty_leaf depth = do
    roots ← empty_roots domain empty_leaf depth
    index roots depth
