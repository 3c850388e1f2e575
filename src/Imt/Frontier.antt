-- ===== src/Imt/Frontier.antt =====
-- imt.rs: the stateless append to a frontier, `Imt::frontier_append`.
use outbe_circuits.Prelude.{
  ℕ, zero, suc, ◌+◌, ◌-◌, ◌/◌, ◌^◌, true, false, List, [], ◌∷◌, Option, none, some, Result, ok,
  ◌>>=◌, ◌>>◌, guard, index, length, ltb, ◌==◌,
}
use outbe_circuits.Error.{Error, Message, Arg}
use outbe_circuits.Field.{PoseidonHasher}
use outbe_circuits.Imt.Node.{is_left, validate_depth, node_hash}

-- `struct Append`
pub record Append (Fr : Type 0) : Type 0 where
  pub changed_level : ℕ
  pub new_subtree : Fr
  pub new_root : Fr

abbrev pub empties_mismatch : ℕ → ℕ → Error
empties_mismatch actual expected = Error.merkle (
    Message.fmt "frontier_append: empty_roots.len() ({}) must be frontier.len()+1 ({})"
      (Arg.num actual ∷ Arg.num expected ∷ []))

abbrev pub index_overflow : ℕ → ℕ → Error
index_overflow next_index depth = Error.merkle (
    Message.fmt "frontier_append: next_index {next_index} overflows depth-{depth} tree"
      (Arg.num next_index ∷ Arg.num depth ∷ []))

-- `changed.is_none()` keeps the first left turn.
abbrev pub first_change : {Fr : Type 0} → Option (ℕ × Fr) → ℕ × Fr → Option (ℕ × Fr)
first_change none c = some c
first_change (some c') c = some c'

-- The slot that the append reports: the top one, unchanged, when the tree is complete.
abbrev pub changed_slot : {Fr : Type 0} → List Fr → Option (ℕ × Fr) → Result Error (ℕ × Fr)
changed_slot frontier (some c) = ok c
changed_slot frontier none = do
  top ← index frontier (length frontier - 1)
  ok (length frontier - 1, top)

module _ {Fr : Type 0} ⦃P : PoseidonHasher Fr⦄ where
  -- `for level in 0..depth`, over the rounds left.
  unfoldable pub frontier_loop :
      Fr
      → List Fr
      → List Fr
      → ℕ
      → ℕ
      → ℕ
      → Fr
      → Option (ℕ × Fr)
      → Result Error (Fr × Option (ℕ × Fr))
  frontier_loop domain frontier empties zero level position current changed = ok (current, changed)
  frontier_loop domain frontier empties (suc rounds) level position current changed =
      elim (is_left position) [
        | true ↦ do
          empty ← index empties level
          next ← node_hash domain current empty
          frontier_loop domain frontier empties rounds (suc level) (position / 2) next
              (first_change changed (level, current))
        | false ↦ do
          left ← index frontier level
          next ← node_hash domain left current
          frontier_loop domain frontier empties rounds (suc level) (position / 2) next changed
      ]

  unfoldable pub frontier_append : Fr → List Fr → ℕ → Fr → List Fr → Result Error (Append Fr)
  frontier_append domain frontier next_index leaf empties = do
    let depth = length frontier
    validate_depth depth
    guard (length empties == depth + 1) (empties_mismatch (length empties) (depth + 1))
    guard (ltb next_index (2 ^ depth)) (index_overflow next_index depth)
    (root, changed) ← frontier_loop domain frontier empties depth 0 next_index leaf none
    (level, subtree) ← changed_slot frontier changed
    ok (record { changed_level = level; new_subtree = subtree; new_root = root })
