-- ===== src/Pool.antt =====
-- crates/outbe-protocol/src/protocol/shielded_pool.rs
use outbe_circuits.Prelude.{List, [], ◌∷◌, Result, ◌>>=◌, length}
use outbe_circuits.Error.{Error}
use outbe_circuits.Field.{PoseidonHasher, PrimeField}
use outbe_circuits.Hash.{poseidon2, iterate, ascii_field}

module _ {Fr : Type 0} where
  -- `ShieldedPool::tag`
  unfoldable pub tag : ⦃P : PoseidonHasher Fr⦄ → Fr → Fr → Result Error Fr
  tag domain base = poseidon2 (domain ∷ base ∷ [])

module _ {Fr : Type 0} ⦃F : PrimeField Fr⦄ where
  -- "NOTE_SN"
  unfoldable pub tag_note_sn : Fr
  tag_note_sn = ascii_field (78 ∷ 79 ∷ 84 ∷ 69 ∷ 95 ∷ 83 ∷ 78 ∷ [])

  -- "COMMITMENT"
  unfoldable pub tag_commitment : Fr
  tag_commitment = ascii_field (67 ∷ 79 ∷ 77 ∷ 77 ∷ 73 ∷ 84 ∷ 77 ∷ 69 ∷ 78 ∷ 84 ∷ [])

  -- "NULLIFIER"
  unfoldable pub tag_nullifier : Fr
  tag_nullifier = ascii_field (78 ∷ 85 ∷ 76 ∷ 76 ∷ 73 ∷ 70 ∷ 73 ∷ 69 ∷ 82 ∷ [])

  -- "CHANGE_KEY"
  unfoldable pub tag_change_key : Fr
  tag_change_key = ascii_field (67 ∷ 72 ∷ 65 ∷ 78 ∷ 71 ∷ 69 ∷ 95 ∷ 75 ∷ 69 ∷ 89 ∷ [])

  -- "EMPTY"
  unfoldable pub tag_empty : Fr
  tag_empty = ascii_field (69 ∷ 77 ∷ 80 ∷ 84 ∷ 89 ∷ [])

  unfoldable pub hash_multi : ⦃P : PoseidonHasher Fr⦄ → Fr → List Fr → Result Error Fr
  hash_multi tag values = do
    seed ← poseidon2 (tag ∷ F.from (length values) ∷ [])
    iterate seed values
