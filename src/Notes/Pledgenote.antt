-- ===== src/Notes/Pledgenote.antt =====
-- crates/outbe-zk-canonical/src/pledgenote.rs
use outbe_circuits.Prelude.{ℕ, List, [], ◌∷◌, Result, ◌>>=◌}
use outbe_circuits.Error.{Error}
use outbe_circuits.Field.{PoseidonHasher, PrimeField}
use outbe_circuits.Hash.{ascii_field}
use outbe_circuits.Codec.Scalars.{address_to_field}
use outbe_circuits.Codec.Limbs.{fields_from_u256}
use outbe_circuits.Imt.Node.{node_hash, empty_roots}
use outbe_circuits.Pool
use outbe_circuits.Pool.{hash_multi}

module _ {Fr : Type 0} ⦃F : PrimeField Fr⦄ where
  -- "OUTBE_PLEDGE"
  unfoldable pub domain : Fr
  domain = ascii_field (79 ∷ 85 ∷ 84 ∷ 66 ∷ 69 ∷ 95 ∷ 80 ∷ 76 ∷ 69 ∷ 68 ∷ 71 ∷ 69 ∷ [])

module _ {Fr : Type 0} ⦃F : PrimeField Fr⦄ ⦃P : PoseidonHasher Fr⦄ where
  unfoldable pub tagged : Fr → List Fr → Result Error Fr
  tagged purpose values = do t ← Pool.tag domain purpose; hash_multi t values

  unfoldable pub note_sn : List ℕ → Fr → Result Error Fr
  note_sn owner note_spend_key = do
    address ← address_to_field owner
    tagged Pool.tag_note_sn (address ∷ note_spend_key ∷ [])

  unfoldable pub note_commitment : ℕ → Fr → ℕ → Fr → Result Error Fr
  note_commitment chain_id serial note_amount receipt_context = do
    (lo, mid, hi) ← fields_from_u256 note_amount
    tagged Pool.tag_commitment (F.from chain_id ∷ serial ∷ lo ∷ mid ∷ hi ∷ receipt_context ∷ [])

  unfoldable pub note_nullifier : Fr → Fr → Result Error Fr
  note_nullifier commitment note_spend_key =
      tagged Pool.tag_nullifier (commitment ∷ note_spend_key ∷ [])

  unfoldable pub change_key : Fr → Fr → Result Error Fr
  change_key note_spend_key nullifier = tagged Pool.tag_change_key (note_spend_key ∷ nullifier ∷ [])

  -- The tag is "RETURN_KEY".
  unfoldable pub return_key : Fr → Fr → Fr → Result Error Fr
  return_key note_spend_key nullifier context =
      tagged (ascii_field (82 ∷ 69 ∷ 84 ∷ 85 ∷ 82 ∷ 78 ∷ 95 ∷ 75 ∷ 69 ∷ 89 ∷ []))
        (note_spend_key ∷ nullifier ∷ context ∷ [])

  -- The tag is "RETURN_RECEIPT".
  unfoldable pub receipt_context : ℕ → ℕ → Result Error Fr
  receipt_context position released_total = do
    (p0, p1, p2) ← fields_from_u256 position
    (a0, a1, a2) ← fields_from_u256 released_total
    tagged (ascii_field (82 ∷ 69 ∷ 84 ∷ 85 ∷ 82 ∷ 78 ∷ 95 ∷ 82 ∷ 69 ∷ 67 ∷ 69 ∷ 73 ∷ 80 ∷ 84 ∷ []))
        (p0 ∷ p1 ∷ p2 ∷ a0 ∷ a1 ∷ a2 ∷ [])

  unfoldable pub empty_leaf : ℕ → Result Error Fr
  empty_leaf chain_id = tagged Pool.tag_empty (F.from chain_id ∷ [])

  unfoldable pub merkle_node : Fr → Fr → Result Error Fr
  merkle_node left right = node_hash domain left right

  unfoldable pub empty_subtrees : ℕ → ℕ → Result Error (List Fr)
  empty_subtrees chain_id depth = do leaf ← empty_leaf chain_id; empty_roots domain leaf depth
