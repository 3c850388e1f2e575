-- ===== src/Notes/EmitMint.antt =====
-- crates/outbe-zk-canonical/src/emit_mint/hash.rs
use outbe_circuits.Prelude.{ℕ, List, [], ◌∷◌, Result, ◌>>=◌}
use outbe_circuits.Error.{Error}
use outbe_circuits.Field.{PoseidonHasher, PrimeField}
use outbe_circuits.Hash.{ascii_field}
use outbe_circuits.Codec.Bytes.{field_from_be_bytes}
use outbe_circuits.Codec.Scalars.{scalar_to_field, address_to_field}
use outbe_circuits.Codec.Limbs.{fields_from_u256}
use outbe_circuits.Imt.Node.{node_hash, empty_roots}
use outbe_circuits.Pool
use outbe_circuits.Pool.{hash_multi}

module _ {Fr : Type 0} ⦃F : PrimeField Fr⦄ where
  -- "OUTBE_EMIT"
  unfoldable pub emit_domain : Fr
  emit_domain = ascii_field (79 ∷ 85 ∷ 84 ∷ 66 ∷ 69 ∷ 95 ∷ 69 ∷ 77 ∷ 73 ∷ 84 ∷ [])

module _ {Fr : Type 0} ⦃F : PrimeField Fr⦄ ⦃P : PoseidonHasher Fr⦄ where
  unfoldable pub tag : Fr → Result Error Fr
  tag base = Pool.tag emit_domain base

  unfoldable pub tag_note_sn : Result Error Fr
  tag_note_sn = tag Pool.tag_note_sn

  unfoldable pub tag_commitment : Result Error Fr
  tag_commitment = tag Pool.tag_commitment

  unfoldable pub tag_nullifier : Result Error Fr
  tag_nullifier = tag Pool.tag_nullifier

  unfoldable pub tag_change_key : Result Error Fr
  tag_change_key = tag Pool.tag_change_key

  unfoldable pub tag_empty : Result Error Fr
  tag_empty = tag Pool.tag_empty

  unfoldable pub note_sn : List ℕ → Fr → Result Error Fr
  note_sn note_owner note_spend_key = do
    t ← tag_note_sn
    owner ← address_to_field note_owner
    hash_multi t (owner ∷ note_spend_key ∷ [])

  unfoldable pub note_sn_raw : List ℕ → Fr → Result Error Fr
  note_sn_raw note_owner note_spend_key = do
    t ← tag_note_sn
    hash_multi t (field_from_be_bytes note_owner ∷ note_spend_key ∷ [])

  unfoldable pub note_commitment : ℕ → Fr → ℕ → Result Error Fr
  note_commitment chain_id note_sn note_amount = do
    (lo, mid, hi) ← fields_from_u256 note_amount
    t ← tag_commitment
    chain ← scalar_to_field chain_id
    hash_multi t (chain ∷ note_sn ∷ lo ∷ mid ∷ hi ∷ [])

  unfoldable pub note_commitment_raw : ℕ → Fr → Fr × Fr × Fr → Result Error Fr
  note_commitment_raw chain_id note_sn (lo, mid, hi) = do
    t ← tag_commitment
    hash_multi t (F.from chain_id ∷ note_sn ∷ lo ∷ mid ∷ hi ∷ [])

  unfoldable pub nullifier : Fr → Fr → Result Error Fr
  nullifier note_commitment note_spend_key = do
    t ← tag_nullifier
    hash_multi t (note_commitment ∷ note_spend_key ∷ [])

  unfoldable pub change_key : Fr → Fr → Result Error Fr
  change_key note_spend_key note_nullifier = do
    t ← tag_change_key
    hash_multi t (note_spend_key ∷ note_nullifier ∷ [])

  unfoldable pub empty_leaf : ℕ → Result Error Fr
  empty_leaf chain_id = do t ← tag_empty; hash_multi t (F.from chain_id ∷ [])

  unfoldable pub merkle_node : Fr → Fr → Result Error Fr
  merkle_node left right = node_hash emit_domain left right

  unfoldable pub empty_subtrees : ℕ → ℕ → Result Error (List Fr)
  empty_subtrees chain_id depth = do leaf ← empty_leaf chain_id; empty_roots emit_domain leaf depth
