-- ===== src/Notes/Paynote.antt =====
-- crates/outbe-zk-canonical/src/paynote/hash.rs
use outbe_circuits.Prelude.{ℕ, List, [], ◌∷◌, Result, ◌>>=◌}
use outbe_circuits.Error.{Error}
use outbe_circuits.Field.{PoseidonHasher, PrimeField}
use outbe_circuits.Hash.{ascii_field}
use outbe_circuits.Codec.Bytes.{field_from_be_bytes}
use outbe_circuits.Codec.Scalars.{scalar_to_field, address_to_field}
use outbe_circuits.Codec.Limbs.{fields_from_u256}
use outbe_circuits.Imt.Node.{node_hash, empty_roots}
use outbe_circuits.Pool
use outbe_circuits.Pool.{hash_multi}

module _ {Fr : Type 0} ⦃F : PrimeField Fr⦄ where
  -- "OUTBE_PAYNOTE"
  unfoldable pub paynote_domain : Fr
  paynote_domain = ascii_field (79 ∷ 85 ∷ 84 ∷ 66 ∷ 69 ∷ 95 ∷ 80 ∷ 65 ∷ 89 ∷ 78 ∷ 79 ∷ 84 ∷ 69 ∷ [])

module _ {Fr : Type 0} ⦃F : PrimeField Fr⦄ ⦃P : PoseidonHasher Fr⦄ where
  unfoldable pub tag : Fr → Result Error Fr
  tag base = Pool.tag paynote_domain base

  unfoldable pub note_sn : Fr → Result Error Fr
  note_sn note_spend_key = do t ← tag Pool.tag_note_sn; hash_multi t (note_spend_key ∷ [])

  unfoldable pub note_commitment : ℕ → Fr → List ℕ → ℕ → Result Error Fr
  note_commitment chain_id note_sn asset note_amount = do
    (lo, mid, hi) ← fields_from_u256 note_amount
    t ← tag Pool.tag_commitment
    chain ← scalar_to_field chain_id
    address ← address_to_field asset
    hash_multi t (chain ∷ note_sn ∷ address ∷ lo ∷ mid ∷ hi ∷ [])

  unfoldable pub note_commitment_raw : ℕ → Fr → List ℕ → Fr × Fr × Fr → Result Error Fr
  note_commitment_raw chain_id note_sn asset (lo, mid, hi) = do
    t ← tag Pool.tag_commitment
    hash_multi t (F.from chain_id ∷ note_sn ∷ field_from_be_bytes asset ∷ lo ∷ mid ∷ hi ∷ [])

  unfoldable pub note_nullifier : Fr → Fr → Result Error Fr
  note_nullifier note_commitment note_spend_key = do
    t ← tag Pool.tag_nullifier
    hash_multi t (note_commitment ∷ note_spend_key ∷ [])

  unfoldable pub change_key : Fr → Fr → Result Error Fr
  change_key note_spend_key note_nullifier = do
    t ← tag Pool.tag_change_key
    hash_multi t (note_spend_key ∷ note_nullifier ∷ [])

  unfoldable pub empty_leaf : ℕ → Result Error Fr
  empty_leaf chain_id = do t ← tag Pool.tag_empty; hash_multi t (F.from chain_id ∷ [])

  unfoldable pub merkle_node : Fr → Fr → Result Error Fr
  merkle_node left right = node_hash paynote_domain left right

  unfoldable pub empty_subtrees : ℕ → ℕ → Result Error (List Fr)
  empty_subtrees chain_id depth = do
    leaf ← empty_leaf chain_id
    empty_roots paynote_domain leaf depth
