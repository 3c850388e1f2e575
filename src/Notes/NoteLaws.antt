-- ===== src/Notes/NoteLaws.antt =====
-- The typed note formulas against the raw ones, and what a tagged hash tells apart.
use outbe_circuits.Prelude.{
  ℕ, ◌≡◌, refl, sym, ap, ◌∙◌, ◌≢◌, ◌⊎◌, inl, inr, List, [], ◌∷◌, arith, ok, ◌>>=◌, ◌==◌, ==_iff,
  Bool-cases, length, ok_inj,
}
use outbe_circuits.Field.{PoseidonHasher, PrimeField, IsLawful}
use outbe_circuits.Codec.Scalars.{scalar_to_field, address_to_field}
use outbe_circuits.Codec.Limbs.{fields_from_u256}
use outbe_circuits.Pool.{hash_multi}
use outbe_circuits.Hash.{poseidon2, iterate}
use outbe_circuits.Notes.Paynote
use outbe_circuits.Notes.EmitMint

-- A commitment to a typed amount and address is the commitment to the limbs and bytes of them.
pub note_commitment-note_commitment_raw :
    {Fr : Type 0} ⦃F : PrimeField Fr⦄ ⦃P : PoseidonHasher Fr⦄ (chain_id : ℕ) (serial : Fr)
    (asset : List ℕ) (amount : ℕ)
    → Paynote.note_commitment chain_id serial asset amount
      ≡ (fields_from_u256 amount >>= Paynote.note_commitment_raw chain_id serial asset)
unfolding Paynote.note_commitment Paynote.note_commitment_raw fields_from_u256 scalar_to_field
    address_to_field
note_commitment-note_commitment_raw chain_id serial asset amount = refl

-- `Emit` commitments do the same.
emit_note_commitment_lem :
    {Fr : Type 0} ⦃F : PrimeField Fr⦄ ⦃P : PoseidonHasher Fr⦄ (chain_id : ℕ) (serial : Fr)
    (amount : ℕ)
    → EmitMint.note_commitment chain_id serial amount
      ≡ (fields_from_u256 amount >>= EmitMint.note_commitment_raw chain_id serial)
unfolding EmitMint.note_commitment EmitMint.note_commitment_raw fields_from_u256 scalar_to_field
emit_note_commitment_lem chain_id serial amount = refl

-- Hashing of pairs answers, with the value `H`.
abbrev pub HashesPairs : {Fr : Type 0} ⦃P : PoseidonHasher Fr⦄ → (Fr → Fr → Fr) → Type 0
HashesPairs {Fr} H = (a b : Fr) → poseidon2 (a ∷ b ∷ []) ≡ ok (H a b)

-- Two different pairs with one hash, which two computations hash in the same step: `ps` and `qs` are the
-- pairs that they hash, in their order.
abbrev pub Clash : {Fr : Type 0} → (Fr → Fr → Fr) → List (Fr × Fr) → List (Fr × Fr) → Type 0
Clash H (p ∷ ps) (q ∷ qs) = ((H p.0 p.1 ≡ H q.0 q.1) × (p ≢ q)) ⊎ Clash H ps qs
Clash H [] qs = ⊥
Clash H (p ∷ ps) [] = ⊥

-- The pairs of a fold: the state and the next value.
abbrev folded : {Fr : Type 0} → (Fr → Fr → Fr) → Fr → List Fr → List (Fr × Fr)
folded H state [] = []
folded H state (x ∷ xs) = (state, x) ∷ folded H (H state x) xs

-- The pairs of a tagged hash: the tag and the number of values, then those of the fold over the values.
abbrev pub hashed :
    {Fr : Type 0} ⦃F : PrimeField Fr⦄ → (Fr → Fr → Fr) → Fr → List Fr → List (Fr × Fr)
hashed ⦃F⦄ H tag values =
    (tag, F.from (length values)) ∷ folded H (H tag (F.from (length values))) values

unfoldable fold : {Fr : Type 0} → (Fr → Fr → Fr) → Fr → List Fr → Fr
fold H seed [] = seed
fold H seed (x ∷ xs) = fold H (H seed x) xs

module _ {Fr : Type 0} ⦃F : PrimeField Fr⦄ (lawful : IsLawful F) where
  element-cases : (x y : Fr) → (x ≡ y) ⊎ (x ≢ y)
  element-cases x y = elim (Bool-cases (F.into_bigint x == F.into_bigint y)) [
    | inl same ↦ inl (
        sym (lawful.from-into_bigint x)
        ∙ ap F.from ((==_iff (F.into_bigint x) (F.into_bigint y)).0 same)
        ∙ lawful.from-into_bigint y)
    | inr different ↦ inr (λ q. ground (arith, ap F.into_bigint q))
  ]

  pair-cases : (a b c d : Fr) → ((a ≡ c) × (b ≡ d)) ⊎ (◌≢◌ {A = Fr × Fr} (a, b) (c, d))
  pair-cases a b c d = elim (element-cases a c) [
    | inl p ↦ elim (element-cases b d) [
      | inl q ↦ inl (p, q)
      | inr q ↦ inr (λ h. q (ap (λ x. x.1) h))
    ]
    | inr p ↦ inr (λ h. p (ap (λ x. x.0) h))
  ]

  module _ (H : Fr → Fr → Fr) where
    pub hash-cases :
        (a b c d : Fr)
        → H a b ≡ H c d
        → ((a ≡ c) × (b ≡ d)) ⊎ ((H a b ≡ H c d) × (◌≢◌ {A = Fr × Fr} (a, b) (c, d)))
    hash-cases a b c d h = elim (pair-cases a b c d) [
      | inl same ↦ inl same
      | inr different ↦ inr (h, different)
    ]

    fold-cases :
        (s t : Fr) (xs ys : List Fr)
        → length xs ≡ length ys
        → fold H s xs ≡ fold H t ys
        → ((s ≡ t) × (xs ≡ ys)) ⊎ Clash H (folded H s xs) (folded H t ys)
    unfolding fold
    fold-cases s t [] [] len h = inl (h, refl)
    fold-cases s t [] (y ∷ ys) len h = absurd (omega arith)
    fold-cases s t (x ∷ xs) [] len h = absurd (omega arith)
    fold-cases s t (x ∷ xs) (y ∷ ys) len h =
        elim (fold-cases (H s x) (H t y) xs ys (omega arith) h) [
          | inl (step, rest) ↦ elim (hash-cases s x t y step) [
            | inl (state, first) ↦ inl (state, ap (λ z. z ∷ xs) first ∙ ap (λ zs. y ∷ zs) rest)
            | inr clash ↦ inr (inl clash)
          ]
          | inr later ↦ inr (inr later)
        ]

module _ {Fr : Type 0} ⦃F : PrimeField Fr⦄ ⦃P : PoseidonHasher Fr⦄ (H : Fr → Fr → Fr)
    (hashes : HashesPairs H) where
  iterate_lem : (seed : Fr) (xs : List Fr) → iterate seed xs ≡ ok (fold H seed xs)
  unfolding iterate fold
  iterate_lem seed [] = refl
  iterate_lem seed (x ∷ xs) = rw (hashes seed x) (iterate_lem (H seed x) xs)

  hash_multi_lem :
      (tag : Fr) (values : List Fr)
      → hash_multi tag values ≡ ok (fold H (H tag (F.from (length values))) values)
  unfolding hash_multi
  hash_multi_lem tag values = rw (hashes tag (F.from (length values))) (iterate_lem _ values)

-- Where tagged hashes of equally many values agree, the tags and the values do, or the two computations
-- hash different pairs to one value in the same step: the tag and the number of the values, or the state so
-- far and the next value.
pub hash_multi-cases :
    {Fr : Type 0} ⦃F : PrimeField Fr⦄ ⦃P : PoseidonHasher Fr⦄ (H : Fr → Fr → Fr) (tag tag' : Fr)
    (values values' : List Fr)
    → IsLawful F
    → HashesPairs H
    → length values ≡ length values'
    → hash_multi tag values ≡ hash_multi tag' values'
    → ((tag ≡ tag') × (values ≡ values')) ⊎ Clash H (hashed H tag values) (hashed H tag' values')
hash_multi-cases ⦃F⦄ H tag tag' values values' lawful hashes len h =
    elim (fold-cases lawful H _ _ values values' len (
      ok_inj
        (sym (hash_multi_lem H hashes tag values) ∙ h ∙ hash_multi_lem H hashes tag' values'))) [
          | inl (seeds, equal) ↦
              elim (hash-cases lawful H tag (F.from (length values)) tag' (F.from (length values'))
                seeds) [ inl (tags, lengths) ↦ inl (tags, equal) | inr clash ↦ inr (inl clash) ]
          | inr later ↦ inr (inr later)
        ]
