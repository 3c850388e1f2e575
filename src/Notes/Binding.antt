-- ===== src/Notes/Binding.antt =====
-- What a Paynote commitment binds.
use outbe_circuits.Prelude.{
  ℕ, ◌^◌, ◌<◌, ◌≡◌, refl, sym, ap, ◌∙◌, ◌⊎◌, inl, inr, List, [], ◌∷◌, arith, length, get_or,
}
use outbe_circuits.Field.{PoseidonHasher, PrimeField, IsLawful}
use outbe_circuits.Bytes.{
  IsBytes, from_be_bytes, to_be_bytes, from_be_bytes-lt, to_be_bytes-from_be_bytes,
  to_be_bytes-IsBytes, length-to_be_bytes, from_be_bytes-to_be_bytes,
}
use outbe_circuits.Codec.Bytes.{field_from_be_bytes}
use outbe_circuits.Codec.Scalars.{scalar_to_field, address_to_field}
use outbe_circuits.Codec.Limbs.{u256_limbs_be, fields_from_u256}
use outbe_circuits.Codec.LimbLaws.{u256_limbs_be-value}
use outbe_circuits.Codec.Arrays.{small_from}
use outbe_circuits.Pool
use outbe_circuits.Pool.{hash_multi}
use outbe_circuits.Notes.Paynote
use outbe_circuits.Notes.Paynote.{note_commitment, paynote_domain}
use outbe_circuits.Notes.NoteLaws.{HashesPairs, Clash, hashed, hash_multi-cases}

module _ {Fr : Type 0} ⦃F : PrimeField Fr⦄ (lawful : IsLawful F) where
  from-inj : (a b : ℕ) → a < 2 ^ 253 → b < 2 ^ 253 → F.from a ≡ F.from b → a ≡ b
  from-inj a b la lb h = sym (small_from lawful a la) ∙ ap F.into_bigint h ∙ small_from lawful b lb

  address-inj :
      (a b : List ℕ)
      → IsBytes a
      → IsBytes b
      → length a ≡ 20
      → length b ≡ 20
      → F.from (from_be_bytes a) ≡ F.from (from_be_bytes b)
      → a ≡ b
  address-inj a b pa pb la lb h =
      sym (to_be_bytes-from_be_bytes 20 a pa la)
      ∙ ap (to_be_bytes 20) (
          from-inj (from_be_bytes a) (from_be_bytes b) (omega (arith, from_be_bytes-lt 20 a pa la))
            (omega (arith, from_be_bytes-lt 20 b pb lb)) h)
      ∙ to_be_bytes-from_be_bytes 20 b pb lb

  abbrev limbs : ℕ → ℕ × ℕ × ℕ
  limbs m = u256_limbs_be (to_be_bytes 32 m)

  amount-inj :
      (m n : ℕ)
      → m < 2 ^ 256
      → n < 2 ^ 256
      → F.from (limbs m).0 ≡ F.from (limbs n).0
      → F.from (limbs m).1 ≡ F.from (limbs n).1
      → F.from (limbs m).2 ≡ F.from (limbs n).2
      → m ≡ n
  amount-inj m n lm ln h0 h1 h2 =
      let (a0, a1, a2, ea, p0, p1, p2, va) =
        u256_limbs_be-value (to_be_bytes 32 m) (to_be_bytes-IsBytes 32 m)
          (length-to_be_bytes 32 m) in
      let (b0, b1, b2, eb, q0, q1, q2, vb) =
        u256_limbs_be-value (to_be_bytes 32 n) (to_be_bytes-IsBytes 32 n)
          (length-to_be_bytes 32 n) in
      let e0 : a0 ≡ b0 =
        from-inj a0 b0 (omega arith) (omega arith)
          (ap (λ l. F.from l.0) (sym ea) ∙ h0 ∙ ap (λ l. F.from l.0) eb) in
      let e1 : a1 ≡ b1 =
        from-inj a1 b1 (omega arith) (omega arith)
          (ap (λ l. F.from l.1) (sym ea) ∙ h1 ∙ ap (λ l. F.from l.1) eb) in
      let e2 : a2 ≡ b2 =
        from-inj a2 b2 (omega arith) (omega arith)
          (ap (λ l. F.from l.2) (sym ea) ∙ h2 ∙ ap (λ l. F.from l.2) eb) in
      omega (
        arith,
        from_be_bytes-to_be_bytes 32 m (omega arith),
        from_be_bytes-to_be_bytes 32 n (omega arith),
      )

module _ {Fr : Type 0} ⦃F : PrimeField Fr⦄ ⦃P : PoseidonHasher Fr⦄ (H : Fr → Fr → Fr) where
  -- The values that a commitment hashes.
  abbrev pub preimage : ℕ → Fr → List ℕ → ℕ → List Fr
  preimage c s a m =
      F.from c
      ∷ s
      ∷ F.from (from_be_bytes a)
      ∷ F.from (u256_limbs_be (to_be_bytes 32 m)).0
      ∷ F.from (u256_limbs_be (to_be_bytes 32 m)).1
      ∷ F.from (u256_limbs_be (to_be_bytes 32 m)).2
      ∷ []

  -- The pairs that a commitment hashes, under the tag of the domain.
  abbrev pub pairs_of : ℕ → Fr → List ℕ → ℕ → List (Fr × Fr)
  pairs_of c s a m = hashed H (H paynote_domain Pool.tag_commitment) (preimage c s a m)

  commitment_lem :
      HashesPairs H
      → (c : ℕ) (s : Fr) (a : List ℕ) (m : ℕ)
      → note_commitment c s a m
        ≡ hash_multi (H paynote_domain Pool.tag_commitment) (preimage c s a m)
  unfolding note_commitment fields_from_u256 scalar_to_field address_to_field field_from_be_bytes
      Paynote.tag Pool.tag
  commitment_lem hashes c s a m = rw (hashes paynote_domain Pool.tag_commitment) refl

  preimage-inj :
      (c d : ℕ) (s t : Fr) (a b : List ℕ) (m n : ℕ)
      → preimage c s a m ≡ preimage d t b n
      → (F.from c ≡ F.from d)
        × (s ≡ t)
        × (F.from (from_be_bytes a) ≡ F.from (from_be_bytes b))
        × (F.from (u256_limbs_be (to_be_bytes 32 m)).0
            ≡ F.from (u256_limbs_be (to_be_bytes 32 n)).0)
        × (F.from (u256_limbs_be (to_be_bytes 32 m)).1
            ≡ F.from (u256_limbs_be (to_be_bytes 32 n)).1)
        × (F.from (u256_limbs_be (to_be_bytes 32 m)).2
            ≡ F.from (u256_limbs_be (to_be_bytes 32 n)).2)
  preimage-inj c d s t a b m n h = (
    ap (λ xs. get_or xs 0 s) h,
    ap (λ xs. get_or xs 1 s) h,
    ap (λ xs. get_or xs 2 s) h,
    ap (λ xs. get_or xs 3 s) h,
    ap (λ xs. get_or xs 4 s) h,
    ap (λ xs. get_or xs 5 s) h,
  )

-- Where two Paynote commitments agree, the chain, the serial, the asset and the whole amount do, or the
-- two computations hash different pairs to one value in the same step.
pub note_commitment-cases :
    {Fr : Type 0} ⦃F : PrimeField Fr⦄ ⦃P : PoseidonHasher Fr⦄ (H : Fr → Fr → Fr) (chain chain' : ℕ)
    (serial serial' : Fr) (asset asset' : List ℕ) (amount amount' : ℕ)
    → IsLawful F
    → HashesPairs H
    → chain < 2 ^ 64
    → chain' < 2 ^ 64
    → IsBytes asset
    → IsBytes asset'
    → length asset ≡ 20
    → length asset' ≡ 20
    → amount < 2 ^ 256
    → amount' < 2 ^ 256
    → note_commitment chain serial asset amount ≡ note_commitment chain' serial' asset' amount'
    → ((chain ≡ chain') × (serial ≡ serial') × (asset ≡ asset') × (amount ≡ amount'))
      ⊎ Clash H (pairs_of H chain serial asset amount) (pairs_of H chain' serial' asset' amount')
note_commitment-cases H c d s t a b m n lawful hashes lc ld pa pb la lb lm ln h =
    elim (hash_multi-cases H _ _ _ _ lawful hashes refl
      (sym (commitment_lem H hashes c s a m) ∙ h ∙ commitment_lem H hashes d t b n)) [
        | inl (tags, equal) ↦
            let (ec, es, ea, e0, e1, e2) = preimage-inj H c d s t a b m n equal in
            inl (
              from-inj lawful c d (omega arith) (omega arith) ec,
              es,
              address-inj lawful a b pa pb la lb ea,
              amount-inj lawful m n lm ln e0 e1 e2,
            )
        | inr clash ↦ inr clash
      ]
