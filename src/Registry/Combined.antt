-- ===== src/Registry/Combined.antt =====
-- build.rs: the encoder of combined proofs that `generate_combined_proof_encoder` generates.
use outbe_circuits.Prelude.{
  ℕ, suc, ◌+◌, ◌*◌, ◌%◌, ◌^◌, ◌<◌, ◌≡◌, refl, sym, ap, ◌∙◌, Bool, true, none, List, [], ◌∷◌, ◌++◌,
  map, arith, Result, ok, ◌>>=◌, ◌>>◌, guard, ltb, ◌==◌, lt→ltb, ==_iff, length, All, length-append,
  bind_ok, ok_inj, guard-eq-ok,
}
use mathlib.Core.List.{append-nil, append_assoc}
use outbe_circuits.Error.{Error, Message, Arg}
use outbe_circuits.Field.{PrimeField, IsLawful}
use outbe_circuits.Bytes.{
  IsBytes, to_be_bytes, length-to_be_bytes, to_be_bytes-IsBytes, from_be_bytes,
  from_be_bytes-to_be_bytes,
}
use outbe_circuits.Codec.Bytes.{field_to_be_bytes}
use outbe_circuits.Registry.Widths.{combined_len}
use outbe_circuits.Zkproof.PublicLaws.{concat, AreWords, length-concat}
use outbe_circuits.Verifier.{verify_combined, verify_combined-wire}
use outbe_circuits.Zkproof.PublicWords.{decode_public_words}
use outbe_circuits.Zkproof.PublicLaws.{outcome, first_invalid, decode_public_words-wire}

abbrev pub wrong_words : ℕ → ℕ → Error
wrong_words got expected =
    Error.proof
      (Message.fmt "proof has {} words, expected {}" (Arg.num got ∷ Arg.num expected ∷ []))

abbrev pub wrong_width : ℕ → ℕ → Error
wrong_width i got =
    Error.proof
      (Message.fmt "proof word {index} has {} bytes, expected 32" (Arg.num i ∷ Arg.num got ∷ []))

-- The loop over the proof, with what is encoded so far.
unfoldable pub push_words : ℕ → List ℕ → List (List ℕ) → Result Error (List ℕ)
push_words i combined [] = ok combined
push_words i combined (word ∷ words) = do
  guard (length word == 32) (wrong_width i (length word))
  push_words (suc i) (combined ++ word) words

module _ {Fr : Type 0} (F : PrimeField Fr) where
  -- The loop over the public inputs.
  unfoldable pub push_fields : List ℕ → List Fr → List ℕ
  push_fields combined [] = combined
  push_fields combined (f ∷ fields) = push_fields (combined ++ field_to_be_bytes ⦃F = F⦄ f) fields

  module _ {PublicInputs : Type 0} (public_inputs : PublicInputs → List Fr)
      (decode_public_inputs : List ℕ → Result Error PublicInputs) (count words : ℕ) where
    -- `count` is `PUBLIC_INPUT_COUNT`, `words` is `PROOF_WORDS`.
    unfoldable pub encode_combined_proof : PublicInputs → List (List ℕ) → Result Error (List ℕ)
    encode_combined_proof public proof = do
      guard (length proof == words) (wrong_words (length proof) words)
      combined ←
          push_words 0 (push_fields (to_be_bytes 4 (count % 2 ^ 32)) (public_inputs public)) proof
      decoded ← decode_public_inputs combined
      ok combined

push_words-eq-ok :
    (i : ℕ) (start : List ℕ) (words : List (List ℕ)) (result : List ℕ)
    → push_words i start words ≡ ok result
    → All (λ w. length w ≡ 32) words × (result ≡ start ++ concat words)
unfolding push_words concat
push_words-eq-ok i start [] result h = (tt, sym (ok_inj h) ∙ sym (append-nil start))
push_words-eq-ok i start (word ∷ words) result h = bind_ok (guard (length word == 32) _) h λ u e h1.
    let (all, same) = push_words-eq-ok (suc i) (start ++ word) words result h1 in
    (
      ((==_iff (length word) 32).0 (guard-eq-ok _ _ e), all),
      same ∙ append_assoc start word (concat words),
    )

bytes-AreWords :
    (words : List (List ℕ)) → All IsBytes words → All (λ w. length w ≡ 32) words → AreWords words
bytes-AreWords [] bytes all = tt
bytes-AreWords (word ∷ words) (b, bytes) (len, all) = ((b, len), bytes-AreWords words bytes all)

module _ {Fr : Type 0} (F : PrimeField Fr) where
  push_fields_lem :
      (start : List ℕ) (fields : List Fr)
      → push_fields F start fields ≡ start ++ concat (map (field_to_be_bytes ⦃F = F⦄) fields)
  unfolding push_fields concat
  push_fields_lem start [] = sym (append-nil start)
  push_fields_lem start (f ∷ fields) =
      push_fields_lem (start ++ field_to_be_bytes ⦃F = F⦄ f) fields
      ∙ append_assoc start (field_to_be_bytes ⦃F = F⦄ f) _

  fields-AreWords : (fields : List Fr) → AreWords (map (field_to_be_bytes ⦃F = F⦄) fields)
  unfolding field_to_be_bytes
  fields-AreWords [] = tt
  fields-AreWords (f ∷ fields) = (
    (to_be_bytes-IsBytes 32 (F.into_bigint f), length-to_be_bytes 32 (F.into_bigint f)),
    fields-AreWords fields,
  )

  pub into_bigint-word : IsLawful F → (f : Fr) → F.into_bigint f < 256 ^ 32
  into_bigint-word lawful f = omega (arith, lawful.into_bigint-lt f, lawful.modulus_max)

  fields-canonical :
      IsLawful F
      → (i : ℕ) (fields : List Fr)
      → first_invalid F i (map (field_to_be_bytes ⦃F = F⦄) fields) ≡ none
  unfolding field_to_be_bytes first_invalid
  fields-canonical lawful i [] = refl
  fields-canonical lawful i (f ∷ fields) =
      let same : from_be_bytes (to_be_bytes 32 (F.into_bigint f)) ≡ F.into_bigint f =
        from_be_bytes-to_be_bytes 32 (F.into_bigint f) (into_bigint-word lawful f) in
      let below : ltb (from_be_bytes (to_be_bytes 32 (F.into_bigint f))) F.modulus ≡ true =
        rw same (lt→ltb (F.into_bigint f) F.modulus (lawful.into_bigint-lt f)) in
      rw below (fields-canonical lawful (suc i) fields)

  length-fields :
      (fields : List Fr) → length (map (field_to_be_bytes ⦃F = F⦄) fields) ≡ length fields
  length-fields [] = refl
  length-fields (f ∷ fields) = ap suc (length-fields fields)

module _ {Fr PublicInputs : Type 0} (F : PrimeField Fr) (lawful : IsLawful F)
    (public_inputs : PublicInputs → List Fr)
    (decode_public_inputs : List ℕ → Result Error PublicInputs) (count words : ℕ) where
  -- An encoded proof is the count, the public words and the proof words.
  encode_combined_proof-wire :
      (public : PublicInputs) (proof : List (List ℕ)) (combined : List ℕ)
      → count < 2 ^ 32
      → encode_combined_proof F public_inputs decode_public_inputs count words public proof
        ≡ ok combined
      → (length proof ≡ words)
        × All (λ w. length w ≡ 32) proof
        × (combined
            ≡ to_be_bytes 4 count
              ++ (concat (map (field_to_be_bytes ⦃F = F⦄) (public_inputs public)) ++ concat proof))
  unfolding encode_combined_proof
  encode_combined_proof-wire public proof combined few h =
      bind_ok (guard (length proof == words) _) h λ u e h1.
        bind_ok
          (push_words 0 (push_fields F (to_be_bytes 4 (count % 2 ^ 32)) (public_inputs public))
            proof)
          h1
          λ made pushed h2. bind_ok (decode_public_inputs made) h2 λ decoded checked h3.
            let (all, same) = push_words-eq-ok 0 _ proof made pushed in
            let small : count % 2 ^ 32 ≡ count = omega arith in
            (
              (==_iff (length proof) words).0 (guard-eq-ok _ _ e),
              all,
              sym (ok_inj h3)
                  ∙ same
                  ∙ ap (λ b. b ++ concat proof)
                      (push_fields_lem F (to_be_bytes 4 (count % 2 ^ 32)) (public_inputs public))
                  ∙ rw small (append_assoc (to_be_bytes 4 count) _ (concat proof)),
            )

-- The encoder returns only what the decoder reads.
pub encode_combined_proof-checked :
    {Fr PublicInputs : Type 0} (F : PrimeField Fr) (public_inputs : PublicInputs → List Fr)
    (decode_public_inputs : List ℕ → Result Error PublicInputs) (count words : ℕ)
    (public : PublicInputs) (proof : List (List ℕ)) (combined : List ℕ)
    → encode_combined_proof F public_inputs decode_public_inputs count words public proof
      ≡ ok combined
    → (decoded : PublicInputs) × (decode_public_inputs combined ≡ ok decoded)
unfolding encode_combined_proof
encode_combined_proof-checked F public_inputs decode_public_inputs count words public proof combined
      h =
    bind_ok (guard (length proof == words) _) h λ u e h1.
      bind_ok
        (push_words 0 (push_fields F (to_be_bytes 4 (count % 2 ^ 32)) (public_inputs public)) proof)
        h1
        λ made pushed h2.
          bind_ok (decode_public_inputs made) h2
            λ decoded checked h3. (decoded, ap decode_public_inputs (sym (ok_inj h3)) ∙ checked)

-- An encoded proof has the announced length, the decoder of public words reads the public inputs back from
-- it, and the verifier of combined proofs gives the foreign verifier these public words and the proof words.
-- The public inputs are as many as counted, fewer than 2 ^ 32, and the proof words hold bytes.
pub encode_combined_proof-verify_combined :
    {Fr PublicInputs : Type 0} (F : PrimeField Fr) (lawful : IsLawful F)
    (public_inputs : PublicInputs → List Fr)
    (decode_public_inputs : List ℕ → Result Error PublicInputs) (count words : ℕ)
    (circuit_verify : List ℕ → List (List ℕ) → List (List ℕ) → Result Error Bool) (vk : List ℕ)
    (public : PublicInputs) (proof : List (List ℕ)) (combined : List ℕ)
    → count < 2 ^ 32
    → length (public_inputs public) ≡ count
    → All IsBytes proof
    → encode_combined_proof F public_inputs decode_public_inputs count words public proof
      ≡ ok combined
    → (length combined ≡ combined_len count words)
      × (decode_public_words F count combined (combined_len count words)
          ≡ ok (map (field_to_be_bytes ⦃F = F⦄) (public_inputs public)))
      × (verify_combined circuit_verify vk combined
          ≡ circuit_verify vk (map (field_to_be_bytes ⦃F = F⦄) (public_inputs public)) proof)
unfolding outcome
encode_combined_proof-verify_combined F lawful public_inputs decode_public_inputs count words
      circuit_verify vk public proof combined few counted bytes h =
    let fields = map (field_to_be_bytes ⦃F = F⦄) (public_inputs public) in
    let (wide, all, wire) =
      encode_combined_proof-wire F lawful public_inputs decode_public_inputs count words public
        proof combined few h in
    let are : AreWords fields = fields-AreWords F (public_inputs public) in
    let are_proof : AreWords proof = bytes-AreWords proof bytes all in
    let n : length fields ≡ count = length-fields F (public_inputs public) ∙ counted in
    let small : length fields < 2 ^ 32 = omega arith in
    let size : 4 + length fields * 32 + length (concat proof) ≡ combined_len count words =
      omega (arith, length-concat proof are_proof) in
    let total : length combined ≡ combined_len count words = omega (
      arith,
      ap length wire,
      length-append (to_be_bytes 4 count) (concat fields ++ concat proof),
      length-append (concat fields) (concat proof),
      length-to_be_bytes 4 count,
      length-concat fields are,
      size,
    ) in
    let passed : outcome F fields ≡ ok fields =
      rw (fields-canonical F lawful 0 (public_inputs public)) refl in
    (
      total,
      rw (wire, ← size, ← n)
          (decode_public_words-wire F fields (concat proof) lawful are small ∙ passed),
      rw (wire, ← n) (verify_combined-wire circuit_verify vk fields proof are are_proof small),
    )
