-- ===== src/Zkproof/PublicWords.antt =====
-- zkproof.rs: `decode_public_words`.
use outbe_circuits.Prelude.{
  ℕ, zero, suc, ◌+◌, ◌*◌, ◌/◌, ◌%◌, not, Option, none, some, List, [], ◌∷◌, Result, ok, ◌>>=◌, ◌>>◌,
  guard, ok_or, index, assert, panic, set, replicate, ltb, ◌==◌, if◌then◌else◌, length, take, drop,
}
use outbe_circuits.Field.{PrimeField}
use outbe_circuits.Bytes.{from_be_bytes}
use outbe_circuits.Slices.{slice}
use outbe_circuits.Zkproof.Words.{ProofMarshalingError, is_canonical_field_word}
use outbe_circuits.Zkproof.Words.ProofMarshalingError.{
  combined_proof_too_short, wrong_public_input_count, truncated_public_inputs,
  wrong_combined_proof_length, non_canonical_public_input,
}

-- `combined_proof.get(..4)`
unfoldable pub header_of : List ℕ → Option (List ℕ)
header_of bytes = if ltb (length bytes) 4 then none else some (take 4 bytes)

-- `as_chunks::<32>().0`, over the chunks to come.
unfoldable pub chunks : ℕ → List ℕ → List (List ℕ)
chunks zero bytes = []
chunks (suc n) bytes = take 32 bytes ∷ chunks n (drop 32 bytes)

-- `words[i] = word`
unfoldable pub store : {E A : Type 0} → List A → ℕ → A → Result E (List A)
store words i word = if ltb i (length words) then ok (set words i word) else panic

module _ {Fr : Type 0} (F : PrimeField Fr) where
  -- `for (index, word) in public_words.iter().enumerate()`, with the array as it is so far.
  unfoldable pub words_loop :
      ℕ → List (List ℕ) → List (List ℕ) → Result ProofMarshalingError (List (List ℕ))
  words_loop i words [] = ok words
  words_loop i words (word ∷ rest) = do
    stored ← store words i word
    current ← index stored i
    guard (is_canonical_field_word F current) (non_canonical_public_input i)
    words_loop (suc i) stored rest

  -- `debug_assert!` is checked, as in a debug build.
  unfoldable pub decode_public_words : ℕ → List ℕ → ℕ → Result ProofMarshalingError (List (List ℕ))
  decode_public_words n combined_proof expected_len = do
    header ← ok_or (combined_proof_too_short (length combined_proof)) (header_of combined_proof)
    assert (length header == 4)
    let count = from_be_bytes header
    guard (count == n) (wrong_public_input_count n count)
    let public_end = 4 + n * 32
    guard (not (ltb (length combined_proof) public_end))
        (truncated_public_inputs public_end (length combined_proof))
    guard (length combined_proof == expected_len)
        (wrong_combined_proof_length expected_len (length combined_proof))
    public ← slice combined_proof 4 public_end
    assert (length public % 32 == 0)
    words_loop 0 (replicate n (replicate 32 0)) (chunks (length public / 32) public)
