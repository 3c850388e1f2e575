-- ===== src/Zkproof/Runs.antt =====
-- zkproof.rs on concrete inputs.
use outbe_circuits.Prelude.{
  ℕ, ◌^◌, ◌<◌, ◌≡◌, List, [], ◌∷◌, ◌++◌, arith, ok, panic, length, replicate,
}
use outbe_circuits.FieldRuns.{bn254, bn254-IsLawful}
use outbe_circuits.Bytes.{IsBytes, to_be_bytes, length-to_be_bytes, to_be_bytes-IsBytes, All-append}
use outbe_circuits.Zkproof.Words.{replicate-IsBytes}
use outbe_circuits.Error.{Error}
use outbe_circuits.Prelude.{Bool, Result, ◌==◌, ◌+◌}
use outbe_circuits.Zkproof.Call.{VerifyCall, decode_verify_call, abi_encode}
use outbe_circuits.Zkproof.CallLaws.{decode_verify_call-abi_encode}
use outbe_circuits.Zkproof.CallSound.{decode_verify_call-eq-ok}
use outbe_circuits.Zkproof.PublicWords.{decode_public_words}
use outbe_circuits.Zkproof.Total.{decoders_total}
use outbe_circuits.Zkproof.PublicLaws.{concat, outcome, decode_public_words-wire}

abbrev call : VerifyCall
call = record { circuit_hash = to_be_bytes 32 77; combined_proof = 1 ∷ 2 ∷ 3 ∷ [] }

decode_verify_call-abi_encode_example : decode_verify_call (abi_encode call) ≡ ok call
decode_verify_call-abi_encode_example =
    decode_verify_call-abi_encode call (length-to_be_bytes 32 77) (omega arith)

bytes : IsBytes (abi_encode call)
unfolding abi_encode
bytes = All-append _ call.circuit_hash _ (to_be_bytes-IsBytes 32 77) (
    All-append _ (to_be_bytes 32 64) _ (to_be_bytes-IsBytes 32 64) (
      All-append _ (to_be_bytes 32 3) _ (to_be_bytes-IsBytes 32 3) (
        All-append (λ b. b < 256) call.combined_proof (replicate 29 0)
          (omega arith, (omega arith, (omega arith, tt))) (replicate-IsBytes 29))))

decode_verify_call-eq-ok_example :
    (abi_encode call ≡ abi_encode call) × (length call.circuit_hash ≡ 32)
decode_verify_call-eq-ok_example =
    decode_verify_call-eq-ok (abi_encode call) call bytes
      (decode_verify_call-abi_encode call (length-to_be_bytes 32 77) (omega arith))

decoders_total_example :
    ¬ (decode_verify_call (replicate 60 255) ≡ panic)
    × ¬ (decode_public_words bn254 2 (replicate 60 255) 69 ≡ panic)
decoders_total_example = decoders_total bn254 2 69 (replicate 60 255)

abbrev two_words : List (List ℕ)
two_words = to_be_bytes 32 5 ∷ to_be_bytes 32 (2 ^ 255) ∷ []

decode_public_words-wire_example :
    decode_public_words bn254 2 (to_be_bytes 4 2 ++ (concat two_words ++ 9 ∷ [])) 69
    ≡ outcome bn254 two_words
decode_public_words-wire_example =
    decode_public_words-wire bn254 two_words (9 ∷ []) bn254-IsLawful
      (
        (to_be_bytes-IsBytes 32 5, length-to_be_bytes 32 5),
        ((to_be_bytes-IsBytes 32 (2 ^ 255), length-to_be_bytes 32 (2 ^ 255)), tt),
      )
      (omega arith)

-- A verifier that asks for two public words and one proof word.
abbrev by_counts : List ℕ → List (List ℕ) → List (List ℕ) → Result Error Bool
by_counts vk words proof = ok (length words + length proof == 3)
