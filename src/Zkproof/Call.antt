-- ===== src/Zkproof/Call.antt =====
-- zkproof.rs: `decode_verify_call`.
use outbe_circuits.Prelude.{
  ℕ, ◌-◌, ◌%◌, not, List, ◌++◌, Result, ok, ◌>>=◌, ◌>>◌, guard, assert, ok_or, ltb, ◌==◌, length,
  replicate,
}
use outbe_circuits.Bytes.{to_be_bytes}
use outbe_circuits.Slices.{slice, checked_add, any_nonzero}
use outbe_circuits.Zkproof.Words.{ProofMarshalingError, read_u64_be_padded}
use outbe_circuits.Zkproof.Words.ProofMarshalingError.{input_too_short, malformed_abi}

abbrev canonical_abi_offset : ℕ
canonical_abi_offset = 64

-- `struct VerifyCall`
pub record VerifyCall : Type 0 where
  pub circuit_hash : List ℕ
  pub combined_proof : List ℕ

unfoldable pub decode_verify_call : List ℕ → Result ProofMarshalingError VerifyCall
decode_verify_call input = do
  guard (not (ltb (length input) 64)) (input_too_short (length input))
  -- `copy_from_slice` into an array of 32 bytes
  circuit_hash ← slice input 0 32
  assert (length circuit_hash == 32)
  offset_word ← slice input 32 64
  offset ← ok_or (malformed_abi "offset too large") (read_u64_be_padded offset_word)
  guard (offset == canonical_abi_offset) (malformed_abi "non-canonical offset")
  header_end ← ok_or (malformed_abi "offset overflow") (checked_add offset 32)
  guard (not (ltb (length input) header_end)) (malformed_abi "offset past end")
  length_word ← slice input offset header_end
  proof_length ← ok_or (malformed_abi "length too large") (read_u64_be_padded length_word)
  data_end ← ok_or (malformed_abi "length overflow") (checked_add header_end proof_length)
  guard (not (ltb (length input) data_end)) (malformed_abi "payload truncated")
  let padding = (32 - proof_length % 32) % 32
  encoded_end ← ok_or (malformed_abi "padding overflow") (checked_add data_end padding)
  guard (length input == encoded_end) (malformed_abi "non-canonical total length")
  padding_bytes ← slice input data_end encoded_end
  guard (not (any_nonzero padding_bytes)) (malformed_abi "non-zero padding")
  combined_proof ← slice input header_end data_end
  ok (record { circuit_hash = circuit_hash; combined_proof = combined_proof })

-- The zeros that fill the last word of `n` bytes.
abbrev pub padding_for : ℕ → ℕ
padding_for n = (32 - n % 32) % 32

-- `abi.encode(bytes32 circuit_hash, bytes proof)`, as the ABI specifies it.
unfoldable pub abi_encode : VerifyCall → List ℕ
abi_encode call =
    call.circuit_hash
    ++ (to_be_bytes 32 64
        ++ (to_be_bytes 32 (length call.combined_proof)
            ++ (call.combined_proof ++ replicate (padding_for (length call.combined_proof)) 0)))
