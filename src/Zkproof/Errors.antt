-- ===== src/Zkproof/Errors.antt =====
-- zkproof.rs: the texts of the errors, and their conversion.
use outbe_circuits.Prelude.{ℕ, String, [], ◌∷◌}
use outbe_circuits.Error.{Error, Message, Arg}
use outbe_circuits.Zkproof.Words.{ProofMarshalingError}
use outbe_circuits.Zkproof.Words.ProofMarshalingError.{
  input_too_short, malformed_abi, combined_proof_too_short, wrong_public_input_count,
  truncated_public_inputs, non_canonical_public_input, wrong_combined_proof_length,
}

abbrev two : String → ℕ → ℕ → Message
two format a b = Message.fmt format (Arg.num a ∷ Arg.num b ∷ [])

-- `to_string`, which the attributes `error` of the variants define.
unfoldable pub to_string : ProofMarshalingError → Message
to_string (input_too_short n) =
    Message.fmt "zk_verify: input too short ({0} < 64 bytes)" (Arg.num n ∷ [])
to_string (malformed_abi s) = Message.fmt "zk_verify: malformed ABI input ({0})" (Arg.str s ∷ [])
to_string (combined_proof_too_short n) =
    Message.fmt "zk_verify: combined proof is too short ({0} < 4 bytes)" (Arg.num n ∷ [])
to_string (wrong_public_input_count expected actual) =
    two "zk_verify: combined proof public input count is {actual}, expected {expected}" actual
      expected
to_string (truncated_public_inputs expected actual) =
    two "zk_verify: combined proof public inputs are truncated ({actual} < {expected} bytes)" actual
      expected
to_string (non_canonical_public_input i) =
    Message.fmt "zk_verify: public input at index {0} is not a canonical BN254 field element"
      (Arg.num i ∷ [])
to_string (wrong_combined_proof_length expected actual) =
    two "zk_verify: combined proof length is {actual} bytes, expected {expected}" actual expected

-- `From<ProofMarshalingError> for Error`
unfoldable pub from_marshaling : ProofMarshalingError → Error
from_marshaling (non_canonical_public_input i) = Error.non_canonical "public input"
from_marshaling (input_too_short n) = Error.proof (to_string (input_too_short n))
from_marshaling (malformed_abi s) = Error.proof (to_string (malformed_abi s))
from_marshaling (combined_proof_too_short n) = Error.proof (to_string (combined_proof_too_short n))
from_marshaling (wrong_public_input_count e a) =
    Error.proof (to_string (wrong_public_input_count e a))
from_marshaling (truncated_public_inputs e a) =
    Error.proof (to_string (truncated_public_inputs e a))
from_marshaling (wrong_combined_proof_length e a) =
    Error.proof (to_string (wrong_combined_proof_length e a))
