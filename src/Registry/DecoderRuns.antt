-- ===== src/Registry/DecoderRuns.antt =====
-- Public inputs that go through a combined proof and back, and through the Alloy types and back.
use outbe_circuits.Prelude.{
  ℕ, ◌≡◌, refl, inr, false, some, List, [], ◌∷◌, arith, Result, ok, err, panic, All,
}
use outbe_circuits.Error.{Error}
use outbe_circuits.FieldRuns.{Residue, bn254, bn254-IsLawful}
use outbe_circuits.Text.{codes}
use outbe_circuits.Bytes.{IsBytes, to_be_bytes, to_be_bytes-IsBytes}
use outbe_circuits.Registry.Manifest.{AbiType, AbiFields, Param}
use outbe_circuits.Registry.Widths.{public_input_count}
use outbe_circuits.Registry.Counted.{Known}
use outbe_circuits.Registry.ReadBack.{InRange}
use outbe_circuits.Registry.Flatten.{Value, Elements, Members, Inputs, public_fields}
use outbe_circuits.Registry.Decoder.{publics, decode_public_inputs, eth_address, u256_path}
use outbe_circuits.Registry.Combined.{encode_combined_proof}
use outbe_circuits.Registry.Alloy.{Alloys, circuit_to_alloy_inputs}
use outbe_circuits.Registry.FromAlloy.{alloy_to_circuit_inputs}
use outbe_circuits.Registry.AlloyLaws.{alloy_to_circuit_inputs-circuit_to_alloy_inputs}
use outbe_circuits.Registry.RoundTrip.{InputsInRange, decode_public_inputs-encode_combined_proof}

abbrev public_param : List ℕ → AbiType → Param
public_param name type = record { name = name; type = type; visibility = codes "public" }

abbrev address_type : AbiType
address_type = AbiType.struct eth_address (AbiFields.more AbiType.field AbiFields.end)

abbrev u256_type : AbiType
u256_type =
    AbiType.struct u256_path (
      AbiFields.more (AbiType.array (some 3) (AbiType.integer (codes "unsigned") 128))
        AbiFields.end)

abbrev params : List Param
params =
    public_param (codes "owner") address_type
    ∷ record { name = codes "secret"; type = AbiType.field; visibility = codes "private" }
    ∷ public_param (codes "amount") u256_type
    ∷ public_param (codes "hashes") (AbiType.array (some 2) AbiType.field)
    ∷ public_param (codes "chain") (AbiType.integer (codes "unsigned") 64)
    ∷ []

abbrev limb : ℕ → Value Residue (AbiType.integer (codes "unsigned") 128)
limb n = Value.integer false n

abbrev inputs : Inputs Residue (publics params)
unfolding publics
inputs =
    Inputs.given (Value.struct (Members.member (Value.element (bn254.from 77)) Members.none_left)) (
      Inputs.given
        (Value.struct (
          Members.member
            (Value.array (
              Elements.cons (limb 5)
                (Elements.cons (limb 6) (Elements.cons (limb 7) Elements.empty))))
            Members.none_left))
        (Inputs.given
          (Value.array (
            Elements.cons (Value.element (bn254.from 8))
              (Elements.cons (Value.element (bn254.from 9)) Elements.empty)))
          (Inputs.given (Value.integer false 1) Inputs.done)))

abbrev bytes_or : {A : Type 0} → A → Result Error A → A
bytes_or a (ok b) = b
bytes_or a (err e) = a
bytes_or a panic = a

abbrev fields_of : Inputs Residue (publics params) → List Residue
fields_of xs = bytes_or [] (public_fields bn254 {E = Error} xs)

abbrev proof_word : List ℕ
proof_word = to_be_bytes 32 9

abbrev encoded : Result Error (List ℕ)
encoded =
    encode_combined_proof bn254 fields_of (decode_public_inputs bn254 7 1 params) 7 1 inputs
      (proof_word ∷ [])

is_encoded : encoded ≡ ok (bytes_or [] encoded)
unfolding publics encode_combined_proof decode_public_inputs
    outbe_circuits.Registry.Combined.push_words outbe_circuits.Registry.Combined.push_fields
    outbe_circuits.Registry.Widths.abi_field_count outbe_circuits.Registry.Decoder.limb_array
    outbe_circuits.Registry.Decoder.field_array outbe_circuits.Registry.Decoder.decode_uint
    outbe_circuits.Registry.Decoder.decode_array
    outbe_circuits.Registry.Decoder.decode_address_field
    outbe_circuits.Registry.Decoder.decode_address outbe_circuits.Registry.Decoder.decode_limb_array
    outbe_circuits.Registry.Decoder.decode_limbs outbe_circuits.Registry.Decoder.decode_u256
    outbe_circuits.Registry.Decoder.decode_struct outbe_circuits.Registry.Decoder.decode_value
    outbe_circuits.Registry.Decoder.decode_params outbe_circuits.Registry.Flatten.flatten
    public_fields to_be_bytes bn254 outbe_circuits.Zkproof.PublicWords.decode_public_words
    outbe_circuits.Zkproof.PublicWords.header_of outbe_circuits.Zkproof.PublicWords.words_loop
    outbe_circuits.Zkproof.PublicWords.store outbe_circuits.Zkproof.PublicWords.chunks
    outbe_circuits.Zkproof.Words.is_canonical_field_word outbe_circuits.Bytes.from_be_bytes
    outbe_circuits.Bytes.be_loop outbe_circuits.Slices.slice
    outbe_circuits.Codec.Scalars.scalar_from_field outbe_circuits.Codec.Bytes.field_to_be_array
    outbe_circuits.Codec.Bytes.field_to_be_bytes outbe_circuits.Codec.Bytes.field_from_be32
    outbe_circuits.Codec.Limbs.u256_from_limbs_be outbe_circuits.Codec.Bytes.num_bits_below
is_encoded = refl

counted : public_input_count {E = Error} params ≡ ok 7
unfolding public_input_count outbe_circuits.Registry.Widths.abi_field_count
counted = refl

flat : public_fields bn254 {E = Error} inputs ≡ ok (fields_of inputs)
unfolding public_fields outbe_circuits.Registry.Flatten.flatten publics bn254
flat = refl

known : All (λ p. Known p.type) (publics params)
unfolding Known publics
known = ((tt, tt), ((refl, tt), (tt, (refl, tt))))

in_range : InputsInRange inputs
unfolding InputsInRange publics InRange
in_range = (
  (tt, tt),
  (
    ((inr (refl, omega arith), (inr (refl, omega arith), (inr (refl, omega arith), tt))), tt),
    ((tt, (tt, tt)), (inr (refl, omega arith), tt)),
  ),
)

decode_public_inputs-encode_combined_proof_example :
    decode_public_inputs bn254 7 1 params (bytes_or [] encoded) ≡ ok inputs
decode_public_inputs-encode_combined_proof_example =
    decode_public_inputs-encode_combined_proof bn254 params 7 1 fields_of inputs (proof_word ∷ [])
      (bytes_or [] encoded) bn254-IsLawful (omega arith) counted known in_range
      (to_be_bytes-IsBytes 32 9, tt) flat is_encoded

abbrev converted : Result Error Alloys
converted = circuit_to_alloy_inputs bn254 inputs

is_converted : converted ≡ ok (bytes_or Alloys.nil converted)
unfolding circuit_to_alloy_inputs publics bn254 to_be_bytes
    outbe_circuits.Registry.Alloy.circuit_to_alloy outbe_circuits.Registry.Alloy.limbs_of
    outbe_circuits.Registry.Alloy.uint256_of outbe_circuits.Registry.Alloy.address_of
    outbe_circuits.Registry.Alloy.u256_of outbe_circuits.Codec.Scalars.field_to_b256
    outbe_circuits.Codec.Scalars.bytes32_from_field outbe_circuits.Codec.Scalars.address_from_field
    outbe_circuits.Codec.Bytes.field_to_be_array outbe_circuits.Codec.Bytes.num_bits_below
    outbe_circuits.Codec.Limbs.u256_from_limbs_be outbe_circuits.Bytes.from_be_bytes
    outbe_circuits.Bytes.be_loop
is_converted = refl

alloy_to_circuit_inputs-circuit_to_alloy_inputs_example :
    alloy_to_circuit_inputs bn254 (publics params) (bytes_or Alloys.nil converted) ≡ ok inputs
alloy_to_circuit_inputs-circuit_to_alloy_inputs_example =
    alloy_to_circuit_inputs-circuit_to_alloy_inputs bn254 inputs (bytes_or Alloys.nil converted)
      bn254-IsLawful in_range is_converted
