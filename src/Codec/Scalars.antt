-- ===== src/Codec/Scalars.antt =====
-- codec.rs: the types that are one field element, with the containers. An integer type is its width in
-- bytes.
use outbe_circuits.Prelude.{
  ℕ, zero, suc, String, Bool, true, false, List, [], ◌∷◌, ◌++◌, Result, ok, err, ◌>>=◌, index,
  if◌then◌else◌,
}
use outbe_circuits.Prelude.{ltb, ◌%◌, ◌^◌}
use outbe_circuits.Error.{Error}
use outbe_circuits.Field.{PrimeField}
use outbe_circuits.Bytes.{from_be_bytes}
use outbe_circuits.Codec.Bytes.{
  field_from_be_bytes, field_from_be_bytes_canonical, field_to_be_array,
}

abbrev bool_of : ℕ → Result Error Bool
bool_of zero = ok false
bool_of (suc zero) = ok true
bool_of (suc (suc n)) = err (Error.non_canonical "bool")

module _ {Fr : Type 0} ⦃F : PrimeField Fr⦄ where
  -- `scalar_field_element!`: `u8`, `u16`, `u32`, `u64`, `u128`.
  unfoldable pub scalar_to_field : ℕ → Result Error Fr
  scalar_to_field value = ok (F.from value)

  unfoldable pub scalar_from_field : ℕ → String → Fr → Result Error ℕ
  scalar_from_field width name value = do
    bytes ← field_to_be_array width value name
    ok (from_be_bytes bytes)

  unfoldable pub bool_to_field : Bool → Result Error Fr
  bool_to_field value = ok (F.from (if value then 1 else 0))

  unfoldable pub bool_from_field : Fr → Result Error Bool
  bool_from_field value = do
    bytes ← field_to_be_array 1 value "bool"
    first ← index bytes 0
    bool_of first

  -- `impl FieldElement for Address`
  unfoldable pub address_to_field : List ℕ → Result Error Fr
  address_to_field address = ok (field_from_be_bytes address)

  unfoldable pub address_from_field : Fr → Result Error (List ℕ)
  address_from_field value = field_to_be_array 20 value "address"

  -- `impl FieldElement for FixedBytes<32>`
  unfoldable pub bytes32_to_field : List ℕ → Result Error Fr
  bytes32_to_field value = field_from_be_bytes_canonical value "bytes32"

  unfoldable pub bytes32_from_field : Fr → Result Error (List ℕ)
  bytes32_from_field value = field_to_be_array 32 value "bytes32"

  -- `uint_one_limb!`: `U16`, `U32`, `U64`, by their bits.
  unfoldable pub uint_to_field : ℕ → Result Error Fr
  uint_to_field value = ok (F.from (value % 2 ^ 64))

  -- `checked_from_limbs_slice(value.into_bigint().as_ref())`
  unfoldable pub uint_from_field : ℕ → String → Fr → Result Error ℕ
  uint_from_field bits name value =
      if ltb (F.into_bigint value) (2 ^ bits)
      then ok (F.into_bigint value)
      else err (Error.non_canonical name)

  unfoldable pub field_from_b256 : List ℕ → Result Error Fr
  field_from_b256 value = bytes32_to_field value

  unfoldable pub field_to_b256 : Fr → Result Error (List ℕ)
  field_to_b256 value = bytes32_from_field value

  -- `encode` of a type of one element: `out.push(self.to_field()?)`.
  unfoldable pub encode_element :
      {T : Type 0} → (T → Result Error Fr) → T → List Fr → Result Error (List Fr)
  encode_element to_field value out = do element ← to_field value; ok (out ++ element ∷ [])

  -- `impl FieldEncode for [T]`, to which `Vec<T>` and `[T; N]` refer.
  unfoldable pub encode_slice :
      {T : Type 0}
      → (T → List Fr → Result Error (List Fr))
      → List T
      → List Fr
      → Result Error (List Fr)
  encode_slice encode [] out = ok out
  encode_slice encode (x ∷ xs) out = do out' ← encode x out; encode_slice encode xs out'
