-- ===== src/Registry/Decoder.antt =====
-- build.rs: the decoder of public inputs that `generate_public_decoder` generates.
use outbe_circuits.Prelude.{
  ℕ, zero, suc, ◌+◌, ◌/◌, String, false, ◌&&◌, Option, none, some, List, [], ◌∷◌, map, Result, ok,
  panic, ◌>>=◌, ◌>>◌, guard, map_err, ok_or, expect, index, assert, ◌==◌, if◌then◌else◌, take,
}
use outbe_circuits.Error.{Error}
use outbe_circuits.Text.{codes}
use outbe_circuits.Slices.{bytes_eq}
use outbe_circuits.Field.{PrimeField}
use outbe_circuits.Codec.Bytes.{field_from_be32}
use outbe_circuits.Codec.Scalars.{scalar_from_field}
use outbe_circuits.Codec.Limbs.{u256_from_limbs_be}
use outbe_circuits.Zkproof.PublicWords.{decode_public_words}
use outbe_circuits.Zkproof.Errors.{from_marshaling}
use outbe_circuits.Registry.Manifest.{AbiType, AbiFields, Param}
use outbe_circuits.Registry.Widths.{abi_field_count, all_zero, combined_len}
use outbe_circuits.Registry.Flatten.{Value, Elements, Members, Inputs}

-- `params.iter().filter(|p| p["visibility"] == "public")`
unfoldable pub publics : List Param → List Param
publics [] = []
publics (p ∷ params) =
    let rest = publics params in if bytes_eq p.visibility (codes "public") then p ∷ rest else rest

-- The names of the unsigned types that are field elements; a type of another width does not compile.
abbrev pub uint_name : ℕ → Option String
uint_name width =
    if width == 8
    then some "u8"
    else if width == 16
    then some "u16"
    else if width == 32
    then some "u32"
    else if width == 64
    then some "u64"
    else if width == 128
    then some "u128"
    else none

abbrev pub eth_address : List ℕ
eth_address = codes "outbe_circuit_core::types::EthAddress"

abbrev pub u256_path : List ℕ
u256_path = codes "bignum::fields::U256::U256"

-- `[u128; n]`, of limbs.
unfoldable pub limb_array :
    {Fr : Type 0} (sign : List ℕ) (width n : ℕ)
    → List ℕ
    → Result Error (Elements Fr (AbiType.integer sign width) n)
limb_array sign width zero [] = ok Elements.empty
limb_array sign width zero (l ∷ limbs) = panic
limb_array sign width (suc n) [] = panic
limb_array sign width (suc n) (l ∷ limbs) = do
  rest ← limb_array sign width n limbs
  ok (Elements.cons (Value.integer false l) rest)

module _ {Fr : Type 0} (F : PrimeField Fr) (words : List (List ℕ)) (fields : List Fr) where
  -- `std::array::from_fn(|i| fields[at + i])`
  unfoldable pub field_array : (n : ℕ) → ℕ → Result Error (Elements Fr AbiType.field n)
  field_array zero at = ok Elements.empty
  field_array (suc n) at = do
    x ← index fields at
    rest ← field_array n (at + 1)
    ok (Elements.cons (Value.element x) rest)

  unfoldable pub decode_uint : ℕ → ℕ → Result Error ℕ
  decode_uint width at = do
    name ← expect (uint_name width)
    x ← index fields at
    scalar_from_field ⦃F = F⦄ (width / 8) name x

  unfoldable pub decode_array : (n : ℕ) (type : AbiType) → ℕ → Result Error (Elements Fr type n)
  decode_array n AbiType.field at = field_array n at
  decode_array n AbiType.boolean at = panic
  decode_array n (AbiType.integer sign width) at = panic
  decode_array n (AbiType.array len type) at = panic
  decode_array n (AbiType.struct path members) at = panic
  decode_array n AbiType.other at = panic

  unfoldable pub decode_address_field : (type : AbiType) → ℕ → Result Error (Value Fr type)
  decode_address_field AbiType.field at = do
    word ← index words at
    guard (all_zero (take 12 word)) (Error.non_canonical "address")
    x ← index fields at
    ok (Value.element x)
  decode_address_field AbiType.boolean at = panic
  decode_address_field (AbiType.integer sign width) at = panic
  decode_address_field (AbiType.array len type) at = panic
  decode_address_field (AbiType.struct path members) at = panic
  decode_address_field AbiType.other at = panic

  -- An address is the field of a struct with one field.
  unfoldable pub decode_address : (members : AbiFields) → ℕ → Result Error (Members Fr members)
  decode_address (AbiFields.more type AbiFields.end) at = do
    x ← decode_address_field type at
    ok (Members.member x Members.none_left)
  decode_address AbiFields.end at = panic
  decode_address (AbiFields.more type (AbiFields.more next members)) at = panic

  unfoldable pub decode_limb_array :
      (n : ℕ) (type : AbiType) → ℕ → Result Error (Elements Fr type n)
  decode_limb_array n (AbiType.integer sign width) at = do
    assert (bytes_eq sign (codes "unsigned") && width == 128)
    l0 ← decode_uint 128 at
    l1 ← decode_uint 128 (at + 1)
    l2 ← decode_uint 128 (at + 2)
    bytes ← ok_or (Error.non_canonical "uint256 limbs") (u256_from_limbs_be (l0, l1, l2))
    limb_array sign width n (l0 ∷ l1 ∷ l2 ∷ [])
  decode_limb_array n AbiType.field at = panic
  decode_limb_array n AbiType.boolean at = panic
  decode_limb_array n (AbiType.array len type) at = panic
  decode_limb_array n (AbiType.struct path members) at = panic
  decode_limb_array n AbiType.other at = panic

  unfoldable pub decode_limbs : (type : AbiType) → ℕ → Result Error (Value Fr type)
  decode_limbs (AbiType.array (some n) type) at = do
    limbs ← decode_limb_array n type at
    ok (Value.array limbs)
  decode_limbs (AbiType.array none type) at = panic
  decode_limbs AbiType.field at = panic
  decode_limbs AbiType.boolean at = panic
  decode_limbs (AbiType.integer sign width) at = panic
  decode_limbs (AbiType.struct path members) at = panic
  decode_limbs AbiType.other at = panic

  -- A `U256` is an array of limbs in a struct with one field.
  unfoldable pub decode_u256 : (members : AbiFields) → ℕ → Result Error (Members Fr members)
  decode_u256 (AbiFields.more type AbiFields.end) at = do
    x ← decode_limbs type at
    ok (Members.member x Members.none_left)
  decode_u256 AbiFields.end at = panic
  decode_u256 (AbiFields.more type (AbiFields.more next members)) at = panic

  unfoldable pub decode_struct :
      List ℕ → (members : AbiFields) → ℕ → Result Error (Members Fr members)
  decode_struct path members at =
      if bytes_eq path eth_address
      then decode_address members at
      else if bytes_eq path u256_path
      then decode_u256 members at
      else panic

  -- The value of one parameter; where the build or the compiler stops on the type, `panic`.
  unfoldable pub decode_value : (type : AbiType) → ℕ → Result Error (Value Fr type)
  decode_value AbiType.field at = do x ← index fields at; ok (Value.element x)
  decode_value AbiType.boolean at = panic
  decode_value (AbiType.integer sign width) at = do
    assert (bytes_eq sign (codes "unsigned"))
    n ← decode_uint width at
    ok (Value.integer false n)
  decode_value (AbiType.array none type) at = panic
  decode_value (AbiType.array (some n) type) at = do
    xs ← decode_array n type at
    ok (Value.array xs)
  decode_value (AbiType.struct path members) at = do
    xs ← decode_struct path members at
    ok (Value.struct xs)
  decode_value AbiType.other at = panic

  -- The loop over the parameters, with the index so far.
  unfoldable pub decode_params : (params : List Param) → ℕ → Result Error (Inputs Fr params)
  decode_params [] at = ok Inputs.done
  decode_params (p ∷ params) at = do
    x ← decode_value p.type at
    n ← abi_field_count p.type
    rest ← decode_params params (at + n)
    ok (Inputs.given x rest)

module _ {Fr : Type 0} (F : PrimeField Fr) (count words : ℕ) where
  -- `decode_public_inputs`, where `count` is `PUBLIC_INPUT_COUNT` and `words` is `PROOF_WORDS`.
  unfoldable pub decode_public_inputs :
      (params : List Param) → List ℕ → Result Error (Inputs Fr (publics params))
  decode_public_inputs params combined_proof = do
    public ←
        map_err from_marshaling
          (decode_public_words F count combined_proof (combined_len count words))
    decode_params F public (map (field_from_be32 ⦃F = F⦄) public) (publics params) 0
