-- ===== src/Registry/FromAlloy.antt =====
-- build.rs: the conversion of Alloy inputs to circuit inputs.
use outbe_circuits.Prelude.{
  ℕ, zero, suc, ◌&&◌, none, some, List, [], ◌∷◌, Result, ok, panic, ◌>>=◌, ◌>>◌, assert, ◌==◌,
}
use outbe_circuits.Error.{Error}
use outbe_circuits.Text.{codes}
use outbe_circuits.Slices.{bytes_eq}
use outbe_circuits.Field.{PrimeField}
use outbe_circuits.Bytes.{to_be_bytes}
use outbe_circuits.Codec.Scalars.{field_from_b256, address_to_field}
use outbe_circuits.Codec.Limbs.{u256_limbs_be}
use outbe_circuits.Registry.Manifest.{AbiType, AbiFields, Param}
use outbe_circuits.Registry.Flatten.{Value, Elements, Members, Inputs}
use outbe_circuits.Registry.Decoder.{limb_array}
use outbe_circuits.Registry.Alloy.{Alloy, Alloys, Shape, shape}

-- The parts of an Alloy value; a value of another type is none of the Alloy type at hand.
abbrev pub items : Alloy → Result Error Alloys
items (Alloy.array xs) = ok xs
items (Alloy.b256 word) = panic
items (Alloy.bit b) = panic
items (Alloy.integer below n) = panic
items (Alloy.point xs) = panic
items (Alloy.address a) = panic
items (Alloy.uint256 n) = panic

abbrev pub coordinates : Alloy → Result Error Alloys
coordinates (Alloy.point xs) = ok xs
coordinates (Alloy.b256 word) = panic
coordinates (Alloy.bit b) = panic
coordinates (Alloy.integer below n) = panic
coordinates (Alloy.array xs) = panic
coordinates (Alloy.address a) = panic
coordinates (Alloy.uint256 n) = panic

module _ {Fr : Type 0} (F : PrimeField Fr) where
  -- An array is converted item by item.
  unfoldable pub elements_of :
      {type : AbiType} (n : ℕ)
      → (Alloy → Result Error (Value Fr type))
      → Alloys
      → Result Error (Elements Fr type n)
  elements_of zero convert Alloys.nil = ok Elements.empty
  elements_of zero convert (Alloys.cons y ys) = panic
  elements_of (suc n) convert Alloys.nil = panic
  elements_of (suc n) convert (Alloys.cons y ys) = do
    x ← convert y
    xs ← elements_of n convert ys
    ok (Elements.cons x xs)

  abbrev pub field_of : Alloy → Result Error (Value Fr AbiType.field)
  field_of (Alloy.b256 word) = do x ← field_from_b256 ⦃F = F⦄ word; ok (Value.element x)
  field_of a = panic

  abbrev pub bit_of : Alloy → Result Error (Value Fr AbiType.boolean)
  bit_of (Alloy.bit b) = ok (Value.bit b)
  bit_of a = panic

  abbrev pub integer_of :
      {sign : List ℕ} {width : ℕ} → Alloy → Result Error (Value Fr (AbiType.integer sign width))
  integer_of (Alloy.integer below n) = ok (Value.integer below n)
  integer_of a = panic

  -- `FieldElement::to_field(&address)?`, where the field of the struct is one element.
  abbrev pub element_of_address : (type : AbiType) → Alloy → Result Error (Value Fr type)
  element_of_address AbiType.field (Alloy.address a) = do
    x ← address_to_field ⦃F = F⦄ a
    ok (Value.element x)
  element_of_address type a = panic

  -- `u256_limbs_be(&value.to_be_bytes::<32>())`, where the field of the struct is an array of limbs.
  abbrev pub limbs_of_uint256 : (type : AbiType) → Alloy → Result Error (Value Fr type)
  limbs_of_uint256 (AbiType.array (some n) (AbiType.integer sign width)) (Alloy.uint256 value) = do
    assert (bytes_eq sign (codes "unsigned") && width == 128)
    let limbs = u256_limbs_be (to_be_bytes 32 value)
    xs ← limb_array sign width n (limbs.0 ∷ limbs.1 ∷ limbs.2 ∷ [])
    ok (Value.array xs)
  limbs_of_uint256 type a = panic

  -- A struct with one field, from that field.
  abbrev pub single :
      {type : AbiType} (members : AbiFields)
      → Result Error (Value Fr type)
      → Result Error (Members Fr (AbiFields.more type members))
  single AbiFields.end r = do x ← r; ok (Members.member x Members.none_left)
  single (AbiFields.more type members) r = panic

  abbrev pub address_members : (members : AbiFields) → Alloy → Result Error (Members Fr members)
  address_members AbiFields.end a = panic
  address_members (AbiFields.more type members) a = single members (element_of_address type a)

  abbrev pub u256_members : (members : AbiFields) → Alloy → Result Error (Members Fr members)
  u256_members AbiFields.end a = panic
  u256_members (AbiFields.more type members) a = single members (limbs_of_uint256 type a)

  -- The fields of a struct, by its shape, from all its fields or its only one.
  abbrev pub by_shape :
      {members : AbiFields}
      → Shape
      → Result Error (Members Fr members)
      → Result Error (Members Fr members)
      → Alloy
      → Result Error (Members Fr members)
  by_shape Shape.is_point all only a = all
  by_shape {members} Shape.is_address all only a = address_members members a
  by_shape {members} Shape.is_u256 all only a = u256_members members a
  by_shape Shape.is_other all only a = only

  unfoldable mutual
    -- `alloy_to_circuit`
    pub alloy_to_circuit : (type : AbiType) → Alloy → Result Error (Value Fr type)
    alloy_to_circuit AbiType.field a = field_of a
    alloy_to_circuit AbiType.boolean a = bit_of a
    alloy_to_circuit (AbiType.integer sign width) a = integer_of a
    alloy_to_circuit (AbiType.array none type) a = panic
    alloy_to_circuit (AbiType.array (some n) type) a = do
      ys ← items a
      xs ← elements_of n (alloy_to_circuit type) ys
      ok (Value.array xs)
    alloy_to_circuit (AbiType.struct path members) a = do
      xs ←
          by_shape (shape path) (do ys ← coordinates a; members_of members ys) (only_of members a) a
      ok (Value.struct xs)
    alloy_to_circuit AbiType.other a = panic

    pub only_of : (members : AbiFields) → Alloy → Result Error (Members Fr members)
    only_of AbiFields.end a = panic
    only_of (AbiFields.more type members) a = single members (alloy_to_circuit type a)

    pub members_of : (members : AbiFields) → Alloys → Result Error (Members Fr members)
    members_of AbiFields.end Alloys.nil = ok Members.none_left
    members_of AbiFields.end (Alloys.cons y ys) = panic
    members_of (AbiFields.more type members) Alloys.nil = panic
    members_of (AbiFields.more type members) (Alloys.cons y ys) = do
      x ← alloy_to_circuit type y
      xs ← members_of members ys
      ok (Members.member x xs)

  -- `generate_alloy_to_circuit_impl`, on the parameters of one visibility.
  unfoldable pub alloy_to_circuit_inputs :
      (params : List Param) → Alloys → Result Error (Inputs Fr params)
  alloy_to_circuit_inputs [] Alloys.nil = ok Inputs.done
  alloy_to_circuit_inputs [] (Alloys.cons y ys) = panic
  alloy_to_circuit_inputs (p ∷ params) Alloys.nil = panic
  alloy_to_circuit_inputs (p ∷ params) (Alloys.cons y ys) = do
    x ← alloy_to_circuit p.type y
    xs ← alloy_to_circuit_inputs params ys
    ok (Inputs.given x xs)
