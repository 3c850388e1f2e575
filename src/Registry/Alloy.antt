-- ===== src/Registry/Alloy.antt =====
-- build.rs: the Alloy types of circuit inputs and the generated conversions.
use outbe_circuits.Prelude.{
  ℕ, Bool, ◌&&◌, List, [], ◌∷◌, Result, ok, panic, ◌>>=◌, ok_or, ◌==◌, if◌then◌else◌,
}
use outbe_circuits.Error.{Error}
use outbe_circuits.Text.{codes}
use outbe_circuits.Slices.{bytes_eq}
use outbe_circuits.Field.{PrimeField}
use outbe_circuits.Bytes.{from_be_bytes}
use outbe_circuits.Codec.Scalars.{field_to_b256, address_from_field}
use outbe_circuits.Codec.Limbs.{u256_from_limbs_be}
use outbe_circuits.Registry.Manifest.{AbiType, AbiFields, Param}
use outbe_circuits.Registry.Flatten.{Value, Elements, Members, Inputs}
use outbe_circuits.Registry.Decoder.{eth_address, u256_path}

abbrev pub curve_point : List ℕ
curve_point = codes "std::embedded_curve_ops::EmbeddedCurvePoint"

mutual
  -- The values of the Alloy types: a `B256` and an `Address` are their bytes, a `U256` is its number.
  pub data Alloy : Type 0 where
    b256 : List ℕ → Alloy
    bit : Bool → Alloy
    integer : Bool → ℕ → Alloy
    array : Alloys → Alloy
    point : Alloys → Alloy
    address : List ℕ → Alloy
    uint256 : ℕ → Alloy

  pub data Alloys : Type 0 where
    nil : Alloys
    cons : Alloy → Alloys → Alloys

-- The special case of a struct, by its path: a point, an address, a `U256` or any other.
pub data Shape : Type 0 where
  is_point is_address is_u256 is_other : Shape

abbrev pub shape : List ℕ → Shape
shape path =
    if bytes_eq path curve_point
    then Shape.is_point
    else if bytes_eq path eth_address
    then Shape.is_address
    else if bytes_eq path u256_path
    then Shape.is_u256
    else Shape.is_other

-- The limbs of a `[u128; 3]`.
abbrev pub limb_of : {Fr : Type 0} {type : AbiType} → Value Fr type → Result Error ℕ
limb_of (Value.element x) = panic
limb_of (Value.bit b) = panic
limb_of (Value.integer {sign} {width} below n) =
    if bytes_eq sign (codes "unsigned") && width == 128 then ok n else panic
limb_of (Value.array xs) = panic
limb_of (Value.struct xs) = panic

unfoldable pub limbs_of :
    {Fr : Type 0} {type : AbiType} {n : ℕ} → Elements Fr type n → Result Error (List ℕ)
limbs_of Elements.empty = ok []
limbs_of (Elements.cons x xs) = do l ← limb_of x; rest ← limbs_of xs; ok (l ∷ rest)

-- `U256::from_be_bytes(u256_from_limbs_be(limbs).ok_or(…)?)`
unfoldable pub uint256_of : List ℕ → Result Error Alloy
uint256_of [] = panic
uint256_of (l0 ∷ []) = panic
uint256_of (l0 ∷ l1 ∷ []) = panic
uint256_of (l0 ∷ l1 ∷ l2 ∷ []) = do
  bytes ← ok_or (Error.non_canonical "uint256 limbs") (u256_from_limbs_be (l0, l1, l2))
  ok (Alloy.uint256 (from_be_bytes bytes))
uint256_of (l0 ∷ l1 ∷ l2 ∷ l3 ∷ limbs) = panic

module _ {Fr : Type 0} (F : PrimeField Fr) where
  unfoldable pub address_of : {type : AbiType} → Value Fr type → Result Error Alloy
  address_of (Value.element x) = do a ← address_from_field ⦃F = F⦄ x; ok (Alloy.address a)
  address_of (Value.bit b) = panic
  address_of (Value.integer below n) = panic
  address_of (Value.array xs) = panic
  address_of (Value.struct xs) = panic

  unfoldable pub u256_of : {type : AbiType} → Value Fr type → Result Error Alloy
  u256_of (Value.element x) = panic
  u256_of (Value.bit b) = panic
  u256_of (Value.integer below n) = panic
  u256_of (Value.array xs) = do limbs ← limbs_of xs; uint256_of limbs
  u256_of (Value.struct xs) = panic

  -- A struct with one field is that field.
  abbrev pub when_only :
      {members : AbiFields} → Result Error Alloy → Members Fr members → Result Error Alloy
  when_only r Members.none_left = r
  when_only r (Members.member x xs) = panic

  abbrev pub address_member : {members : AbiFields} → Members Fr members → Result Error Alloy
  address_member Members.none_left = panic
  address_member (Members.member x xs) = when_only (address_of x) xs

  abbrev pub u256_member : {members : AbiFields} → Members Fr members → Result Error Alloy
  u256_member Members.none_left = panic
  u256_member (Members.member x xs) = when_only (u256_of x) xs

  -- The conversion of a struct, from those of all its fields and of its only field.
  abbrev pub struct_to_alloy :
      {members : AbiFields}
      → Shape
      → Result Error Alloys
      → Result Error Alloy
      → Members Fr members
      → Result Error Alloy
  struct_to_alloy Shape.is_point all only xs = do ys ← all; ok (Alloy.point ys)
  struct_to_alloy Shape.is_address all only xs = address_member xs
  struct_to_alloy Shape.is_u256 all only xs = u256_member xs
  struct_to_alloy Shape.is_other all only xs = only

  unfoldable mutual
    -- `circuit_to_alloy`
    pub circuit_to_alloy : {type : AbiType} → Value Fr type → Result Error Alloy
    circuit_to_alloy (Value.element x) = do word ← field_to_b256 ⦃F = F⦄ x; ok (Alloy.b256 word)
    circuit_to_alloy (Value.bit b) = ok (Alloy.bit b)
    circuit_to_alloy (Value.integer below n) = ok (Alloy.integer below n)
    circuit_to_alloy (Value.array xs) = do ys ← elements_to_alloy xs; ok (Alloy.array ys)
    circuit_to_alloy (Value.struct {path} xs) =
        struct_to_alloy (shape path) (members_to_alloy xs) (only_to_alloy xs) xs

    pub elements_to_alloy : {type : AbiType} {n : ℕ} → Elements Fr type n → Result Error Alloys
    elements_to_alloy Elements.empty = ok Alloys.nil
    elements_to_alloy (Elements.cons x xs) = do
      y ← circuit_to_alloy x
      ys ← elements_to_alloy xs
      ok (Alloys.cons y ys)

    pub members_to_alloy : {members : AbiFields} → Members Fr members → Result Error Alloys
    members_to_alloy Members.none_left = ok Alloys.nil
    members_to_alloy (Members.member x xs) = do
      y ← circuit_to_alloy x
      ys ← members_to_alloy xs
      ok (Alloys.cons y ys)

    pub only_to_alloy : {members : AbiFields} → Members Fr members → Result Error Alloy
    only_to_alloy Members.none_left = panic
    only_to_alloy (Members.member x xs) = when_only (circuit_to_alloy x) xs

  -- `generate_circuit_to_alloy_impl`, on the parameters of one visibility.
  unfoldable pub circuit_to_alloy_inputs :
      {params : List Param} → Inputs Fr params → Result Error Alloys
  circuit_to_alloy_inputs Inputs.done = ok Alloys.nil
  circuit_to_alloy_inputs (Inputs.given x inputs) = do
    y ← circuit_to_alloy x
    ys ← circuit_to_alloy_inputs inputs
    ok (Alloys.cons y ys)
