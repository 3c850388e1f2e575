-- ===== src/Registry/Flatten.antt =====
-- build.rs: the field vectors that the generated `Circuit::public_inputs` and `Circuit::witness_inputs` give.
use outbe_circuits.Prelude.{
  ℕ, suc, ◌-◌, ◌%◌, ◌^◌, Bool, true, false, ◌||◌, some, List, [], ◌∷◌, ◌++◌, Result, ok, panic,
  ◌>>=◌, ◌>>◌, assert, if◌then◌else◌,
}
use outbe_circuits.Text.{codes}
use outbe_circuits.Field.{PrimeField}
use outbe_circuits.Slices.{bytes_eq}
use outbe_circuits.Registry.Manifest.{AbiType, AbiFields, Param}

mutual
  -- The values of the Rust type of an ABI type. An integer is a magnitude, and whether it is below zero.
  pub data Value (Fr : Type 0) : AbiType → Type 0 where
    element : Fr → Value Fr AbiType.field
    bit : Bool → Value Fr AbiType.boolean
    integer : {sign : List ℕ} → {width : ℕ} → Bool → ℕ → Value Fr (AbiType.integer sign width)
    array : {n : ℕ} → {type : AbiType} → Elements Fr type n → Value Fr (AbiType.array (some n) type)
    struct :
        {path : List ℕ}
        → {fields : AbiFields} → Members Fr fields
        → Value Fr (AbiType.struct path fields)

  pub data Elements (Fr : Type 0) : AbiType → ℕ → Type 0 where
    empty : {type : AbiType} → Elements Fr type 0
    cons :
        {type : AbiType} → {n : ℕ} → Value Fr type → Elements Fr type n → Elements Fr type (suc n)

  pub data Members (Fr : Type 0) : AbiFields → Type 0 where
    none_left : Members Fr AbiFields.end
    member :
        {type : AbiType}
        → {fields : AbiFields} → Value Fr type
        → Members Fr fields
        → Members Fr (AbiFields.more type fields)

-- `as u64`
abbrev pub as_u64 : Bool → ℕ → ℕ
as_u64 true n = (2 ^ 64 - n % 2 ^ 64) % 2 ^ 64
as_u64 false n = n % 2 ^ 64

module _ {Fr : Type 0} (F : PrimeField Fr) where
  unfoldable mutual
    -- What the statements of `generate_abi_leaf` push.
    pub flatten : {E : Type 0} {type : AbiType} → Value Fr type → Result E (List Fr)
    flatten (Value.element x) = ok (x ∷ [])
    flatten (Value.bit b) = ok (F.from (if b then 1 else 0) ∷ [])
    flatten (Value.integer {sign} below n) =
        if bytes_eq sign (codes "unsigned")
        then ok (F.from n ∷ [])
        else if bytes_eq sign (codes "signed")
        then ok (F.from (as_u64 below n) ∷ [])
        else panic
    flatten (Value.array elements) = flatten_elements elements
    flatten (Value.struct members) = flatten_members members

    pub flatten_elements :
        {E : Type 0} {type : AbiType} {n : ℕ} → Elements Fr type n → Result E (List Fr)
    flatten_elements Elements.empty = ok []
    flatten_elements (Elements.cons x elements) = do
      fs ← flatten x
      rest ← flatten_elements elements
      ok (fs ++ rest)

    -- A struct with one field gives what the field gives.
    pub flatten_members : {E : Type 0} {fields : AbiFields} → Members Fr fields → Result E (List Fr)
    flatten_members Members.none_left = ok []
    flatten_members (Members.member x members) = do
      fs ← flatten x
      rest ← flatten_members members
      ok (fs ++ rest)

-- A value for every parameter, of both generated structs.
pub data Inputs (Fr : Type 0) : List Param → Type 0 where
  done : Inputs Fr []
  given :
      {p : Param}
      → {params : List Param} → Value Fr p.type
      → Inputs Fr params
      → Inputs Fr (p ∷ params)

module _ {Fr : Type 0} (F : PrimeField Fr) where
  -- `generate_public_input_fields`
  unfoldable pub public_fields :
      {E : Type 0} {params : List Param} → Inputs Fr params → Result E (List Fr)
  public_fields Inputs.done = ok []
  public_fields (Inputs.given {p} x inputs) =
      let rest = public_fields inputs in
      if bytes_eq p.visibility (codes "public")
      then (do fs ← flatten F x; more ← rest; ok (fs ++ more))
      else rest

  -- `generate_witness_input_fields`
  unfoldable pub witness_fields :
      {E : Type 0} {params : List Param} → Inputs Fr params → Result E (List Fr)
  witness_fields Inputs.done = ok []
  witness_fields (Inputs.given {p} x inputs) = do
    assert (bytes_eq p.visibility (codes "private") || bytes_eq p.visibility (codes "public"))
    fs ← flatten F x
    more ← witness_fields inputs
    ok (fs ++ more)
