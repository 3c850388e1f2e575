-- ===== src/Registry/Counted.antt =====
-- The field vectors of a circuit have the lengths that build.rs counts.
use outbe_circuits.Prelude.{
  ℕ, suc, ◌+◌, ◌*◌, ◌≡◌, refl, inl, inr, Bool, true, false, ◌||◌, List, [], ◌∷◌, ◌++◌, arith,
  Result, ok, panic, ◌>>=◌, if◌then◌else◌, Bool-cases, length, All, length-append, bind_ok, ok_inj,
}
use outbe_circuits.Error.{Error}
use outbe_circuits.Text.{codes}
use outbe_circuits.Field.{PrimeField}
use outbe_circuits.Slices.{bytes_eq}
use outbe_circuits.Registry.Manifest.{AbiType, AbiFields, Param}
use outbe_circuits.Registry.Widths.{abi_field_count, fields_count, public_input_count}
use outbe_circuits.Registry.Flatten.{
  Value, Elements, Members, Inputs, flatten, flatten_elements, flatten_members, public_fields,
  as_u64,
}

-- Every integer of the type is signed or unsigned.
unfoldable mutual
  pub Known : AbiType → Type 0
  Known AbiType.field = Unit
  Known AbiType.boolean = Unit
  Known (AbiType.integer sign width) =
      (bytes_eq sign (codes "unsigned") || bytes_eq sign (codes "signed")) ≡ true
  Known (AbiType.array len type) = Known type
  Known (AbiType.struct path fields) = AllKnown fields
  Known AbiType.other = Unit

  pub AllKnown : AbiFields → Type 0
  AllKnown AbiFields.end = Unit
  AllKnown (AbiFields.more type fields) = Known type × AllKnown fields

-- A result that is there and has a length.
abbrev pub Has : {Fr : Type 0} → Result Error (List Fr) → ℕ → Type 0
Has {Fr} r n = (fs : List Fr) × (r ≡ ok fs) × (length fs ≡ n)

joined :
    {Fr : Type 0} (a b : Result Error (List Fr)) (m n : ℕ)
    → Has a m
    → Has b n
    → Has (do fs ← a; rest ← b; ok (fs ++ rest)) (m + n)
joined a b m n (fs, p, q) (gs, r, s) =
    (fs ++ gs, rw (p, r) refl, omega (arith, length-append fs gs, q, s))

integer-Has :
    {Fr : Type 0} (F : PrimeField Fr) (sign : List ℕ) (below : Bool) (n : ℕ)
    → (bytes_eq sign (codes "unsigned") || bytes_eq sign (codes "signed")) ≡ true
    → Has
        (if bytes_eq sign (codes "unsigned")
          then ok (F.from n ∷ [])
          else if bytes_eq sign (codes "signed")
          then ok (F.from (as_u64 below n) ∷ [])
          else panic)
        1
integer-Has F sign below n h = elim (Bool-cases (bytes_eq sign (codes "unsigned"))) [
  | inl p ↦ rw p (F.from n ∷ [], refl, refl)
  | inr p ↦ elim (Bool-cases (bytes_eq sign (codes "signed"))) [
    | inl q ↦ rw (p, q) (F.from (as_u64 below n) ∷ [], refl, refl)
    | inr q ↦ grind arith
  ]
]

mutual
  unfolding flatten abi_field_count Known

  pub flatten-Has :
      {Fr : Type 0} (F : PrimeField Fr) {type : AbiType} (x : Value Fr type) (n : ℕ)
      → Known type
      → abi_field_count {E = Error} type ≡ ok n
      → Has (flatten F x) n
  flatten-Has F (Value.element x) n k h = (x ∷ [], refl, ok_inj h)
  flatten-Has F (Value.bit b) n k h = (_, refl, ok_inj h)
  flatten-Has F (Value.integer {sign} below i) n k h =
      rw (← ok_inj h) (integer-Has F sign below i k)
  flatten-Has F (Value.array {n = len} {type} elements) n k h =
      bind_ok (abi_field_count {E = Error} type) h
        λ each e h1. rw (← ok_inj h1) (flatten_elements-Has F elements each k e)
  flatten-Has F (Value.struct members) n k h = flatten_members-Has F members n k h

  flatten_elements-Has :
      {Fr : Type 0} (F : PrimeField Fr) {type : AbiType} {len : ℕ} (elements : Elements Fr type len)
      (each : ℕ)
      → Known type
      → abi_field_count {E = Error} type ≡ ok each
      → Has (flatten_elements F elements) (len * each)
  flatten_elements-Has F Elements.empty each k h = ([], refl, omega arith)
  flatten_elements-Has F (Elements.cons {n = len} x elements) each k h =
      let s : each + len * each ≡ suc len * each = grind arith in
      rw (← s) (
        joined (flatten F x) (flatten_elements F elements) each (len * each)
          (flatten-Has F x each k h) (flatten_elements-Has F elements each k h))

  flatten_members-Has :
      {Fr : Type 0} (F : PrimeField Fr) {fields : AbiFields} (members : Members Fr fields) (n : ℕ)
      → AllKnown fields
      → fields_count {E = Error} fields ≡ ok n
      → Has (flatten_members F members) n
  flatten_members-Has F Members.none_left n k h = ([], refl, ok_inj h)
  flatten_members-Has F (Members.member {type} {fields} x members) n (k, ks) h =
      bind_ok (abi_field_count {E = Error} type) h λ a e h1.
        bind_ok (fields_count {E = Error} fields) h1 λ b e2 h2. rw (← ok_inj h2) (
          joined (flatten F x) (flatten_members F members) a b (flatten-Has F x a k e)
            (flatten_members-Has F members b ks e2))

chosen :
    {Fr : Type 0} (b : Bool) (a more : Result Error (List Fr)) (m rest : Result Error ℕ) (n : ℕ)
    → ((k : ℕ) → m ≡ ok k → Has a k)
    → ((k : ℕ) → rest ≡ ok k → Has more k)
    → (if b then (do i ← m; j ← rest; ok (i + j)) else rest) ≡ ok n
    → Has (if b then (do fs ← a; gs ← more; ok (fs ++ gs)) else more) n
chosen true a more m rest n f g h =
    bind_ok m h
      λ i e h1. bind_ok rest h1 λ j e2 h2. rw (← ok_inj h2) (joined a more i j (f i e) (g j e2))
chosen false a more m rest n f g h = g n h

-- Where build.rs counts the public fields of an ABI, the generated `public_inputs` gives that many fields for
-- every value of the inputs, if every integer of the ABI is signed or unsigned.
pub public_fields-public_input_count :
    {Fr : Type 0} (F : PrimeField Fr) {params : List Param} (inputs : Inputs Fr params) (n : ℕ)
    → All (λ p. Known p.type) params
    → public_input_count {E = Error} params ≡ ok n
    → (fs : List Fr) × (public_fields F {E = Error} inputs ≡ ok fs) × (length fs ≡ n)
unfolding public_fields public_input_count
public_fields-public_input_count F Inputs.done n k h = ([], refl, ok_inj h)
public_fields-public_input_count F (Inputs.given {p} {params} x inputs) n (k, ks) h =
    chosen (bytes_eq p.visibility (codes "public")) (flatten F x) (public_fields F inputs)
      (abi_field_count p.type) (public_input_count params) n (λ i e. flatten-Has F x i k e)
      (λ j e. public_fields-public_input_count F inputs j ks e) h
