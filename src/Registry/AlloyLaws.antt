-- ===== src/Registry/AlloyLaws.antt =====
-- build.rs: circuit inputs that are converted to Alloy inputs and back.
use outbe_circuits.Prelude.{ℕ, ◌≡◌, refl, List, ok, ◌>>=◌, bind_ok, ok_inj}
use outbe_circuits.Field.{PrimeField, IsLawful}
use outbe_circuits.Codec.Scalars.{field_to_b256}
use outbe_circuits.Registry.Manifest.{AbiType, AbiFields, Param}
use outbe_circuits.Registry.Flatten.{Value, Elements, Members, Inputs}
use outbe_circuits.Registry.ReadBack.{InRange, AllInRange, MembersInRange}
use outbe_circuits.Registry.Alloy.{
  Alloy, Alloys, Shape, shape, circuit_to_alloy, elements_to_alloy, members_to_alloy, only_to_alloy,
  struct_to_alloy, circuit_to_alloy_inputs,
}
use outbe_circuits.Registry.FromAlloy.{
  alloy_to_circuit, elements_of, members_of, only_of, by_shape, coordinates,
  alloy_to_circuit_inputs,
}
use outbe_circuits.Registry.RoundTrip.{InputsInRange}
use outbe_circuits.Registry.AlloyLeaves.{b256-back, address_members-back, u256_members-back}

module _ {Fr : Type 0} (F : PrimeField Fr) (lawful : IsLawful F) where
  by_shape-back :
      (s : Shape) (members : AbiFields) (xs : Members Fr members) (a : Alloy)
      → ((ys : Alloys) → members_to_alloy F xs ≡ ok ys → members_of F members ys ≡ ok xs)
      → (only_to_alloy F xs ≡ ok a → only_of F members a ≡ ok xs)
      → MembersInRange xs
      → struct_to_alloy F s (members_to_alloy F xs) (only_to_alloy F xs) xs ≡ ok a
      → by_shape F s (do ys ← coordinates a; members_of F members ys) (only_of F members a) a
        ≡ ok xs
  by_shape-back Shape.is_point members xs a all only r h =
      bind_ok (members_to_alloy F xs) h λ ys e h1. rw (← ok_inj h1) (all ys e)
  by_shape-back Shape.is_address members xs a all only r h =
      address_members-back F lawful members xs a h
  by_shape-back Shape.is_u256 members xs a all only r h = u256_members-back F members xs a r h
  by_shape-back Shape.is_other members xs a all only r h = only h

  mutual
    unfolding circuit_to_alloy alloy_to_circuit InRange elements_of

    value-back :
        {type : AbiType} (x : Value Fr type) (a : Alloy)
        → InRange x
        → circuit_to_alloy F x ≡ ok a
        → alloy_to_circuit F type a ≡ ok x
    value-back (Value.element x) a r h =
        bind_ok (field_to_b256 ⦃F = F⦄ x) h
          λ word e h1. rw (← ok_inj h1, b256-back F lawful x word e) refl
    value-back (Value.bit b) a r h = rw (← ok_inj h) refl
    value-back (Value.integer below n) a r h = rw (← ok_inj h) refl
    value-back (Value.array {n} {type} xs) a r h =
        bind_ok (elements_to_alloy F xs) h λ ys e h1. rw (← ok_inj h1, elements-back xs ys r e) refl
    value-back (Value.struct {path} {fields} xs) a r h =
        let back =
          by_shape-back (shape path) fields xs a (λ ys e. members-back xs ys r e)
            (λ e. only-back xs a r e) r h in
        rw back refl

    elements-back :
        {type : AbiType} {n : ℕ} (xs : Elements Fr type n) (ys : Alloys)
        → AllInRange xs
        → elements_to_alloy F xs ≡ ok ys
        → elements_of F n (alloy_to_circuit F type) ys ≡ ok xs
    elements-back Elements.empty ys r h = rw (← ok_inj h) refl
    elements-back (Elements.cons x xs) ys (r, rs) h = bind_ok (circuit_to_alloy F x) h λ y e h1.
        bind_ok (elements_to_alloy F xs) h1
          λ more e2 h2. rw (← ok_inj h2, value-back x y r e, elements-back xs more rs e2) refl

    members-back :
        {members : AbiFields} (xs : Members Fr members) (ys : Alloys)
        → MembersInRange xs
        → members_to_alloy F xs ≡ ok ys
        → members_of F members ys ≡ ok xs
    members-back Members.none_left ys r h = rw (← ok_inj h) refl
    members-back (Members.member x xs) ys (r, rs) h = bind_ok (circuit_to_alloy F x) h λ y e h1.
        bind_ok (members_to_alloy F xs) h1
          λ more e2 h2. rw (← ok_inj h2, value-back x y r e, members-back xs more rs e2) refl

    only-back :
        {members : AbiFields} (xs : Members Fr members) (a : Alloy)
        → MembersInRange xs
        → only_to_alloy F xs ≡ ok a
        → only_of F members a ≡ ok xs
    only-back Members.none_left a r h = cc
    only-back (Members.member x Members.none_left) a (r, rs) h = rw (value-back x a r h) refl
    only-back (Members.member x (Members.member y xs)) a r h = cc

-- Circuit inputs that are converted to Alloy inputs are what converting these back gives, where unsigned
-- integers are of their width.
pub alloy_to_circuit_inputs-circuit_to_alloy_inputs :
    {Fr : Type 0} (F : PrimeField Fr) {params : List Param} (inputs : Inputs Fr params)
    (ys : Alloys)
    → IsLawful F
    → InputsInRange inputs
    → circuit_to_alloy_inputs F inputs ≡ ok ys
    → alloy_to_circuit_inputs F params ys ≡ ok inputs
unfolding circuit_to_alloy_inputs alloy_to_circuit_inputs InputsInRange
alloy_to_circuit_inputs-circuit_to_alloy_inputs F Inputs.done ys lawful r h = rw (← ok_inj h) refl
alloy_to_circuit_inputs-circuit_to_alloy_inputs F (Inputs.given x inputs) ys lawful (r, rs) h =
    bind_ok (circuit_to_alloy F x) h λ y e h1.
      bind_ok (circuit_to_alloy_inputs F inputs) h1 λ more e2 h2.
        rw
          (
            ← ok_inj h2,
            value-back F lawful x y r e,
            alloy_to_circuit_inputs-circuit_to_alloy_inputs F inputs more lawful rs e2,
          )
          refl
