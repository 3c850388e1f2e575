-- ===== src/Registry/ReadBack.antt =====
-- build.rs: what the decoder of public inputs reads from the field vector of public inputs is these inputs.
pub mod Limbs
use outbe_circuits.Prelude.{
  ℕ, zero, suc, ◌+◌, ◌-◌, ◌*◌, ◌/◌, ◌%◌, ◌^◌, ◌≤◌, ◌<◌, min, max, String, ◌≡◌, refl, sym, ap, ◌∙◌,
  ◌≢◌, ◌↔◌, ◌⊎◌, inl, inr, Bool, true, false, not, ◌&&◌, ◌||◌, Option, none, some, List, [], ◌∷◌,
  ◌++◌, map, arith, Result, ok, err, panic, ◌>>=◌, ◌>>◌, guard, map_err, ok_or, expect, index,
  assert, ltb, leb, ◌==◌, if◌then◌else◌, ltb→lt, lt→ltb, leb→le, le→leb, ==_iff, ==_refl,
  Bool-cases, Option-cases, length, get_elem?, get_or, set, take, drop, replicate, All,
  length-append, length-set, length-take, length-drop, length-replicate, take-append, drop-append,
  take-append-drop, get_elem?-some, get_elem?-none, bit_xor-one, bind_ok, ok_inj, err_ok,
  guard-eq-ok, ok_or-eq-ok, Result-cases, some_inj, expect-eq-ok, assert-eq-ok,
}
use mathlib.Core.Path.{subst}
use mathlib.Core.List.{append-nil}
use outbe_circuits.Error.{Error}
use outbe_circuits.Text.{codes}
use outbe_circuits.Slices.{bytes_eq}
use outbe_circuits.Field.{PrimeField, IsLawful}
use outbe_circuits.Codec.Scalars.{scalar_from_field, scalar_to_field}
use outbe_circuits.Codec.Arrays.{scalar_from_field-to_field}
use outbe_circuits.Codec.Limbs.{u256_from_limbs_be}
use outbe_circuits.Registry.Manifest.{AbiType, AbiFields, Param}
use outbe_circuits.Registry.Widths.{abi_field_count, all_zero}
use outbe_circuits.Registry.Flatten.{
  Value, Elements, Members, Inputs, flatten, flatten_elements, flatten_members, public_fields,
  as_u64,
}
use outbe_circuits.Registry.Decoder

-- An unsigned integer of the ABI is one of its width.
unfoldable mutual
  pub InRange : {Fr : Type 0} {type : AbiType} → Value Fr type → Type 0
  InRange (Value.element x) = Unit
  InRange (Value.bit b) = Unit
  InRange (Value.integer {sign} {width} below n) =
      (bytes_eq sign (codes "unsigned") ≡ false) ⊎ ((below ≡ false) × (n < 2 ^ width))
  InRange (Value.array elements) = AllInRange elements
  InRange (Value.struct members) = MembersInRange members

  pub AllInRange : {Fr : Type 0} {type : AbiType} {n : ℕ} → Elements Fr type n → Type 0
  AllInRange Elements.empty = Unit
  AllInRange (Elements.cons x elements) = InRange x × AllInRange elements

  pub MembersInRange : {Fr : Type 0} {members : AbiFields} → Members Fr members → Type 0
  MembersInRange Members.none_left = Unit
  MembersInRange (Members.member x members) = InRange x × MembersInRange members

pub uint-bounds :
    (Fr : Type 0) (sign : List ℕ) (width : ℕ) (below : Bool) (m : ℕ)
    → bytes_eq sign (codes "unsigned") ≡ true
    → InRange {Fr = Fr} (Value.integer {sign = sign} {width = width} below m)
    → (below ≡ false) × (m < 2 ^ width)
unfolding InRange
uint-bounds Fr sign width below m u (inl signed) = cc
uint-bounds Fr sign width below m u (inr bounds) = bounds

-- The items stand in the list from an index on.
abbrev pub At : {Fr : Type 0} → List Fr → ℕ → List Fr → Type 0
At fields at [] = Unit {0}
At fields at (f ∷ fs) = (get_elem? fields at ≡ some f) × At fields (at + 1) fs

pub At-append :
    {Fr : Type 0} (fields : List Fr) (at : ℕ) (fs gs : List Fr)
    → At fields at (fs ++ gs)
    → At fields at fs × At fields (at + length fs) gs
At-append fields at [] gs h = let e : at + 0 ≡ at = omega arith in (tt, rw e h)
At-append fields at (f ∷ fs) gs (p, h) =
    let (q, r) = At-append fields (at + 1) fs gs h in
    let e : at + 1 + length fs ≡ at + suc (length fs) = omega arith in ((p, q), rw (← e) r)

At-cons :
    {Fr : Type 0} (x : Fr) (fields : List Fr) (at : ℕ) (fs : List Fr)
    → At fields at fs
    → At (x ∷ fields) (suc at) fs
At-cons x fields at [] h = tt
At-cons x fields at (f ∷ fs) (p, h) =
    let e : suc at + 1 ≡ suc (at + 1) = omega arith in (p, rw e (At-cons x fields (at + 1) fs h))

pub At-whole : {Fr : Type 0} (fs : List Fr) → At fs 0 fs
At-whole [] = tt
At-whole (f ∷ fs) = (refl, At-cons f fs 0 fs (At-whole fs))

uint_name-width :
    (width : ℕ) (name : String)
    → Decoder.uint_name width ≡ some name
    → (width / 8 * 8 ≡ width) × (width ≤ 128)
uint_name-width width name h = ground arith

module _ {Fr : Type 0} (F : PrimeField Fr) (lawful : IsLawful F) (words : List (List ℕ))
    (fields : List Fr) where
  pub index-same :
      (at : ℕ) (x y : Fr)
      → get_elem? fields at ≡ some x
      → index {E = Error} fields at ≡ ok y
      → y ≡ x
  index-same at x y h k = some_inj (sym (expect-eq-ok _ k) ∙ h)

  pub decode_uint-same :
      (width at n m : ℕ)
      → n < 2 ^ width
      → get_elem? fields at ≡ some (F.from n)
      → Decoder.decode_uint F words fields width at ≡ ok m
      → m ≡ n
  unfolding Decoder.decode_uint scalar_to_field
  decode_uint-same width at n m lt found h =
      bind_ok (expect (Decoder.uint_name width)) h λ name e h1.
        bind_ok (index fields at) h1 λ x e2 h2.
          let (even, small) = uint_name-width width name (expect-eq-ok _ e) in
          let same : x ≡ F.from n = index-same at (F.from n) x found e2 in
          let fits : n < 2 ^ (width / 8 * 8) = rw even lt in
          let narrow : width / 8 ≤ 20 = omega arith in
          ok_inj (
            sym h2
            ∙ ap (scalar_from_field ⦃F = F⦄ (width / 8) name) same
            ∙ scalar_from_field-to_field ⦃F = F⦄ (width / 8) name n lawful narrow fits)

  field_array-same :
      (n at : ℕ) (xs d : Elements Fr AbiType.field n) (fs : List Fr)
      → flatten_elements F {E = Error} xs ≡ ok fs
      → At fields at fs
      → Decoder.field_array F words fields n at ≡ ok d
      → d ≡ xs
  unfolding flatten Decoder.field_array
  field_array-same zero at Elements.empty d fs p all h = sym (ok_inj h)
  field_array-same (suc n) at (Elements.cons (Value.element x) xs) d fs p all h =
      bind_ok (flatten_elements F {E = Error} xs) p λ gs e p1.
        let there : At fields at (x ∷ gs) = subst (At fields at) (sym (ok_inj p1)) all in
        bind_ok (index fields at) h λ y e2 h1.
          bind_ok (Decoder.field_array F words fields n (at + 1)) h1 λ rest e3 h2.
            sym (ok_inj h2)
            ∙ ap (λ z. Elements.cons (Value.element z) rest) (index-same at x y there.0 e2)
            ∙ ap (Elements.cons (Value.element x))
                (field_array-same n (at + 1) xs rest gs e there.1 e3)

  pub decode_array-same :
      (n : ℕ) (type : AbiType) (at : ℕ) (xs d : Elements Fr type n) (fs : List Fr)
      → flatten_elements F {E = Error} xs ≡ ok fs
      → At fields at fs
      → Decoder.decode_array F words fields n type at ≡ ok d
      → d ≡ xs
  unfolding Decoder.decode_array
  decode_array-same n AbiType.field at xs d fs p all h = field_array-same n at xs d fs p all h
  decode_array-same n AbiType.boolean at xs d fs p all h = cc
  decode_array-same n (AbiType.integer sign width) at xs d fs p all h = cc
  decode_array-same n (AbiType.array len type) at xs d fs p all h = cc
  decode_array-same n (AbiType.struct path members) at xs d fs p all h = cc
  decode_array-same n AbiType.other at xs d fs p all h = cc

  address_field-same :
      (type : AbiType) (at : ℕ) (x d : Value Fr type) (fs : List Fr)
      → flatten F {E = Error} x ≡ ok fs
      → At fields at fs
      → Decoder.decode_address_field F words fields type at ≡ ok d
      → d ≡ x
  unfolding Decoder.decode_address_field flatten
  address_field-same AbiType.field at (Value.element x) d fs p all h =
      bind_ok (index words at) h λ word e h1.
        bind_ok (guard (all_zero (take 12 word)) _) h1 λ u e2 h2.
          bind_ok (index fields at) h2 λ y e3 h3.
            let there : At fields at (x ∷ []) = subst (At fields at) (sym (ok_inj p)) all in
            sym (ok_inj h3) ∙ ap Value.element (index-same at x y there.0 e3)
  address_field-same AbiType.boolean at x d fs p all h = cc
  address_field-same (AbiType.integer sign width) at x d fs p all h = cc
  address_field-same (AbiType.array len type) at x d fs p all h = cc
  address_field-same (AbiType.struct path members) at x d fs p all h = cc
  address_field-same AbiType.other at x d fs p all h = cc

  -- A struct with one field holds what its field gives.
  pub flatten-only :
      {type : AbiType} (x : Value Fr type) (fs : List Fr)
      → flatten_members F {E = Error} (Members.member x Members.none_left) ≡ ok fs
      → flatten F {E = Error} x ≡ ok fs
  unfolding flatten
  flatten-only x fs p =
      bind_ok (flatten F {E = Error} x) p λ gs e p1. e ∙ ap ok (sym (append-nil gs) ∙ ok_inj p1)

  pub address-same :
      (members : AbiFields) (at : ℕ) (xs d : Members Fr members) (fs : List Fr)
      → flatten_members F {E = Error} xs ≡ ok fs
      → At fields at fs
      → Decoder.decode_address F words fields members at ≡ ok d
      → d ≡ xs
  unfolding Decoder.decode_address
  address-same (AbiFields.more type AbiFields.end) at (Members.member x Members.none_left) d fs p
        all h =
      bind_ok (Decoder.decode_address_field F words fields type at) h λ y e h1.
        sym (ok_inj h1)
        ∙ ap (λ z. Members.member z Members.none_left)
            (address_field-same type at x y fs (flatten-only x fs p) all e)
  address-same AbiFields.end at xs d fs p all h = cc
  address-same (AbiFields.more type (AbiFields.more next members)) at xs d fs p all h = cc
