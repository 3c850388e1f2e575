-- ===== src/Registry/AlloyLeaves.antt =====
-- The special types of the generated conversions: words, addresses and `U256`.
use outbe_circuits.Prelude.{
  ℕ, zero, suc, ◌*◌, ◌^◌, ◌<◌, ◌≡◌, refl, sym, ap, ◌∙◌, Bool, true, false, ◌&&◌, none, some, List,
  [], ◌∷◌, arith, Result, ok, err, panic, ◌>>=◌, ok_or, ltb, ◌==◌, if◌then◌else◌, ltb→lt, and_left,
  bind_ok, ok_inj, ok_or-eq-ok,
}
use outbe_circuits.Error.{Error}
use outbe_circuits.Text.{codes}
use outbe_circuits.Slices.{bytes_eq}
use outbe_circuits.Field.{PrimeField, IsLawful}
use outbe_circuits.Bytes.{
  from_be_bytes, to_be_bytes, from_be_bytes-to_be_bytes, to_be_bytes-from_be_bytes,
}
use outbe_circuits.Codec.Scalars.{
  field_to_b256, field_from_b256, address_to_field, address_from_field, bytes32_to_field,
}
use outbe_circuits.Codec.Bytes.{field_from_be_bytes}
use outbe_circuits.Codec.Arrays.{bytes32_to_field-from_field, field_to_be_array-eq}
use outbe_circuits.Codec.Limbs.{u256_limbs_be, u256_from_limbs_be}
use outbe_circuits.Codec.LimbInverse.{u256_limbs_be-u256_from_limbs_be}
use outbe_circuits.Registry.Manifest.{AbiType, AbiFields}
use outbe_circuits.Registry.Flatten.{Value, Elements, Members}
use outbe_circuits.Registry.Decoder.{limb_array}
use outbe_circuits.Registry.ReadBack.{InRange, AllInRange, MembersInRange, uint-bounds}
use outbe_circuits.Registry.Alloy.{
  Alloy, limb_of, limbs_of, uint256_of, address_of, u256_of, address_member, u256_member,
}
use outbe_circuits.Registry.FromAlloy.{limbs_of_uint256, address_members, u256_members}

module _ {Fr : Type 0} (F : PrimeField Fr) (lawful : IsLawful F) where
  pub b256-back :
      (x : Fr) (word : List ℕ)
      → field_to_b256 ⦃F = F⦄ x ≡ ok word
      → field_from_b256 ⦃F = F⦄ word ≡ ok x
  unfolding field_to_b256 field_from_b256
  b256-back x word h =
      sym (ap (λ r. ◌>>=◌ {A = List ℕ} {B = Fr} r (bytes32_to_field ⦃F = F⦄)) h)
      ∙ bytes32_to_field-from_field ⦃F = F⦄ x lawful

  picked :
      {A : Type 0} (b : Bool) (x y : A) (e : Error)
      → ◌≡◌ {A = Result Error A} (if b then ok x else err e) (ok y)
      → (b ≡ true) × (x ≡ y)
  picked true x y e h = (refl, ok_inj h)
  picked false x y e h = cc

  address-back :
      (x : Fr) (a : List ℕ)
      → address_from_field ⦃F = F⦄ x ≡ ok a
      → address_to_field ⦃F = F⦄ a ≡ ok x
  unfolding address_from_field address_to_field field_from_be_bytes
  address-back x a h =
      let (small, made) =
        picked (ltb (F.into_bigint x) (2 ^ (20 * 8))) _ a (Error.non_canonical "address")
          (sym (field_to_be_array-eq ⦃F = F⦄ lawful 20 x "address" (omega arith)) ∙ h) in
      let fits : F.into_bigint x < 2 ^ (20 * 8) = ltb→lt _ _ small in
      ap ok (
        ap (λ b. F.from (from_be_bytes b)) (sym made)
        ∙ ap F.from (from_be_bytes-to_be_bytes 20 (F.into_bigint x) (omega arith))
        ∙ lawful.from-into_bigint x)

  pub address_members-back :
      (members : AbiFields) (xs : Members Fr members) (a : Alloy)
      → address_member F xs ≡ ok a
      → address_members F members a ≡ ok xs
  unfolding address_of
  address_members-back AbiFields.end Members.none_left a h = cc
  address_members-back (AbiFields.more type members) (Members.member x (Members.member y xs)) a h =
      cc
  address_members-back (AbiFields.more type members)
        (Members.member (Value.bit b) Members.none_left) a h =
      cc
  address_members-back (AbiFields.more type members)
        (Members.member (Value.integer below n) Members.none_left) a h =
      cc
  address_members-back (AbiFields.more type members)
        (Members.member (Value.array ys) Members.none_left) a h =
      cc
  address_members-back (AbiFields.more type members)
        (Members.member (Value.struct ys) Members.none_left) a h =
      cc
  address_members-back (AbiFields.more type members)
        (Members.member (Value.element x) Members.none_left) a h =
      bind_ok (address_from_field ⦃F = F⦄ x) h λ w e h1. rw (← ok_inj h1, address-back x w e) refl

answered :
    {A : Type 0} (b : Bool) (x y : A)
    → ◌≡◌ {A = Result Error A} (if b then ok x else panic) (ok y)
    → (b ≡ true) × (x ≡ y)
answered true x y h = (refl, ok_inj h)
answered false x y h = cc

-- What has limbs is an array of integers.
abbrev IsInteger : AbiType → Type 0
IsInteger (AbiType.integer sign width) = Unit
IsInteger AbiType.field = ⊥
IsInteger AbiType.boolean = ⊥
IsInteger (AbiType.array n type) = ⊥
IsInteger (AbiType.struct path members) = ⊥
IsInteger AbiType.other = ⊥

limbs_of-IsInteger :
    {Fr : Type 0} {type : AbiType} {n : ℕ} (xs : Elements Fr type n) (l : ℕ) (ls : List ℕ)
    → limbs_of xs ≡ ok (l ∷ ls)
    → IsInteger type
unfolding limbs_of
limbs_of-IsInteger Elements.empty l ls h = cc
limbs_of-IsInteger (Elements.cons (Value.element x) xs) l ls h = cc
limbs_of-IsInteger (Elements.cons (Value.bit x) xs) l ls h = cc
limbs_of-IsInteger (Elements.cons (Value.integer below n) xs) l ls h = tt
limbs_of-IsInteger (Elements.cons (Value.array x) xs) l ls h = cc
limbs_of-IsInteger (Elements.cons (Value.struct x) xs) l ls h = cc

limbs-back :
    {Fr : Type 0} (sign : List ℕ) (width n : ℕ) (xs : Elements Fr (AbiType.integer sign width) n)
    (ls : List ℕ)
    → AllInRange xs
    → limbs_of xs ≡ ok ls
    → limb_array sign width n ls ≡ ok xs
unfolding limbs_of limb_array InRange
limbs-back sign width zero Elements.empty ls r h = rw (← ok_inj h) refl
limbs-back {Fr} sign width (suc n) (Elements.cons (Value.integer below m) xs) ls (r, rs) h =
    bind_ok (limb_of {Fr = Fr} (Value.integer {sign = sign} {width = width} below m)) h λ l e h1.
      bind_ok (limbs_of xs) h1 λ rest e2 h2.
        let (test, same) = answered (bytes_eq sign (codes "unsigned") && width == 128) m l e in
        let (plain, small) = uint-bounds Fr sign width below m (and_left _ _ test) r in
        rw (← ok_inj h2, limbs-back sign width n xs rest rs e2, ← same)
          (ap (λ b. ok (Elements.cons (Value.integer b m) xs)) (sym plain))

uint256-back :
    (ls : List ℕ) (a : Alloy)
    → uint256_of ls ≡ ok a
    → (l0 l1 l2 value : ℕ) × (ls ≡ l0 ∷ l1 ∷ l2 ∷ [])
      × (a ≡ Alloy.uint256 value)
      × (u256_limbs_be (to_be_bytes 32 value) ≡ (l0, l1, l2))
unfolding uint256_of
uint256-back [] a h = cc
uint256-back (l0 ∷ []) a h = cc
uint256-back (l0 ∷ l1 ∷ []) a h = cc
uint256-back (l0 ∷ l1 ∷ l2 ∷ l3 ∷ ls) a h = cc
uint256-back (l0 ∷ l1 ∷ l2 ∷ []) a h =
    bind_ok (ok_or (Error.non_canonical "uint256 limbs") (u256_from_limbs_be (l0, l1, l2))) h
      λ bytes e h1.
        let (limbs, all, size) =
          u256_limbs_be-u256_from_limbs_be l0 l1 l2 bytes (ok_or-eq-ok _ _ e) in
        (
          l0,
          l1,
          l2,
          from_be_bytes bytes,
          refl,
          sym (ok_inj h1),
          ap u256_limbs_be (to_be_bytes-from_be_bytes 32 bytes all size) ∙ limbs,
        )

limbs_of-test :
    {Fr : Type 0} (sign : List ℕ) (width n : ℕ) (xs : Elements Fr (AbiType.integer sign width) n)
    (l : ℕ) (ls : List ℕ)
    → limbs_of xs ≡ ok (l ∷ ls)
    → (bytes_eq sign (codes "unsigned") && width == 128) ≡ true
unfolding limbs_of
limbs_of-test sign width zero Elements.empty l ls h = cc
limbs_of-test {Fr} sign width (suc n) (Elements.cons (Value.integer below m) xs) l ls h =
    bind_ok (limb_of {Fr = Fr} (Value.integer {sign = sign} {width = width} below m)) h
      λ l' e h1. (answered (bytes_eq sign (codes "unsigned") && width == 128) m l' e).0

module _ {Fr : Type 0} (F : PrimeField Fr) where
  no_limbs :
      {type : AbiType} {n : ℕ} (xs : Elements Fr type n) (a : Alloy)
      → (do limbs ← limbs_of xs; uint256_of limbs) ≡ ok a
      → IsInteger type
  no_limbs xs a h = bind_ok (limbs_of xs) h λ ls e h1.
      let (l0, l1, l2, value, same, made, back) = uint256-back ls a h1 in
      limbs_of-IsInteger xs l0 (l1 ∷ l2 ∷ []) (e ∙ ap ok same)

  u256_array-back :
      (sign : List ℕ) (width n : ℕ) (xs : Elements Fr (AbiType.integer sign width) n) (a : Alloy)
      → AllInRange xs
      → (do limbs ← limbs_of xs; uint256_of limbs) ≡ ok a
      → limbs_of_uint256 F (AbiType.array (some n) (AbiType.integer sign width)) a
        ≡ ok (Value.array xs)
  u256_array-back sign width n xs a r h = bind_ok (limbs_of xs) h λ ls e h1.
      let (l0, l1, l2, value, same, made, back) = uint256-back ls a h1 in
      let whole : limbs_of xs ≡ ok (l0 ∷ l1 ∷ l2 ∷ []) = e ∙ ap ok same in
      rw
        (
          made,
          limbs_of-test sign width n xs l0 (l1 ∷ l2 ∷ []) whole,
          back,
          limbs-back sign width n xs (l0 ∷ l1 ∷ l2 ∷ []) r whole,
        )
        refl

  u256_value-back :
      (type : AbiType) (x : Value Fr type) (a : Alloy)
      → InRange x
      → u256_of F x ≡ ok a
      → limbs_of_uint256 F type a ≡ ok x
  unfolding u256_of InRange
  u256_value-back (AbiType.array (some n) (AbiType.integer sign width)) (Value.array xs) a r h =
      u256_array-back sign width n xs a r h
  u256_value-back (AbiType.array (some n) AbiType.field) (Value.array xs) a r h =
      absurd (no_limbs xs a h)
  u256_value-back (AbiType.array (some n) AbiType.boolean) (Value.array xs) a r h =
      absurd (no_limbs xs a h)
  u256_value-back (AbiType.array (some n) (AbiType.array k type)) (Value.array xs) a r h =
      absurd (no_limbs xs a h)
  u256_value-back (AbiType.array (some n) (AbiType.struct path members)) (Value.array xs) a r h =
      absurd (no_limbs xs a h)
  u256_value-back (AbiType.array (some n) AbiType.other) (Value.array xs) a r h =
      absurd (no_limbs xs a h)
  u256_value-back (AbiType.array none type) x a r h = elim x [ ]
  u256_value-back AbiType.field (Value.element x) a r h = cc
  u256_value-back AbiType.boolean (Value.bit b) a r h = cc
  u256_value-back (AbiType.integer sign width) (Value.integer below n) a r h = cc
  u256_value-back (AbiType.struct path members) (Value.struct xs) a r h = cc
  u256_value-back AbiType.other x a r h = elim x [ ]

  pub u256_members-back :
      (members : AbiFields) (xs : Members Fr members) (a : Alloy)
      → MembersInRange xs
      → u256_member F xs ≡ ok a
      → u256_members F members a ≡ ok xs
  unfolding InRange
  u256_members-back AbiFields.end Members.none_left a r h = cc
  u256_members-back (AbiFields.more type members) (Members.member x (Members.member y xs)) a r h =
      cc
  u256_members-back (AbiFields.more type members) (Members.member x Members.none_left) a (r, rs) h =
      rw (u256_value-back type x a r h) refl
