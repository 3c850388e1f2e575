-- ===== src/Registry/ReadBack/Limbs.antt =====
-- The limbs of a `U256` are read back.
use outbe_circuits.Prelude.{
  ℕ, zero, suc, ◌+◌, ◌^◌, ◌<◌, ◌≡◌, refl, sym, ap, ◌∙◌, Bool, true, false, ◌&&◌, none, some, List,
  [], ◌∷◌, ◌++◌, arith, ok, ok_or, assert, ◌==◌, bind_ok, ok_inj, assert-eq-ok,
}
use mathlib.Core.Path.{subst}
use outbe_circuits.Error.{Error}
use outbe_circuits.Text.{codes}
use outbe_circuits.Slices.{bytes_eq}
use outbe_circuits.Field.{PrimeField, IsLawful}
use outbe_circuits.Codec.Limbs.{u256_from_limbs_be}
use outbe_circuits.Registry.Manifest.{AbiType, AbiFields}
use outbe_circuits.Registry.Flatten.{
  Value, Elements, Members, flatten, flatten_elements, flatten_members,
}
use outbe_circuits.Registry.Decoder
use outbe_circuits.Registry.ReadBack.{
  InRange, AllInRange, MembersInRange, At, decode_uint-same, flatten-only, uint-bounds,
}

module _ {Fr : Type 0} (F : PrimeField Fr) (lawful : IsLawful F) (words : List (List ℕ))
    (fields : List Fr) where
  -- Limbs that are read one after the other.
  abbrev Reads : ℕ → List ℕ → Type 0
  Reads at [] = Unit {0}
  Reads at (l ∷ ls) = (Decoder.decode_uint F words fields 128 at ≡ ok l) × Reads (at + 1) ls

  pub flatten-uint :
      (sign : List ℕ) (width : ℕ) (below : Bool) (m : ℕ)
      → bytes_eq sign (codes "unsigned") ≡ true
      → flatten F {E = Error} (Value.integer {sign = sign} {width = width} below m)
        ≡ ok (F.from m ∷ [])
  unfolding flatten
  flatten-uint sign width below m u = rw u refl

  limb_array-same :
      (sign : List ℕ) (width n at : ℕ) (ls : List ℕ)
      (xs d : Elements Fr (AbiType.integer sign width) n) (fs : List Fr)
      → width ≡ 128
      → bytes_eq sign (codes "unsigned") ≡ true
      → AllInRange xs
      → flatten_elements F {E = Error} xs ≡ ok fs
      → At fields at fs
      → Reads at ls
      → Decoder.limb_array sign width n ls ≡ ok d
      → d ≡ xs
  unfolding Decoder.limb_array flatten InRange
  limb_array-same sign width zero at [] Elements.empty d fs v u r p all reads h = sym (ok_inj h)
  limb_array-same sign width zero at (l ∷ ls) xs d fs v u r p all reads h = cc
  limb_array-same sign width (suc n) at [] xs d fs v u r p all reads h = cc
  limb_array-same sign width (suc n) at (l ∷ ls) (Elements.cons (Value.integer below m) xs) d fs v u
        (r, rs) p all (read, reads) h =
      bind_ok (flatten F {E = Error} (Value.integer {sign = sign} {width = width} below m)) p
        λ a e p1. bind_ok (flatten_elements F {E = Error} xs) p1 λ gs e2 p2.
          bind_ok (Decoder.limb_array sign width n ls) h λ rest e3 h1.
            let first : a ≡ F.from m ∷ [] = ok_inj (sym e ∙ flatten-uint sign width below m u) in
            let there : At fields at (F.from m ∷ gs) =
              subst (At fields at) (sym (ok_inj p2) ∙ ap (λ b. b ++ gs) first) all in
            let (plain, small) = uint-bounds Fr sign width below m u r in
            let fits : m < 2 ^ 128 = subst (λ w. m < 2 ^ w) v small in
            let same : l ≡ m =
              decode_uint-same F lawful words fields 128 at m l fits there.0 read in
            sym (ok_inj h1)
            ∙ ap (λ z. Elements.cons (Value.integer false z) rest) same
            ∙ ap (λ b. Elements.cons (Value.integer b m) rest) (sym plain)
            ∙ ap (Elements.cons (Value.integer below m))
                (limb_array-same sign width n (at + 1) ls xs rest gs v u rs e2 there.1 reads e3)

  decode_limb_array-same :
      (n : ℕ) (type : AbiType) (at : ℕ) (xs d : Elements Fr type n) (fs : List Fr)
      → AllInRange xs
      → flatten_elements F {E = Error} xs ≡ ok fs
      → At fields at fs
      → Decoder.decode_limb_array F words fields n type at ≡ ok d
      → d ≡ xs
  unfolding Decoder.decode_limb_array
  decode_limb_array-same n (AbiType.integer sign width) at xs d fs r p all h =
      bind_ok (assert (bytes_eq sign (codes "unsigned") && width == 128)) h λ u e h1.
        bind_ok (Decoder.decode_uint F words fields 128 at) h1 λ l0 e0 h2.
          bind_ok (Decoder.decode_uint F words fields 128 (at + 1)) h2 λ l1 e1 h3.
            bind_ok (Decoder.decode_uint F words fields 128 (at + 2)) h3 λ l2 e2 h4.
              bind_ok (ok_or _ (u256_from_limbs_be (l0, l1, l2))) h4 λ bytes e3 h5.
                let unsigned : bytes_eq sign (codes "unsigned") ≡ true =
                  grind (arith, assert-eq-ok _ e) in
                let wide : width ≡ 128 = ground (arith, assert-eq-ok _ e) in
                let next : at + 1 + 1 ≡ at + 2 = omega arith in
                limb_array-same sign width n at (l0 ∷ l1 ∷ l2 ∷ []) xs d fs wide unsigned r p all
                  (e0, (e1, (rw next e2, tt))) h5
  decode_limb_array-same n AbiType.field at xs d fs r p all h = cc
  decode_limb_array-same n AbiType.boolean at xs d fs r p all h = cc
  decode_limb_array-same n (AbiType.array len type) at xs d fs r p all h = cc
  decode_limb_array-same n (AbiType.struct path members) at xs d fs r p all h = cc
  decode_limb_array-same n AbiType.other at xs d fs r p all h = cc

  decode_limbs-same :
      (type : AbiType) (at : ℕ) (x d : Value Fr type) (fs : List Fr)
      → InRange x
      → flatten F {E = Error} x ≡ ok fs
      → At fields at fs
      → Decoder.decode_limbs F words fields type at ≡ ok d
      → d ≡ x
  unfolding Decoder.decode_limbs flatten InRange
  decode_limbs-same (AbiType.array (some n) type) at (Value.array xs) d fs r p all h =
      bind_ok (Decoder.decode_limb_array F words fields n type at) h λ ys e h1.
        sym (ok_inj h1) ∙ ap Value.array (decode_limb_array-same n type at xs ys fs r p all e)
  decode_limbs-same (AbiType.array none type) at x d fs r p all h = cc
  decode_limbs-same AbiType.field at x d fs r p all h = cc
  decode_limbs-same AbiType.boolean at x d fs r p all h = cc
  decode_limbs-same (AbiType.integer sign width) at x d fs r p all h = cc
  decode_limbs-same (AbiType.struct path members) at x d fs r p all h = cc
  decode_limbs-same AbiType.other at x d fs r p all h = cc

  pub u256-same :
      (members : AbiFields) (at : ℕ) (xs d : Members Fr members) (fs : List Fr)
      → MembersInRange xs
      → flatten_members F {E = Error} xs ≡ ok fs
      → At fields at fs
      → Decoder.decode_u256 F words fields members at ≡ ok d
      → d ≡ xs
  unfolding Decoder.decode_u256 InRange
  u256-same (AbiFields.more type AbiFields.end) at (Members.member x Members.none_left) d fs (r, rs)
        p all h =
      bind_ok (Decoder.decode_limbs F words fields type at) h λ y e h1.
        sym (ok_inj h1)
        ∙ ap (λ z. Members.member z Members.none_left)
            (decode_limbs-same type at x y fs r (flatten-only F lawful words fields x fs p) all e)
  u256-same AbiFields.end at xs d fs r p all h = cc
  u256-same (AbiFields.more type (AbiFields.more next members)) at xs d fs r p all h = cc
