-- ===== src/Registry/RoundTrip.antt =====
-- build.rs: the public inputs that are encoded into a combined proof are decoded from it.
use outbe_circuits.Prelude.{
  ℕ, ◌+◌, ◌^◌, ◌<◌, ◌≡◌, refl, sym, ap, ◌∙◌, inl, inr, Bool, true, false, none, some, List, [], ◌∷◌,
  ◌++◌, map, Result, ok, panic, ◌>>=◌, map_err, index, assert, if◌then◌else◌, Bool-cases, length,
  All, bind_ok, ok_inj, some_inj, expect-eq-ok, assert-eq-ok,
}
use mathlib.Core.Path.{subst}
use outbe_circuits.Error.{Error}
use outbe_circuits.Text.{codes}
use outbe_circuits.Slices.{bytes_eq}
use outbe_circuits.Field.{PrimeField, IsLawful}
use outbe_circuits.Bytes.{IsBytes, from_be_bytes-to_be_bytes}
use outbe_circuits.Codec.Bytes.{field_to_be_bytes, field_from_be32}
use outbe_circuits.Zkproof.PublicWords.{decode_public_words}
use outbe_circuits.Zkproof.Errors.{from_marshaling}
use outbe_circuits.Registry.Manifest.{AbiType, AbiFields, Param}
use outbe_circuits.Registry.Widths.{abi_field_count, public_input_count, combined_len}
use outbe_circuits.Registry.Flatten.{
  Value, Members, Inputs, flatten, flatten_members, public_fields,
}
use outbe_circuits.Registry.Counted.{Known, flatten-Has, public_fields-public_input_count}
use outbe_circuits.Registry.Decoder
use outbe_circuits.Registry.Decoder.{publics, decode_public_inputs}
use outbe_circuits.Registry.ReadBack.{
  InRange, MembersInRange, At, At-append, At-whole, decode_uint-same, decode_array-same,
  address-same, uint-bounds,
}
use outbe_circuits.Registry.ReadBack.Limbs.{flatten-uint, u256-same}
use outbe_circuits.Registry.Combined.{
  encode_combined_proof, encode_combined_proof-checked, encode_combined_proof-verify_combined,
  into_bigint-word,
}

-- Every value of the inputs is in range.
unfoldable pub InputsInRange : {Fr : Type 0} {params : List Param} → Inputs Fr params → Type 0
InputsInRange Inputs.done = Unit {0}
InputsInRange (Inputs.given x inputs) = InRange x × InputsInRange inputs

abbrev IsPublic : Param → Type 0
IsPublic p = bytes_eq p.visibility (codes "public") ≡ true

publics-IsPublic : (params : List Param) → All IsPublic (publics params)
unfolding publics
publics-IsPublic [] = tt
publics-IsPublic (p ∷ params) = elim (Bool-cases (bytes_eq p.visibility (codes "public"))) [
  | inl q ↦ rw q (q, publics-IsPublic params)
  | inr q ↦ rw q (publics-IsPublic params)
]

public_input_count-publics :
    (params : List Param)
    → public_input_count {E = Error} (publics params) ≡ public_input_count params
unfolding publics public_input_count
public_input_count-publics [] = refl
public_input_count-publics (p ∷ params) =
    elim (Bool-cases (bytes_eq p.visibility (codes "public"))) [
      | inl q ↦ rw (q, q, public_input_count-publics params) refl
      | inr q ↦ rw (q, public_input_count-publics params) refl
    ]

if_true : {A : Type 0} (b : Bool) (x y : A) → b ≡ true → (if b then x else y) ≡ x
if_true b x y h = rw h refl

-- One of two decoders has answered.
either :
    {A C : Type 0} (b c : Bool) {x y : Result Error A} {d : A}
    → (x ≡ ok d → C)
    → (y ≡ ok d → C)
    → (if b then x else if c then y else panic) ≡ ok d
    → C
either true c f g h = f h
either false true f g h = g h
either false false f g h = cc

module _ {Fr : Type 0} (F : PrimeField Fr) (lawful : IsLawful F) (words : List (List ℕ))
    (fields : List Fr) where
  decode_struct-same :
      (path : List ℕ) (members : AbiFields) (at : ℕ) (xs d : Members Fr members) (fs : List Fr)
      → MembersInRange xs
      → flatten_members F {E = Error} xs ≡ ok fs
      → At fields at fs
      → Decoder.decode_struct F words fields path members at ≡ ok d
      → d ≡ xs
  unfolding Decoder.decode_struct
  decode_struct-same path members at xs d fs r p all h =
      either (bytes_eq path Decoder.eth_address) (bytes_eq path Decoder.u256_path)
        (address-same F lawful words fields members at xs d fs p all)
        (u256-same F lawful words fields members at xs d fs r p all) h

  decode_value-same :
      (type : AbiType) (at : ℕ) (x d : Value Fr type) (fs : List Fr)
      → InRange x
      → flatten F {E = Error} x ≡ ok fs
      → At fields at fs
      → Decoder.decode_value F words fields type at ≡ ok d
      → d ≡ x
  unfolding Decoder.decode_value flatten InRange
  decode_value-same AbiType.field at (Value.element x) d fs r p all h =
      bind_ok (index fields at) h λ y e h1.
        let there : At fields at (x ∷ []) = subst (At fields at) (sym (ok_inj p)) all in
        sym (ok_inj h1) ∙ ap Value.element (some_inj (sym (expect-eq-ok _ e) ∙ there.0))
  decode_value-same AbiType.boolean at x d fs r p all h = cc
  decode_value-same (AbiType.integer sign width) at (Value.integer below n) d fs r p all h =
      bind_ok (assert (bytes_eq sign (codes "unsigned"))) h λ u e h1.
        bind_ok (Decoder.decode_uint F words fields width at) h1 λ m e2 h2.
          let unsigned = assert-eq-ok _ e in
          let (plain, small) = uint-bounds Fr sign width below n unsigned r in
          let there : At fields at (F.from n ∷ []) =
            subst (At fields at)
              (ok_inj (sym p ∙ flatten-uint F lawful words fields sign width below n unsigned))
              all in
          sym (ok_inj h2)
          ∙ ap (Value.integer false)
              (decode_uint-same F lawful words fields width at n m small there.0 e2)
          ∙ ap (λ b. Value.integer b n) (sym plain)
  decode_value-same (AbiType.array none type) at x d fs r p all h = cc
  decode_value-same (AbiType.array (some n) type) at (Value.array xs) d fs r p all h =
      bind_ok (Decoder.decode_array F words fields n type at) h λ ys e h1.
        sym (ok_inj h1)
        ∙ ap Value.array (decode_array-same F lawful words fields n type at xs ys fs p all e)
  decode_value-same (AbiType.struct path members) at (Value.struct xs) d fs r p all h =
      bind_ok (Decoder.decode_struct F words fields path members at) h λ ys e h1.
        sym (ok_inj h1) ∙ ap Value.struct (decode_struct-same path members at xs ys fs r p all e)
  decode_value-same AbiType.other at x d fs r p all h = cc

  decode_params-same :
      (params : List Param) (at : ℕ) (xs d : Inputs Fr params) (fs : List Fr)
      → All IsPublic params
      → All (λ p. Known p.type) params
      → InputsInRange xs
      → public_fields F {E = Error} xs ≡ ok fs
      → At fields at fs
      → Decoder.decode_params F words fields params at ≡ ok d
      → d ≡ xs
  unfolding Decoder.decode_params public_fields InputsInRange
  decode_params-same [] at Inputs.done d fs shown known r p all h = sym (ok_inj h)
  decode_params-same (q ∷ params) at (Inputs.given x xs) d fs (o, shown) (k, known) (r, rs) p all
        h =
      let taken : (do a ← flatten F {E = Error} x; more ← public_fields F xs; ok (a ++ more))
          ≡ ok fs =
        sym (if_true (bytes_eq q.visibility (codes "public")) _ _ o) ∙ p in
      bind_ok (flatten F {E = Error} x) taken λ a e p1.
        bind_ok (public_fields F {E = Error} xs) p1 λ more e2 p2.
          bind_ok (Decoder.decode_value F words fields q.type at) h λ y e3 h1.
            bind_ok (abi_field_count {E = Error} q.type) h1 λ n e4 h2.
              bind_ok (Decoder.decode_params F words fields params (at + n)) h2 λ rest e5 h3.
                let (b, given, size) = flatten-Has F x n k e4 in
                let long : length a ≡ n = ap length (ok_inj (sym e ∙ given)) ∙ size in
                let (here, there) =
                  At-append fields at a more (subst (At fields at) (sym (ok_inj p2)) all) in
                let next : At fields (at + n) more =
                  subst (λ m. At fields (at + m) more) long there in
                sym (ok_inj h3)
                ∙ ap (λ z. Inputs.given z rest) (decode_value-same q.type at x y a r e here e3)
                ∙ ap (Inputs.given x)
                    (decode_params-same params (at + n) xs rest more shown known rs e2 next e5)

field_from_be32-field_to_be_bytes :
    {Fr : Type 0} (F : PrimeField Fr) (f : Fr)
    → IsLawful F
    → field_from_be32 ⦃F = F⦄ (field_to_be_bytes ⦃F = F⦄ f) ≡ f
unfolding field_from_be32 field_to_be_bytes
field_from_be32-field_to_be_bytes F f lawful =
    ap F.from (from_be_bytes-to_be_bytes 32 (F.into_bigint f) (into_bigint-word F lawful f))
    ∙ lawful.from-into_bigint f

fields-same :
    {Fr : Type 0} (F : PrimeField Fr) (fs : List Fr)
    → IsLawful F
    → map (field_from_be32 ⦃F = F⦄) (map (field_to_be_bytes ⦃F = F⦄) fs) ≡ fs
fields-same F [] lawful = refl
fields-same F (f ∷ fs) lawful =
    ap (λ x. x ∷ map (field_from_be32 ⦃F = F⦄) (map (field_to_be_bytes ⦃F = F⦄) fs))
      (field_from_be32-field_to_be_bytes F f lawful)
    ∙ ap (λ xs. f ∷ xs) (fields-same F fs lawful)

-- Public inputs that are encoded into a combined proof are decoded from it. Their unsigned integers are of
-- their width, every integer of the ABI is signed or unsigned, `public_inputs` gives their field vector, and
-- the fields are as many as counted, fewer than 2 ^ 32.
pub decode_public_inputs-encode_combined_proof :
    {Fr : Type 0} (F : PrimeField Fr) (params : List Param) (count words : ℕ)
    (public_inputs : Inputs Fr (publics params) → List Fr) (public : Inputs Fr (publics params))
    (proof : List (List ℕ)) (combined : List ℕ)
    → IsLawful F
    → count < 2 ^ 32
    → public_input_count {E = Error} params ≡ ok count
    → All (λ p. Known p.type) (publics params)
    → InputsInRange public
    → All IsBytes proof
    → public_fields F {E = Error} public ≡ ok (public_inputs public)
    → encode_combined_proof F public_inputs
        (decode_public_inputs F count words params)
        count
        words
        public
        proof
      ≡ ok combined
    → decode_public_inputs F count words params combined ≡ ok public
unfolding decode_public_inputs
decode_public_inputs-encode_combined_proof F params count words public_inputs public proof combined
      lawful few counted known range bytes flat h =
    let fs = public_inputs public in
    let (gs, flat', long) =
      public_fields-public_input_count F public count known
        (public_input_count-publics params ∙ counted) in
    let size : length fs ≡ count = ap length (ok_inj (sym flat ∙ flat')) ∙ long in
    let (_, read, _) =
      encode_combined_proof-verify_combined F lawful public_inputs
        (decode_public_inputs F count words params) count words (λ k ws ps. ok true) [] public proof
        combined few size bytes h in
    let (decoded, checked) =
      encode_combined_proof-checked F public_inputs (decode_public_inputs F count words params)
        count words public proof combined h in
    bind_ok
      (map_err from_marshaling (decode_public_words F count combined (combined_len count words)))
      checked
      λ ws e h1.
        let read_words : ws ≡ map (field_to_be_bytes ⦃F = F⦄) fs =
          ok_inj (sym e ∙ ap (map_err from_marshaling) read) in
        let read_fields : map (field_from_be32 ⦃F = F⦄) ws ≡ fs =
          ap (map (field_from_be32 ⦃F = F⦄)) read_words ∙ fields-same F fs lawful in
        checked
        ∙ ap ok (
            decode_params-same F lawful ws (map (field_from_be32 ⦃F = F⦄) ws) (publics params) 0
              public decoded fs (publics-IsPublic params) known range flat
              (subst (λ l. At l 0 fs) (sym read_fields) (At-whole fs)) h1)
