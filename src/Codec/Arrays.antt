-- ===== src/Codec/Arrays.antt =====
-- `field_to_be_array` and the types of one field element.
use outbe_circuits.Prelude.{
  ℕ, zero, suc, ◌+◌, ◌-◌, ◌*◌, ◌/◌, ◌%◌, ◌^◌, ◌≤◌, ◌<◌, min, String, ◌≡◌, refl, sym, ap, ◌∙◌, ◌↔◌,
  inl, inr, Bool, true, false, not, List, [], ◌∷◌, ◌++◌, arith, ok, err, ◌>>=◌, guard, ltb,
  if◌then◌else◌, ltb→lt, lt→ltb, Bool-cases, length, drop, ok_inj, err_ok,
}
use native.Mathlib.Nat.{mod-eq_of_lt}
use outbe_circuits.Error.{Error}
use outbe_circuits.Field.{PrimeField, IsLawful}
use outbe_circuits.Bytes.{
  IsBytes, from_be_bytes, to_be_bytes, length-to_be_bytes, from_be_bytes-to_be_bytes,
  to_be_bytes-from_be_bytes, from_be_bytes-lt, to_be_bytes-IsBytes,
}
use outbe_circuits.Slices.{drop_end}
use outbe_circuits.Codec.Bytes.{
  num_bits_below, num_bits, field_to_be_array, field_from_be_bytes, field_from_be_bytes_canonical,
}
use outbe_circuits.Codec.Canonical.{field_from_be_bytes_canonical_iff}
use outbe_circuits.Codec.Scalars.{
  scalar_to_field, scalar_from_field, address_to_field, address_from_field, bytes32_to_field,
  bytes32_from_field,
}

pow_pos : (k : ℕ) → 1 ≤ 2 ^ k
pow_pos zero = omega arith
pow_pos (suc k) = omega (arith, pow_pos k)

pow_mono : (a b : ℕ) → a ≤ b → 2 ^ a ≤ 2 ^ b
pow_mono zero b le = omega (arith, pow_pos b)
pow_mono (suc a) zero le = absurd (omega arith)
pow_mono (suc a) (suc b) le = omega (arith, pow_mono a b (omega arith))

num_bits_below-le : (limit k n : ℕ) → n < 2 ^ limit → (num_bits_below limit n ≤ k) ↔ (n < 2 ^ k)
unfolding num_bits_below
num_bits_below-le zero k n h = ((λ le. omega (arith, pow_pos k)), (λ lt. omega arith))
num_bits_below-le (suc limit) zero n h = ground arith
num_bits_below-le (suc limit) (suc k) n h =
    ground (arith, num_bits_below-le limit k (n / 2) (omega arith), pow_pos k)

drop-append_le :
    {A : Type 0} (n : ℕ) (xs ys : List A) → n ≤ length xs → drop n (xs ++ ys) ≡ drop n xs ++ ys
drop-append_le zero xs ys le = refl
drop-append_le (suc n) [] ys le = absurd (omega arith)
drop-append_le (suc n) (x ∷ xs) ys le = drop-append_le n xs ys (omega arith)

-- The last `n` bytes of a number written with more.
drop-to_be_bytes : (pad width v : ℕ) → drop pad (to_be_bytes (pad + width) v) ≡ to_be_bytes width v
unfolding to_be_bytes
drop-to_be_bytes pad zero v =
    drop_end pad (to_be_bytes (pad + 0) v) (omega (arith, length-to_be_bytes (pad + 0) v))
drop-to_be_bytes pad (suc width) v =
    let q : pad + suc width ≡ suc (pad + width) = omega arith in
    rw q (
      drop-append_le pad (to_be_bytes (pad + width) (v / 256)) (v % 256 ∷ [])
        (omega (arith, length-to_be_bytes (pad + width) (v / 256)))
      ∙ ap (λ ys. ys ++ v % 256 ∷ []) (drop-to_be_bytes pad width (v / 256)))

guard-not :
    {E A : Type 0} (b : Bool) (e : E) (a : A)
    → (guard (not (not b)) e >>= λ _. ok a) ≡ (if b then ok a else err e)
guard-not true e a = refl
guard-not false e a = refl

pow_256 : (w : ℕ) → 256 ^ w ≡ 2 ^ (w * 8)
pow_256 zero = omega arith
pow_256 (suc w) =
    let q : suc w * 8 ≡ suc (suc (suc (suc (suc (suc (suc (suc (w * 8)))))))) = omega arith in
    rw q (omega (arith, pow_256 w))

module _ {Fr : Type 0} ⦃F : PrimeField Fr⦄ (lawful : IsLawful F) where
  -- An element of at most `n` bytes is written with `n` bytes; a larger one is refused.
  pub field_to_be_array-eq :
      (n : ℕ) (value : Fr) (what : String)
      → n ≤ 32
      → field_to_be_array n value what ≡ (
          if ltb (F.into_bigint value) (2 ^ (n * 8))
          then ok (to_be_bytes n (F.into_bigint value))
          else err (Error.non_canonical what))
  unfolding field_to_be_array
  field_to_be_array-eq n value what le =
      rw
        (
          length-to_be_bytes 32 (F.into_bigint value),
          smaller,
          fits,
          none_to_pad,
          ap (λ k. drop (32 - n) (to_be_bytes k (F.into_bigint value))) split,
          drop-to_be_bytes (32 - n) n (F.into_bigint value),
        )
        (guard-not (ltb (F.into_bigint value) (2 ^ (n * 8))) (Error.non_canonical what)
          (to_be_bytes n (F.into_bigint value)))
    where
      smaller : min 32 n ≡ n
      smaller = omega arith

      none_to_pad : n - n ≡ 0
      none_to_pad = omega arith

      split : 32 ≡ 32 - n + n
      split = omega arith

      fits :
          ltb (n * 8) (num_bits (F.into_bigint value))
          ≡ not (ltb (F.into_bigint value) (2 ^ (n * 8)))
      fits = ground (
        arith,
        num_bits_below-le 256 (n * 8) (F.into_bigint value)
            (omega (arith, lawful.into_bigint-lt value, lawful.modulus_max)),
      )

  pub small_from : (n : ℕ) → n < 2 ^ 253 → F.into_bigint (F.from n) ≡ n
  small_from n lt = lawful.into_bigint-from n ∙ mod-eq_of_lt (omega (arith, lawful.modulus_min))

  pow_small : (w : ℕ) → w ≤ 20 → 2 ^ (w * 8) ≤ 2 ^ 253
  pow_small w le = pow_mono (w * 8) 253 (omega arith)

-- An integer of `w` bytes, up to 20, comes back from its field element.
pub scalar_from_field-to_field :
    {Fr : Type 0} ⦃F : PrimeField Fr⦄ (w : ℕ) (name : String) (v : ℕ)
    → IsLawful F
    → w ≤ 20
    → v < 2 ^ (w * 8)
    → (scalar_to_field {Fr = Fr} v >>= scalar_from_field w name) ≡ ok v
unfolding scalar_to_field scalar_from_field
scalar_from_field-to_field ⦃F⦄ w name v lawful le lt =
    rw
      (
        field_to_be_array-eq lawful w (F.from v) name (omega arith),
        small_from lawful v (omega (arith, pow_small lawful w le)),
        lt→ltb _ _ lt,
        from_be_bytes-to_be_bytes w v (omega (arith, pow_256 w)),
      )
      refl

-- A field element gives an integer of `w` bytes exactly where its value fits, and then that value.
pub scalar_from_field-eq :
    {Fr : Type 0} ⦃F : PrimeField Fr⦄ (w : ℕ) (name : String) (value : Fr)
    → IsLawful F
    → w ≤ 32
    → scalar_from_field w name value ≡ (
        if ltb (F.into_bigint value) (2 ^ (w * 8))
        then ok (F.into_bigint value)
        else err (Error.non_canonical name))
unfolding scalar_from_field
scalar_from_field-eq ⦃F⦄ w name value lawful le =
    rw (field_to_be_array-eq lawful w value name le)
      (elim (Bool-cases (ltb (F.into_bigint value) (2 ^ (w * 8)))) [
        | inl fits ↦
            rw
              (
                fits,
                from_be_bytes-to_be_bytes w (F.into_bigint value)
                    (omega (arith, pow_256 w, ltb→lt _ _ fits)),
              )
              refl
        | inr big ↦ rw big refl
      ])

-- A word that decodes to an element is what that element encodes to.
pub bytes32_from_field-to_field :
    {Fr : Type 0} ⦃F : PrimeField Fr⦄ (word : List ℕ) (x : Fr)
    → IsLawful F
    → IsBytes word
    → length word ≡ 32
    → bytes32_to_field word ≡ ok x
    → bytes32_from_field x ≡ ok word
unfolding bytes32_to_field bytes32_from_field
bytes32_from_field-to_field {Fr} ⦃F⦄ word x lawful bytes len h =
    elim (Bool-cases (ltb (from_be_bytes word) F.modulus)) [
      | inl below ↦
          let value : F.from (from_be_bytes word) ≡ x = ok_inj (sym (accepted below) ∙ h) in
          let back : F.into_bigint x ≡ from_be_bytes word =
            ap F.into_bigint (sym value)
            ∙ lawful.into_bigint-from (from_be_bytes word)
            ∙ mod-eq_of_lt (ltb→lt _ _ below) in
          rw
            (
              field_to_be_array-eq lawful 32 x "bytes32" (omega arith),
              back,
              lt→ltb (from_be_bytes word) (2 ^ (32 * 8))
                  (omega (arith, from_be_bytes-lt 32 word bytes len)),
              to_be_bytes-from_be_bytes 32 word bytes len,
            )
            refl
      | inr above ↦ absurd (err_ok (sym (refused above) ∙ h))
    ]
  where
    accepted :
        ltb (from_be_bytes word) F.modulus ≡ true
        → field_from_be_bytes_canonical {Fr = Fr} word "bytes32" ≡ ok (F.from (from_be_bytes word))
    accepted below = field_from_be_bytes_canonical_iff word "bytes32" lawful bytes ∙ rw below refl

    refused :
        ltb (from_be_bytes word) F.modulus ≡ false
        → field_from_be_bytes_canonical {Fr = Fr} word "bytes32"
          ≡ err (Error.non_canonical "bytes32")
    refused above = field_from_be_bytes_canonical_iff word "bytes32" lawful bytes ∙ rw above refl

-- Every element comes back from its word.
pub bytes32_to_field-from_field :
    {Fr : Type 0} ⦃F : PrimeField Fr⦄ (x : Fr)
    → IsLawful F
    → (bytes32_from_field x >>= bytes32_to_field) ≡ ok x
unfolding bytes32_to_field bytes32_from_field
bytes32_to_field-from_field ⦃F⦄ x lawful =
    rw
      (
        field_to_be_array-eq lawful 32 x "bytes32" (omega arith),
        lt→ltb (F.into_bigint x) (2 ^ (32 * 8))
            (omega (arith, lawful.into_bigint-lt x, lawful.modulus_max)),
        field_from_be_bytes_canonical_iff (to_be_bytes 32 (F.into_bigint x)) "bytes32" lawful
            (to_be_bytes-IsBytes 32 (F.into_bigint x)),
        from_be_bytes-to_be_bytes 32 (F.into_bigint x)
            (omega (arith, lawful.into_bigint-lt x, lawful.modulus_max)),
        lt→ltb _ _ (lawful.into_bigint-lt x),
      )
      (ap ok (lawful.from-into_bigint x))

-- An address comes back from its field element.
pub address_from_field-to_field :
    {Fr : Type 0} ⦃F : PrimeField Fr⦄ (address : List ℕ)
    → IsLawful F
    → IsBytes address
    → length address ≡ 20
    → (address_to_field {Fr = Fr} address >>= address_from_field) ≡ ok address
unfolding address_to_field address_from_field field_from_be_bytes
address_from_field-to_field ⦃F⦄ address lawful bytes len =
    rw
      (
        field_to_be_array-eq lawful 20 (F.from (from_be_bytes address)) "address" (omega arith),
        small_from lawful (from_be_bytes address)
            (omega (arith, from_be_bytes-lt 20 address bytes len)),
        lt→ltb (from_be_bytes address) (2 ^ (20 * 8))
            (omega (arith, from_be_bytes-lt 20 address bytes len)),
        to_be_bytes-from_be_bytes 20 address bytes len,
      )
      refl
