-- ===== src/Codec/Canonical.antt =====
-- `field_from_be_bytes_canonical` accepts exactly the numbers below the modulus, at any length.
use outbe_circuits.Prelude.{
  ℕ, zero, suc, ◌+◌, ◌-◌, ◌*◌, ◌/◌, ◌%◌, ◌^◌, ◌≤◌, ◌<◌, String, ◌≡◌, refl, sym, ap, ◌∙◌, inl, inr,
  Bool, true, false, List, [], ◌∷◌, ◌++◌, arith, ok, err, ltb, ◌==◌, if◌then◌else◌, ltb→lt,
  Bool-cases, length, take, drop, length-take, length-drop, take-append-drop,
}
use outbe_circuits.Error.{Error}
use outbe_circuits.Field.{PrimeField, IsLawful, bits_loop}
use outbe_circuits.Bytes.{IsBytes, be_loop, from_be_bytes}
use outbe_circuits.Codec.Bytes.{byte_bits, bits_of, any, field_from_be_bytes_canonical}

bit_value : (x : ℕ) → (if x % 2 == 1 then 1 else 0) ≡ x % 2
bit_value x = ground arith

bits_loop-byte : (acc byte : ℕ) → byte < 256 → bits_loop acc (byte_bits byte) ≡ acc * 256 + byte
unfolding bits_loop byte_bits
bits_loop-byte acc byte lt =
    rw
      (
        bit_value (byte / 128),
        bit_value (byte / 64),
        bit_value (byte / 32),
        bit_value (byte / 16),
        bit_value (byte / 8),
        bit_value (byte / 4),
        bit_value (byte / 2),
        bit_value byte,
      )
      (omega arith)

bits_loop-append :
    (acc : ℕ) (xs ys : List Bool) → bits_loop acc (xs ++ ys) ≡ bits_loop (bits_loop acc xs) ys
unfolding bits_loop
bits_loop-append acc [] ys = refl
bits_loop-append acc (x ∷ xs) ys = bits_loop-append (2 * acc + (if x then 1 else 0)) xs ys

bits_loop-bits_of :
    (acc : ℕ) (bytes : List ℕ) → IsBytes bytes → bits_loop acc (bits_of bytes) ≡ be_loop acc bytes
unfolding bits_loop bits_of be_loop
bits_loop-bits_of acc [] all = refl
bits_loop-bits_of acc (byte ∷ bytes) (b, all) =
    bits_loop-append acc (byte_bits byte) (bits_of bytes)
    ∙ rw (bits_loop-byte acc byte b) (bits_loop-bits_of (acc * 256 + byte) bytes all)

spread : (a b p : ℕ) → (2 * a + b) * p ≡ a * (2 * p) + b * p
spread a b p = grind arith

bits_loop-acc :
    (acc : ℕ) (bits : List Bool) → bits_loop acc bits ≡ acc * 2 ^ length bits + bits_loop 0 bits
unfolding bits_loop
bits_loop-acc acc [] = omega arith
bits_loop-acc acc (bit ∷ bits) =
    let b : ℕ = if bit then 1 else 0 in
    let two_p : 2 ^ suc (length bits) ≡ 2 * 2 ^ length bits = omega arith in
    rw two_p (
      omega (
        arith,
        bits_loop-acc (2 * acc + b) bits,
        bits_loop-acc (0 + b) bits,
        spread acc b (2 ^ length bits),
      ))

pow_pos : (k : ℕ) → 1 ≤ 2 ^ k
pow_pos zero = omega arith
pow_pos (suc k) = omega (arith, pow_pos k)

pow_le : (a b : ℕ) → a ≤ b → 2 ^ a ≤ 2 ^ b
pow_le zero b le = omega (arith, pow_pos b)
pow_le (suc a) zero le = absurd (omega arith)
pow_le (suc a) (suc b) le = omega (arith, pow_le a b (omega arith))

bits_loop-lt : (k : ℕ) (bits : List Bool) → length bits ≤ k → bits_loop 0 bits < 2 ^ k
unfolding bits_loop
bits_loop-lt k [] le = pow_pos k
bits_loop-lt zero (bit ∷ bits) le = absurd (omega arith)
bits_loop-lt (suc k) (false ∷ bits) le = omega (arith, bits_loop-lt k bits (omega arith))
bits_loop-lt (suc k) (true ∷ bits) le = omega (
  arith,
  bits_loop-lt k bits (omega arith),
  bits_loop-acc 1 bits,
  pow_le (length bits) k (omega arith),
)

any-false : (bits : List Bool) → any bits ≡ false → bits_loop 0 bits ≡ 0
unfolding bits_loop
any-false [] h = refl
any-false (false ∷ bits) h = any-false bits h
any-false (true ∷ bits) h = cc

any-true : (bits : List Bool) → any bits ≡ true → 1 ≤ bits_loop 0 bits
unfolding bits_loop
any-true [] h = cc
any-true (false ∷ bits) h = any-true bits h
any-true (true ∷ bits) h = omega (arith, bits_loop-acc 1 bits, pow_le 0 (length bits) (omega arith))

module _ (bits : List Bool) where
  abbrev high : List Bool
  high = take (length bits - 256) bits

  abbrev low : List Bool
  low = drop (length bits - 256) bits

  value_split : bits_loop 0 bits ≡ bits_loop 0 high * 2 ^ length low + bits_loop 0 low
  value_split =
      ap (bits_loop 0) (sym (take-append-drop (length bits - 256) bits))
      ∙ bits_loop-append 0 high low
      ∙ bits_loop-acc (bits_loop 0 high) low

  fits_of_any : any high ≡ false → bits_loop 0 bits < 2 ^ 256
  fits_of_any none_set =
      let zero_high : bits_loop 0 high * 2 ^ length low ≡ 0 =
        ap (λ h. h * 2 ^ length low) (any-false high none_set) ∙ omega arith in
      omega (
        arith,
        value_split,
        bits_loop-lt 256 low (omega (arith, length-drop (length bits - 256) bits)),
      )

  long_of_any : any high ≡ true → length low ≡ 256
  long_of_any raised = elim (Bool-cases (ltb 256 (length bits))) [
    | inl long ↦ omega (arith, length-drop (length bits - 256) bits, ltb→lt 256 (length bits) long)
    | inr short ↦ absurd (
        omega (
          arith,
          any-true high raised,
          bits_loop-lt 0 high (omega (arith, length-take (length bits - 256) bits, not_long short)),
        ))
  ]
    where
      not_long : ltb 256 (length bits) ≡ false → length bits ≤ 256
      not_long h = ground arith

  overflows_of_any : any high ≡ true → 2 ^ 256 ≤ bits_loop 0 bits
  overflows_of_any raised =
      let q : 2 ^ length low ≡ 2 ^ 256 = ap (λ k. 2 ^ k) (long_of_any raised) in
      let p : bits_loop 0 high * 2 ^ length low ≡ bits_loop 0 high * 2 ^ 256 =
        ap (λ k. bits_loop 0 high * k) q in
      omega (arith, value_split, any-true high raised)

-- Bytes are accepted exactly where the number that they spell is below the modulus, and then give
-- the element of that number; leading zeros are allowed.
pub field_from_be_bytes_canonical_iff :
    {Fr : Type 0} ⦃F : PrimeField Fr⦄ (bytes : List ℕ) (what : String)
    → IsLawful F
    → IsBytes bytes
    → field_from_be_bytes_canonical bytes what ≡ (
        if ltb (from_be_bytes bytes) F.modulus
        then ok (F.from (from_be_bytes bytes))
        else err (Error.non_canonical what))
unfolding field_from_be_bytes_canonical
field_from_be_bytes_canonical_iff ⦃F⦄ bytes what lawful all =
    elim (Bool-cases (any (high (bits_of bytes)))) [
      | inl raised ↦
          let big : 2 ^ 256 ≤ from_be_bytes bytes =
            rw (← value) (overflows_of_any (bits_of bytes) raised) in
          let above : ltb (from_be_bytes bytes) F.modulus ≡ false =
            ground (arith, lawful.modulus_max) in
          rw (raised, above) refl
      | inr clear ↦
          rw
            (
              clear,
              lawful.from_bits_be-value (bits_of bytes) (fits_of_any (bits_of bytes) clear),
              value,
            )
            (elim (Bool-cases (ltb (from_be_bytes bytes) F.modulus)) [
              | inl below ↦
                  rw (below, lawful.from_bigint-some (from_be_bytes bytes) (ltb→lt _ _ below)) refl
              | inr above ↦
                  rw (above, lawful.from_bigint-none (from_be_bytes bytes) (ground arith)) refl
            ])
    ]
  where
    value : bits_loop 0 (bits_of bytes) ≡ from_be_bytes bytes
    value = unfold from_be_bytes in bits_loop-bits_of 0 bytes all
