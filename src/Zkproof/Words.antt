-- ===== src/Zkproof/Words.antt =====
-- zkproof.rs: the errors and the words.
use outbe_circuits.Prelude.{
  ℕ, zero, suc, ◌+◌, ◌^◌, ◌<◌, String, ◌≡◌, sym, ap, ◌∙◌, ◌↔◌, Bool, true, false, not, ◌||◌, Option,
  none, some, List, ◌++◌, arith, ◌==◌, if◌then◌else◌, length, take, drop, replicate, length-append,
  length-take, length-drop, length-replicate, take-append-drop,
}
use native.Mathlib.Nat.{mod-eq_of_lt}
use outbe_circuits.Field.{PrimeField, IsLawful}
use outbe_circuits.Bytes.{
  IsBytes, from_be_bytes, to_be_bytes, from_be_bytes-to_be_bytes, to_be_bytes-from_be_bytes,
  from_be_bytes-zeros, length-to_be_bytes, to_be_bytes-IsBytes, from_be_bytes-lt, All-append,
}
use outbe_circuits.Slices.{any_nonzero, bytes_eq, bytes_eq_iff, zeros_of_any_nonzero, All-drop}

-- `enum ProofMarshalingError`
pub data ProofMarshalingError : Type 0 where
  input_too_short : ℕ → ProofMarshalingError
  malformed_abi : String → ProofMarshalingError
  combined_proof_too_short : ℕ → ProofMarshalingError
  wrong_public_input_count : ℕ → ℕ → ProofMarshalingError
  truncated_public_inputs : ℕ → ℕ → ProofMarshalingError
  non_canonical_public_input : ℕ → ProofMarshalingError
  wrong_combined_proof_length : ℕ → ℕ → ProofMarshalingError

unfoldable pub read_u64_be_padded : List ℕ → Option ℕ
read_u64_be_padded slot =
    if not (length slot == 32) || any_nonzero (take 24 slot)
    then none
    else some (from_be_bytes (drop 24 slot))

unfoldable pub read_u128_be_padded : List ℕ → Option ℕ
read_u128_be_padded slot =
    if not (length slot == 32) || any_nonzero (take 16 slot)
    then none
    else some (from_be_bytes (drop 16 slot))

-- A big integer has 32 bytes, so they fill the array.
unfoldable pub is_canonical_field_word : {Fr : Type 0} → PrimeField Fr → List ℕ → Bool
is_canonical_field_word F word =
    let field = F.from (from_be_bytes word) in
    let canonical = to_be_bytes 32 (F.into_bigint field) in bytes_eq canonical word

pub replicate-IsBytes : (n : ℕ) → IsBytes (replicate n 0)
replicate-IsBytes zero = tt
replicate-IsBytes (suc n) = (omega arith, replicate-IsBytes n)

-- A number of `width` bytes is padded on the left with zeros.
pub padded :
    (pad width v : ℕ)
    → v < 256 ^ width
    → to_be_bytes (pad + width) v ≡ replicate pad 0 ++ to_be_bytes width v
padded pad width v h =
    ap (λ n. to_be_bytes (pad + width) n)
      (sym (from_be_bytes-zeros pad (to_be_bytes width v) ∙ from_be_bytes-to_be_bytes width v h))
    ∙ to_be_bytes-from_be_bytes (pad + width) (replicate pad 0 ++ to_be_bytes width v)
        (All-append _ (replicate pad 0) (to_be_bytes width v) (replicate-IsBytes pad)
          (to_be_bytes-IsBytes width v))
        (length-append (replicate pad 0) (to_be_bytes width v)
          ∙ omega (arith, length-replicate {A = ℕ} pad 0, length-to_be_bytes width v))

pub read_u64_be_padded-write : (v : ℕ) → v < 2 ^ 64 → read_u64_be_padded (to_be_bytes 32 v) ≡ some v
unfolding read_u64_be_padded
read_u64_be_padded-write v h =
    rw (length-to_be_bytes 32 v, padded 24 8 v (omega arith))
      (ap some (from_be_bytes-to_be_bytes 8 v (omega arith)))

-- What a word that is read as `v` is.
pub read_u64_be_padded-eq-some :
    (slot : List ℕ) (v : ℕ)
    → IsBytes slot
    → read_u64_be_padded slot ≡ some v
    → (slot ≡ to_be_bytes 32 v) × (v < 2 ^ 64)
unfolding read_u64_be_padded
read_u64_be_padded-eq-some slot v bytes h =
    let len : length slot ≡ 32 = ground arith in
    let zeros : any_nonzero (take 24 slot) ≡ false = ground arith in
    let value : from_be_bytes (drop 24 slot) ≡ v = ground arith in
    let low : length (drop 24 slot) ≡ 8 = omega (arith, length-drop 24 slot) in
    let high : length (take 24 slot) ≡ 24 = omega (arith, length-take 24 slot) in
    let lows : IsBytes (drop 24 slot) = All-drop _ 24 slot bytes in
    let bound : v < 2 ^ 64 = omega (arith, from_be_bytes-lt 8 (drop 24 slot) lows low) in
    (
      sym (take-append-drop 24 slot)
          ∙ ap (λ ys. ys ++ drop 24 slot)
              (zeros_of_any_nonzero (take 24 slot) zeros ∙ ap (λ n. replicate n 0) high)
          ∙ ap (λ ys. replicate 24 0 ++ ys)
              (sym (to_be_bytes-from_be_bytes 8 (drop 24 slot) lows low))
          ∙ ap (λ n. replicate 24 0 ++ to_be_bytes 8 n) value
          ∙ sym (padded 24 8 v (omega arith)),
      bound,
    )

module _ {Fr : Type 0} (F : PrimeField Fr) (lawful : IsLawful F) where
  -- A word is accepted exactly where it spells a number below the modulus.
  pub is_canonical_field_word_iff :
      (word : List ℕ)
      → IsBytes word
      → length word ≡ 32
      → (is_canonical_field_word F word ≡ true) ↔ (from_be_bytes word < F.modulus)
  unfolding is_canonical_field_word
  is_canonical_field_word_iff word bytes len = (
    (λ h. omega (
      arith,
      from_be_bytes-to_be_bytes 32 (F.into_bigint (F.from (from_be_bytes word)))
          (omega (arith, lawful.into_bigint-lt (F.from (from_be_bytes word)), lawful.modulus_max)),
      lawful.into_bigint-lt (F.from (from_be_bytes word)),
      ap from_be_bytes ((bytes_eq_iff _ word).0 h),
    )),
    (λ lt. (bytes_eq_iff _ word).1 (
        rw (lawful.into_bigint-from (from_be_bytes word), mod-eq_of_lt lt)
          (to_be_bytes-from_be_bytes 32 word bytes len))),
  )
