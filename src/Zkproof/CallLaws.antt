-- ===== src/Zkproof/CallLaws.antt =====
-- `decode_verify_call` on the ABI encoding of a call.
use outbe_circuits.Prelude.{
  ℕ, ◌+◌, ◌^◌, ◌≤◌, ◌≡◌, refl, sym, ap, ◌∙◌, false, List, [], ◌++◌, arith, ok, ltb, ==_refl, length,
  replicate, length-append, length-replicate,
}
use mathlib.Core.List.{append_assoc, append-nil}
use outbe_circuits.Bytes.{to_be_bytes, length-to_be_bytes}
use outbe_circuits.Slices.{slice, slice-append, checked_add-some, any_nonzero-replicate}
use outbe_circuits.Zkproof.Words.{ProofMarshalingError, read_u64_be_padded-write}
use outbe_circuits.Zkproof.Call.{VerifyCall, decode_verify_call, abi_encode, padding_for}

-- The encoding cut at its fields: a sequence of five parts.
module _ {A : Type 0} (p q r s t : List A) where
  abbrev five : List A
  five = p ++ (q ++ (r ++ (s ++ t)))

  length-five : length five ≡ length p + length q + length r + length s + length t
  length-five = omega (
    arith,
    length-append p (q ++ (r ++ (s ++ t))),
    length-append q (r ++ (s ++ t)),
    length-append r (s ++ t),
    length-append s t,
  )

  cut_two : five ≡ (p ++ q) ++ (r ++ (s ++ t))
  cut_two = sym (append_assoc p q _)

  cut_three : five ≡ ((p ++ q) ++ r) ++ (s ++ t)
  cut_three = cut_two ∙ sym (append_assoc (p ++ q) r _)

  cut_four : five ≡ (((p ++ q) ++ r) ++ s) ++ (t ++ [])
  cut_four =
      cut_three
      ∙ sym (append_assoc ((p ++ q) ++ r) s t)
      ∙ ap (λ ys. (((p ++ q) ++ r) ++ s) ++ ys) (sym (append-nil t))

  slice_first : {E : Type 0} (b : ℕ) → b ≡ length p → slice {E = E} five 0 b ≡ ok p
  slice_first b e = slice-append [] p _ 0 b refl (omega (arith, e))

  slice_second :
      {E : Type 0} (a b : ℕ)
      → a ≡ length p
      → b ≡ length p + length q
      → slice {E = E} five a b ≡ ok q
  slice_second a b = slice-append p q _ a b

  slice_third :
      {E : Type 0} (a b : ℕ)
      → a ≡ length p + length q
      → b ≡ a + length r
      → slice {E = E} five a b ≡ ok r
  slice_third {E} a b e f =
      ap (λ ys. slice {E = E} ys a b) cut_two
      ∙ slice-append (p ++ q) r (s ++ t) a b (omega (arith, length-append p q))
          (omega (arith, length-append p q))

  slice_fourth :
      {E : Type 0} (a b : ℕ)
      → a ≡ length p + length q + length r
      → b ≡ a + length s
      → slice {E = E} five a b ≡ ok s
  slice_fourth {E} a b e f =
      ap (λ ys. slice {E = E} ys a b) cut_three
      ∙ slice-append ((p ++ q) ++ r) s t a b
          (omega (arith, length-append p q, length-append (p ++ q) r))
          (omega (arith, length-append p q, length-append (p ++ q) r))

  slice_fifth :
      {E : Type 0} (a b : ℕ)
      → a ≡ length p + length q + length r + length s
      → b ≡ a + length t
      → slice {E = E} five a b ≡ ok t
  slice_fifth {E} a b e f =
      ap (λ ys. slice {E = E} ys a b) cut_four
      ∙ slice-append (((p ++ q) ++ r) ++ s) t [] a b
          (omega
            (arith, length-append p q, length-append (p ++ q) r, length-append ((p ++ q) ++ r) s))
          (omega
            (arith, length-append p q, length-append (p ++ q) r, length-append ((p ++ q) ++ r) s))

abbrev word_64 : List ℕ
word_64 = to_be_bytes 32 64

module _ (call : VerifyCall) where
  abbrev size : ℕ
  size = length call.combined_proof

  abbrev size_word : List ℕ
  size_word = to_be_bytes 32 size

  abbrev zeros : List ℕ
  zeros = replicate (padding_for size) 0

  lens : (length word_64 ≡ 32) × (length size_word ≡ 32) × (length zeros ≡ padding_for size)
  lens =
      (length-to_be_bytes 32 64, length-to_be_bytes 32 size, length-replicate (padding_for size) 0)

  total :
      length call.circuit_hash ≡ 32
      → length (five call.circuit_hash word_64 size_word call.combined_proof zeros)
        ≡ 96 + size + padding_for size
  total len_hash =
      length-five call.circuit_hash word_64 size_word call.combined_proof zeros
      ∙ omega (arith, lens)

-- Decoding the ABI encoding of a call gives the call back.
pub decode_verify_call-abi_encode :
    (call : VerifyCall)
    → length call.circuit_hash ≡ 32
    → length call.combined_proof + 128 ≤ 2 ^ 64
    → decode_verify_call (abi_encode call) ≡ ok call
unfolding decode_verify_call abi_encode
decode_verify_call-abi_encode call len_hash short =
    rw
      (
        total call len_hash,
        not_short,
        slice_first call.circuit_hash word_64 (size_word call) call.combined_proof (zeros call)
            {E = ProofMarshalingError} 32 (sym len_hash),
        len_hash,
        slice_second call.circuit_hash word_64 (size_word call) call.combined_proof (zeros call)
            {E = ProofMarshalingError} 32 64 (sym len_hash) (omega (arith, lens call)),
        read_u64_be_padded-write 64 (omega arith),
        checked_add-some 64 32 (omega arith),
        header_inside,
        slice_third call.circuit_hash word_64 (size_word call) call.combined_proof (zeros call)
            {E = ProofMarshalingError} 64 96 (omega (arith, lens call)) (omega (arith, lens call)),
        read_u64_be_padded-write (size call) (omega arith),
        checked_add-some 96 (size call) (omega arith),
        data_inside,
        checked_add-some (96 + size call) (padding_for (size call)) (omega arith),
        ==_refl (96 + size call + padding_for (size call)),
        slice_fifth call.circuit_hash word_64 (size_word call) call.combined_proof (zeros call)
            {E = ProofMarshalingError} (96 + size call) (96 + size call + padding_for (size call))
            (omega (arith, lens call)) (omega (arith, lens call)),
        any_nonzero-replicate (padding_for (size call)),
        slice_fourth call.circuit_hash word_64 (size_word call) call.combined_proof (zeros call)
            {E = ProofMarshalingError} 96 (96 + size call) (omega (arith, lens call))
            (omega (arith, lens call)),
      )
      refl
  where
    not_short : ltb (96 + size call + padding_for (size call)) 64 ≡ false
    not_short = ground arith

    header_inside : ltb (96 + size call + padding_for (size call)) 96 ≡ false
    header_inside = ground arith

    data_inside : ltb (96 + size call + padding_for (size call)) (96 + size call) ≡ false
    data_inside = ground arith
