-- ===== src/Zkproof/Total.antt =====
-- zkproof.rs: panics in the decoders of calls and of public words, on bytes from anywhere.
use outbe_circuits.Prelude.{
  ℕ, zero, suc, ◌+◌, ◌-◌, ◌*◌, ◌/◌, ◌%◌, ◌≤◌, ◌≡◌, refl, sym, ap, ◌∙◌, inl, inr, Bool, true, false,
  not, Option, none, some, List, [], ◌∷◌, arith, Result, ok, err, panic, ◌>>=◌, ◌>>◌, guard, assert,
  ok_or, ltb, leb, ◌==◌, ==_iff, Bool-cases, length, set, take, drop, replicate, get_elem?,
  get_elem?-set_self, length-set, length-take, length-replicate, some_inj,
}
use outbe_circuits.Bytes.{from_be_bytes}
use outbe_circuits.Field.{PrimeField}
use outbe_circuits.Slices.{slice, slice-eq-ok, checked_add, checked_add-eq-some, any_nonzero}
use outbe_circuits.Zkproof.Words.{ProofMarshalingError, read_u64_be_padded, is_canonical_field_word}
use outbe_circuits.Zkproof.Words.ProofMarshalingError.{
  input_too_short, malformed_abi, combined_proof_too_short, wrong_public_input_count,
  truncated_public_inputs, wrong_combined_proof_length, non_canonical_public_input,
}
use outbe_circuits.Zkproof.Call.{VerifyCall, decode_verify_call, padding_for}
use outbe_circuits.Zkproof.PublicWords.{header_of, chunks, store, words_loop, decode_public_words}

-- Where a sequence panics, its second part does, after a first that succeeded.
bind_panic :
    {E A B : Type 0} {f : A → Result E B} (m : Result E A)
    → m >>= f ≡ panic
    → (m ≡ panic → ⊥)
    → ((a : A) → m ≡ ok a → f a ≡ panic → ⊥)
    → ⊥
bind_panic (ok a) h p k = k a refl h
bind_panic (err e) h p k = cc
bind_panic panic h p k = p refl

guard_panic :
    {E B : Type 0} {second : Result E B} (b : Bool) (e : E)
    → guard b e >> second ≡ panic
    → (b ≡ true → second ≡ panic → ⊥)
    → ⊥
guard_panic true e h k = k refl h
guard_panic false e h k = cc

ok_or_panic :
    {E A B : Type 0} {f : A → Result E B} (e : E) (o : Option A)
    → ok_or e o >>= f ≡ panic
    → ((a : A) → o ≡ some a → f a ≡ panic → ⊥)
    → ⊥
ok_or_panic e none h k = cc
ok_or_panic e (some a) h k = k a refl h

slice_panic :
    {E A B : Type 0} {f : List A → Result E B} (xs : List A) (a b : ℕ)
    → slice xs a b >>= f ≡ panic
    → a ≤ b
    → b ≤ length xs
    → ((ys : List A) → f ys ≡ panic → ⊥)
    → ⊥
unfolding slice
slice_panic {E} xs a b h le inside k =
    let first : leb a b ≡ true = ground arith in
    let last : leb b (length xs) ≡ true = ground arith in
    bind_panic (slice {E = E} xs a b) h (λ p. ground (arith, p)) (λ ys _ g. k ys g)

module _ (input hash : List ℕ) (header_end : ℕ) where
  -- The part of `decode_verify_call` from the length on.
  abbrev payload : List ℕ → Result ProofMarshalingError VerifyCall
  payload length_word = do
    proof_length ← ok_or (malformed_abi "length too large") (read_u64_be_padded length_word)
    data_end ← ok_or (malformed_abi "length overflow") (checked_add header_end proof_length)
    guard (not (ltb (length input) data_end)) (malformed_abi "payload truncated")
    let padding = (32 - proof_length % 32) % 32
    encoded_end ← ok_or (malformed_abi "padding overflow") (checked_add data_end padding)
    guard (length input == encoded_end) (malformed_abi "non-canonical total length")
    padding_bytes ← slice input data_end encoded_end
    guard (not (any_nonzero padding_bytes)) (malformed_abi "non-zero padding")
    combined_proof ← slice input header_end data_end
    ok (record { circuit_hash = hash; combined_proof = combined_proof })

-- The part of `decode_verify_call` from the length on.
payload-total :
    (input hash : List ℕ) (header_end : ℕ) (length_word : List ℕ)
    → header_end ≤ length input
    → ¬ (payload input hash header_end length_word ≡ panic)
payload-total input hash header_end length_word header_inside h =
    ok_or_panic (malformed_abi "length too large") (read_u64_be_padded length_word) h
      (λ proof_length _ h.
        ok_or_panic (malformed_abi "length overflow") (checked_add header_end proof_length) h
          (λ data_end sum h.
            let data_is : data_end ≡ header_end + proof_length =
              (checked_add-eq-some header_end proof_length sum).0 in
            guard_panic (not (ltb (length input) data_end)) (malformed_abi "payload truncated") h
              (λ data_inside h.
                ok_or_panic (malformed_abi "padding overflow")
                  (checked_add data_end (padding_for proof_length)) h
                  (λ encoded_end sum h.
                    let end_is : encoded_end ≡ data_end + padding_for proof_length =
                      (checked_add-eq-some data_end (padding_for proof_length) sum).0 in
                    guard_panic (length input == encoded_end)
                      (malformed_abi "non-canonical total length") h
                      (λ exact h.
                        slice_panic input data_end encoded_end h (omega (arith, end_is))
                          (ground (arith, exact))
                          (λ pad h.
                            guard_panic (not (any_nonzero pad)) (malformed_abi "non-zero padding") h
                              (λ _ h.
                                slice_panic input header_end data_end h (omega (arith, data_is))
                                  (ground (arith, data_inside)) (λ proof h. cc))))))))

assert_panic :
    {E B : Type 0} {second : Result E B} (b : Bool)
    → assert b >> second ≡ panic
    → b ≡ true
    → (second ≡ panic → ⊥)
    → ⊥
assert_panic true h p k = k h
assert_panic false h p k = cc

length-chunks : (n : ℕ) (bytes : List ℕ) → length (chunks n bytes) ≡ n
unfolding chunks
length-chunks zero bytes = refl
length-chunks (suc n) bytes = omega (arith, length-chunks n (drop 32 bytes))

-- The words that are left have room in the array.
words_loop-total :
    {Fr : Type 0} (F : PrimeField Fr) (i : ℕ) (words rest : List (List ℕ))
    → i + length rest ≤ length words
    → ¬ (words_loop F i words rest ≡ panic)
unfolding words_loop store
words_loop-total F i words [] room h = cc
words_loop-total F i words (word ∷ rest) room h =
    let inside : ltb i (length words) ≡ true = ground arith in
    let stored : List (List ℕ) = set words i word in
    let found : get_elem? stored i ≡ some word = get_elem?-set_self words i word (omega arith) in
    guard_panic (is_canonical_field_word F word) (non_canonical_public_input i)
      (rw (inside, found) at h)
      (λ _ h.
        words_loop-total F (suc i) stored rest (omega (arith, length-set words i word, room)) h)

-- `decode_verify_call` after the hash is copied.
abbrev after_hash : List ℕ → List ℕ → Result ProofMarshalingError VerifyCall
after_hash input hash = do
  offset_word ← slice input 32 64
  offset ← ok_or (malformed_abi "offset too large") (read_u64_be_padded offset_word)
  guard (offset == 64) (malformed_abi "non-canonical offset")
  header_end ← ok_or (malformed_abi "offset overflow") (checked_add offset 32)
  guard (not (ltb (length input) header_end)) (malformed_abi "offset past end")
  length_word ← slice input offset header_end
  payload input hash header_end length_word

-- The part of `decode_verify_call` from the offset on.
offset_total : (input hash : List ℕ) → 64 ≤ length input → ¬ (after_hash input hash ≡ panic)
offset_total input hash long h = slice_panic input 32 64 h (omega arith) long (λ word h.
    ok_or_panic (malformed_abi "offset too large") (read_u64_be_padded word) h (λ offset _ h.
      guard_panic (offset == 64) (malformed_abi "non-canonical offset") h (λ canonical h.
        ok_or_panic (malformed_abi "offset overflow") (checked_add offset 32) h (λ header_end sum h.
          let ends : header_end ≡ offset + 32 = (checked_add-eq-some offset 32 sum).0 in
          guard_panic (not (ltb (length input) header_end)) (malformed_abi "offset past end") h
            (λ header_inside h.
              slice_panic input offset header_end h (omega (arith, ends))
                (ground (arith, header_inside))
                (λ length_word h.
                  payload-total input hash header_end length_word (ground (arith, header_inside))
                    h))))))

decode_verify_call-total : (input : List ℕ) → ¬ (decode_verify_call input ≡ panic)
unfolding decode_verify_call
decode_verify_call-total input h =
    guard_panic (not (ltb (length input) 64)) (input_too_short (length input)) h (λ long h.
      bind_panic (slice input 0 32) h
        (λ p.
          slice_panic {f = λ ys. ok ys} input 0 32 (ap (λ r. r >>= (λ ys. ok ys)) p) (omega arith)
            (ground (arith, long)) (λ ys h. cc))
        (λ hash cut h.
          assert_panic (length hash == 32) h
            ((==_iff (length hash) 32).1 (slice-eq-ok input hash 0 32 cut).2)
            (λ h. offset_total input hash (ground (arith, long)) h)))

length-header_of :
    (bytes : List ℕ) {header : List ℕ} → header_of bytes ≡ some header → length header ≡ 4
unfolding header_of
length-header_of bytes {header} h = elim (Bool-cases (ltb (length bytes) 4)) [
  | inl short ↦ let bad = rw short at h in cc
  | inr long ↦
      let taken : take 4 bytes ≡ header = some_inj (rw long at h) in
      ap length (sym taken) ∙ length-take 4 bytes ∙ ground (arith, long)
]

-- The part of `decode_public_words` from the slice on.
public_part_total :
    {Fr : Type 0} (F : PrimeField Fr) (n : ℕ) (bytes : List ℕ)
    → 4 + n * 32 ≤ length bytes
    → ¬ (
        (slice bytes 4 (4 + n * 32) >>= λ public.
        assert (length public % 32 == 0)
        >> words_loop F 0 (replicate n (replicate 32 0)) (chunks (length public / 32) public))
        ≡ panic)
public_part_total F n bytes inside h =
    bind_panic (slice bytes 4 (4 + n * 32)) h
      (λ p.
        slice_panic {f = λ ys. ok ys} bytes 4 (4 + n * 32) (ap (λ r. r >>= (λ ys. ok ys)) p)
          (omega arith) inside (λ ys h. cc))
      (λ public cut h.
        let size : length public ≡ n * 32 =
          (slice-eq-ok bytes public 4 (4 + n * 32) cut).2 ∙ omega arith in
        assert_panic (length public % 32 == 0) h (rw size whole) (λ h.
          words_loop-total F 0 (replicate n (replicate 32 0)) (chunks (length public / 32) public)
            (omega
              (arith, length-replicate n zeros, length-chunks (length public / 32) public, size))
            h))
  where
    zeros : List ℕ
    zeros = replicate 32 0

    whole : (n * 32 % 32 == 0) ≡ true
    whole = ground arith

decode_public_words-total :
    {Fr : Type 0} (F : PrimeField Fr) (n : ℕ) (combined_proof : List ℕ) (expected_len : ℕ)
    → ¬ (decode_public_words F n combined_proof expected_len ≡ panic)
unfolding decode_public_words
decode_public_words-total F n combined_proof expected_len h =
    ok_or_panic (combined_proof_too_short (length combined_proof)) (header_of combined_proof) h
      (λ header found h.
        assert_panic (length header == 4) h
          ((==_iff (length header) 4).1 (length-header_of combined_proof found))
          (λ h.
            guard_panic (from_be_bytes header == n)
              (wrong_public_input_count n (from_be_bytes header)) h
              (λ _ h.
                guard_panic (not (ltb (length combined_proof) (4 + n * 32)))
                  (truncated_public_inputs (4 + n * 32) (length combined_proof)) h
                  (λ inside h.
                    guard_panic (length combined_proof == expected_len)
                      (wrong_combined_proof_length expected_len (length combined_proof)) h
                      (λ _ h. public_part_total F n combined_proof (ground (arith, inside)) h)))))

-- No bytes make the decoder of calls panic, and none the decoder of public words, whatever the number
-- of words and the length that it expects.
pub decoders_total :
    {Fr : Type 0} (F : PrimeField Fr) (n expected_len : ℕ) (input : List ℕ)
    → ¬ (decode_verify_call input ≡ panic) × ¬ (decode_public_words F n input expected_len ≡ panic)
decoders_total F n expected_len input =
    (decode_verify_call-total input, decode_public_words-total F n input expected_len)
