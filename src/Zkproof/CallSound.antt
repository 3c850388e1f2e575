-- ===== src/Zkproof/CallSound.antt =====
-- `decode_verify_call` on the inputs that it accepts.
use outbe_circuits.Prelude.{
  ℕ, ◌+◌, ◌≡◌, sym, ap, ◌∙◌, true, not, some, List, [], ◌++◌, arith, Result, ok, err, panic, guard,
  assert, ok_or, ltb, ◌==◌, ==_iff, length, drop, replicate, bind_ok, guard-eq-ok, ok_or-eq-ok,
}
use mathlib.Core.List.{append-nil}
use outbe_circuits.Bytes.{IsBytes, to_be_bytes}
use outbe_circuits.Slices.{
  slice, slice-eq-ok, All-slice, drop_end, checked_add, checked_add-eq-some, any_nonzero,
  zeros_of_any_nonzero,
}
use outbe_circuits.Zkproof.Words.ProofMarshalingError.{input_too_short, malformed_abi}
use outbe_circuits.Zkproof.Words.{
  ProofMarshalingError, read_u64_be_padded, read_u64_be_padded-eq-some,
}
use outbe_circuits.Zkproof.Call.{VerifyCall, decode_verify_call, abi_encode, padding_for}

-- What a successful run has read.
record Run (input : List ℕ) (call : VerifyCall) : Type 0 where
  word : List ℕ
  size_word : List ℕ
  pad : List ℕ
  offset : ℕ
  header_end : ℕ
  size : ℕ
  data_end : ℕ
  encoded_end : ℕ
  hash_read : slice {E = ProofMarshalingError} input 0 32 ≡ ok call.circuit_hash
  word_read : slice {E = ProofMarshalingError} input 32 64 ≡ ok word
  offset_read : read_u64_be_padded word ≡ some offset
  offset_canonical : (offset == 64) ≡ true
  header_sum : checked_add offset 32 ≡ some header_end
  size_word_read : slice {E = ProofMarshalingError} input offset header_end ≡ ok size_word
  size_read : read_u64_be_padded size_word ≡ some size
  data_sum : checked_add header_end size ≡ some data_end
  end_sum : checked_add data_end (padding_for size) ≡ some encoded_end
  end_exact : (length input == encoded_end) ≡ true
  pad_read : slice {E = ProofMarshalingError} input data_end encoded_end ≡ ok pad
  pad_zero : not (any_nonzero pad) ≡ true
  proof_read : slice {E = ProofMarshalingError} input header_end data_end ≡ ok call.combined_proof

ok_call :
    (hash proof : List ℕ) (call : VerifyCall)
    → ◌≡◌ {A = Result ProofMarshalingError VerifyCall}
        (ok (record { circuit_hash = hash; combined_proof = proof }))
        (ok call)
    → (hash ≡ call.circuit_hash) × (proof ≡ call.combined_proof)
ok_call hash proof call h = (ap hash_of h, ap proof_of h)
  where
    hash_of : Result ProofMarshalingError VerifyCall → List ℕ
    hash_of (ok c) = c.circuit_hash
    hash_of (err e) = []
    hash_of panic = []

    proof_of : Result ProofMarshalingError VerifyCall → List ℕ
    proof_of (ok c) = c.combined_proof
    proof_of (err e) = []
    proof_of panic = []

Run-of : (input : List ℕ) (call : VerifyCall) → decode_verify_call input ≡ ok call → Run input call
unfolding decode_verify_call
Run-of input call h =
    bind_ok (guard (not (ltb (length input) 64)) (input_too_short (length input))) h (λ _ g h.
      bind_ok (slice input 0 32) h (λ hash s1 h. bind_ok (assert (length hash == 32)) h (λ _ a1 h.
        bind_ok (slice input 32 64) h (λ word s2 h.
          bind_ok (ok_or (malformed_abi "offset too large") (read_u64_be_padded word)) h
            (λ offset r1 h.
              bind_ok (guard (offset == 64) (malformed_abi "non-canonical offset")) h (λ _ o h.
                bind_ok (ok_or (malformed_abi "offset overflow") (checked_add offset 32)) h
                  (λ header_end c1 h.
                    bind_ok
                      (guard (not (ltb (length input) header_end))
                        (malformed_abi "offset past end"))
                      h
                      (λ _ g3 h. bind_ok (slice input offset header_end) h (λ size_word s3 h.
                        bind_ok
                          (ok_or (malformed_abi "length too large") (read_u64_be_padded size_word))
                          h
                          (λ size r2 h.
                            bind_ok
                              (ok_or (malformed_abi "length overflow")
                                (checked_add header_end size))
                              h
                              (λ data_end c2 h.
                                bind_ok
                                  (guard (not (ltb (length input) data_end))
                                    (malformed_abi "payload truncated"))
                                  h
                                  (λ _ g4 h.
                                    bind_ok
                                      (ok_or (malformed_abi "padding overflow")
                                        (checked_add data_end (padding_for size)))
                                      h
                                      (λ encoded_end c3 h.
                                        bind_ok
                                          (guard (length input == encoded_end)
                                            (malformed_abi "non-canonical total length"))
                                          h
                                          (λ _ g5 h.
                                            bind_ok (slice input data_end encoded_end) h
                                              (λ pad s4 h.
                                                bind_ok
                                                  (guard (not (any_nonzero pad))
                                                    (malformed_abi "non-zero padding"))
                                                  h
                                                  (λ _ g6 h.
                                                    bind_ok (slice input header_end data_end) h
                                                      (λ proof s5 h. record {
                                                        word = word;
                                                        size_word = size_word;
                                                        pad = pad;
                                                        offset = offset;
                                                        header_end = header_end;
                                                        size = size;
                                                        data_end = data_end;
                                                        encoded_end = encoded_end;
                                                        hash_read =
                                                            s1
                                                            ∙ ap ok (ok_call hash proof call h).0;
                                                        word_read = s2;
                                                        offset_read = ok_or-eq-ok _ _ r1;
                                                        offset_canonical = guard-eq-ok _ _ o;
                                                        header_sum = ok_or-eq-ok _ _ c1;
                                                        size_word_read = s3;
                                                        size_read = ok_or-eq-ok _ _ r2;
                                                        data_sum = ok_or-eq-ok _ _ c2;
                                                        end_sum = ok_or-eq-ok _ _ c3;
                                                        end_exact = guard-eq-ok _ _ g5;
                                                        pad_read = s4;
                                                        pad_zero = guard-eq-ok _ _ g6;
                                                        proof_read =
                                                            s5
                                                            ∙ ap ok (ok_call hash proof call h).1;
                                                      })))))))))))))))))

module _ (input : List ℕ) (call : VerifyCall) (bytes : IsBytes input) (r : Run input call) where
  ends :
      (r.offset ≡ 64)
      × (r.header_end ≡ 96)
      × (r.data_end ≡ 96 + r.size)
      × (length input ≡ 96 + r.size + padding_for r.size)
  ends =
      let o : r.offset ≡ 64 = (==_iff r.offset 64).0 r.offset_canonical in
      let e : length input ≡ r.encoded_end = (==_iff (length input) r.encoded_end).0 r.end_exact in
      let h : r.header_end ≡ r.offset + 32 = (checked_add-eq-some r.offset 32 r.header_sum).0 in
      let d : r.data_end ≡ r.header_end + r.size =
        (checked_add-eq-some r.header_end r.size r.data_sum).0 in
      let p : r.encoded_end ≡ r.data_end + padding_for r.size =
        (checked_add-eq-some r.data_end (padding_for r.size) r.end_sum).0 in
      (o, omega arith, omega arith, omega arith)

  word_is : r.word ≡ to_be_bytes 32 64
  word_is =
      (read_u64_be_padded-eq-some r.word r.offset (All-slice _ input r.word 32 64 bytes r.word_read)
        r.offset_read).0
      ∙ ap (to_be_bytes 32) ends.0

  proof_size : length call.combined_proof ≡ r.size
  proof_size =
      (slice-eq-ok input call.combined_proof r.header_end r.data_end r.proof_read).2
      ∙ omega (arith, ends)

  size_word_is : r.size_word ≡ to_be_bytes 32 (length call.combined_proof)
  size_word_is =
      (read_u64_be_padded-eq-some r.size_word r.size
        (All-slice _ input r.size_word r.offset r.header_end bytes r.size_word_read) r.size_read).0
      ∙ ap (to_be_bytes 32) (sym proof_size)

  pad_is : r.pad ≡ replicate (padding_for (length call.combined_proof)) 0
  pad_is =
      zeros_of_any_nonzero r.pad (ground (arith, r.pad_zero))
      ∙ ap (λ n. replicate n 0) (slice_size ∙ ap padding_for (sym proof_size))
    where
      slice_size : length r.pad ≡ padding_for r.size
      slice_size =
          (slice-eq-ok input r.pad r.data_end r.encoded_end r.pad_read).2
          ∙ omega (arith, ends, (==_iff (length input) r.encoded_end).0 r.end_exact)

  input_is : input ≡ abi_encode call
  unfolding abi_encode
  input_is =
      (slice-eq-ok input call.circuit_hash 0 32 r.hash_read).3
      ∙ ap (λ ys. call.circuit_hash ++ ys)
          ((slice-eq-ok input r.word 32 64 r.word_read).3
            ∙ ap (λ w. w ++ drop 64 input) word_is
            ∙ ap (λ ys. to_be_bytes 32 64 ++ ys)
                (from_size
                  ∙ ap (λ w. w ++ drop r.header_end input) size_word_is
                  ∙ ap (λ ys. to_be_bytes 32 (length call.combined_proof) ++ ys)
                      ((slice-eq-ok input call.combined_proof r.header_end r.data_end
                          r.proof_read).3
                        ∙ ap (λ ys. call.combined_proof ++ ys) (tail_is ∙ pad_is))))
    where
      from_size : drop 64 input ≡ r.size_word ++ drop r.header_end input
      from_size =
          ap (λ k. drop k input) (sym ends.0)
          ∙ (slice-eq-ok input r.size_word r.offset r.header_end r.size_word_read).3

      tail_is : drop r.data_end input ≡ r.pad
      tail_is =
          (slice-eq-ok input r.pad r.data_end r.encoded_end r.pad_read).3
          ∙ ap (λ ys. r.pad ++ ys)
              (drop_end r.encoded_end input
                (omega (arith, (==_iff (length input) r.encoded_end).0 r.end_exact)))
          ∙ append-nil r.pad

-- Only the ABI encoding of a call decodes to it.
pub decode_verify_call-eq-ok :
    (input : List ℕ) (call : VerifyCall)
    → IsBytes input
    → decode_verify_call input ≡ ok call
    → (input ≡ abi_encode call) × (length call.circuit_hash ≡ 32)
decode_verify_call-eq-ok input call bytes h =
    let r = Run-of input call h in
    (input_is input call bytes r, (slice-eq-ok input call.circuit_hash 0 32 r.hash_read).2)
