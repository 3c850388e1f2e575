-- ===== src/Verifier.antt =====
-- crates/outbe-zk-backend/src/barretenberg/mod.rs: `RawVerifier::verify_combined`. The foreign verifier is
-- an argument, with the settings and the lock that the code gives it.
use outbe_circuits.Prelude.{
  ℕ, ◌+◌, ◌-◌, ◌*◌, ◌/◌, ◌%◌, ◌^◌, ◌<◌, ◌≡◌, refl, sym, ap, ◌∙◌, Bool, true, Option, none, some,
  List, [], ◌++◌, arith, Result, ◌>>=◌, ◌>>◌, guard, ok_or, leb, ◌==◌, if◌then◌else◌, length, take,
  drop, length-append, take-append, drop-append,
}
use outbe_circuits.Error.{Error, Message}
use outbe_circuits.Bytes.{from_be_bytes, to_be_bytes, length-to_be_bytes, from_be_bytes-to_be_bytes}
use outbe_circuits.Slices.{drop-drop}
use outbe_circuits.Zkproof.PublicWords.{header_of, chunks}
use outbe_circuits.Zkproof.PublicLaws.{
  concat, AreWords, length-concat, chunks-concat, header_of-append,
}

abbrev pub short_header : Error
short_header = Error.proof (Message.fmt "combined proof shorter than 4-byte header" [])

abbrev pub truncated_inputs : Error
truncated_inputs = Error.proof (Message.fmt "combined proof truncated in public inputs" [])

abbrev pub odd_proof : Error
odd_proof = Error.proof (Message.fmt "combined proof: proof section not a multiple of 32 bytes" [])

-- `combined_proof.get(4..end)`
unfoldable pub public_part : List ℕ → ℕ → Option (List ℕ)
public_part bytes end =
    if leb end (length bytes) then some (take (end - 4) (drop 4 bytes)) else none

-- `circuit_verify` takes the key, the public inputs and the proof words.
unfoldable pub verify_combined :
    (List ℕ → List (List ℕ) → List (List ℕ) → Result Error Bool)
    → List ℕ
    → List ℕ
    → Result Error Bool
verify_combined circuit_verify vk_bytes combined_proof = do
  header ← ok_or short_header (header_of combined_proof)
  let num_public = from_be_bytes header
  let pub_end = 4 + num_public * 32
  pub_bytes ← ok_or truncated_inputs (public_part combined_proof pub_end)
  let public_inputs = chunks (length pub_bytes / 32) pub_bytes
  let proof_bytes = drop pub_end combined_proof
  guard (length proof_bytes % 32 == 0) odd_proof
  let proof = chunks (length proof_bytes / 32) proof_bytes
  circuit_verify vk_bytes public_inputs proof

-- On the wire form of public words and proof words, the foreign verifier gets these words.
pub verify_combined-wire :
    (circuit_verify : List ℕ → List (List ℕ) → List (List ℕ) → Result Error Bool) (vk : List ℕ)
    (words proof : List (List ℕ))
    → AreWords words
    → AreWords proof
    → length words < 2 ^ 32
    → verify_combined circuit_verify vk
        (to_be_bytes 4 (length words) ++ (concat words ++ concat proof))
      ≡ circuit_verify vk words proof
unfolding verify_combined
verify_combined-wire circuit_verify vk words proof all allp few =
    rw
      (
        header_of-append (to_be_bytes 4 (length words)) (concat words ++ concat proof)
            (length-to_be_bytes 4 (length words)),
        from_be_bytes-to_be_bytes 4 (length words) (omega arith),
        public,
        rest,
        length-concat words all,
        length-concat proof allp,
        whole,
        count (length words),
        count (length proof),
        chunks-concat words all,
        chunks-concat proof allp,
      )
      refl
  where
    wire : List ℕ
    wire = to_be_bytes 4 (length words) ++ (concat words ++ concat proof)

    count : (n : ℕ) → n * 32 / 32 ≡ n
    count n = omega arith

    whole : (length proof * 32 % 32 == 0) ≡ true
    whole = ground arith

    after_header :
        drop 4 (to_be_bytes 4 (length words) ++ (concat words ++ concat proof))
        ≡ concat words ++ concat proof
    after_header =
        ap (λ n. drop n (to_be_bytes 4 (length words) ++ (concat words ++ concat proof)))
          (sym (length-to_be_bytes 4 (length words)))
        ∙ drop-append (to_be_bytes 4 (length words)) (concat words ++ concat proof)

    total :
        length (to_be_bytes 4 (length words) ++ (concat words ++ concat proof))
        ≡ 4 + length words * 32 + length proof * 32
    total = omega (
      arith,
      length-append (to_be_bytes 4 (length words)) (concat words ++ concat proof),
      length-append (concat words) (concat proof),
      length-to_be_bytes 4 (length words),
      length-concat words all,
      length-concat proof allp,
    )

    width : 4 + length words * 32 - 4 ≡ length (concat words)
    width = omega (arith, length-concat words all)

    inside : leb (4 + length words * 32) (4 + length words * 32 + length proof * 32) ≡ true
    inside = ground arith

    public :
        public_part
          (to_be_bytes 4 (length words) ++ (concat words ++ concat proof))
          (4 + length words * 32)
        ≡ some (concat words)
    public =
        unfold public_part in
        rw (total, inside, after_header, width)
          (ap some (take-append (concat words) (concat proof)))

    rest :
        drop
          (4 + length words * 32)
          (to_be_bytes 4 (length words) ++ (concat words ++ concat proof))
        ≡ concat proof
    rest =
        sym (drop-drop 4 (length words * 32) _)
        ∙ ap (drop (length words * 32)) after_header
        ∙ ap (λ n. drop n (concat words ++ concat proof)) (sym (length-concat words all))
        ∙ drop-append (concat words) (concat proof)
