-- ===== src/Signature/SignLaws.antt =====
-- What signing returns verifies, and signing returns once a turn of its loop succeeds.
use outbe_circuits.Prelude.{
  ℕ, zero, suc, ◌+◌, ◌%◌, ◌^◌, ◌<◌, ◌≡◌, refl, sym, ap, ◌∙◌, ◌⊎◌, inl, inr, true, false, Option,
  none, some, List, ◌++◌, arith, Result, ok, err, panic, ◌>>=◌, ◌==◌, if◌then◌else◌, Bool-cases,
  Option-cases, bind_ok,
}
use outbe_circuits.Error.{Error}
use outbe_circuits.Field.{IsLawful}
use outbe_circuits.Bytes.{from_be_bytes}
use outbe_circuits.Curve.{Suite, IsGroup, mul_generator}
use outbe_circuits.Signature.Sign.{
  field_to_be32, challenge_bytes, verify_bytes, derive_nonce, turn, attempt, sign_loop, sign_bytes,
}
use outbe_circuits.Signature.Accepted.{accepted}

turn-ok :
    (r : Result Error (Option (List ℕ))) (later : Option (Result Error (List ℕ)))
    (signature : List ℕ)
    → turn r later ≡ some (ok signature)
    → (r ≡ ok (some signature)) ⊎ (later ≡ some (ok signature))
turn-ok (ok none) later signature h = inr h
turn-ok (ok (some found)) later signature h = inl (ground arith)
turn-ok (err e) later signature h = cc
turn-ok panic later signature h = cc

module _ {Fr Scalar Point : Type 0} (U : Suite Fr Scalar Point) (lawful : IsLawful U.S)
    (group : IsGroup U.C U.S) where
  -- The end of a turn, once the challenge is known.
  abbrev finish : Scalar → Scalar → List ℕ → Result Error (Option (List ℕ))
  finish sk k e_bytes =
      if U.S.into_bigint (U.S.from (from_be_bytes e_bytes)) == 0
      then ok none
      else (if U.S.into_bigint (U.C.sub k (U.C.times (U.S.from (from_be_bytes e_bytes)) sk)) == 0
          then ok none
          else ok (
              some (
                field_to_be32 U.S (U.C.sub k (U.C.times (U.S.from (from_be_bytes e_bytes)) sk))
                ++ e_bytes)))

  finish-some :
      (sk k : Scalar) (e_bytes signature : List ℕ)
      → finish sk k e_bytes ≡ ok (some signature)
      → ((U.S.into_bigint (U.S.from (from_be_bytes e_bytes)) == 0) ≡ false)
        × ((U.S.into_bigint (U.C.sub k (U.C.times (U.S.from (from_be_bytes e_bytes)) sk)) == 0)
            ≡ false)
        × (field_to_be32 U.S (U.C.sub k (U.C.times (U.S.from (from_be_bytes e_bytes)) sk))
              ++ e_bytes
            ≡ signature)
  finish-some sk k e_bytes signature h = (ground arith, ground arith, ground arith)

  module _ (sk : Scalar) (message aux : List ℕ) (counter : ℕ) where
    abbrev nonce : Scalar
    nonce = derive_nonce U sk message aux counter

    attempt-zero : (U.S.into_bigint nonce == 0) ≡ true → attempt U sk message aux counter ≡ ok none
    unfolding attempt
    attempt-zero z = rw z refl

    attempt-identity :
        (U.S.into_bigint nonce == 0) ≡ false
        → U.A.xy (mul_generator U.S U.C nonce) ≡ none
        → attempt U sk message aux counter ≡ ok none
    unfolding attempt
    attempt-identity z n = rw (z, n) refl

    attempt-point :
        (rx ry : Fr)
        → (U.S.into_bigint nonce == 0) ≡ false
        → U.A.xy (mul_generator U.S U.C nonce) ≡ some (rx, ry)
        → attempt U sk message aux counter
          ≡ (challenge_bytes U rx (mul_generator U.S U.C sk) message >>= finish sk nonce)
    unfolding attempt
    attempt-point rx ry z p = rw (z, p) refl

    attempt-verifies :
        (signature : List ℕ)
        → attempt U sk message aux counter ≡ ok (some signature)
        → verify_bytes U (mul_generator U.S U.C sk) signature message ≡ true
    attempt-verifies signature h = elim (Bool-cases (U.S.into_bigint nonce == 0)) [
      | inl zero_nonce ↦ cc (attempt-zero zero_nonce)
      | inr z ↦ elim (Option-cases (U.A.xy (mul_generator U.S U.C nonce))) [
        | inl identity ↦ cc (attempt-identity z identity)
        | inr ((rx, ry), point) ↦
            bind_ok (challenge_bytes U rx (mul_generator U.S U.C sk) message)
              (sym (attempt-point rx ry z point) ∙ h)
              (λ e_bytes challenge finished.
                let (e_set, s_set, made) = finish-some sk nonce e_bytes signature finished in
                ap (λ sig. verify_bytes U (mul_generator U.S U.C sk) sig message) (sym made)
                ∙ accepted U lawful group sk nonce rx ry message e_bytes point challenge e_set
                    s_set)
      ]
    ]

  loop-verifies :
      (fuel : ℕ) (sk : Scalar) (message aux : List ℕ) (counter : ℕ) (signature : List ℕ)
      → sign_loop U fuel sk message aux counter ≡ some (ok signature)
      → verify_bytes U (mul_generator U.S U.C sk) signature message ≡ true
  unfolding sign_loop
  loop-verifies zero sk message aux counter signature h = cc
  loop-verifies (suc fuel) sk message aux counter signature h =
      elim (turn-ok (attempt U sk message aux counter) _ signature h) [
        | inl now ↦ attempt-verifies sk message aux counter signature now
        | inr later ↦ loop-verifies fuel sk message aux ((counter + 1) % 2 ^ 32) signature later
      ]

-- A signature that `sign_bytes` returns verifies under the public key of its secret.
pub verify_bytes-sign_bytes :
    {Fr Scalar Point : Type 0} (U : Suite Fr Scalar Point) (fuel : ℕ) (aux : List ℕ) (sk : Scalar)
    (message signature : List ℕ)
    → IsLawful U.S
    → IsGroup U.C U.S
    → sign_bytes U fuel aux sk message ≡ some (ok signature)
    → verify_bytes U (mul_generator U.S U.C sk) signature message ≡ true
unfolding sign_bytes
verify_bytes-sign_bytes U fuel aux sk message signature lawful group h =
    loop-verifies U lawful group fuel sk message aux 0 signature h

loop_enough :
    {Fr Scalar Point : Type 0} (U : Suite Fr Scalar Point) (n extra counter : ℕ) (sk : Scalar)
    (message aux signature : List ℕ)
    → counter + n < 2 ^ 32
    → ((i : ℕ) → i < n → attempt U sk message aux (counter + i) ≡ ok none)
    → attempt U sk message aux (counter + n) ≡ ok (some signature)
    → sign_loop U (suc n + extra) sk message aux counter ≡ some (ok signature)
unfolding sign_loop
loop_enough U zero extra counter sk message aux signature lt before found =
    let q : suc zero + extra ≡ suc extra = omega arith in
    let start : counter + 0 ≡ counter = omega arith in
    rw q (
      ap (λ r. turn r (sign_loop U extra sk message aux ((counter + 1) % 2 ^ 32)))
        (ap (attempt U sk message aux) (sym start) ∙ found))
loop_enough U (suc n) extra counter sk message aux signature lt before found =
    let q : suc (suc n) + extra ≡ suc (suc n + extra) = omega arith in
    let start : counter + 0 ≡ counter = omega arith in
    let wrapped : (counter + 1) % 2 ^ 32 ≡ suc counter = omega arith in
    let end : counter + suc n ≡ suc counter + n = omega arith in
    rw q (
      ap (λ r. turn r (sign_loop U (suc n + extra) sk message aux ((counter + 1) % 2 ^ 32)))
        (ap (attempt U sk message aux) (sym start) ∙ before 0 (omega arith))
      ∙ ap (sign_loop U (suc n + extra) sk message aux) wrapped
      ∙ loop_enough U n extra (suc counter) sk message aux signature (omega arith)
          (λ i lt. shifted i lt) (ap (attempt U sk message aux) (sym end) ∙ found))
  where
    shifted : (i : ℕ) → i < n → attempt U sk message aux (suc counter + i) ≡ ok none
    shifted i lt =
        let moved : suc counter + i ≡ counter + suc i = omega arith in
        ap (attempt U sk message aux) moved ∙ before (suc i) (omega arith)

-- Where the turn `n` of the loop is the first to give a signature, `n + 1` turns and more return it.
pub sign_bytes_enough :
    {Fr Scalar Point : Type 0} (U : Suite Fr Scalar Point) (n extra : ℕ) (aux : List ℕ)
    (sk : Scalar) (message signature : List ℕ)
    → n < 2 ^ 32
    → ((i : ℕ) → i < n → attempt U sk message aux i ≡ ok none)
    → attempt U sk message aux n ≡ ok (some signature)
    → sign_bytes U (suc n + extra) aux sk message ≡ some (ok signature)
unfolding sign_bytes
sign_bytes_enough U n extra aux sk message signature lt before found =
    let at : (i : ℕ) → 0 + i ≡ i = λ i. omega arith in
    loop_enough U n extra 0 sk message aux signature (omega arith)
      (λ i lt. ap (attempt U sk message aux) (at i) ∙ before i lt)
      (ap (attempt U sk message aux) (at n) ∙ found)
