-- ===== src/Signature/Accepted.antt =====
-- Verification accepts what a turn of the signing loop makes.
use outbe_circuits.Prelude.{
  ℕ, ◌+◌, ◌-◌, ◌*◌, ◌%◌, ◌<◌, ◌≡◌, refl, sym, ap, ◌∙◌, inl, inr, true, false, some, List, [], ◌++◌,
  arith, ok, ◌==◌, Bool-cases, length, take, drop, replicate, take-append, drop-append,
}
use native.Mathlib.Nat.{mod-eq_of_lt, mod-add-mod, add-mod-mod, add-mod_right, mod-lt}
use mathlib.Core.List.{append-nil}
use outbe_circuits.Field.{PrimeField, IsLawful}
use outbe_circuits.Hash.{coords}
use outbe_circuits.Bytes.{
  be_loop, from_be_bytes, length-to_be_bytes, from_be_bytes-to_be_bytes, from_be_bytes-zeros,
}
use outbe_circuits.Slices.{any_nonzero, zeros_of_any_nonzero, bytes_eq_iff}
use outbe_circuits.Curve.{Suite, IsGroup, mul_generator}
use outbe_circuits.Signature.Sign.{field_to_be32, challenge_bytes, verify_bytes}

zeros_value : (bytes : List ℕ) → any_nonzero bytes ≡ false → from_be_bytes bytes ≡ 0
zeros_value bytes h =
    ap from_be_bytes (zeros_of_any_nonzero bytes h)
    ∙ ap from_be_bytes (sym (append-nil (replicate (length bytes) 0)))
    ∙ from_be_bytes-zeros (length bytes) []
    ∙ unfold from_be_bytes be_loop in refl

module _ {Scalar : Type 0} (S : PrimeField Scalar) (lawful : IsLawful S) where
  positive : 0 < S.modulus
  positive = omega (arith, lawful.modulus_min)

  -- `(k - m) + m` is `k`.
  sub_back :
      (k x : ℕ) → k < S.modulus → ((k + S.modulus - x % S.modulus) % S.modulus + x) % S.modulus ≡ k
  sub_back k x lt =
      mod-add-mod (k + S.modulus - x % S.modulus) S.modulus x
      ∙ sym (add-mod-mod (k + S.modulus - x % S.modulus) x S.modulus)
      ∙ ap (λ n. n % S.modulus) whole
      ∙ add-mod_right k S.modulus
      ∙ mod-eq_of_lt lt
    where
      whole : k + S.modulus - x % S.modulus + x % S.modulus ≡ k + S.modulus
      whole = omega (arith, mod-lt x positive)

module _ {Fr Scalar Point : Type 0} (U : Suite Fr Scalar Point) (lawful : IsLawful U.S)
    (group : IsGroup U.C U.S) where
  -- The point that verification recomputes is the one that was signed with.
  point_lem :
      (k e sk : Scalar)
      → U.C.add
          (mul_generator U.S U.C (U.C.sub k (U.C.times e sk)))
          (U.C.mul_bigint (mul_generator U.S U.C sk) (U.S.into_bigint e))
        ≡ mul_generator U.S U.C k
  unfolding mul_generator
  point_lem k e sk =
      ap (U.C.add (U.C.mul_bigint U.C.generator (U.S.into_bigint (U.C.sub k (U.C.times e sk)))))
        (group.mul_bigint-mul_bigint U.C.generator (U.S.into_bigint sk) (U.S.into_bigint e))
      ∙ group.add-mul_bigint U.C.generator _ _
      ∙ group.generator_order _
      ∙ ap (U.C.mul_bigint U.C.generator) exponent
    where
      swap : U.S.into_bigint sk * U.S.into_bigint e ≡ U.S.into_bigint e * U.S.into_bigint sk
      swap = grind arith

      exponent :
          (U.S.into_bigint (U.C.sub k (U.C.times e sk)) + U.S.into_bigint sk * U.S.into_bigint e)
            % U.S.modulus
          ≡ U.S.into_bigint k
      exponent =
          rw (group.sub_value k (U.C.times e sk), group.times_value e sk, swap)
            (sub_back U.S lawful (U.S.into_bigint k) (U.S.into_bigint e * U.S.into_bigint sk)
              (lawful.into_bigint-lt k))

  -- A scalar's bytes give it back.
  scalar_back : (s : Scalar) → U.S.from (from_be_bytes (field_to_be32 U.S s)) ≡ s
  unfolding field_to_be32
  scalar_back s =
      ap U.S.from (
        from_be_bytes-to_be_bytes 32 (U.S.into_bigint s)
          (omega (arith, lawful.into_bigint-lt s, lawful.modulus_max)))
      ∙ lawful.from-into_bigint s

  nonzero_bytes :
      (bytes : List ℕ)
      → (U.S.into_bigint (U.S.from (from_be_bytes bytes)) == 0) ≡ false
      → any_nonzero bytes ≡ true
  nonzero_bytes bytes h = elim (Bool-cases (any_nonzero bytes)) [
    | inl some_set ↦ some_set
    | inr clear ↦
        let value : U.S.into_bigint (U.S.from (from_be_bytes bytes)) ≡ 0 =
          ap (λ n. U.S.into_bigint (U.S.from n)) (zeros_value bytes clear)
          ∙ lawful.into_bigint-from 0
          ∙ mod-eq_of_lt (positive U.S lawful) in
        absurd (ground arith)
  ]

  -- What verification computes on a signature made with the nonce `k`.
  pub accepted :
      (sk k : Scalar) (rx ry : Fr) (message e_bytes : List ℕ)
      → U.A.xy (mul_generator U.S U.C k) ≡ some (rx, ry)
      → challenge_bytes U rx (mul_generator U.S U.C sk) message ≡ ok e_bytes
      → (U.S.into_bigint (U.S.from (from_be_bytes e_bytes)) == 0) ≡ false
      → (U.S.into_bigint (U.C.sub k (U.C.times (U.S.from (from_be_bytes e_bytes)) sk)) == 0) ≡ false
      → verify_bytes U
          (mul_generator U.S U.C sk)
          (field_to_be32 U.S (U.C.sub k (U.C.times (U.S.from (from_be_bytes e_bytes)) sk))
            ++ e_bytes)
          message
        ≡ true
  unfolding verify_bytes coords
  accepted sk k rx ry message e_bytes point challenge e_set s_set =
      rw
        (
          first,
          rest,
          nonzero_bytes e_bytes e_set,
          nonzero_bytes (field_to_be32 U.S s)
              (ap (λ x. U.S.into_bigint x == 0) (scalar_back s) ∙ s_set),
          scalar_back s,
          point_lem k (U.S.from (from_be_bytes e_bytes)) sk,
          point,
          challenge,
        )
        ((bytes_eq_iff e_bytes e_bytes).1 refl)
    where
      s : Scalar
      s = U.C.sub k (U.C.times (U.S.from (from_be_bytes e_bytes)) sk)

      width : length (field_to_be32 U.S s) ≡ 32
      width = unfold field_to_be32 in length-to_be_bytes 32 (U.S.into_bigint s)

      first : take 32 (field_to_be32 U.S s ++ e_bytes) ≡ field_to_be32 U.S s
      first =
          ap (λ n. take n (field_to_be32 U.S s ++ e_bytes)) (sym width)
          ∙ take-append (field_to_be32 U.S s) e_bytes

      rest : drop 32 (field_to_be32 U.S s ++ e_bytes) ≡ e_bytes
      rest =
          ap (λ n. drop n (field_to_be32 U.S s ++ e_bytes)) (sym width)
          ∙ drop-append (field_to_be32 U.S s) e_bytes
