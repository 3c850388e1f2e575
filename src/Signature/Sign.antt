-- ===== src/Signature/Sign.antt =====
-- signature.rs: signing and verifying.
use outbe_circuits.Prelude.{
  ℕ, zero, suc, ◌+◌, ◌%◌, ◌^◌, Bool, false, not, ◌||◌, Option, none, some, List, [], ◌∷◌, ◌++◌,
  Result, ok, err, panic, ◌>>=◌, ◌==◌, if◌then◌else◌, take, drop,
}
use outbe_circuits.Error.{Error}
use outbe_circuits.Field.{PrimeField}
use outbe_circuits.Hash.{coords}
use outbe_circuits.Bytes.{from_be_bytes, to_be_bytes}
use outbe_circuits.Slices.{any_nonzero, bytes_eq}
use outbe_circuits.Curve.{Suite, base_to_scalar, mul_generator}

-- "outbe/schnorr/nonce/v1"
abbrev nonce_domain : List ℕ
nonce_domain =
    111 ∷ 117 ∷ 116 ∷ 98 ∷ 101 ∷ 47 ∷ 115 ∷ 99 ∷ 104 ∷ 110 ∷ 111 ∷ 114 ∷ 114 ∷ 47 ∷ 110 ∷ 111 ∷ 110
    ∷ 99 ∷ 101 ∷ 47 ∷ 118 ∷ 49 ∷ []

-- Four limbs of eight bytes, the highest first.
unfoldable pub field_to_be32 : {A : Type 0} → PrimeField A → A → List ℕ
field_to_be32 G f = to_be_bytes 32 (G.into_bigint f)

-- `let Ok(..) = .. else { return false }`
abbrev accept : Result Error Bool → Bool
accept (ok b) = b
accept (err e) = false
accept panic = false

-- Whether the loop returns, or goes on to `later`.
abbrev pub turn :
    Result Error (Option (List ℕ)) → Option (Result Error (List ℕ)) → Option (Result Error (List ℕ))
turn (ok none) later = later
turn (ok (some signature)) later = some (ok signature)
turn (err e) later = some (err e)
turn panic later = some panic

module _ {Fr Scalar Point : Type 0} (U : Suite Fr Scalar Point) where
  abbrev generator_0 : Point
  generator_0 =
      U.C.new_unchecked
        (U.F.from 3728882899078719075161482178784387565366481897740339799480980287259621149274)
        (U.F.from 11985179162806396554955778097047359550576116765952231747549784474790041064285)

  abbrev generator_1 : Point
  generator_1 =
      U.C.new_unchecked
        (U.F.from 2393473289045184898987089634332637236754766663897650125720167164137088869378)
        (U.F.from 14752839959415467457196082350231122454649853219840744672802853620609001898278)

  abbrev generator_2 : Point
  generator_2 =
      U.C.new_unchecked
        (U.F.from 12786580035164724895989409532878568950405964521921739189071475352889503270728)
        (U.F.from 1658946642478826263901298755938807527017017780224674388532518006781615929512)

  abbrev generator_3 : Point
  generator_3 =
      U.C.new_unchecked
        (U.F.from 20793534830995666052889629834383221590246524226953098604058514977776739732941)
        (U.F.from 21169538964657307934625131027308026551296100558246394809295742894776804020355)

  unfoldable pub pedersen_hash3 : Fr → Fr → Fr → Result Error Fr
  pedersen_hash3 a b c = do
    let p0 = U.C.mul_bigint generator_0 (U.S.into_bigint (base_to_scalar U.F U.S a))
    let p1 = U.C.mul_bigint generator_1 (U.S.into_bigint (base_to_scalar U.F U.S b))
    let p2 = U.C.mul_bigint generator_2 (U.S.into_bigint (base_to_scalar U.F U.S c))
    let p3 = U.C.mul_bigint generator_3 (U.S.into_bigint (U.S.from 3))
    (x, _) ← coords ⦃A = U.A⦄ (U.C.add (U.C.add (U.C.add p0 p1) p2) p3)
    ok x

  unfoldable pub challenge_bytes : Fr → Point → List ℕ → Result Error (List ℕ)
  challenge_bytes rx pk message = do
    (px, py) ← coords ⦃A = U.A⦄ pk
    pde ← pedersen_hash3 rx px py
    ok (U.D.blake2s (field_to_be32 U.F pde ++ message))

  unfoldable pub verify_bytes : Point → List ℕ → List ℕ → Bool
  verify_bytes pk signature message =
      let s_bytes = take 32 signature in
      let e_bytes = drop 32 signature in
      if not (any_nonzero s_bytes) || not (any_nonzero e_bytes)
      then false
      else accept (do
        let s = U.S.from (from_be_bytes s_bytes)
        let e = U.S.from (from_be_bytes e_bytes)
        (rx, _) ←
            coords ⦃A = U.A⦄
              (U.C.add (mul_generator U.S U.C s) (U.C.mul_bigint pk (U.S.into_bigint e)))
        challenge ← challenge_bytes rx pk message
        ok (bytes_eq challenge e_bytes))

  unfoldable pub derive_nonce : Scalar → List ℕ → List ℕ → ℕ → Scalar
  derive_nonce sk message aux counter = U.S.from (
      from_be_bytes (
        U.D.blake2s
          (nonce_domain ++ (field_to_be32 U.S sk ++ (aux ++ (to_be_bytes 4 counter ++ message))))))

  -- One turn of the loop: a signature, or nothing where it continues.
  unfoldable pub attempt : Scalar → List ℕ → List ℕ → ℕ → Result Error (Option (List ℕ))
  attempt sk message aux counter =
      let k = derive_nonce sk message aux counter in
      if U.S.into_bigint k == 0 then ok none else elim (U.A.xy (mul_generator U.S U.C k)) [
        | none ↦ ok none
        | some (rx, _) ↦ do
          e_bytes ← challenge_bytes rx (mul_generator U.S U.C sk) message
          let e = U.S.from (from_be_bytes e_bytes)
          let s = U.C.sub k (U.C.times e sk)
          if U.S.into_bigint e == 0
              then ok none
              else (if U.S.into_bigint s == 0
                  then ok none
                  else ok (some (field_to_be32 U.S s ++ e_bytes)))
      ]

  -- `loop`, for at most `fuel` turns; `none` where they do not suffice.
  unfoldable pub sign_loop : ℕ → Scalar → List ℕ → List ℕ → ℕ → Option (Result Error (List ℕ))
  sign_loop zero sk message aux counter = none
  sign_loop (suc fuel) sk message aux counter =
      turn (attempt sk message aux counter) (sign_loop fuel sk message aux ((counter + 1) % 2 ^ 32))

  -- `aux` is what the generator fills in.
  unfoldable pub sign_bytes : ℕ → List ℕ → Scalar → List ℕ → Option (Result Error (List ℕ))
  sign_bytes fuel aux sk message = sign_loop fuel sk message aux 0

  unfoldable pub sign : ℕ → List ℕ → Scalar → Fr → Option (Result Error (List ℕ))
  sign fuel aux sk message = sign_bytes fuel aux sk (field_to_be32 U.F message)

  unfoldable pub verify : Point → Fr → List ℕ → Bool
  verify pk message signature = verify_bytes pk signature (field_to_be32 U.F message)
