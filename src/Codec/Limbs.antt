-- ===== src/Codec/Limbs.antt =====
-- codec.rs: a `uint256` as three limbs of radix 2^120. `& (1 << k) - 1` is `% 2 ^ k`, `>>` a division.
use outbe_circuits.Prelude.{
  ℕ, ◌*◌, ◌/◌, ◌%◌, ◌^◌, ◌||◌, Option, none, some, List, [], ◌∷◌, ◌++◌, Result, ok, err, ◌>>=◌,
  ok_or, leb, if◌then◌else◌, take, drop,
}
use Prim.Native.Nat.{bit_or}
use outbe_circuits.Error.{Error}
use outbe_circuits.Field.{PrimeField}
use outbe_circuits.Bytes.{from_be_bytes, to_be_bytes}
use outbe_circuits.Codec.Scalars.{scalar_from_field}

-- `<<` on `u128`
abbrev pub shl : ℕ → ℕ → ℕ
shl n k = n * 2 ^ k % 2 ^ 128

unfoldable pub u256_limbs_be : List ℕ → ℕ × ℕ × ℕ
u256_limbs_be be32 =
    let hi = from_be_bytes (take 16 be32) in
    let lo = from_be_bytes (drop 16 be32) in
    let mid = bit_or (lo / 2 ^ 120) (shl (hi % 2 ^ 112) 8) in (lo % 2 ^ 120, mid, hi / 2 ^ 112)

unfoldable pub u256_from_limbs_be : ℕ × ℕ × ℕ → Option (List ℕ)
u256_from_limbs_be (l0, l1, l2) =
    if leb (2 ^ 120) l0 || (leb (2 ^ 120) l1 || leb (2 ^ 16) l2)
    then none
    else (let lo = bit_or l0 (shl (l1 % 256) 120) in
        let hi = bit_or (shl l2 112) (l1 / 2 ^ 8) in some (to_be_bytes 16 hi ++ to_be_bytes 16 lo))

module _ {Fr : Type 0} ⦃F : PrimeField Fr⦄ where
  -- `fields_from_u256`; the value is a `U256`.
  unfoldable pub fields_from_u256 : ℕ → Result Error (Fr × Fr × Fr)
  fields_from_u256 value =
      let limbs = u256_limbs_be (to_be_bytes 32 value) in
      ok (F.from limbs.0, F.from limbs.1, F.from limbs.2)

  -- `let [lo, mid, hi] = fields else { .. }`
  unfoldable pub fields_to_u256 : List Fr → Result Error ℕ
  fields_to_u256 (lo ∷ mid ∷ hi ∷ []) = do
    l0 ← scalar_from_field 16 "u128" lo
    l1 ← scalar_from_field 16 "u128" mid
    l2 ← scalar_from_field 16 "u128" hi
    bytes ← ok_or (Error.non_canonical "uint256 limbs") (u256_from_limbs_be (l0, l1, l2))
    ok (from_be_bytes bytes)
  fields_to_u256 fields = err (Error.non_canonical "uint256 requires three field limbs")

  -- `impl FieldEncode for U256`
  unfoldable pub encode_u256 : ℕ → List Fr → Result Error (List Fr)
  encode_u256 value out =
      let limbs = u256_limbs_be (to_be_bytes 32 value) in
      ok (out ++ F.from limbs.0 ∷ F.from limbs.1 ∷ F.from limbs.2 ∷ [])
