-- ===== src/Codec/Bytes.antt =====
-- codec.rs: field elements from bytes and into bytes.
use outbe_circuits.Prelude.{
  ℕ, zero, suc, ◌-◌, ◌*◌, ◌/◌, ◌%◌, min, String, Bool, false, not, ◌||◌, List, [], ◌∷◌, ◌++◌,
  Result, ok, ◌>>◌, guard, ok_or, ltb, ◌==◌, if◌then◌else◌, length, take, drop, replicate,
}
use outbe_circuits.Error.{Error}
use outbe_circuits.Field.{PrimeField}
use outbe_circuits.Bytes.{from_be_bytes, to_be_bytes}

-- `(0..8).rev().map(move |i| (byte >> i) & 1 == 1)`
unfoldable pub byte_bits : ℕ → List Bool
byte_bits byte =
    (byte / 128 % 2 == 1)
    ∷ (byte / 64 % 2 == 1)
    ∷ (byte / 32 % 2 == 1)
    ∷ (byte / 16 % 2 == 1)
    ∷ (byte / 8 % 2 == 1)
    ∷ (byte / 4 % 2 == 1)
    ∷ (byte / 2 % 2 == 1)
    ∷ (byte % 2 == 1)
    ∷ []

unfoldable pub bits_of : List ℕ → List Bool
bits_of [] = []
bits_of (byte ∷ bytes) = byte_bits byte ++ bits_of bytes

abbrev pub any : List Bool → Bool
any [] = false
any (bit ∷ bits) = bit || any bits

-- `BigInteger::num_bits` of a number of four limbs.
unfoldable pub num_bits_below : ℕ → ℕ → ℕ
num_bits_below zero n = 0
num_bits_below (suc limit) n =
    let rest = suc (num_bits_below limit (n / 2)) in if n == 0 then 0 else rest

abbrev pub num_bits : ℕ → ℕ
num_bits n = num_bits_below 256 n

module _ {Fr : Type 0} ⦃F : PrimeField Fr⦄ where
  unfoldable pub field_from_be_bytes : List ℕ → Fr
  field_from_be_bytes bytes = F.from (from_be_bytes bytes)

  unfoldable pub field_from_be_bytes_canonical : List ℕ → String → Result Error Fr
  field_from_be_bytes_canonical bytes what = do
    let bits = bits_of bytes
    let excess = length bits - 4 * 64
    guard (not (any (take excess bits))) (Error.non_canonical what)
    let repr = F.from_bits_be bits
    ok_or (Error.non_canonical what) (F.from_bigint repr)

  -- `field_to_be_array::<N>`; `to_bytes_be` gives 32 bytes.
  unfoldable pub field_to_be_array : ℕ → Fr → String → Result Error (List ℕ)
  field_to_be_array n value what = do
    let value = F.into_bigint value
    guard (not (ltb (n * 8) (num_bits value))) (Error.non_canonical what)
    let bytes = to_be_bytes 32 value
    let len = min (length bytes) n
    ok (replicate (n - len) 0 ++ drop (length bytes - len) bytes)

  unfoldable pub field_to_be_bytes : Fr → List ℕ
  field_to_be_bytes f = to_be_bytes 32 (F.into_bigint f)

  unfoldable pub field_from_be32 : List ℕ → Fr
  field_from_be32 b = F.from (from_be_bytes b)
