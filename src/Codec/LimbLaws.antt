-- ===== src/Codec/LimbLaws.antt =====
-- The limbs of a `uint256`: what they are worth, and both round trips.
use outbe_circuits.Prelude.{
  ℕ, ◌+◌, ◌*◌, ◌/◌, ◌%◌, ◌^◌, ◌<◌, ◌≡◌, refl, sym, ap, ◌∙◌, false, some, List, [], ◌∷◌, ◌++◌, arith,
  ok, ◌>>=◌, leb, lt→ltb, length, take, drop, length-take, length-drop, take-append-drop,
}
use Prim.Native.Nat.{bit_or}
use outbe_circuits.Prelude.{bit_or-shift, shift-bit_or}
use native.Mathlib.Nat.{mod-eq_of_lt}
use outbe_circuits.Field.{PrimeField, IsLawful}
use outbe_circuits.Bytes.{
  IsBytes, from_be_bytes, to_be_bytes, from_be_bytes-append, length-to_be_bytes,
  to_be_bytes-IsBytes, from_be_bytes-to_be_bytes, to_be_bytes-from_be_bytes, from_be_bytes-lt,
}
use outbe_circuits.Slices.{All-drop, All-take}
use outbe_circuits.Codec.Limbs.{
  shl, u256_limbs_be, u256_from_limbs_be, fields_from_u256, fields_to_u256,
}
use outbe_circuits.Codec.Scalars.{scalar_from_field}
use outbe_circuits.Codec.Arrays.{small_from, scalar_from_field-eq}

shl-small : (n k : ℕ) → n * 2 ^ k < 2 ^ 128 → shl n k ≡ n * 2 ^ k
shl-small n k lt = mod-eq_of_lt lt

-- The middle limb, as a sum.
mid_lem :
    (hi lo : ℕ)
    → lo < 2 ^ 128
    → bit_or (lo / 2 ^ 120) (shl (hi % 2 ^ 112) 8) ≡ lo / 2 ^ 120 + hi % 2 ^ 112 * 256
mid_lem hi lo lt =
    ap (bit_or (lo / 2 ^ 120)) (shl-small (hi % 2 ^ 112) 8 (omega arith))
    ∙ bit_or-shift (lo / 2 ^ 120) (hi % 2 ^ 112) 8 (omega arith)

abbrev pub hi : List ℕ → ℕ
hi be32 = from_be_bytes (take 16 be32)

abbrev pub lo : List ℕ → ℕ
lo be32 = from_be_bytes (drop 16 be32)

module _ (be32 : List ℕ) (bytes : IsBytes be32) (len : length be32 ≡ 32) where
  hi_lt : hi be32 < 2 ^ 128
  hi_lt = omega (
    arith,
    from_be_bytes-lt 16 (take 16 be32) (All-take _ 16 be32 bytes)
        (omega (arith, length-take 16 be32)),
  )

  lo_lt : lo be32 < 2 ^ 128
  lo_lt = omega (
    arith,
    from_be_bytes-lt 16 (drop 16 be32) (All-drop _ 16 be32 bytes)
        (omega (arith, length-drop 16 be32)),
  )

  pub limbs_lem :
      u256_limbs_be be32
      ≡ (lo be32 % 2 ^ 120, lo be32 / 2 ^ 120 + hi be32 % 2 ^ 112 * 256, hi be32 / 2 ^ 112)
  unfolding u256_limbs_be
  limbs_lem = rw (mid_lem (hi be32) (lo be32) lo_lt) refl

-- Combining limbs in range, as sums.
pub from_limbs_lem :
    (l0 l1 l2 : ℕ)
    → l0 < 2 ^ 120
    → l1 < 2 ^ 120
    → l2 < 2 ^ 16
    → u256_from_limbs_be (l0, l1, l2)
      ≡ some (to_be_bytes 16 (l2 * 2 ^ 112 + l1 / 256) ++ to_be_bytes 16 (l0 + l1 % 256 * 2 ^ 120))
unfolding u256_from_limbs_be
from_limbs_lem l0 l1 l2 a b c =
    let t0 : leb (2 ^ 120) l0 ≡ false = ground arith in
    let t1 : leb (2 ^ 120) l1 ≡ false = ground arith in
    let t2 : leb (2 ^ 16) l2 ≡ false = ground arith in
    rw
      (
        t0,
        t1,
        t2,
        shl-small (l1 % 256) 120 (omega arith),
        shl-small l2 112 (omega arith),
        bit_or-shift l0 (l1 % 256) 120 a,
        shift-bit_or (l1 / 256) l2 112 (omega arith),
      )
      refl

-- Combining the limbs of a word gives the word back.
pub u256_from_limbs_be-u256_limbs_be :
    (be32 : List ℕ)
    → IsBytes be32
    → length be32 ≡ 32
    → u256_from_limbs_be (u256_limbs_be be32) ≡ some be32
u256_from_limbs_be-u256_limbs_be be32 bytes len = rw (limbs_lem be32 bytes len) (
    from_limbs_lem _ _ _ (omega arith) (omega (arith, lo_lt be32 bytes len))
      (omega (arith, hi_lt be32 bytes len))
    ∙ ap some whole)
  where
    upper :
        hi be32 / 2 ^ 112 * 2 ^ 112 + (lo be32 / 2 ^ 120 + hi be32 % 2 ^ 112 * 256) / 256 ≡ hi be32
    upper = omega (arith, lo_lt be32 bytes len)

    lower :
        lo be32 % 2 ^ 120 + (lo be32 / 2 ^ 120 + hi be32 % 2 ^ 112 * 256) % 256 * 2 ^ 120 ≡ lo be32
    lower = omega (arith, lo_lt be32 bytes len)

    whole :
        to_be_bytes 16
            (hi be32 / 2 ^ 112 * 2 ^ 112 + (lo be32 / 2 ^ 120 + hi be32 % 2 ^ 112 * 256) / 256)
          ++ to_be_bytes 16
              (lo be32 % 2 ^ 120 + (lo be32 / 2 ^ 120 + hi be32 % 2 ^ 112 * 256) % 256 * 2 ^ 120)
        ≡ be32
    whole =
        rw
          (
            upper,
            lower,
            to_be_bytes-from_be_bytes 16 (take 16 be32) (All-take _ 16 be32 bytes)
                (omega (arith, length-take 16 be32)),
            to_be_bytes-from_be_bytes 16 (drop 16 be32) (All-drop _ 16 be32 bytes)
                (omega (arith, length-drop 16 be32)),
          )
          (take-append-drop 16 be32)

-- The limbs of a word are worth, by their radix, the number that the word spells, and are in range.
pub u256_limbs_be-value :
    (be32 : List ℕ)
    → IsBytes be32
    → length be32 ≡ 32
    → (l0 l1 l2 : ℕ) × (u256_limbs_be be32 ≡ (l0, l1, l2))
      × (l0 < 2 ^ 120)
      × (l1 < 2 ^ 120)
      × (l2 < 2 ^ 16)
      × (l0 + l1 * 2 ^ 120 + l2 * 2 ^ 240 ≡ from_be_bytes be32)
u256_limbs_be-value be32 bytes len = (
  _,
  _,
  _,
  limbs_lem be32 bytes len,
  omega arith,
  omega (arith, lo_lt be32 bytes len),
  omega (arith, hi_lt be32 bytes len),
  omega (arith, lo_lt be32 bytes len, hi_lt be32 bytes len, split),
)
  where
    low_size : length (drop 16 be32) ≡ 16
    low_size = omega (arith, length-drop 16 be32)

    split : from_be_bytes be32 ≡ hi be32 * 2 ^ 128 + lo be32
    split =
        ap from_be_bytes (sym (take-append-drop 16 be32))
        ∙ from_be_bytes-append (take 16 be32) (drop 16 be32)
        ∙ ap (λ k. hi be32 * 256 ^ k + lo be32) low_size

-- A `U256` comes back from its field limbs.
pub fields_to_u256-fields_from_u256 :
    {Fr : Type 0} ⦃F : PrimeField Fr⦄ (value : ℕ)
    → IsLawful F
    → value < 2 ^ 256
    → (fields_from_u256 {Fr = Fr} value >>= λ (lo, mid, hi). fields_to_u256 (lo ∷ mid ∷ hi ∷ []))
      ≡ ok value
unfolding fields_from_u256 fields_to_u256
fields_to_u256-fields_from_u256 {Fr} ⦃F⦄ value lawful lt =
    let (l0, l1, l2, eq, a, b, c, worth) =
      u256_limbs_be-value (to_be_bytes 32 value) (to_be_bytes-IsBytes 32 value)
        (length-to_be_bytes 32 value) in
    rw
      (
        eq,
        small_limb l0 (omega arith),
        small_limb l1 (omega arith),
        small_limb l2 (omega arith),
        sym eq,
        u256_from_limbs_be-u256_limbs_be (to_be_bytes 32 value) (to_be_bytes-IsBytes 32 value)
            (length-to_be_bytes 32 value),
      )
      (ap ok (from_be_bytes-to_be_bytes 32 value (omega arith)))
  where
    small_limb : (l : ℕ) → l < 2 ^ 128 → scalar_from_field 16 "u128" (F.from l) ≡ ok l
    small_limb l lt =
        scalar_from_field-eq 16 "u128" (F.from l) lawful (omega arith)
        ∙ rw (small_from lawful l (omega arith), lt→ltb l (2 ^ (16 * 8)) (omega arith)) refl
