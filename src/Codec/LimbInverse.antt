-- ===== src/Codec/LimbInverse.antt =====
-- codec.rs: the limbs of a combined word.
use outbe_circuits.Prelude.{
  ℕ, ◌+◌, ◌*◌, ◌/◌, ◌%◌, ◌^◌, ◌<◌, ◌≡◌, refl, sym, ap, ◌∙◌, Bool, true, false, ◌||◌, Option, none,
  some, List, ◌++◌, arith, leb, if◌then◌else◌, length, take, drop, length-append, take-append,
  drop-append, some_inj,
}
use outbe_circuits.Bytes.{
  IsBytes, from_be_bytes, to_be_bytes, length-to_be_bytes, to_be_bytes-IsBytes,
  from_be_bytes-to_be_bytes, All-append,
}
use outbe_circuits.Codec.Limbs.{u256_limbs_be, u256_from_limbs_be}
use outbe_circuits.Codec.LimbLaws.{hi, lo, limbs_lem, from_limbs_lem}

refused :
    {A : Type 0} (b : Bool) (x : Option A) {y : A} → (if b then none else x) ≡ some y → b ≡ false
refused true x h = cc
refused false x h = refl

limbs-in_range :
    (l0 l1 l2 : ℕ) (bytes : List ℕ)
    → u256_from_limbs_be (l0, l1, l2) ≡ some bytes
    → (l0 < 2 ^ 120) × (l1 < 2 ^ 120) × (l2 < 2 ^ 16)
unfolding u256_from_limbs_be
limbs-in_range l0 l1 l2 bytes h =
    ground (arith, refused (leb (2 ^ 120) l0 || (leb (2 ^ 120) l1 || leb (2 ^ 16) l2)) _ h)

-- Two halves of 16 bytes.
halves :
    (a b : ℕ)
    → a < 2 ^ 128
    → b < 2 ^ 128
    → (hi (to_be_bytes 16 a ++ to_be_bytes 16 b) ≡ a)
      × (lo (to_be_bytes 16 a ++ to_be_bytes 16 b) ≡ b)
halves a b la lb = (
  ap from_be_bytes (
        ap (λ n. take n (to_be_bytes 16 a ++ to_be_bytes 16 b)) (sym (length-to_be_bytes 16 a))
        ∙ take-append (to_be_bytes 16 a) (to_be_bytes 16 b))
      ∙ from_be_bytes-to_be_bytes 16 a (omega arith),
  ap from_be_bytes (
        ap (λ n. drop n (to_be_bytes 16 a ++ to_be_bytes 16 b)) (sym (length-to_be_bytes 16 a))
        ∙ drop-append (to_be_bytes 16 a) (to_be_bytes 16 b))
      ∙ from_be_bytes-to_be_bytes 16 b (omega arith),
)

triple :
    {A B C : Type 0} {a d : A} {b e : B} {c f : C}
    → a ≡ d
    → b ≡ e
    → c ≡ f
    → ◌≡◌ {A = A × B × C} (a, b, c) (d, e, f)
triple p q r = λ i. (p i, q i, r i)

-- A word that limbs combine to has these limbs.
pub u256_limbs_be-u256_from_limbs_be :
    (l0 l1 l2 : ℕ) (bytes : List ℕ)
    → u256_from_limbs_be (l0, l1, l2) ≡ some bytes
    → (u256_limbs_be bytes ≡ (l0, l1, l2)) × IsBytes bytes × (length bytes ≡ 32)
u256_limbs_be-u256_from_limbs_be l0 l1 l2 bytes h =
    let (p0, p1, p2) = limbs-in_range l0 l1 l2 bytes h in
    let a = l2 * 2 ^ 112 + l1 / 256 in
    let b = l0 + l1 % 256 * 2 ^ 120 in
    let made : bytes ≡ to_be_bytes 16 a ++ to_be_bytes 16 b =
      some_inj (sym h ∙ from_limbs_lem l0 l1 l2 p0 p1 p2) in
    let all : IsBytes (to_be_bytes 16 a ++ to_be_bytes 16 b) =
      All-append _ (to_be_bytes 16 a) (to_be_bytes 16 b) (to_be_bytes-IsBytes 16 a)
        (to_be_bytes-IsBytes 16 b) in
    let size : length (to_be_bytes 16 a ++ to_be_bytes 16 b) ≡ 32 = omega (
      arith,
      length-append (to_be_bytes 16 a) (to_be_bytes 16 b),
      length-to_be_bytes 16 a,
      length-to_be_bytes 16 b,
    ) in
    let (high, low) = halves a b (omega arith) (omega arith) in
    (
      ap u256_limbs_be made
          ∙ limbs_lem (to_be_bytes 16 a ++ to_be_bytes 16 b) all size
          ∙ triple (ap (λ n. n % 2 ^ 120) low ∙ omega arith) (omega (arith, high, low))
              (ap (λ n. n / 2 ^ 112) high ∙ omega arith),
      rw made all,
      rw made size,
    )
