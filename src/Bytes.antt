-- ===== src/Bytes.antt =====
-- Big-endian bytes, as `from_be_bytes` and `to_be_bytes` read and write them.
use outbe_circuits.Prelude.{
  ℕ, zero, suc, ◌+◌, ◌*◌, ◌/◌, ◌%◌, ◌^◌, ◌<◌, ◌≡◌, refl, ap, ◌∙◌, List, [], ◌∷◌, ◌++◌, arith,
  length, replicate, All, length-append,
}

-- Every entry is a byte.
abbrev pub IsBytes : List ℕ → Type 0
IsBytes = All (λ b. b < 256)

unfoldable pub be_loop : ℕ → List ℕ → ℕ
be_loop acc [] = acc
be_loop acc (b ∷ bytes) = be_loop (acc * 256 + b) bytes

-- The number that big-endian bytes spell.
unfoldable pub from_be_bytes : List ℕ → ℕ
from_be_bytes bytes = be_loop 0 bytes

-- The lowest `width` bytes of a number, the highest first.
unfoldable pub to_be_bytes : ℕ → ℕ → List ℕ
to_be_bytes zero n = []
to_be_bytes (suc width) n = to_be_bytes width (n / 256) ++ n % 256 ∷ []

-- The length `usize::MAX + 1` of the 64-bit targets.
abbrev pub two_64 : ℕ
two_64 = 2 ^ 64

pub be_loop-append :
    (acc : ℕ) (xs ys : List ℕ) → be_loop acc (xs ++ ys) ≡ be_loop (be_loop acc xs) ys
unfolding be_loop
be_loop-append acc [] ys = refl
be_loop-append acc (x ∷ xs) ys = be_loop-append (acc * 256 + x) xs ys

pub length-to_be_bytes : (width n : ℕ) → length (to_be_bytes width n) ≡ width
unfolding to_be_bytes
length-to_be_bytes zero n = refl
length-to_be_bytes (suc width) n =
    length-append (to_be_bytes width (n / 256)) (n % 256 ∷ [])
    ∙ omega (arith, length-to_be_bytes width (n / 256))

pub All-append :
    {A : Type 0} (P : A → Type 0) (xs ys : List A) → All P xs → All P ys → All P (xs ++ ys)
All-append P [] ys p q = q
All-append P (x ∷ xs) ys (p, ps) q = (p, All-append P xs ys ps q)

pub to_be_bytes-IsBytes : (width n : ℕ) → IsBytes (to_be_bytes width n)
unfolding to_be_bytes
to_be_bytes-IsBytes zero n = tt
to_be_bytes-IsBytes (suc width) n =
    All-append _ (to_be_bytes width (n / 256)) (n % 256 ∷ []) (to_be_bytes-IsBytes width (n / 256))
      (omega arith, tt)

-- Reading what was written gives the number back where it fits.
pub from_be_bytes-to_be_bytes :
    (width n : ℕ) → n < 256 ^ width → from_be_bytes (to_be_bytes width n) ≡ n
unfolding from_be_bytes to_be_bytes be_loop
from_be_bytes-to_be_bytes zero n h = omega arith
from_be_bytes-to_be_bytes (suc width) n h =
    be_loop-append 0 (to_be_bytes width (n / 256)) (n % 256 ∷ [])
    ∙ omega (arith, from_be_bytes-to_be_bytes width (n / 256) (omega arith))

-- A last byte can be split off.
snoc_view :
    (w : ℕ) (xs : List ℕ)
    → IsBytes xs
    → length xs ≡ suc w
    → (init : List ℕ) × (last : ℕ) × (xs ≡ init ++ last ∷ [])
      × (length init ≡ w)
      × IsBytes init
      × (last < 256)
snoc_view zero (x ∷ []) p q = ([], x, refl, refl, tt, p.0)
snoc_view zero (x ∷ y ∷ xs) p q = absurd (omega arith)
snoc_view zero [] p q = absurd (omega arith)
snoc_view (suc w) [] p q = absurd (omega arith)
snoc_view (suc w) (x ∷ xs) (px, ps) q =
    let (init, last, eq, len, bytes, byte) = snoc_view w xs ps (omega arith) in
    (x ∷ init, last, ap (λ ys. x ∷ ys) eq, omega (arith, len), (px, bytes), byte)

from_be_bytes-snoc :
    (init : List ℕ) (last : ℕ) → from_be_bytes (init ++ last ∷ []) ≡ from_be_bytes init * 256 + last
unfolding from_be_bytes be_loop
from_be_bytes-snoc init last = be_loop-append 0 init (last ∷ [])

-- Writing what was read gives the bytes back.
pub to_be_bytes-from_be_bytes :
    (width : ℕ) (bytes : List ℕ)
    → IsBytes bytes
    → length bytes ≡ width
    → to_be_bytes width (from_be_bytes bytes) ≡ bytes
unfolding to_be_bytes
to_be_bytes-from_be_bytes zero [] p q = refl
to_be_bytes-from_be_bytes zero (b ∷ bytes) p q = absurd (omega arith)
to_be_bytes-from_be_bytes (suc width) bytes p q =
    let (init, last, eq, len, inits, byte) = snoc_view width bytes p q in
    let high : (from_be_bytes init * 256 + last) / 256 ≡ from_be_bytes init = omega arith in
    let low : (from_be_bytes init * 256 + last) % 256 ≡ last = omega arith in
    rw (eq, from_be_bytes-snoc init last, high, low)
      (ap (λ ys. ys ++ last ∷ []) (to_be_bytes-from_be_bytes width init inits len))

-- Bytes spell a number below `256 ^ length`.
pub from_be_bytes-lt :
    (width : ℕ) (bytes : List ℕ)
    → IsBytes bytes
    → length bytes ≡ width
    → from_be_bytes bytes < 256 ^ width
from_be_bytes-lt zero [] p q = unfold from_be_bytes be_loop in omega arith
from_be_bytes-lt zero (b ∷ bytes) p q = absurd (omega arith)
from_be_bytes-lt (suc width) bytes p q =
    let (init, last, eq, len, inits, byte) = snoc_view width bytes p q in
    rw (eq, from_be_bytes-snoc init last) (omega (arith, from_be_bytes-lt width init inits len))

-- Leading zeros count for nothing.
pub from_be_bytes-zeros :
    (n : ℕ) (bytes : List ℕ) → from_be_bytes (replicate n 0 ++ bytes) ≡ from_be_bytes bytes
unfolding from_be_bytes be_loop
from_be_bytes-zeros zero bytes = refl
from_be_bytes-zeros (suc n) bytes = from_be_bytes-zeros n bytes

spread : (a b p : ℕ) → (a * 256 + b) * p ≡ a * (256 * p) + b * p
spread a b p = grind arith

be_loop-acc :
    (acc : ℕ) (bytes : List ℕ) → be_loop acc bytes ≡ acc * 256 ^ length bytes + be_loop 0 bytes
unfolding be_loop
be_loop-acc acc [] = omega arith
be_loop-acc acc (b ∷ bytes) =
    let more : 256 ^ suc (length bytes) ≡ 256 * 256 ^ length bytes = omega arith in
    rw more (
      omega (
        arith,
        be_loop-acc (acc * 256 + b) bytes,
        be_loop-acc (0 * 256 + b) bytes,
        spread acc b (256 ^ length bytes),
      ))

-- Bytes followed by more bytes.
pub from_be_bytes-append :
    (xs ys : List ℕ)
    → from_be_bytes (xs ++ ys) ≡ from_be_bytes xs * 256 ^ length ys + from_be_bytes ys
unfolding from_be_bytes
from_be_bytes-append xs ys = be_loop-append 0 xs ys ∙ be_loop-acc (be_loop 0 xs) ys
