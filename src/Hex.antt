-- ===== src/Hex.antt =====
-- The hexadecimal digits that crates/outbe-zk-backend/src/barretenberg/srs.rs
-- (`hex32`) and crates/outbe-zk-canonical/build.rs (`hex_to_32`, `hex_str`) read and write.
use outbe_circuits.Prelude.{
  ℕ, ◌+◌, ◌-◌, ◌*◌, ◌/◌, ◌%◌, ◌<◌, ◌≡◌, refl, ◌&&◌, Option, none, some, List, [], ◌∷◌, arith, ltb,
  leb, ◌==◌, if◌then◌else◌, length,
}
use outbe_circuits.Bytes.{IsBytes}

-- A lower-case hexadecimal digit.
unfoldable pub hex_digit : ℕ → ℕ
hex_digit d = if ltb d 10 then 48 + d else 87 + d

-- `format!("{byte:02x}")` of every byte.
unfoldable pub hex : List ℕ → List ℕ
unfolding hex_digit
hex [] = []
hex (b ∷ bytes) = hex_digit (b / 16) ∷ hex_digit (b % 16) ∷ hex bytes

-- `char::to_digit(16)`
unfoldable pub digit_of_hex : ℕ → Option ℕ
digit_of_hex c =
    if leb 48 c && leb c 57
    then some (c - 48)
    else if leb 97 c && leb c 102
    then some (c - 87)
    else if leb 65 c && leb c 70
    then some (c - 55)
    else none

abbrev byte_of : Option ℕ → Option ℕ → Option ℕ
byte_of (some h) (some l) = some (16 * h + l)
byte_of _ _ = none

-- `u8::from_str_radix(pair, 16)` of two characters, which also reads a plus sign before one digit.
unfoldable pub from_str_radix_16 : ℕ → ℕ → Option ℕ
unfolding digit_of_hex
from_str_radix_16 h l =
    if h == 43 then digit_of_hex l else byte_of (digit_of_hex h) (digit_of_hex l)

-- A byte before the rest of the bytes, where both are there.
abbrev prepend : Option ℕ → Option (List ℕ) → Option (List ℕ)
prepend (some b) (some bytes) = some (b ∷ bytes)
prepend _ _ = none

-- The bytes of pairs of digits, none where a pair is no byte or a digit is left over.
unfoldable pub unhex : List ℕ → Option (List ℕ)
unhex [] = some []
unhex (h ∷ []) = none
unhex (h ∷ l ∷ text) = prepend (from_str_radix_16 h l) (unhex text)

from_str_radix_16-hex_digit :
    (h l : ℕ) → h < 16 → l < 16 → from_str_radix_16 (hex_digit h) (hex_digit l) ≡ some (16 * h + l)
unfolding from_str_radix_16 hex_digit digit_of_hex
from_str_radix_16-hex_digit h l lh ll = ground arith

-- Printed bytes are read back.
pub unhex-hex : (bytes : List ℕ) → IsBytes bytes → unhex (hex bytes) ≡ some bytes
unfolding unhex hex
unhex-hex [] all = refl
unhex-hex (b ∷ bytes) (small, all) =
    let q : 16 * (b / 16) + b % 16 ≡ b = omega arith in
    rw
      (
        from_str_radix_16-hex_digit (b / 16) (b % 16) (omega arith) (omega arith),
        unhex-hex bytes all,
        q,
      )
      refl

pub length-hex : (bytes : List ℕ) → length (hex bytes) ≡ 2 * length bytes
unfolding hex
length-hex [] = refl
length-hex (b ∷ bytes) = omega (arith, length-hex bytes)

-- No two texts of bytes are equal unless the bytes are.
pub hex_inj : (xs ys : List ℕ) → IsBytes xs → IsBytes ys → hex xs ≡ hex ys → xs ≡ ys
hex_inj xs ys p q e = cc (unhex-hex xs p, unhex-hex ys q)
