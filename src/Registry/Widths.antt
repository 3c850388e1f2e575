-- ===== src/Registry/Widths.antt =====
-- build.rs: the number of field words of an ABI and the widths of a combined proof.
use outbe_circuits.Prelude.{
  ℕ, ◌+◌, ◌*◌, Bool, true, ◌&&◌, List, [], ◌∷◌, Result, ok, panic, ◌>>=◌, ◌>>◌, expect, assert, leb,
  ◌==◌, if◌then◌else◌, length, take, drop,
}
use outbe_circuits.Bytes.{from_be_bytes}
use outbe_circuits.Text.{codes}
use outbe_circuits.Slices.{bytes_eq}
use outbe_circuits.Registry.Manifest.{AbiType, AbiFields, Param}

unfoldable mutual
  -- A count stays below 2 ^ 64.
  pub abi_field_count : {E : Type 0} → AbiType → Result E ℕ
  abi_field_count AbiType.field = ok 1
  abi_field_count AbiType.boolean = ok 1
  abi_field_count (AbiType.integer sign width) = ok 1
  abi_field_count (AbiType.array len type) = do
    n ← expect len
    each ← abi_field_count type
    ok (n * each)
  abi_field_count (AbiType.struct path fields) = fields_count fields
  abi_field_count AbiType.other = panic

  -- The sum over the fields of a struct.
  pub fields_count : {E : Type 0} → AbiFields → Result E ℕ
  fields_count AbiFields.end = ok 0
  fields_count (AbiFields.more type fields) = do
    n ← abi_field_count type
    rest ← fields_count fields
    ok (n + rest)

unfoldable pub public_input_count : {E : Type 0} → List Param → Result E ℕ
public_input_count [] = ok 0
public_input_count (p ∷ params) =
    if bytes_eq p.visibility (codes "public")
    then (do n ← abi_field_count p.type; rest ← public_input_count params; ok (n + rest))
    else public_input_count params

abbrev pub all_zero : List ℕ → Bool
all_zero [] = true
all_zero (b ∷ bytes) = (b == 0) && all_zero bytes

-- The closure `header`, on a key that is long enough.
unfoldable pub vk_header : {E : Type 0} → List ℕ → ℕ → Result E ℕ
vk_header vk i = do
  let word = take 32 (drop (i * 32) vk)
  assert (all_zero (take 28 word))
  ok (from_be_bytes (drop 28 word))

unfoldable pub proof_words : {E : Type 0} → List ℕ → ℕ → List ℕ → Result E ℕ
proof_words vk count proof_system = do
  assert (bytes_eq proof_system (codes "bb-keccak-v1"))
  assert (length vk == (3 + 28 * 2) * 32)
  log_n ← vk_header vk 0
  assert (leb 1 log_n && leb log_n 28)
  public ← vk_header vk 1
  assert (public == count + 8)
  ok (82 + 12 * log_n)

-- `COMBINED_LEN`
abbrev pub combined_len : ℕ → ℕ → ℕ
combined_len count proof_words = 4 + (count + proof_words) * 32
