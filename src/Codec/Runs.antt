-- ===== src/Codec/Runs.antt =====
-- codec.rs on concrete values.
use outbe_circuits.Prelude.{
  ℕ, ◌≡◌, refl, ◌∙◌, ◌↔◌, none, List, [], ◌∷◌, ◌++◌, map, arith, ok, err, ◌>>=◌, ltb, if◌then◌else◌,
  length,
}
use mathlib.Core.List.{Memᴰ}
use outbe_circuits.Error.{Error}
use outbe_circuits.FieldRuns.{Residue, bn254, bn254-IsLawful}
use outbe_circuits.Bytes.{
  from_be_bytes, to_be_bytes, from_be_bytes-to_be_bytes, to_be_bytes-IsBytes,
}
use outbe_circuits.Codec.Bytes.{field_from_be_bytes_canonical}
use outbe_circuits.Codec.Canonical.{field_from_be_bytes_canonical_iff}
use outbe_circuits.Codec.Scalars.{scalar_to_field, bytes32_to_field}
use outbe_circuits.Codec.Sets.{unsorted, set_loop, encode_set, sort_set}
use outbe_circuits.Codec.SetLaws.{fields_of, Ascending}
use outbe_circuits.Codec.SortLaws.{encode_set-sort_set}

abbrev word : List ℕ
word = to_be_bytes 32 1000000

field_from_be_bytes_canonical_iff_example : field_from_be_bytes_canonical word "id" ≡ (
    if ltb (from_be_bytes word) bn254.modulus
    then ok (bn254.from (from_be_bytes word))
    else err (Error.non_canonical "id"))
field_from_be_bytes_canonical_iff_example =
    field_from_be_bytes_canonical_iff word "id" bn254-IsLawful (to_be_bytes-IsBytes 32 1000000)

word_accepted : bytes32_to_field word ≡ ok (bn254.from 1000000)
unfolding bytes32_to_field bn254
word_accepted =
    field_from_be_bytes_canonical_iff word "bytes32" bn254-IsLawful (to_be_bytes-IsBytes 32 1000000)
    ∙ rw (from_be_bytes-to_be_bytes 32 1000000 (omega arith)) refl

abbrev element : ℕ → Residue
element n = bn254.from n

same_set :
    (f : Residue)
    → Memᴰ f (element 3 ∷ element 5 ∷ element 3 ∷ []) ↔ Memᴰ f (element 5 ∷ element 3 ∷ [])
same_set f = (one, two)
  where
    one : Memᴰ f (element 3 ∷ element 5 ∷ element 3 ∷ []) → Memᴰ f (element 5 ∷ element 3 ∷ [])
    one (Memᴰ.head e) = Memᴰ.tail (Memᴰ.head e)
    one (Memᴰ.tail (Memᴰ.head e)) = Memᴰ.head e
    one (Memᴰ.tail (Memᴰ.tail (Memᴰ.head e))) = Memᴰ.tail (Memᴰ.head e)
    one (Memᴰ.tail (Memᴰ.tail (Memᴰ.tail mem))) = elim mem [ ]

    two : Memᴰ f (element 5 ∷ element 3 ∷ []) → Memᴰ f (element 3 ∷ element 5 ∷ element 3 ∷ [])
    two (Memᴰ.head e) = Memᴰ.tail (Memᴰ.head e)
    two (Memᴰ.tail (Memᴰ.head e)) = Memᴰ.head e
    two (Memᴰ.tail (Memᴰ.tail mem)) = elim mem [ ]

fields_3_5_3 :
    fields_of (scalar_to_field {Fr = Residue}) (3 ∷ 5 ∷ 3 ∷ [])
    ≡ ok (element 3 ∷ element 5 ∷ element 3 ∷ [])
unfolding fields_of scalar_to_field
fields_3_5_3 = refl

fields_5_3 :
    fields_of (scalar_to_field {Fr = Residue}) (5 ∷ 3 ∷ []) ≡ ok (element 5 ∷ element 3 ∷ [])
unfolding fields_of scalar_to_field
fields_5_3 = refl

encode_set-sort_set_example :
    (gs : List Residue) × Ascending none (map bn254.into_bigint gs)
    × ((f : Residue) → Memᴰ f gs ↔ Memᴰ f (element 3 ∷ element 5 ∷ element 3 ∷ []))
    × (sort_set (scalar_to_field {Fr = Residue}) (3 ∷ 5 ∷ 3 ∷ [])
          >>= (λ set. encode_set (scalar_to_field {Fr = Residue}) set [])
        ≡ ok ([] ++ bn254.from (length gs) ∷ gs))
    × (sort_set (scalar_to_field {Fr = Residue}) (5 ∷ 3 ∷ [])
          >>= (λ set. encode_set (scalar_to_field {Fr = Residue}) set [])
        ≡ ok ([] ++ bn254.from (length gs) ∷ gs))
encode_set-sort_set_example =
    encode_set-sort_set (scalar_to_field {Fr = Residue}) (3 ∷ 5 ∷ 3 ∷ []) (5 ∷ 3 ∷ [])
      (element 3 ∷ element 5 ∷ element 3 ∷ []) (element 5 ∷ element 3 ∷ []) [] bn254-IsLawful
      fields_3_5_3 fields_5_3 same_set

-- The encoder refuses what the sorting has not put in order.
unsorted_refused : encode_set (scalar_to_field {Fr = Residue}) (5 ∷ 3 ∷ []) [] ≡ err unsorted
unfolding encode_set set_loop scalar_to_field bn254
unsorted_refused = refl
