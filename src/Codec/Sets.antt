-- ===== src/Codec/Sets.antt =====
-- codec.rs: the canonical sets of field elements.
use outbe_circuits.Prelude.{
  ℕ, Bool, true, not, Option, none, some, List, [], ◌∷◌, ◌++◌, map, Result, ok, ◌>>=◌, ◌>>◌, guard,
  leb, ◌==◌, if◌then◌else◌, length,
}
use outbe_circuits.Error.{Error}
use outbe_circuits.Field.{PrimeField}

abbrev pub unsorted : Error
unsorted =
    Error.unsorted_set
      "entity vector field must be strictly ascending by field value (sorted + de-duplicated)"

-- `if let Some(p) = prev { if cur <= p { .. } }`
abbrev pub ascends : Option ℕ → ℕ → Bool
ascends none cur = true
ascends (some p) cur = not (leb cur p)

-- `sort_unstable_by_key(|(k, _)| *k)`, by insertion.
unfoldable pub insert_key : {T : Type 0} → ℕ × T → List (ℕ × T) → List (ℕ × T)
insert_key x [] = x ∷ []
insert_key x (y ∷ ys) = if leb x.0 y.0 then x ∷ y ∷ ys else y ∷ insert_key x ys

unfoldable pub sort_by_key : {T : Type 0} → List (ℕ × T) → List (ℕ × T)
sort_by_key [] = []
sort_by_key (x ∷ xs) = insert_key x (sort_by_key xs)

-- `dedup_by(|a, b| a.0 == b.0)` after an entry that is kept.
unfoldable pub dedup_after : {T : Type 0} → ℕ → List (ℕ × T) → List (ℕ × T)
dedup_after k [] = []
dedup_after k (x ∷ xs) = if x.0 == k then dedup_after k xs else x ∷ dedup_after x.0 xs

unfoldable pub dedup : {T : Type 0} → List (ℕ × T) → List (ℕ × T)
dedup [] = []
dedup (x ∷ xs) = x ∷ dedup_after x.0 xs

module _ {Fr : Type 0} {T : Type 0} ⦃F : PrimeField Fr⦄ (to_field : T → Result Error Fr) where
  unfoldable pub set_loop : List T → Option ℕ → List Fr → Result Error (List Fr)
  set_loop [] prev out = ok out
  set_loop (item ∷ items) prev out = do
    f ← to_field item
    let cur = F.into_bigint f
    guard (ascends prev cur) unsorted
    set_loop items (some cur) (out ++ f ∷ [])

  -- `impl FieldEncode for SortedSet`
  unfoldable pub encode_set : List T → List Fr → Result Error (List Fr)
  encode_set items out = set_loop items none (out ++ F.from (length items) ∷ [])

  -- `items.iter().map(..).collect::<Result<_, Error>>()?`
  unfoldable pub keys : List T → Result Error (List (ℕ × T))
  keys [] = ok []
  keys (t ∷ items) = do f ← to_field t; rest ← keys items; ok ((F.into_bigint f, t) ∷ rest)

  unfoldable pub sort_set : List T → Result Error (List T)
  sort_set items = do keyed ← keys items; ok (map (λ x. x.1) (dedup (sort_by_key keyed)))
