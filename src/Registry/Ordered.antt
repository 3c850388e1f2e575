-- ===== src/Registry/Ordered.antt =====
-- `BTreeMap` as a list of entries in the order of the keys.
use outbe_circuits.Prelude.{
  suc, ◌≡◌, refl, ◌↔◌, Bool, true, Option, none, some, List, [], ◌∷◌, arith, if◌then◌else◌, length,
}

module _ {ℓ} {K : Type 0} {V : Type ℓ} where
  unfoldable pub lookup : (K → K → Bool) → K → List (K × V) → Option V
  lookup eq k [] = none
  lookup eq k ((j, v) ∷ m) = if eq k j then some v else lookup eq k m

  unfoldable pub insert : (K → K → Bool) → (K → K → Bool) → K → V → List (K × V) → List (K × V)
  insert eq lt k v [] = (k, v) ∷ []
  insert eq lt k v ((j, w) ∷ m) =
      if eq k j
      then (k, v) ∷ m
      else if lt k j
      then (k, v) ∷ (j, w) ∷ m
      else (j, w) ∷ insert eq lt k v m

  -- What an insertion changes: the value at its key.
  pub lookup-insert :
      (eq lt : K → K → Bool)
      → ((a b : K) → (eq a b ≡ true) ↔ (a ≡ b))
      → (k j : K) (v : V) (m : List (K × V))
      → lookup eq j (insert eq lt k v m) ≡ (if eq j k then some v else lookup eq j m)
  unfolding lookup insert
  lookup-insert eq lt eq_iff k j v [] = refl
  lookup-insert eq lt eq_iff k j v ((i, w) ∷ m) =
      ground
        (arith, eq_iff k j, eq_iff j k, eq_iff k i, eq_iff j i, lookup-insert eq lt eq_iff k j v m)

  -- A new key takes one more place.
  pub length-insert :
      (eq lt : K → K → Bool) (k : K) (v : V) (m : List (K × V))
      → lookup eq k m ≡ none
      → length (insert eq lt k v m) ≡ suc (length m)
  unfolding lookup insert
  length-insert eq lt k v [] h = refl
  length-insert eq lt k v ((j, w) ∷ m) h = ground (arith, length-insert eq lt k v m)
