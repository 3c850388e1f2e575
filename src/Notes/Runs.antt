-- ===== src/Notes/Runs.antt =====
-- The note formulas under a toy hash on residues.
use outbe_circuits.Prelude.{ℕ, ◌+◌, ◌*◌, ◌^◌, ◌≡◌, refl, ◌⊎◌, List, [], ◌∷◌, arith, ok}
use outbe_circuits.Field.{PoseidonHasher}
use outbe_circuits.FieldRuns.{Residue, bn254, bn254-IsLawful}
use outbe_circuits.Bytes.{to_be_bytes, length-to_be_bytes, to_be_bytes-IsBytes}
use outbe_circuits.Hash.{poseidon2}
use outbe_circuits.Notes.NoteLaws.{HashesPairs, Clash, hashed, hash_multi-cases}
use outbe_circuits.Notes.Binding.{pairs_of, note_commitment-cases}

unfoldable pub toy_sum : List Residue → ℕ
toy_sum [] = 1
toy_sum (x ∷ xs) = x.0 + 3 * toy_sum xs

instance unfoldable pub toy : PoseidonHasher Residue
unfolding bn254
toy = record { hash = λ xs. ok (bn254.from (toy_sum xs)) }

abbrev toy_pair : Residue → Residue → Residue
toy_pair a b = bn254.from (toy_sum (a ∷ b ∷ []))

toy-HashesPairs : HashesPairs toy_pair
unfolding poseidon2 toy
toy-HashesPairs a b = refl

abbrev r : ℕ → Residue
r n = bn254.from n

hash_multi-cases_example :
    ((r 1 ≡ r 1) × (r 2 ∷ r 3 ∷ [] ≡ r 2 ∷ r 3 ∷ []))
    ⊎ Clash toy_pair
        (hashed toy_pair (r 1) (r 2 ∷ r 3 ∷ []))
        (hashed toy_pair (r 1) (r 2 ∷ r 3 ∷ []))
hash_multi-cases_example =
    hash_multi-cases toy_pair (r 1) (r 1) (r 2 ∷ r 3 ∷ []) (r 2 ∷ r 3 ∷ []) bn254-IsLawful
      toy-HashesPairs refl refl

abbrev asset : List ℕ
asset = to_be_bytes 20 12

note_commitment-cases_example :
    ((◌≡◌ {A = ℕ} 31337 31337) × (r 9 ≡ r 9) × (asset ≡ asset) × (◌≡◌ {A = ℕ} (2 ^ 130) (2 ^ 130)))
    ⊎ Clash toy_pair
        (pairs_of toy_pair 31337 (r 9) asset (2 ^ 130))
        (pairs_of toy_pair 31337 (r 9) asset (2 ^ 130))
note_commitment-cases_example =
    note_commitment-cases toy_pair 31337 31337 (r 9) (r 9) asset asset (2 ^ 130) (2 ^ 130)
      bn254-IsLawful toy-HashesPairs (omega arith) (omega arith) (to_be_bytes-IsBytes 20 12)
      (to_be_bytes-IsBytes 20 12) (length-to_be_bytes 20 12) (length-to_be_bytes 20 12)
      (omega arith) (omega arith) refl
