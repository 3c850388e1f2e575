-- ===== src/Derive/Runs.antt =====
-- A group of three fields with positions, out of order.
use mathlib.Core.List.{Perm}
use outbe_circuits.Prelude.{ℕ, ◌≡◌, refl, ◌⊎◌, true, some, List, [], ◌∷◌, map, ok}
use outbe_circuits.Text.{codes}
use outbe_circuits.Codec.Sets.{insert_key, sort_by_key}
use outbe_circuits.Derive.{Member, Keyed, none_placed, without_pos, order_group}
use outbe_circuits.Derive.Ordering.{IsAscending, with_pos, order_group-cases}

abbrev fields : List (Member ℕ)
fields = (some 3, codes "amount", 7) ∷ (some 1, codes "asset", 8) ∷ (some 2, codes "nonce", 9) ∷ []

abbrev ordered : List (List ℕ × ℕ)
ordered = (codes "asset", 8) ∷ (codes "nonce", 9) ∷ (codes "amount", 7) ∷ []

is_ordered : order_group "body" fields ≡ ok ordered
unfolding order_group outbe_circuits.Derive.placed outbe_circuits.Derive.no_duplicate sort_by_key
    insert_key
is_ordered = refl

order_group-cases_example :
    ((none_placed fields ≡ true) × (ordered ≡ without_pos fields))
    ⊎ ((keyed : List (Keyed ℕ)) × (sorted : List (Keyed ℕ)) × (fields ≡ with_pos keyed)
        × Perm sorted keyed
        × IsAscending sorted
        × (ordered ≡ map (λ x. x.1) sorted))
order_group-cases_example = order_group-cases "body" fields ordered is_ordered
