-- ===== src/Registry/Enabled.antt =====
-- What `l2_circuits` answers on the generated registry.
use mathlib.Core.Path.{subst}
use outbe_circuits.Prelude.{
  ℕ, suc, ◌<◌, ◌≡◌, refl, sym, ap, ◌≢◌, inl, inr, Option, none, some, List, [], ◌∷◌, map, arith, ok,
  ◌==◌, ==_iff, Bool-cases, length, get_elem?, get_or, All, bind_ok, ok_inj, some_inj,
}
use outbe_circuits.Registry.Manifest.{Loaded, L2ChainEntry}
use outbe_circuits.Registry.Ordered.{lookup}
use outbe_circuits.Registry.Search.{l2_circuits, binary_search, chain_ids}
use outbe_circuits.Registry.Search.Halving.{IsAscending, binary_search-at, binary_search-absent}
use outbe_circuits.Registry.Chains.{
  ChainTable, version_loop, chain_loop, l2_version, l2_entry, l2_registry,
}
use outbe_circuits.Registry.Chains.Bound.{
  Versions, Bindings, keys, chain_with, BoundBy, chain_loop-BoundBy, chain_loop-IsAscending,
}

chain_ids-map : (m : Bindings) → chain_ids (map l2_entry m) ≡ keys m
unfolding l2_entry keys
chain_ids-map [] = refl
chain_ids-map ((k, v) ∷ m) = ap (λ ks. k ∷ ks) (chain_ids-map m)

-- Where a key stands.
position :
    (id : ℕ) (m : Bindings) (versions : Versions)
    → lookup ◌==◌ id m ≡ some versions
    → (j : ℕ) × (j < length (keys m))
      × (get_or (keys m) j 0 ≡ id)
      × (get_elem? (map l2_entry m) j ≡ some (l2_entry (id, versions)))
unfolding lookup keys
position id [] versions e = cc
position id ((k, v) ∷ m) versions e = elim (Bool-cases (id == k)) [
  | inl q ↦
      let same : id ≡ k = (==_iff id k).0 q in
      let value : v ≡ versions = some_inj (rw q at e) in
      (0, omega arith, sym same, rw (same, value) refl)
  | inr q ↦
      let (j, h, key, entry) = position id m versions (rw q at e) in
      (suc j, omega (arith, h), key, entry)
]

absent : (id : ℕ) (m : Bindings) → lookup ◌==◌ id m ≡ none → All (λ k. k ≢ id) (keys m)
unfolding lookup keys
absent id [] e = tt
absent id ((k, v) ∷ m) e = elim (Bool-cases (id == k)) [
  | inl q ↦ let bad : some v ≡ none = rw q at e in cc
  | inr q ↦ (λ same. ground arith, absent id m (rw q at e))
]

-- The circuits of a chain are those of its first table, in the order of their versions, and there are none
-- where no table declares the chain.
abbrev pub IsEnabled : List Loaded → List L2ChainEntry → ℕ → Option ChainTable → Type 0
IsEnabled loaded registry id none = l2_circuits registry id ≡ ok []
IsEnabled loaded registry id (some chain) =
    (circuits : List (Option (List ℕ) × Option (List ℕ))) × (versions : Versions) × (chain.circuits
      ≡ some circuits)
    × (version_loop loaded [] circuits ≡ ok versions)
    × (l2_circuits registry id ≡ ok (map l2_version versions))

found :
    (loaded : List Loaded) (id : ℕ) (after : Bindings) (table : Option ChainTable)
    → IsAscending (keys after)
    → BoundBy loaded id [] after table
    → IsEnabled loaded (map l2_entry after) id table
unfolding l2_circuits l2_entry lookup
found loaded id after none asc b =
    rw (chain_ids-map after, binary_search-absent (keys after) id (absent id after b)) refl
found loaded id after (some chain) asc (fresh, (circuits, versions, e, run, b)) =
    let (j, h, key, entry) = position id after versions b in
    (
      circuits,
      versions,
      e,
      run,
      rw
          (
            chain_ids-map after,
            subst (λ k. binary_search (keys after) k ≡ some j) key
                (binary_search-at (keys after) j asc h),
            entry,
          )
          refl,
    )

no_keys : IsAscending (keys [])
unfolding keys
no_keys = tt

-- Where the registry can be generated, the lookup answers for every number of a chain what its table in the
-- manifest enables, and an empty list where it has none; it never indexes out of range.
pub l2_circuits-l2_registry :
    (loaded : List Loaded) (chains : List ChainTable) (registry : List L2ChainEntry) (id : ℕ)
    → l2_registry loaded chains ≡ ok registry
    → IsEnabled loaded registry id (chain_with id chains)
unfolding l2_registry
l2_circuits-l2_registry loaded chains registry id h =
    bind_ok (chain_loop loaded [] chains) h λ after run e. rw (← ok_inj e) (
      found loaded id after (chain_with id chains)
        (chain_loop-IsAscending loaded chains [] after no_keys run)
        (chain_loop-BoundBy loaded chains [] after id run))
