-- ===== src/Registry/Search.antt =====
-- src/lib.rs: `l2_circuits`, and the search of the standard library that it calls.
pub mod Halving
use outbe_circuits.Prelude.{
  ℕ, zero, suc, ◌+◌, ◌-◌, ◌*◌, ◌/◌, ◌%◌, ◌^◌, ◌≤◌, ◌<◌, min, max, String, ◌≡◌, refl, sym, ap, ◌∙◌,
  ◌≢◌, ◌↔◌, ◌⊎◌, inl, inr, Bool, true, false, not, ◌&&◌, ◌||◌, Option, none, some, List, [], ◌∷◌,
  ◌++◌, map, arith, Result, ok, err, panic, ◌>>=◌, ◌>>◌, guard, map_err, ok_or, expect, index,
  assert, ltb, leb, ◌==◌, if◌then◌else◌, ltb→lt, lt→ltb, leb→le, le→leb, ==_iff, ==_refl,
  Bool-cases, Option-cases, length, get_elem?, get_or, set, take, drop, replicate, All,
  length-append, length-set, length-take, length-drop, length-replicate, take-append, drop-append,
  take-append-drop, get_elem?-some, get_elem?-none, bit_xor-one, bind_ok, ok_inj, err_ok,
  guard-eq-ok, ok_or-eq-ok, Result-cases,
}
use outbe_circuits.Error.{Error}
use outbe_circuits.Registry.Manifest.{L2CircuitVersion, L2ChainEntry}

-- The loop of `binary_search_by`: the part of `size` entries from `base` is halved.
unfoldable pub bisect : ℕ → List ℕ → ℕ → ℕ → ℕ → ℕ
bisect zero keys key base size = base
bisect (suc fuel) keys key base size =
    let mid : ℕ = base + size / 2 in
    let rest : ℕ =
      bisect fuel keys key (if ltb key (get_or keys mid 0) then base else mid) (size - size / 2) in
    if leb size 1 then base else rest

-- `binary_search_by_key`; each round takes one entry at least off the size.
unfoldable pub binary_search : List ℕ → ℕ → Option ℕ
binary_search keys key =
    let at : ℕ = bisect (length keys) keys key 0 (length keys) in
    if length keys == 0 then none else if get_or keys at 0 == key then some at else none

abbrev pub chain_ids : List L2ChainEntry → List ℕ
chain_ids [] = []
chain_ids (entry ∷ registry) = entry.chain_id ∷ chain_ids registry

abbrev pub circuits_at : List L2ChainEntry → Option ℕ → Result Error (List L2CircuitVersion)
circuits_at registry none = ok []
circuits_at registry (some i) = do entry ← index registry i; ok entry.circuits

unfoldable pub l2_circuits : List L2ChainEntry → ℕ → Result Error (List L2CircuitVersion)
l2_circuits registry chain_id = circuits_at registry (binary_search (chain_ids registry) chain_id)
