-- ===== src/Registry/Chains/Bound.antt =====
-- The lookup by chain on the registry that the build script generates.
use outbe_circuits.Prelude.{
  ℕ, ◌<◌, ◌≡◌, refl, sym, ap, ◌∙◌, inl, inr, Bool, true, false, not, Option, none, some, List, [],
  ◌∷◌, arith, ok, expect, assert, ltb, ◌==◌, if◌then◌else◌, ltb→lt, ==_iff, Bool-cases, All,
  bind_ok, ok_inj, expect-eq-ok, assert-eq-ok,
}
use outbe_circuits.Registry.Manifest.{Loaded}
use outbe_circuits.Registry.Load.{is_some}
use outbe_circuits.Registry.Ordered.{lookup, insert, lookup-insert}
use outbe_circuits.Registry.Search.Halving.{IsAscending}
use outbe_circuits.Registry.Chains.{ChainTable, id_of, version_loop, chain_loop}

abbrev pub Versions : Type 0
Versions = List (List ℕ × Loaded)

abbrev pub Bindings : Type 0
Bindings = List (ℕ × Versions)

unfoldable pub keys : Bindings → List ℕ
keys [] = []
keys ((k, v) ∷ m) = k ∷ keys m

insert-All :
    (P : ℕ → Type 0) (k : ℕ) (v : Versions) (m : Bindings)
    → P k
    → All P (keys m)
    → All P (keys (insert ◌==◌ ltb k v m))
unfolding insert keys
insert-All P k v [] p all = (p, tt)
insert-All P k v ((j, w) ∷ m) p (q, all) = elim (Bool-cases (k == j)) [
  | inl e ↦ rw e (p, all)
  | inr e ↦ elim (Bool-cases (ltb k j)) [
    | inl lt ↦ rw (e, lt) (p, (q, all))
    | inr lt ↦ rw (e, lt) (q, insert-All P k v m p all)
  ]
]

All-weaken : (a b : ℕ) (keys : List ℕ) → a < b → All (λ k. b < k) keys → All (λ k. a < k) keys
All-weaken a b [] h all = tt
All-weaken a b (k ∷ keys) h (p, all) = (omega arith, All-weaken a b keys h all)

insert-IsAscending :
    (k : ℕ) (v : Versions) (m : Bindings)
    → IsAscending (keys m)
    → IsAscending (keys (insert ◌==◌ ltb k v m))
unfolding insert keys
insert-IsAscending k v [] asc = (tt, tt)
insert-IsAscending k v ((j, w) ∷ m) (above, asc) = elim (Bool-cases (k == j)) [
  | inl e ↦ let same : j ≡ k = ground arith in rw e (rw (← same) (above, asc))
  | inr e ↦ elim (Bool-cases (ltb k j)) [
    | inl lt ↦
        rw (e, lt) ((ltb→lt k j lt, All-weaken k j (keys m) (ltb→lt k j lt) above), (above, asc))
    | inr lt ↦
        let more : j < k = ground arith in
        rw (e, lt) (insert-All (λ x. j < x) k v m more above, insert-IsAscending k v m asc)
  ]
]

-- The first table of a chain.
is_id : ℕ → Option ℕ → Bool
is_id id none = false
is_id id (some k) = id == k

unfoldable pub chain_with : ℕ → List ChainTable → Option ChainTable
unfolding is_id
chain_with id [] = none
chain_with id (chain ∷ chains) =
    if is_id id (id_of chain.chain_id) then some chain else chain_with id chains

-- What a chain is bound to, by the table that declares it.
abbrev pub BoundBy : List Loaded → ℕ → Bindings → Bindings → Option ChainTable → Type 0
BoundBy loaded id before after none = lookup ◌==◌ id after ≡ lookup ◌==◌ id before
BoundBy loaded id before after (some chain) =
    (lookup ◌==◌ id before ≡ none)
    × ((circuits : List (Option (List ℕ) × Option (List ℕ))) × (versions : Versions)
        × (chain.circuits ≡ some circuits)
        × (version_loop loaded [] circuits ≡ ok versions)
        × (lookup ◌==◌ id after ≡ some versions))

-- One table more at the front.
bound_more :
    (loaded : List Loaded) (id k : ℕ) (circuits : List (Option (List ℕ) × Option (List ℕ)))
    (versions : Versions) (acc after : Bindings) (chain : ChainTable) (rest : Option ChainTable)
    → chain.circuits ≡ some circuits
    → version_loop loaded [] circuits ≡ ok versions
    → lookup ◌==◌ k acc ≡ none
    → BoundBy loaded id (insert ◌==◌ ltb k versions acc) after rest
    → BoundBy loaded id acc after (if id == k then some chain else rest)
bound_more loaded id k circuits versions acc after chain rest found run fresh b =
    elim (Bool-cases (id == k)) [ inl q ↦ rw q (first rest b q) | inr q ↦ rw q (later rest b q) ]
  where
    inserted :
        lookup ◌==◌ id (insert ◌==◌ ltb k versions acc)
        ≡ (if id == k then some versions else lookup ◌==◌ id acc)
    inserted = lookup-insert ◌==◌ ltb ==_iff k id versions acc

    first :
        (rest : Option ChainTable)
        → BoundBy loaded id (insert ◌==◌ ltb k versions acc) after rest
        → (id == k) ≡ true
        → BoundBy loaded id acc after (some chain)
    first none b q =
        let same : id ≡ k = (==_iff id k).0 q in
        (rw same fresh, (circuits, versions, found, run, b ∙ inserted ∙ rw q refl))
    first (some c) b q = let bad : some versions ≡ none = sym (inserted ∙ rw q refl) ∙ b.0 in cc

    later :
        (rest : Option ChainTable)
        → BoundBy loaded id (insert ◌==◌ ltb k versions acc) after rest
        → (id == k) ≡ false
        → BoundBy loaded id acc after rest
    later none b q = b ∙ inserted ∙ rw q refl
    later (some c) (absent, b) q = (sym (inserted ∙ rw q refl) ∙ absent, b)

is_some-false : {A : Type 0} (o : Option A) → not (is_some o) ≡ true → o ≡ none
is_some-false none h = refl
is_some-false (some a) h = cc

pub chain_loop-BoundBy :
    (loaded : List Loaded) (chains : List ChainTable) (acc after : Bindings) (id : ℕ)
    → chain_loop loaded acc chains ≡ ok after
    → BoundBy loaded id acc after (chain_with id chains)
unfolding chain_loop chain_with
chain_loop-BoundBy loaded [] acc after id h = ap (λ m. lookup ◌==◌ id m) (sym (ok_inj h))
chain_loop-BoundBy loaded (chain ∷ chains) acc after id h =
    bind_ok (expect (id_of chain.chain_id)) h λ k e1 h1.
      bind_ok (expect chain.circuits) h1 λ circuits e2 h2.
        bind_ok (version_loop loaded [] circuits) h2 λ versions e3 h3.
          bind_ok (assert (not (is_some (lookup ◌==◌ k acc)))) h3 λ u e4 h4.
            let known : id_of chain.chain_id ≡ some k = expect-eq-ok (id_of chain.chain_id) e1 in
            rw known (
              bound_more loaded id k circuits versions acc after chain (chain_with id chains)
                (expect-eq-ok chain.circuits e2) e3
                (is_some-false (lookup ◌==◌ k acc)
                  (assert-eq-ok (not (is_some (lookup ◌==◌ k acc))) e4))
                (chain_loop-BoundBy loaded chains (insert ◌==◌ ltb k versions acc) after id h4))

pub chain_loop-IsAscending :
    (loaded : List Loaded) (chains : List ChainTable) (acc after : Bindings)
    → IsAscending (keys acc)
    → chain_loop loaded acc chains ≡ ok after
    → IsAscending (keys after)
unfolding chain_loop
chain_loop-IsAscending loaded [] acc after asc h = rw (← ok_inj h) asc
chain_loop-IsAscending loaded (chain ∷ chains) acc after asc h =
    bind_ok (expect (id_of chain.chain_id)) h λ k e1 h1.
      bind_ok (expect chain.circuits) h1 λ circuits e2 h2.
        bind_ok (version_loop loaded [] circuits) h2 λ versions e3 h3.
          bind_ok (assert (not (is_some (lookup ◌==◌ k acc)))) h3 λ u e4 h4.
            chain_loop-IsAscending loaded chains (insert ◌==◌ ltb k versions acc) after
              (insert-IsAscending k versions acc asc) h4
