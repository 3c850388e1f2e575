-- ===== src/Imt/NewLaws.antt =====
-- `Imt::new` and `Imt::empty_roots`: the tree of no leaves.
use outbe_circuits.Prelude.{
  ℕ, zero, suc, ◌+◌, ◌-◌, ◌≤◌, ◌≡◌, refl, ap, ◌⊎◌, inl, inr, [], ◌∷◌, ◌++◌, ok, err, replicate,
  arith, le→leb, leb, Bool-cases, ◌&&◌,
}
use outbe_circuits.Field.{PoseidonHasher}
use outbe_circuits.Imt.Node.{validate_depth, depth_range, empty_roots_loop, empty_roots}
use outbe_circuits.Imt.Tree.{Imt, new}
use outbe_circuits.Imt.Spec.{empty_at, empties}
use outbe_circuits.Imt.Levels.{get_elem?-empties, tree_levels_empty}
use outbe_circuits.Imt.Append.{IsTree, Hashes}

module _ {Fr : Type 0} ⦃P : PoseidonHasher Fr⦄ (H : Fr → Fr → Fr) (e domain : Fr) where
  empties_snoc :
      (rounds h j : ℕ)
      → h + rounds ≡ j
      → empties H e rounds h ++ empty_at H e (suc j) ∷ [] ≡ empties H e (suc rounds) h
  unfolding empties
  empties_snoc zero h j q = ap (λ k. empty_at H e h ∷ empty_at H e (suc k) ∷ []) (omega arith)
  empties_snoc (suc rounds) h j q =
      ap (λ t. empty_at H e h ∷ t) (empties_snoc rounds (suc h) j (omega arith))

  empty_roots_loop_lem :
      Hashes domain H
      → (rounds l d : ℕ) → rounds + l ≡ d
      → empty_roots_loop domain rounds (suc l) (empties H e l 0) ≡ ok (empties H e d 0)
  unfolding empty_roots_loop
  empty_roots_loop_lem hashes zero l d q = ap (λ k. ok (empties H e k 0)) (omega arith)
  empty_roots_loop_lem hashes (suc rounds) l d q =
      rw
        (
          below,
          get_elem?-empties H e l l (omega arith),
          hashes (empty_at H e l) (empty_at H e l),
          empties_snoc l 0 l (omega arith),
        )
        (empty_roots_loop_lem hashes rounds (suc l) d (omega arith))
    where
      below : suc l - 1 ≡ l
      below = omega arith

  pub empty_roots_lem :
      Hashes domain H → (d : ℕ) → 1 ≤ d → d ≤ 63 → empty_roots domain e d ≡ ok (empties H e d 0)
  unfolding empty_roots validate_depth empties
  empty_roots_lem hashes d lo hi =
      rw (le→leb 1 d lo, le→leb d 63 hi) (empty_roots_loop_lem hashes d 0 d (omega arith))

-- A new tree stands for no leaves; the depth is outside 1..=63 exactly where `new` refuses it.
pub new-IsTree :
    {Fr : Type 0} ⦃P : PoseidonHasher Fr⦄ (H : Fr → Fr → Fr) (e domain : Fr) (d : ℕ)
    → Hashes domain H
    → ((1 ≤ d)
        × (d ≤ 63)
        × ((t : Imt Fr) × (new domain e d ≡ ok t)
            × IsTree H e t []
            × (t.domain ≡ domain)
            × (t.depth ≡ d)))
      ⊎ (((d ≡ 0) ⊎ (64 ≤ d)) × (new domain e d ≡ err (depth_range d)))
new-IsTree H e domain d hashes = elim (Bool-cases (leb 1 d && leb d 63)) [
  | inl inside ↦ inl (
    ground arith,
    ground arith,
    (
      record {
        domain = domain;
        depth = d;
        empty_roots = empties H e d 0;
        levels = replicate (d + 1) [];
      },
      unfold new in rw (empty_roots_lem H e domain hashes d (ground arith) (ground arith)),
      record {
        depth_pos = ground arith;
        depth_max = ground arith;
        stored_empties = refl;
        stored_levels =
            rw (tree_levels_empty H e d 0)
              (let q : d + 1 ≡ suc d = omega arith in ap (λ k. replicate k []) q);
        fits = omega arith;
      },
      refl,
      refl,
    ),
  )
  | inr outside ↦ inr (ground arith, unfold new empty_roots validate_depth in rw outside)
]
