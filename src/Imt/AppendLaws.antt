-- ===== src/Imt/AppendLaws.antt =====
-- `Imt::new`, `Imt::append` and `Imt::root` against the tree of a list of leaves.
use outbe_circuits.Prelude.{
  ℕ, zero, suc, ◌+◌, ◌-◌, ◌^◌, ◌≤◌, ◌<◌, ◌≡◌, refl, sym, ap, ◌∙◌, false, List, [], ◌∷◌, ◌++◌, some,
  ok, err, get_elem?, get_or, length, arith, lt→ltb, ◌==◌, if◌then◌else◌, length-append,
  get_elem?-some, ◌≢◌,
}
use outbe_circuits.Field.{PoseidonHasher}
use outbe_circuits.Imt.Node.{is_left}
use outbe_circuits.Imt.Frontier.{Append}
use outbe_circuits.Imt.Tree.{
  Imt, root, unwrap_or, frontier_change, append_plan, append, tree_full, trailing_ones,
}
use outbe_circuits.Imt.Spec.{empty_at, level_at, tree_root, tree_levels, shift, put}
use outbe_circuits.Imt.Levels.{above, nodes_above, level_bounds, tree_root-put, put-length}
use outbe_circuits.Imt.Append.{
  IsTree, Hashes, stored_level, stored_empty, next_index_lem, ancestors_lem, store_lem,
}
use outbe_circuits.Imt.Trailing.{trailing_ones-le, trailing_ones-odd}

-- The change that appending `c` to `xs` makes to a frontier of depth `d`.
module _ {Fr : Type 0} (H : Fr → Fr → Fr) (e : Fr) (xs : List Fr) (c : Fr) where
  unfoldable pub tree_change : ℕ → Append Fr
  tree_change d =
      if trailing_ones (length xs) == d
      then record {
        changed_level = d - 1;
        new_subtree = get_or (level_at H e xs (d - 1)) 0 (empty_at H e (d - 1));
        new_root = above H e xs (length xs) c d;
      }
      else record {
        changed_level = trailing_ones (length xs);
        new_subtree = above H e xs (length xs) c (trailing_ones (length xs));
        new_root = above H e xs (length xs) c d;
      }

  nodes_from :
      (rounds h i j : ℕ)
      → i ≤ rounds
      → h + i ≡ j
      → get_elem? (above H e xs (length xs) c h ∷ nodes_above H e xs (length xs) c rounds h) i
        ≡ some (above H e xs (length xs) c j)
  unfolding nodes_above
  nodes_from rounds h zero j le q = ap (λ k. some (above H e xs (length xs) c k)) (omega arith)
  nodes_from zero h (suc i) j le q = absurd (omega arith)
  nodes_from (suc rounds) h (suc i) j le q =
      nodes_from rounds (suc h) i j (omega arith) (omega arith)

module _ {Fr : Type 0} ⦃P : PoseidonHasher Fr⦄ (H : Fr → Fr → Fr) (e : Fr) (t : Imt Fr)
    (xs : List Fr) (w : IsTree H e t xs) where
  pub top_filled :
      length xs < 2 ^ t.depth
      → trailing_ones (length xs) ≡ t.depth
      → 0 < length (level_at H e xs (t.depth - 1))
  top_filled room q = omega (
    arith,
    (level_bounds H e xs (length xs) (omega arith) (omega arith) (t.depth - 1)).0,
    odd_pos (shift (length xs) (t.depth - 1))
        (trailing_ones-odd (length xs) (t.depth - 1) (omega (arith, w.depth_pos))),
  )
    where
      odd_pos : (n : ℕ) → is_left n ≡ false → 0 < n
      odd_pos n h = unfold is_left in ground arith

  frontier_change_lem :
      (c : Fr)
      → length xs < 2 ^ t.depth
      → frontier_change t
          (length xs)
          (above H e xs (length xs) c t.depth)
          (above H e xs (length xs) c 0 ∷ nodes_above H e xs (length xs) c t.depth 0)
        ≡ ok (tree_change H e xs c t.depth)
  unfolding frontier_change tree_change
  frontier_change_lem c room = ground (
    arith,
    stored_level H e t xs w (t.depth - 1) (omega (arith, w.depth_pos)),
    top_stored,
    nodes_from H e xs c t.depth 0 (trailing_ones (length xs)) (trailing_ones (length xs))
        (trailing_ones-le (length xs) t.depth room) (omega arith),
  )
    where
      top_stored :
          trailing_ones (length xs) ≡ t.depth
          → get_elem? (level_at H e xs (t.depth - 1)) 0
            ≡ some (get_or (level_at H e xs (t.depth - 1)) 0 (empty_at H e (t.depth - 1)))
      top_stored q = get_elem?-some _ 0 _ (top_filled room q)

  pub append_plan_lem :
      Hashes t.domain H
      → (c : Fr) → length xs < 2 ^ t.depth
      → append_plan t c
        ≡ ok (
          length xs,
          c ∷ nodes_above H e xs (length xs) c t.depth 0,
          tree_change H e xs c t.depth,
        )
  unfolding append_plan shift above
  append_plan_lem hashes c room = rw (
    next_index_lem H e t xs w,
    lt→ltb _ _ room,
    ancestors_lem H e t xs w hashes c t.depth 0 (c ∷ []) (omega arith),
    frontier_change_lem c room,
  )

  unfoldable pub grown : (c : Fr) → Imt Fr
  grown c = record t { levels = tree_levels H e t.depth 0 (put xs (length xs) c) }

  -- Appending to a tree with room writes the tree of the longer list.
  pub append_lem :
      Hashes t.domain H
      → (c : Fr) → length xs < 2 ^ t.depth
      → append t c ≡ (grown c, ok (length xs, tree_change H e xs c t.depth))
  unfolding append grown shift above level_at
  append_lem hashes c room =
      rw (append_plan_lem hashes c room, append)
        (rw (w.stored_levels, store_lem H e xs c t.depth 0))

  pub grown-IsTree : (c : Fr) → length xs < 2 ^ t.depth → IsTree H e (grown c) (xs ++ c ∷ [])
  unfolding grown
  grown-IsTree c room = record {
    depth_pos = w.depth_pos;
    depth_max = w.depth_max;
    stored_empties = w.stored_empties;
    stored_levels = ap (λ ys. tree_levels H e t.depth 0 ys) (put-length xs c);
    fits = omega (arith, length-append xs (c ∷ []));
  }

  pub root_lem : root t ≡ ok (tree_root H e t.depth xs)
  unfolding root tree_root
  root_lem =
      rw
        (
          stored_level H e t xs w t.depth (omega arith),
          stored_empty H e t xs w t.depth (omega arith),
        )
        (ap ok (first_or (level_at H e xs t.depth) (empty_at H e t.depth)))
    where
      first_or : (ys : List Fr) (d : Fr) → unwrap_or d (get_elem? ys 0) ≡ get_or ys 0 d
      first_or [] d = refl
      first_or (y ∷ ys) d = refl

  tree_change-root :
      (c : Fr)
      → length xs < 2 ^ t.depth
      → (tree_change H e xs c t.depth).new_root ≡ tree_root H e t.depth (xs ++ c ∷ [])
  unfolding tree_change
  tree_change-root c room = ground (
    arith,
    sym (tree_root-put H e xs (length xs) (omega arith) (omega arith) c t.depth room)
        ∙ ap (λ ys. tree_root H e t.depth ys) (put-length xs c),
  )

-- Appending to a tree with room gives the leaf the next index, stores the tree of the longer list,
-- and reports the root of that tree.
pub append-IsTree :
    {Fr : Type 0} ⦃P : PoseidonHasher Fr⦄ (H : Fr → Fr → Fr) (e : Fr) (t : Imt Fr) (xs : List Fr)
    (c : Fr)
    → Hashes t.domain H
    → IsTree H e t xs
    → length xs < 2 ^ t.depth
    → IsTree H e (append t c).0 (xs ++ c ∷ [])
      × ((a : Append Fr) × ((append t c).1 ≡ ok (length xs, a))
          × (a.new_root ≡ tree_root H e t.depth (xs ++ c ∷ []))
          × (root (append t c).0 ≡ ok a.new_root))
append-IsTree H e t xs c hashes w room = rw (append_lem H e t xs w hashes c room) (
  grown-IsTree H e t xs w c room,
  (
    tree_change H e xs c t.depth,
    refl,
    tree_change-root H e t xs w c room,
    root_lem H e (grown H e t xs w c) (xs ++ c ∷ []) (grown-IsTree H e t xs w c room)
        ∙ ap ok (unfold grown in sym (tree_change-root H e t xs w c room)),
  ),
)

-- A full tree refuses the leaf and stays as it is.
pub append_full :
    {Fr : Type 0} ⦃P : PoseidonHasher Fr⦄ (H : Fr → Fr → Fr) (e : Fr) (t : Imt Fr) (xs : List Fr)
    (c : Fr)
    → IsTree H e t xs
    → length xs ≡ 2 ^ t.depth
    → append t c ≡ (t, err tree_full)
unfolding append append_plan
append_full H e t xs c w full = ground (arith, next_index_lem H e t xs w)

-- Whatever the tree holds, an append that does not succeed leaves it unchanged.
append_unchanged :
    {Fr : Type 0} ⦃P : PoseidonHasher Fr⦄ (t : Imt Fr) (c : Fr)
    → ((r : ℕ × Append Fr) → (append t c).1 ≢ ok r)
    → (append t c).0 ≡ t
unfolding append
append_unchanged t c failed = grind (arith, failed)
