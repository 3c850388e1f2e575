-- ===== src/Imt/Append.antt =====
-- `Imt::append` on a tree that stands for a list of leaves.
use outbe_circuits.Prelude.{
  ℕ, zero, suc, ◌+◌, ◌-◌, ◌^◌, ◌≤◌, ◌<◌, ◌≡◌, refl, ap, ◌∙◌, false, List, [], ◌∷◌, ◌++◌, some, ok,
  get_elem?, get_or, length, arith, get_elem?-some, set,
}
use mathlib.Core.List.{append_assoc, append-nil}
use outbe_circuits.Field.{PoseidonHasher}
use outbe_circuits.Imt.Node.{is_left, node_hash}
use outbe_circuits.Imt.Tree.{
  Imt, leaves, next_index, store_node, store_loop, ancestor, ancestors_loop,
}
use outbe_circuits.Imt.Spec.{empty_at, level_at, tree_levels, empties, shift, put, parent}
use outbe_circuits.Imt.Levels.{
  above, nodes_above, level_bounds, level_at-put, get_elem?-tree_levels, get_elem?-empties,
  put-length,
}

-- The tree `t` stores every node above the leaves `xs`, and the roots of the empty subtrees.
pub record IsTree {Fr : Type 0} (H : Fr → Fr → Fr) (e : Fr) (t : Imt Fr) (xs : List Fr)
    : Type 0 where
  pub depth_pos : 1 ≤ t.depth
  pub depth_max : t.depth ≤ 63
  pub stored_empties : t.empty_roots ≡ empties H e t.depth 0
  pub stored_levels : t.levels ≡ tree_levels H e t.depth 0 xs
  pub fits : length xs ≤ 2 ^ t.depth

odd-pos : (q n : ℕ) → q ≤ n → is_left q ≡ false → q - 1 < n
unfolding is_left
odd-pos q n le odd = ground arith

-- Two-to-one hashing under the tree's domain answers, with the value `H`.
abbrev pub Hashes : {Fr : Type 0} ⦃P : PoseidonHasher Fr⦄ → Fr → (Fr → Fr → Fr) → Type 0
Hashes {Fr} domain H = (left right : Fr) → node_hash domain left right ≡ ok (H left right)

module _ {Fr : Type 0} ⦃P : PoseidonHasher Fr⦄ (H : Fr → Fr → Fr) (e : Fr) (t : Imt Fr)
    (xs : List Fr) (w : IsTree H e t xs) where
  pub stored_level : (l : ℕ) → l ≤ t.depth → get_elem? t.levels l ≡ some (level_at H e xs l)
  stored_level l le = rw w.stored_levels (get_elem?-tree_levels H e xs t.depth l le)

  pub stored_empty : (l : ℕ) → l ≤ t.depth → get_elem? t.empty_roots l ≡ some (empty_at H e l)
  stored_empty l le = rw w.stored_empties (get_elem?-empties H e t.depth l le)

  pub leaves_lem : leaves t ≡ ok xs
  unfolding leaves level_at
  leaves_lem = rw (stored_level 0 (omega arith))

  pub next_index_lem : next_index t ≡ ok (length xs)
  unfolding next_index
  next_index_lem = rw leaves_lem

  -- One turn of the loop at a level.
  ancestor_lem :
      (hashes : Hashes t.domain H) (l q : ℕ) (c : Fr)
      → l ≤ t.depth
      → q ≤ length (level_at H e xs l)
      → ancestor t l q c ≡ ok (parent H (empty_at H e l) (level_at H e xs l) q c)
  unfolding ancestor
  ancestor_lem hashes l q c le bound = ground (
    arith,
    stored_empty l le,
    stored_level l le,
    hashes c (empty_at H e l),
    hashes (get_or (level_at H e xs l) (q - 1) (empty_at H e l)) c,
    odd_inside,
  )
    where
      odd_inside :
          is_left q ≡ false
          → get_elem? (level_at H e xs l) (q - 1)
            ≡ some (get_or (level_at H e xs l) (q - 1) (empty_at H e l))
      odd_inside odd =
          get_elem?-some (level_at H e xs l) (q - 1) (empty_at H e l) (odd-pos q _ bound odd)

  pub ancestors_lem :
      (hashes : Hashes t.domain H) (c : Fr) (rounds l : ℕ) (ups : List Fr)
      → rounds + l ≡ t.depth
      → ancestors_loop t rounds l (shift (length xs) l) (above H e xs (length xs) c l) ups
        ≡ ok (above H e xs (length xs) c t.depth, ups ++ nodes_above H e xs (length xs) c rounds l)
  unfolding ancestors_loop nodes_above shift above
  ancestors_lem hashes c zero l ups q =
      rw append-nil (ap (λ k. ok (above H e xs (length xs) c k, ups)) (omega arith))
  ancestors_lem hashes c (suc rounds) l ups q =
      rw
        (ancestor_lem hashes l (shift (length xs) l) (above H e xs (length xs) c l) (omega arith)
          (level_bounds H e xs (length xs) (omega arith) (omega arith) l).0)
        (ancestors_lem hashes c rounds (suc l) (ups ++ above H e xs (length xs) c (suc l) ∷ [])
            (omega arith)
          ∙ ap (λ u. ok (above H e xs (length xs) c t.depth, u))
              (append_assoc ups (above H e xs (length xs) c (suc l) ∷ [])
                (nodes_above H e xs (length xs) c rounds (suc l))))

put-lt : {Fr : Type 0} (ys : List Fr) (q : ℕ) (v : Fr) → q < length ys → put ys q v ≡ set ys q v
unfolding put
put-lt [] q v h = absurd (omega arith)
put-lt (y ∷ ys) zero v h = refl
put-lt (y ∷ ys) (suc q) v h = ap (λ t. y ∷ t) (put-lt ys q v (omega arith))

put_end : {Fr : Type 0} (ys : List Fr) (q : ℕ) (v : Fr) → q ≡ length ys → put ys q v ≡ ys ++ v ∷ []
put_end ys q v h = rw h (put-length ys v)

store_node_lem :
    {Fr : Type 0} (ys : List Fr) (q : ℕ) (v : Fr)
    → q ≤ length ys
    → store_node ys q v ≡ ok (put ys q v)
unfolding store_node
store_node_lem ys q v le = ground (arith, put-lt ys q v, put_end ys q v)

module _ {Fr : Type 0} (H : Fr → Fr → Fr) (e : Fr) (xs : List Fr) (c : Fr) where
  store_here :
      (h : ℕ)
      → store_node (level_at H e xs h) (shift (length xs) h) (above H e xs (length xs) c h)
        ≡ ok (level_at H e (put xs (length xs) c) h)
  store_here h =
      rw (level_at-put H e xs (length xs) (omega arith) (omega arith) c h)
        (store_node_lem _ _ _ (level_bounds H e xs (length xs) (omega arith) (omega arith) h).0)

  -- Writing the nodes above the new leaf turns the levels of `xs` into those with `c` appended.
  pub store_lem :
      (rounds h : ℕ)
      → store_loop
          (shift (length xs) h)
          (tree_levels H e rounds h (level_at H e xs h))
          (above H e xs (length xs) c h ∷ nodes_above H e xs (length xs) c rounds h)
        ≡ ok (tree_levels H e rounds h (level_at H e (put xs (length xs) c) h))
  unfolding store_loop tree_levels nodes_above shift level_at
  store_lem zero h = rw (store_here h)
  store_lem (suc rounds) h = rw (store_here h, store_lem rounds (suc h))
