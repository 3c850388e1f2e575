-- ===== src/Imt/Tree.antt =====
-- imt.rs: the stored tree, `struct Imt` and its methods.
use outbe_circuits.Prelude.{
  ℕ, zero, suc, ◌+◌, ◌-◌, ◌/◌, ◌%◌, ◌^◌, true, false, List, [], ◌∷◌, ◌++◌, Option, none, some,
  Result, ok, err, panic, ◌>>=◌, ◌>>◌, guard, index, get_elem?, length, set, take, replicate, ltb,
  ◌==◌, if◌then◌else◌,
}
use outbe_circuits.Error.{Error, Message}
use outbe_circuits.Field.{PoseidonHasher}
use Prim.Native.Nat.{bit_xor}
use outbe_circuits.Imt.Node.{is_left, node_hash, empty_roots}
use outbe_circuits.Imt.Frontier.{Append}
use outbe_circuits.Imt.Path.{InclusionPath}

-- `struct Imt`
pub record Imt (Fr : Type 0) : Type 0 where
  pub domain : Fr
  pub depth : ℕ
  pub empty_roots : List Fr
  pub levels : List (List Fr)

-- `u64::trailing_ones`
unfoldable pub trailing_ones_below : ℕ → ℕ → ℕ
trailing_ones_below zero n = 0
trailing_ones_below (suc bits) n =
    let more = suc (trailing_ones_below bits (n / 2)) in if n % 2 == 0 then 0 else more

unfoldable pub trailing_ones : ℕ → ℕ
unfolding trailing_ones_below
trailing_ones n = trailing_ones_below 64 n

abbrev pub outside_tree : Error
outside_tree = Error.merkle (Message.fmt "leaf index outside tree" [])

abbrev pub tree_full : Error
tree_full = Error.merkle (Message.fmt "commitment tree is full" [])

-- `xs.get(i).copied().unwrap_or(d)`
abbrev pub unwrap_or : {A : Type 0} → A → Option A → A
unwrap_or d none = d
unwrap_or d (some a) = a

module _ {Fr : Type 0} where
  -- `leaves`
  unfoldable pub leaves : Imt Fr → Result Error (List Fr)
  leaves t = index t.levels 0

  unfoldable pub next_index : Imt Fr → Result Error ℕ
  unfolding leaves
  next_index t = do xs ← leaves t; ok (length xs)

  -- The root node if it is stored, else that of the empty tree (which is read in any case).
  unfoldable pub root : Imt Fr → Result Error Fr
  root t = do
    top ← index t.levels t.depth
    empty ← index t.empty_roots t.depth
    ok (unwrap_or empty (get_elem? top 0))

  -- `nodes.push(value)` at the end, else `nodes[position] = value`.
  unfoldable pub store_node : List Fr → ℕ → Fr → Result Error (List Fr)
  store_node nodes position value =
      if position == length nodes
      then ok (nodes ++ value ∷ [])
      else (if ltb position (length nodes) then ok (set nodes position value) else panic)

  -- `for (nodes, value) in self.levels.iter_mut().zip(updates)`
  unfoldable pub store_loop : ℕ → List (List Fr) → List Fr → Result Error (List (List Fr))
  store_loop position [] updates = ok []
  store_loop position (nodes ∷ levels) [] = ok (nodes ∷ levels)
  store_loop position (nodes ∷ levels) (value ∷ updates) = do
    nodes' ← store_node nodes position value
    levels' ← store_loop (position / 2) levels updates
    ok (nodes' ∷ levels')

  unfoldable pub siblings_loop : Imt Fr → ℕ → ℕ → ℕ → List Fr → Result Error (List Fr)
  siblings_loop t zero level position siblings = ok siblings
  siblings_loop t (suc rounds) level position siblings = do
    nodes ← index t.levels level
    empty ← index t.empty_roots level
    siblings_loop t rounds (suc level) (position / 2)
        (siblings ++ unwrap_or empty (get_elem? nodes (bit_xor position 1)) ∷ [])

  -- `usize` holds every `u64` here, so `usize::try_from` does not fail.
  unfoldable pub inclusion_path : Imt Fr → ℕ → Result Error (InclusionPath Fr)
  inclusion_path t leaf_index = do
    xs ← leaves t
    guard (ltb leaf_index (length xs)) outside_tree
    siblings ← siblings_loop t t.depth 0 leaf_index []
    ok (record { domain = t.domain; leaf_index = leaf_index; siblings = siblings })

  unfoldable pub empty_inclusion_path : Imt Fr → ℕ → InclusionPath Fr
  empty_inclusion_path t leaf_index = record {
    domain = t.domain;
    leaf_index = leaf_index;
    siblings = take t.depth t.empty_roots;
  }

  -- The single-slot result that `frontier_append` would report.
  unfoldable pub frontier_change : Imt Fr → ℕ → Fr → List Fr → Result Error (Append Fr)
  frontier_change t i root updates =
      let changed_level = trailing_ones i in
      elim (changed_level == t.depth) [
        | true ↦ do
          nodes ← index t.levels (t.depth - 1)
          subtree ← index nodes 0
          ok (record { changed_level = t.depth - 1; new_subtree = subtree; new_root = root })
        | false ↦ do
          subtree ← index updates changed_level
          ok (record { changed_level = changed_level; new_subtree = subtree; new_root = root })
      ]

module _ {Fr : Type 0} ⦃P : PoseidonHasher Fr⦄ where
  unfoldable pub new : Fr → Fr → ℕ → Result Error (Imt Fr)
  new domain empty_leaf depth = do
    roots ← empty_roots domain empty_leaf depth
    ok (record {
      domain = domain;
      depth = depth;
      empty_roots = roots;
      levels = replicate (depth + 1) [];
    })

  -- One turn of the first loop of `append`: the node above `current`.
  unfoldable pub ancestor : Imt Fr → ℕ → ℕ → Fr → Result Error Fr
  ancestor t level position current = elim (is_left position) [
    | true ↦ do empty ← index t.empty_roots level; node_hash t.domain current empty
    | false ↦ do
      nodes ← index t.levels level
      left ← index nodes (position - 1)
      node_hash t.domain left current
  ]

  -- That loop, over the rounds left; the nodes go to `updates`.
  unfoldable pub ancestors_loop : Imt Fr → ℕ → ℕ → ℕ → Fr → List Fr → Result Error (Fr × List Fr)
  ancestors_loop t zero level position current updates = ok (current, updates)
  ancestors_loop t (suc rounds) level position current updates = do
    next ← ancestor t level position current
    ancestors_loop t rounds (suc level) (position / 2) next (updates ++ next ∷ [])

  -- All that `append` computes before it writes: the index, the nodes to write and the change.
  unfoldable pub append_plan : Imt Fr → Fr → Result Error (ℕ × List Fr × Append Fr)
  append_plan t leaf = do
    i ← next_index t
    guard (ltb i (2 ^ t.depth)) tree_full
    (current, updates) ← ancestors_loop t t.depth 0 i leaf (leaf ∷ [])
    change ← frontier_change t i current updates
    ok (i, updates, change)

  -- `append`, with the tree as it is left, errors included.
  unfoldable pub append : Imt Fr → Fr → Imt Fr × Result Error (ℕ × Append Fr)
  append t leaf = elim (append_plan t leaf) [
    | ok (i, updates, change) ↦ elim (store_loop i t.levels updates) [
      | ok levels ↦ (record t { levels = levels }, ok (i, change))
      | err e ↦ (t, err e)
      | panic ↦ (t, panic)
    ]
    | err e ↦ (t, err e)
    | panic ↦ (t, panic)
  ]
