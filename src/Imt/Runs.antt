-- ===== src/Imt/Runs.antt =====
-- imt.rs on concrete trees, with a toy hash over the natural numbers.
use outbe_circuits.Prelude.{
  ℕ, zero, suc, ◌+◌, ◌-◌, ◌*◌, ◌≤◌, ◌<◌, ◌≡◌, refl, ◌⊎◌, false, some, List, [], ◌∷◌, ◌++◌, arith,
  ok, err, length, get_elem?, get_or, set,
}
use outbe_circuits.Field.{PoseidonHasher}
use outbe_circuits.Hash.{poseidon2}
use outbe_circuits.Imt.Node.{is_left, node_hash, depth_range}
use outbe_circuits.Imt.Frontier.{Append, frontier_append}
use outbe_circuits.Imt.Path.{InclusionPath}
use outbe_circuits.Imt.Path
use outbe_circuits.Imt.Tree.{Imt, new, append, root, inclusion_path}
use outbe_circuits.Imt.Spec.{empty_at, pair_up, level_at, shift, tree_root, tree_levels, empties}
use outbe_circuits.Imt.Append.{IsTree, Hashes}
use outbe_circuits.Imt.NewLaws.{new-IsTree}
use outbe_circuits.Imt.AppendLaws.{append-IsTree}
use outbe_circuits.Imt.PathLaws.{root-inclusion_path}
use outbe_circuits.Imt.FrontierLoop.{IsFrontier}
use outbe_circuits.Imt.FrontierLaws.{frontier_append-append}

unfoldable toy_hash : List ℕ → ℕ
toy_hash [] = 1
toy_hash (x ∷ xs) = x + 3 * toy_hash xs

instance toy : PoseidonHasher ℕ
toy = record { hash = λ xs. ok (toy_hash xs) }

abbrev toy_node : ℕ → ℕ → ℕ
toy_node left right = toy_hash (5 ∷ left ∷ right ∷ [])

toy-Hashes : Hashes 5 toy_node
unfolding node_hash poseidon2 toy toy_hash
toy-Hashes left right = refl

abbrev stored : List ℕ → Imt ℕ
stored xs = record {
  domain = 5;
  depth = 2;
  empty_roots = empties toy_node 0 2 0;
  levels = tree_levels toy_node 0 2 0 xs;
}

abbrev three : List ℕ
three = 7 ∷ 8 ∷ 9 ∷ []

three-IsTree : IsTree toy_node 0 (stored three) three
three-IsTree = record {
  depth_pos = omega arith;
  depth_max = omega arith;
  stored_empties = refl;
  stored_levels = refl;
  fits = omega arith;
}

new-IsTree_example :
    ((1 ≤ 2)
      × (2 ≤ 63)
      × ((t : Imt ℕ) × (new {Fr = ℕ} 5 0 2 ≡ ok t)
          × IsTree toy_node 0 t []
          × (t.domain ≡ 5)
          × (t.depth ≡ 2)))
    ⊎ ((◌≡◌ {A = ℕ} 2 0 ⊎ (64 ≤ 2)) × (new {Fr = ℕ} 5 0 2 ≡ err (depth_range 2)))
new-IsTree_example = new-IsTree toy_node 0 5 2 toy-Hashes

append-IsTree_example :
    IsTree toy_node 0 (append (stored three) 4).0 (three ++ 4 ∷ [])
    × ((a : Append ℕ) × ((append (stored three) 4).1 ≡ ok (3, a))
        × (a.new_root ≡ tree_root toy_node 0 2 (three ++ 4 ∷ []))
        × (root (append (stored three) 4).0 ≡ ok a.new_root))
append-IsTree_example =
    append-IsTree toy_node 0 (stored three) three 4 toy-Hashes three-IsTree (omega arith)

abbrev four : List ℕ
four = 7 ∷ 8 ∷ 9 ∷ 4 ∷ []

four-IsTree : IsTree toy_node 0 (stored four) four
four-IsTree = record {
  depth_pos = omega arith;
  depth_max = omega arith;
  stored_empties = refl;
  stored_levels = refl;
  fits = omega arith;
}

root-inclusion_path_example :
    (path : InclusionPath ℕ) × (inclusion_path (stored three) 1 ≡ ok path)
    × (path.leaf_index ≡ 1)
    × (length path.siblings ≡ 2)
    × (Path.root path 8 ≡ root (stored three))
root-inclusion_path_example =
    root-inclusion_path toy_node 0 (stored three) three 1 8 toy-Hashes three-IsTree refl

abbrev waiting_nodes : List ℕ
waiting_nodes = 9 ∷ toy_node 7 8 ∷ []

waits :
    (l : ℕ)
    → l < 2
    → is_left (shift 3 l) ≡ false
    → get_elem? waiting_nodes l
      ≡ some (get_or (level_at toy_node 0 three l) (shift 3 l - 1) (empty_at toy_node 0 l))
unfolding level_at shift pair_up is_left
waits zero lt odd = refl
waits (suc zero) lt odd = refl
waits (suc (suc l)) lt odd = absurd (omega arith)

waiting_nodes-IsFrontier : IsFrontier toy_node 0 2 waiting_nodes three
waiting_nodes-IsFrontier = record { has_depth = refl; waiting = waits }

frontier_append-append_example :
    (a : Append ℕ) × ((append (stored three) 4).1 ≡ ok (3, a))
    × (frontier_append 5 waiting_nodes 3 4 (empties toy_node 0 2 0) ≡ ok a)
    × IsFrontier toy_node 0 2 (set waiting_nodes a.changed_level a.new_subtree) (three ++ 4 ∷ [])
frontier_append-append_example =
    frontier_append-append toy_node 0 (stored three) three waiting_nodes 4 toy-Hashes three-IsTree
      waiting_nodes-IsFrontier (omega arith)
