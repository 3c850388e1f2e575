-- ===== src/Imt/PathLaws.antt =====
-- Inclusion paths: what `inclusion_path` reads and what a path resolves to.
use outbe_circuits.Prelude.{
  ℕ, zero, suc, ◌+◌, ◌-◌, ◌/◌, ◌^◌, ◌≤◌, ◌<◌, ◌≡◌, refl, sym, ap, ◌∙◌, List, [], ◌∷◌, ◌++◌, some,
  ok, err, get_elem?, get_or, length, arith, lt→ltb, le→leb, if◌then◌else◌, bit_xor-one,
}
use Prim.Native.Nat.{bit_xor}
use mathlib.Core.List.{append_assoc, append-nil}
use outbe_circuits.Field.{PoseidonHasher}
use outbe_circuits.Imt.Node.{is_left, validate_depth, node_hash}
use outbe_circuits.Imt.Path.{InclusionPath, path_loop, root_from_inclusion_path, root}
use outbe_circuits.Imt.Tree
use outbe_circuits.Imt.Tree.{Imt, unwrap_or, siblings_loop, inclusion_path, outside_tree}
use outbe_circuits.Imt.Spec.{
  empty_at, pair_up, level_at, tree_root, shift, half_suc-suc, length-pair_up,
}
use outbe_circuits.Imt.Levels.{shift-zero}
use outbe_circuits.Imt.Append.{IsTree, Hashes, stored_level, stored_empty, leaves_lem}
use outbe_circuits.Imt.AppendLaws.{root_lem}

-- The neighbour of `q`.
abbrev pub neighbour : ℕ → ℕ
neighbour q = if is_left q then q + 1 else q - 1

unwrap_get :
    {Fr : Type 0} (ys : List Fr) (k : ℕ) (d : Fr) → unwrap_or d (get_elem? ys k) ≡ get_or ys k d
unwrap_get [] k d = refl
unwrap_get (y ∷ ys) zero d = refl
unwrap_get (y ∷ ys) (suc k) d = unwrap_get ys k d

sibling_read :
    {Fr : Type 0} (q : ℕ) (ys : List Fr) (d : Fr)
    → unwrap_or d (get_elem? ys (bit_xor q 1)) ≡ get_or ys (neighbour q) d
unfolding is_left
sibling_read q ys d = rw (bit_xor-one q) (unwrap_get ys (neighbour q) d)

inside_of_get : {A : Type 0} {a : A} (xs : List A) (i : ℕ) → get_elem? xs i ≡ some a → i < length xs
inside_of_get [] i h = cc
inside_of_get (x ∷ xs) zero h = omega arith
inside_of_get (x ∷ xs) (suc i) h = omega (arith, inside_of_get xs i h)

get_or_of_get :
    {A : Type 0} {a : A} (xs : List A) (i : ℕ) (d : A) → get_elem? xs i ≡ some a → get_or xs i d ≡ a
get_or_of_get [] i d h = cc
get_or_of_get (x ∷ xs) zero d h = cc
get_or_of_get (x ∷ xs) (suc i) d h = get_or_of_get xs i d h

module _ {Fr : Type 0} (H : Fr → Fr → Fr) where
  -- The node above two neighbours.
  abbrev pub join : ℕ → Fr → Fr → Fr
  join q node sibling = if is_left q then H node sibling else H sibling node

  join-suc-suc :
      (a b x e : Fr) (ys : List Fr) (q : ℕ)
      → join (suc (suc q)) x (get_or (a ∷ b ∷ ys) (neighbour (suc (suc q))) e)
        ≡ join q x (get_or ys (neighbour q) e)
  unfolding is_left
  join-suc-suc a b x e ys zero = refl
  join-suc-suc a b x e ys (suc q) = ground arith

  -- A node and its neighbour make the node above them.
  pub pair_up-join :
      (e : Fr) (ys : List Fr) (q : ℕ) (d : Fr)
      → q < length ys
      → get_or (pair_up H e ys) (q / 2) d ≡ join q (get_or ys q e) (get_or ys (neighbour q) e)
  unfolding pair_up is_left
  pair_up-join e [] q d h = absurd (omega arith)
  pair_up-join e (a ∷ []) zero d h = refl
  pair_up-join e (a ∷ []) (suc q) d h = absurd (omega arith)
  pair_up-join e (a ∷ b ∷ ys) zero d h = refl
  pair_up-join e (a ∷ b ∷ ys) (suc zero) d h = refl
  pair_up-join e (a ∷ b ∷ ys) (suc (suc q)) d h =
      rw (half_suc-suc q)
        (pair_up-join e ys q d (omega arith) ∙ sym (join-suc-suc a b (get_or ys q e) e ys q))

  shift-lt-length :
      (e : Fr) (xs : List Fr) (i : ℕ)
      → i < length xs
      → (h : ℕ) → shift i h < length (level_at H e xs h)
  unfolding level_at shift
  shift-lt-length e xs i h zero = h
  shift-lt-length e xs i h (suc l) =
      omega
        (arith, shift-lt-length e xs i h l, length-pair_up H (empty_at H e l) (level_at H e xs l))

  -- The neighbours of the nodes above the leaf `i`, from the level `l` on.
  unfoldable pub siblings_from : Fr → List Fr → ℕ → ℕ → ℕ → List Fr
  siblings_from e xs i zero l = []
  siblings_from e xs i (suc rounds) l =
      get_or (level_at H e xs l) (neighbour (shift i l)) (empty_at H e l)
      ∷ siblings_from e xs i rounds (suc l)

  pub length-siblings_from :
      (e : Fr) (xs : List Fr) (i rounds l : ℕ) → length (siblings_from e xs i rounds l) ≡ rounds
  unfolding siblings_from
  length-siblings_from e xs i zero l = refl
  length-siblings_from e xs i (suc rounds) l = ap suc (length-siblings_from e xs i rounds (suc l))

module _ {Fr : Type 0} ⦃P : PoseidonHasher Fr⦄ (H : Fr → Fr → Fr) (e domain : Fr)
    (hashes : Hashes domain H) (xs : List Fr) (i : ℕ) (inside : i < length xs) where
  path_step :
      (q : ℕ) (node sibling : Fr)
      → (if is_left q then node_hash domain node sibling else node_hash domain sibling node)
        ≡ ok (join H q node sibling)
  path_step q node sibling = ground (arith, hashes node sibling, hashes sibling node)

  -- Folding the neighbours into the leaf gives the node above it on each level.
  pub path_loop_lem :
      (rounds l d : ℕ)
      → rounds + l ≡ d
      → path_loop domain
          (shift i l)
          (get_or (level_at H e xs l) (shift i l) (empty_at H e l))
          (siblings_from H e xs i rounds l)
        ≡ ok (get_or (level_at H e xs d) (shift i d) (empty_at H e d))
  unfolding path_loop siblings_from shift level_at
  path_loop_lem zero l d q =
      ap (λ k. ok (get_or (level_at H e xs k) (shift i k) (empty_at H e k))) (omega arith)
  path_loop_lem (suc rounds) l d q =
      rw
        (
          path_step (shift i l) (get_or (level_at H e xs l) (shift i l) (empty_at H e l))
              (get_or (level_at H e xs l) (neighbour (shift i l)) (empty_at H e l)),
          sym (
              pair_up-join H (empty_at H e l) (level_at H e xs l) (shift i l) (empty_at H e (suc l))
                (shift-lt-length H e xs i inside l)),
        )
        (path_loop_lem rounds (suc l) d (omega arith))

module _ {Fr : Type 0} ⦃P : PoseidonHasher Fr⦄ (H : Fr → Fr → Fr) (e : Fr) (t : Imt Fr)
    (xs : List Fr) (w : IsTree H e t xs) where
  siblings_lem :
      (i rounds l : ℕ) (acc : List Fr)
      → rounds + l ≤ t.depth
      → siblings_loop t rounds l (shift i l) acc ≡ ok (acc ++ siblings_from H e xs i rounds l)
  unfolding siblings_loop siblings_from shift
  siblings_lem i zero l acc le = rw append-nil
  siblings_lem i (suc rounds) l acc le =
      rw
        (
          stored_level H e t xs w l (omega arith),
          stored_empty H e t xs w l (omega arith),
          sibling_read (shift i l) (level_at H e xs l) (empty_at H e l),
          siblings_lem i rounds (suc l)
              (acc ++ get_or (level_at H e xs l) (neighbour (shift i l)) (empty_at H e l) ∷ [])
              (omega arith),
        )
        (ap ok (
          append_assoc acc
            (get_or (level_at H e xs l) (neighbour (shift i l)) (empty_at H e l) ∷ [])
            (siblings_from H e xs i rounds (suc l))))

  inclusion_path_lem :
      (i : ℕ)
      → i < length xs
      → inclusion_path t i
        ≡ ok (record {
          domain = t.domain;
          leaf_index = i;
          siblings = siblings_from H e xs i t.depth 0;
        })
  unfolding inclusion_path shift
  inclusion_path_lem i inside = rw (
    leaves_lem H e t xs w,
    lt→ltb i (length xs) inside,
    siblings_lem i t.depth 0 [] (omega arith),
  )

  fold_lem :
      (i : ℕ) (leaf : Fr)
      → Hashes t.domain H
      → get_elem? xs i ≡ some leaf
      → path_loop t.domain i leaf (siblings_from H e xs i t.depth 0) ≡ ok (tree_root H e t.depth xs)
  unfolding tree_root shift level_at
  fold_lem i leaf hashes found =
      rw
        (
          get_or_of_get xs i e found,
          shift-zero i t.depth (omega (arith, w.fits, inside_of_get xs i found)),
        )
        at
        (path_loop_lem H e t.domain hashes xs i (inside_of_get xs i found) t.depth 0 t.depth
          (omega arith))

  resolve_lem :
      (i : ℕ) (leaf : Fr)
      → Hashes t.domain H
      → get_elem? xs i ≡ some leaf
      → root_from_inclusion_path t.domain leaf i (siblings_from H e xs i t.depth 0)
        ≡ ok (tree_root H e t.depth xs)
  unfolding root_from_inclusion_path validate_depth
  resolve_lem i leaf hashes found =
      rw
        (
          length-siblings_from H e xs i t.depth 0,
          le→leb 1 t.depth w.depth_pos,
          le→leb t.depth 63 w.depth_max,
          lt→ltb i (2 ^ t.depth) (omega (arith, w.fits, inside_of_get xs i found)),
        )
        (fold_lem i leaf hashes found)

-- The path that a tree gives for an appended leaf resolves that leaf to the tree's root.
pub root-inclusion_path :
    {Fr : Type 0} ⦃P : PoseidonHasher Fr⦄ (H : Fr → Fr → Fr) (e : Fr) (t : Imt Fr) (xs : List Fr)
    (i : ℕ) (leaf : Fr)
    → Hashes t.domain H
    → IsTree H e t xs
    → get_elem? xs i ≡ some leaf
    → (path : InclusionPath Fr) × (inclusion_path t i ≡ ok path)
      × (path.leaf_index ≡ i)
      × (length path.siblings ≡ t.depth)
      × (root path leaf ≡ Tree.root t)
root-inclusion_path H e t xs i leaf hashes w found = (
  record { domain = t.domain; leaf_index = i; siblings = siblings_from H e xs i t.depth 0 },
  inclusion_path_lem H e t xs w i inside,
  refl,
  length-siblings_from H e xs i t.depth 0,
  rw (root_lem H e t xs w) (unfold root in resolve_lem H e t xs w i leaf hashes found),
)
  where
    inside : i < length xs
    inside = inside_of_get xs i found

-- An index that no leaf has is refused.
pub inclusion_path_outside :
    {Fr : Type 0} ⦃P : PoseidonHasher Fr⦄ (H : Fr → Fr → Fr) (e : Fr) (t : Imt Fr) (xs : List Fr)
    (i : ℕ)
    → IsTree H e t xs
    → length xs ≤ i
    → inclusion_path t i ≡ err outside_tree
inclusion_path_outside H e t xs i w le =
    unfold inclusion_path in rw (leaves_lem H e t xs w) (ground arith)
