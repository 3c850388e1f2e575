-- ===== src/Imt/Levels.antt =====
-- The levels of the tree when its last leaf is written, or a new one is put behind it.
use outbe_circuits.Prelude.{
  ℕ, zero, suc, ◌+◌, ◌*◌, ◌/◌, ◌^◌, ◌≤◌, ◌<◌, ◌≡◌, refl, ap, List, [], ◌∷◌, ◌++◌, some, get_elem?,
  get_or, length, replicate, arith,
}
use native.Mathlib.Nat.{pow-suc, div-add-mod}
use outbe_circuits.Imt.Spec.{
  empty_at, pair_up, level_at, tree_root, tree_levels, empties, shift, put, parent, length-pair_up,
  pair_up-put,
}

half-mul-le : (a t q : ℕ) → a * t ≤ q → a / 2 * (t * 2) ≤ q
half-mul-le a t q h = omega (arith, ap (λ (x : ℕ). x * t) (div-add-mod a 2))

half-mul-lt : (a t q : ℕ) → q < (a + 1) * t → q < (a / 2 + 1) * (t * 2)
half-mul-lt a t q h = grind (arith, ap (λ (x : ℕ). x * t) (div-add-mod a 2))

shift-mul-le : (p l : ℕ) → shift p l * 2 ^ l ≤ p
unfolding shift
shift-mul-le p zero = omega arith
shift-mul-le p (suc l) = rw pow-suc (half-mul-le (shift p l) (2 ^ l) p (shift-mul-le p l))

-- A position inside a tree of depth `d` ends at the root.
pub shift-zero : (p d : ℕ) → p < 2 ^ d → shift p d ≡ 0
shift-zero p d h = grind (arith, shift-mul-le p d)

-- The opposite bound: `p` is below the next multiple.
pub shift-lt : (p l : ℕ) → p < (shift p l + 1) * 2 ^ l
unfolding shift
shift-lt p zero = omega arith
shift-lt p (suc l) = rw pow-suc (half-mul-lt (shift p l) (2 ^ l) p (shift-lt p l))

pub put-length {ℓ} : {A : Type ℓ} (xs : List A) (c : A) → put xs (length xs) c ≡ xs ++ c ∷ []
unfolding put
put-length [] c = refl
put-length (x ∷ xs) c = ap (λ t. x ∷ t) (put-length xs c)

pub get_or-put {ℓ} :
    {A : Type ℓ} (xs : List A) (p : ℕ) (c d : A) → p ≤ length xs → get_or (put xs p c) p d ≡ c
unfolding put
get_or-put [] zero c d h = refl
get_or-put [] (suc p) c d h = absurd (omega arith)
get_or-put (x ∷ xs) zero c d h = refl
get_or-put (x ∷ xs) (suc p) c d h = get_or-put xs p c d (omega arith)

module _ {Fr : Type 0} (H : Fr → Fr → Fr) (e : Fr) (xs : List Fr) (p : ℕ) (c : Fr) where
  -- The node at a height above the leaf `c` that is written at `p`.
  unfoldable pub above : ℕ → Fr
  above zero = c
  above (suc h) = parent H (empty_at H e h) (level_at H e xs h) (shift p h) (above h)

  -- The nodes above it from the height `h` on.
  unfoldable pub nodes_above : ℕ → ℕ → List Fr
  nodes_above zero h = []
  nodes_above (suc rounds) h = above (suc h) ∷ nodes_above rounds (suc h)

module _ {Fr : Type 0} (H : Fr → Fr → Fr) (e : Fr) (xs : List Fr) (p : ℕ) (lo : p ≤ length xs)
    (hi : length xs ≤ p + 1) where
  pub level_bounds :
      (h : ℕ)
      → (shift p h ≤ length (level_at H e xs h)) × (length (level_at H e xs h) ≤ shift p h + 1)
  unfolding level_at shift
  level_bounds zero = (lo, hi)
  level_bounds (suc h) =
      omega (arith, level_bounds h, length-pair_up H (empty_at H e h) (level_at H e xs h))

  -- On each level the write changes the node above the leaf and nothing else.
  pub level_at-put :
      (c : Fr) (h : ℕ)
      → level_at H e (put xs p c) h ≡ put (level_at H e xs h) (shift p h) (above H e xs p c h)
  unfolding level_at shift above
  level_at-put c zero = refl
  level_at-put c (suc h) = rw (level_at-put c h) (
      pair_up-put H (empty_at H e h) (level_at H e xs h) (shift p h) (above H e xs p c h)
        (level_bounds h).0 (level_bounds h).1)

  pub tree_root-put :
      (c : Fr) (d : ℕ) → p < 2 ^ d → tree_root H e d (put xs p c) ≡ above H e xs p c d
  unfolding tree_root
  tree_root-put c d h =
      rw (level_at-put c d, shift-zero p d h)
        (get_or-put (level_at H e xs d) 0 (above H e xs p c d) (empty_at H e d) (omega arith))

module _ {Fr : Type 0} (H : Fr → Fr → Fr) (e : Fr) (xs : List Fr) where
  tree_levels_from :
      (rounds h i j : ℕ)
      → i ≤ rounds
      → h + i ≡ j
      → get_elem? (tree_levels H e rounds h (level_at H e xs h)) i ≡ some (level_at H e xs j)
  unfolding tree_levels level_at
  tree_levels_from zero h zero j le q = ap (λ k. some (level_at H e xs k)) (omega arith)
  tree_levels_from zero h (suc i) j le q = absurd (omega arith)
  tree_levels_from (suc rounds) h zero j le q = ap (λ k. some (level_at H e xs k)) (omega arith)
  tree_levels_from (suc rounds) h (suc i) j le q =
      tree_levels_from rounds (suc h) i j (omega arith) (omega arith)

  -- Level `i` of the stored levels.
  pub get_elem?-tree_levels :
      (d i : ℕ) → i ≤ d → get_elem? (tree_levels H e d 0 xs) i ≡ some (level_at H e xs i)
  unfolding level_at
  get_elem?-tree_levels d i le = tree_levels_from d 0 i i le (omega arith)

module _ {Fr : Type 0} (H : Fr → Fr → Fr) (e : Fr) where
  empties_from :
      (rounds h i j : ℕ)
      → i ≤ rounds
      → h + i ≡ j
      → get_elem? (empties H e rounds h) i ≡ some (empty_at H e j)
  unfolding empties
  empties_from zero h zero j le q = ap (λ k. some (empty_at H e k)) (omega arith)
  empties_from zero h (suc i) j le q = absurd (omega arith)
  empties_from (suc rounds) h zero j le q = ap (λ k. some (empty_at H e k)) (omega arith)
  empties_from (suc rounds) h (suc i) j le q =
      empties_from rounds (suc h) i j (omega arith) (omega arith)

  pub get_elem?-empties : (d i : ℕ) → i ≤ d → get_elem? (empties H e d 0) i ≡ some (empty_at H e i)
  get_elem?-empties d i le = empties_from d 0 i i le (omega arith)

  pub length-empties : (rounds h : ℕ) → length (empties H e rounds h) ≡ rounds + 1
  unfolding empties
  length-empties zero h = omega arith
  length-empties (suc rounds) h = omega (arith, length-empties rounds (suc h))

-- Without leaves every level is empty.
module _ {Fr : Type 0} (H : Fr → Fr → Fr) (e : Fr) where
  pub tree_levels_empty : (rounds h : ℕ) → tree_levels H e rounds h [] ≡ replicate (suc rounds) []
  unfolding tree_levels pair_up
  tree_levels_empty zero h = refl
  tree_levels_empty (suc rounds) h = ap (λ t. [] ∷ t) (tree_levels_empty rounds (suc h))
