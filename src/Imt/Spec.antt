-- ===== src/Imt/Spec.antt =====
-- What the tree stands for: the levels above a list of leaves, each by pairing the one below, with
-- a missing right neighbour replaced by the root of an empty subtree.
use outbe_circuits.Prelude.{
  ℕ, zero, suc, ◌+◌, ◌-◌, ◌/◌, ◌≤◌, ◌≡◌, refl, ap, List, [], ◌∷◌, get_or, length, arith,
  if◌then◌else◌,
}
use outbe_circuits.Imt.Node.{is_left}

module _ {Fr : Type 0} (H : Fr → Fr → Fr) where
  -- The root of an empty subtree of a height, over the empty leaf.
  abbrev pub empty_at : Fr → ℕ → Fr
  empty_at e zero = e
  empty_at e (suc h) = H (empty_at e h) (empty_at e h)

  -- The level above `xs`, where `e` stands for a missing node.
  unfoldable pub pair_up : Fr → List Fr → List Fr
  pair_up e [] = []
  pair_up e (a ∷ []) = H a e ∷ []
  pair_up e (a ∷ b ∷ xs) = H a b ∷ pair_up e xs

  -- The nodes of a height above the leaves `xs`, over the empty leaf `e`.
  unfoldable pub level_at : Fr → List Fr → ℕ → List Fr
  level_at e xs zero = xs
  level_at e xs (suc h) = pair_up (empty_at e h) (level_at e xs h)

  -- The root of the tree of a depth.
  unfoldable pub tree_root : Fr → ℕ → List Fr → Fr
  tree_root e depth xs = get_or (level_at e xs depth) 0 (empty_at e depth)

  -- The levels from the height `h`, where they hold `nodes`, up by `rounds`.
  unfoldable pub tree_levels : Fr → ℕ → ℕ → List Fr → List (List Fr)
  tree_levels e zero h nodes = nodes ∷ []
  tree_levels e (suc rounds) h nodes =
      nodes ∷ tree_levels e rounds (suc h) (pair_up (empty_at e h) nodes)

  -- The roots of the empty subtrees from the height `h` up by `rounds`.
  unfoldable pub empties : Fr → ℕ → ℕ → List Fr
  empties e zero h = empty_at e h ∷ []
  empties e (suc rounds) h = empty_at e h ∷ empties e rounds (suc h)

-- `p >> l`
unfoldable pub shift : ℕ → ℕ → ℕ
shift p zero = p
shift p (suc l) = shift p l / 2

-- Write the node at `position`, which is the list's end or a place inside.
unfoldable pub put {ℓ} : {A : Type ℓ} → List A → ℕ → A → List A
put [] position c = c ∷ []
put (x ∷ xs) zero c = c ∷ xs
put (x ∷ xs) (suc position) c = x ∷ put xs position c

-- The position one level up of the last node, or of the end.
pub half_suc-suc : (n : ℕ) → suc (suc n) / 2 ≡ suc (n / 2)
half_suc-suc n = omega arith

pub is_left-suc-suc : (n : ℕ) → is_left (suc (suc n)) ≡ is_left n
unfolding is_left
is_left-suc-suc n = ground arith

module _ {Fr : Type 0} (H : Fr → Fr → Fr) where
  pub length-pair_up : (e : Fr) (xs : List Fr) → length (pair_up H e xs) ≡ (length xs + 1) / 2
  unfolding pair_up
  length-pair_up e [] = omega arith
  length-pair_up e (a ∷ []) = omega arith
  length-pair_up e (a ∷ b ∷ xs) = omega (arith, length-pair_up e xs)

  -- The node above `c` at `position`.
  abbrev pub parent : Fr → List Fr → ℕ → Fr → Fr
  parent e xs position c = if is_left position then H c e else H (get_or xs (position - 1) e) c

  parent-suc-suc :
      (e : Fr) (a b : Fr) (xs : List Fr) (p : ℕ) (c : Fr)
      → parent e (a ∷ b ∷ xs) (suc (suc p)) c ≡ parent e xs p c
  unfolding is_left
  parent-suc-suc e a b xs zero c = refl
  parent-suc-suc e a b xs (suc p) c = ground arith

  -- Writing the last node (or a new one) writes one node of the level above.
  pub pair_up-put :
      (e : Fr) (xs : List Fr) (position : ℕ) (c : Fr)
      → position ≤ length xs
      → length xs ≤ position + 1
      → pair_up H e (put xs position c)
        ≡ put (pair_up H e xs) (position / 2) (parent e xs position c)
  unfolding pair_up put is_left
  pair_up-put e [] zero c lo hi = refl
  pair_up-put e [] (suc p) c lo hi = absurd (omega arith)
  pair_up-put e (a ∷ []) zero c lo hi = refl
  pair_up-put e (a ∷ []) (suc zero) c lo hi = refl
  pair_up-put e (a ∷ []) (suc (suc p)) c lo hi = absurd (omega arith)
  pair_up-put e (a ∷ b ∷ []) zero c lo hi = absurd (omega arith)
  pair_up-put e (a ∷ b ∷ []) (suc zero) c lo hi = refl
  pair_up-put e (a ∷ b ∷ x ∷ xs) zero c lo hi = absurd (omega arith)
  pair_up-put e (a ∷ b ∷ x ∷ xs) (suc zero) c lo hi = absurd (omega arith)
  pair_up-put e (a ∷ b ∷ xs) (suc (suc p)) c lo hi =
      rw (half_suc-suc p, parent-suc-suc e a b xs p c)
        (ap (λ t. H a b ∷ t) (pair_up-put e xs p c (omega arith) (omega arith)))
