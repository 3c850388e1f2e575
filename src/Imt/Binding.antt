-- ===== src/Imt/Binding.antt =====
-- imt.rs: a path that resolves to the root of a tree is the tree's own.
use outbe_circuits.Prelude.{
  ℕ, ◌/◌, ◌^◌, ◌≡◌, refl, sym, ap, ◌∙◌, ◌⊎◌, inl, inr, Bool, true, false, some, List, [], ◌∷◌,
  arith, ok, guard, index, ltb, Bool-cases, length, get_elem?, bind_ok, ok_inj,
}
use outbe_circuits.Field.{PoseidonHasher, PrimeField, IsLawful}
use outbe_circuits.Notes.NoteLaws.{Clash, hash-cases}
use outbe_circuits.Imt.Node.{is_left, validate_depth}
use outbe_circuits.Imt.Path.{InclusionPath, root, path_loop, root_from_inclusion_path}
use outbe_circuits.Imt.Tree.{Imt, inclusion_path}
use outbe_circuits.Imt.Tree
use outbe_circuits.Imt.Append.{Hashes, IsTree}
use outbe_circuits.Imt.PathLaws.{root-inclusion_path}

-- The two children on a level of a path, where the current node is the left one or not.
abbrev children : {Fr : Type 0} → Bool → Fr → Fr → Fr × Fr
children true current sibling = (current, sibling)
children false current sibling = (sibling, current)

-- The pairs of nodes that a path hashes, from the leaf up.
abbrev pub path_pairs : {Fr : Type 0} → (Fr → Fr → Fr) → ℕ → Fr → List Fr → List (Fr × Fr)
path_pairs H position current [] = []
path_pairs H position current (sibling ∷ siblings) =
    let pair = children (is_left position) current sibling in
    pair ∷ path_pairs H (position / 2) (H pair.0 pair.1) siblings

module _ {Fr : Type 0} ⦃F : PrimeField Fr⦄ ⦃P : PoseidonHasher Fr⦄ (lawful : IsLawful F)
    (H : Fr → Fr → Fr) (domain : Fr) (hashes : Hashes domain H) where
  abbrev parent : ℕ → Fr → Fr → Fr
  parent position current sibling =
      H (children (is_left position) current sibling).0
        (children (is_left position) current sibling).1

  path_loop-cons :
      (position : ℕ) (current sibling : Fr) (siblings : List Fr)
      → path_loop domain position current (sibling ∷ siblings)
        ≡ path_loop domain (position / 2) (parent position current sibling) siblings
  unfolding path_loop
  path_loop-cons position current sibling siblings = elim (Bool-cases (is_left position)) [
    | inl p ↦ rw (p, hashes current sibling) refl
    | inr p ↦ rw (p, hashes sibling current) refl
  ]

  children-inj :
      (left : Bool) (a b c d : Fr)
      → (children left a b).0 ≡ (children left c d).0
      → (children left a b).1 ≡ (children left c d).1
      → (a ≡ c) × (b ≡ d)
  children-inj true a b c d p q = (p, q)
  children-inj false a b c d p q = (q, p)

  path_loop-cases :
      (position : ℕ) (a c r : Fr) (ss ts : List Fr)
      → length ss ≡ length ts
      → path_loop domain position a ss ≡ ok r
      → path_loop domain position c ts ≡ ok r
      → ((a ≡ c) × (ss ≡ ts)) ⊎ Clash H (path_pairs H position a ss) (path_pairs H position c ts)
  path_loop-cases position a c r [] [] len h k = inl (unfold path_loop in ok_inj (h ∙ sym k), refl)
  path_loop-cases position a c r [] (t ∷ ts) len h k = absurd (omega (arith, len))
  path_loop-cases position a c r (s ∷ ss) [] len h k = absurd (omega (arith, len))
  path_loop-cases position a c r (s ∷ ss) (t ∷ ts) len h k =
      elim (path_loop-cases (position / 2) (parent position a s) (parent position c t) r ss ts
        (omega (arith, len)) (sym (path_loop-cons position a s ss) ∙ h)
        (sym (path_loop-cons position c t ts) ∙ k)) [
          | inl (p, q) ↦
              elim (hash-cases lawful H (children (is_left position) a s).0
                (children (is_left position) a s).1 (children (is_left position) c t).0
                (children (is_left position) c t).1 p) [
                  | inl (e, f) ↦
                      let (x, y) = children-inj (is_left position) a s c t e f in
                      inl (x, rw (y, q) refl)
                  | inr clash ↦ inr (inl clash)
                ]
          | inr later ↦ inr (inr later)
        ]

-- What a resolved path has gone through.
root-eq-ok :
    {Fr : Type 0} ⦃P : PoseidonHasher Fr⦄ (path : InclusionPath Fr) (leaf r : Fr)
    → root path leaf ≡ ok r
    → path_loop path.domain path.leaf_index leaf path.siblings ≡ ok r
unfolding root root_from_inclusion_path
root-eq-ok path leaf r h =
    bind_ok (validate_depth (length path.siblings)) h λ u1 e1 h1.
      bind_ok (guard (ltb path.leaf_index (2 ^ length path.siblings)) _) h1 λ u2 e2 h2. h2

path-ext :
    {Fr : Type 0} (p q : InclusionPath Fr)
    → p.domain ≡ q.domain
    → p.leaf_index ≡ q.leaf_index
    → p.siblings ≡ q.siblings
    → p ≡ q
path-ext p q a b c = λ i. record { domain = a i; leaf_index = b i; siblings = c i }

pub inclusion_path-domain :
    {Fr : Type 0} ⦃P : PoseidonHasher Fr⦄ (t : Imt Fr) (i : ℕ) (path : InclusionPath Fr)
    → inclusion_path t i ≡ ok path
    → path.domain ≡ t.domain
unfolding inclusion_path
inclusion_path-domain t i path h = bind_ok (Tree.leaves t) h λ xs e1 h1.
    bind_ok (guard (ltb i (length xs)) _) h1 λ u e2 h2.
      bind_ok (Tree.siblings_loop t t.depth 0 i []) h2
        λ siblings e3 h3. ap (λ p. p.domain) (sym (ok_inj h3))

-- A path of the tree's domain and depth that resolves a value at the index of a leaf to the tree's root: the
-- value is that leaf and the path is the tree's own, or the path and the tree's own hash different pairs of
-- nodes to one value on the same level.
pub root-cases :
    {Fr : Type 0} ⦃F : PrimeField Fr⦄ ⦃P : PoseidonHasher Fr⦄ (H : Fr → Fr → Fr) (e : Fr)
    (t : Imt Fr) (xs : List Fr) (path : InclusionPath Fr) (leaf x r : Fr)
    → IsLawful F
    → Hashes t.domain H
    → IsTree H e t xs
    → get_elem? xs path.leaf_index ≡ some x
    → path.domain ≡ t.domain
    → length path.siblings ≡ t.depth
    → Tree.root t ≡ ok r
    → root path leaf ≡ ok r
    → (own : InclusionPath Fr) × (inclusion_path t path.leaf_index ≡ ok own)
      × (((leaf ≡ x) × (path ≡ own))
          ⊎ Clash H
              (path_pairs H path.leaf_index leaf path.siblings)
              (path_pairs H path.leaf_index x own.siblings))
root-cases H e t xs path leaf x r lawful hashes w found same deep rooted h =
    let (own, given, index, depth, resolves) =
      root-inclusion_path H e t xs path.leaf_index x hashes w found in
    let home : own.domain ≡ t.domain = inclusion_path-domain t path.leaf_index own given in
    let mine : path_loop t.domain path.leaf_index leaf path.siblings ≡ ok r =
      rw (← same) (root-eq-ok path leaf r h) in
    let theirs : path_loop t.domain path.leaf_index x own.siblings ≡ ok r =
      rw (← home, ← index) (root-eq-ok own x r (resolves ∙ rooted)) in
    (
      own,
      given,
      elim (path_loop-cases lawful H t.domain hashes path.leaf_index leaf x r path.siblings
          own.siblings (deep ∙ sym depth) mine theirs) [
            | inl (p, q) ↦ inl (p, sym (path-ext own path (home ∙ sym same) index (sym q)))
            | inr clash ↦ inr clash
          ],
    )
